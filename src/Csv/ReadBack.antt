-- ===== src/Csv/ReadBack.antt =====
-- db/storage/CSVFile.cpp: a line that was exported is read back.
use mathlib.Core.List.{append_assoc}
use essa_db.Prelude.{
  ℕ, zero, suc, ◌+◌, ◌≤◌, ◌<◌, ◌≡◌, refl, Str, Bool, true, false, not, ◌==◌, ◌||◌, none, some, List,
  [], ◌∷◌, ◌++◌, All, All-append, length, length-append, append_nil, arith, ap, sym, ◌∙◌, subst,
}
use essa_db.Value.Number.{is_space, skip_space}
use essa_db.Csv.Read.{
  is_quote, is_separator, take_value, drop_quote, drop_separator, after_value, read_value,
  read_values, read_line, push, lines_of,
}
use essa_db.Csv.Import.{cell_end, export_cells}
use essa_db.Csv.Ends.{
  take_value-separator, take_value-other, after_value-separator, read_values-end, read_values-value,
}

-- A cell that needs no quotes: it does not begin with white space or a quote, and has no separator, no
-- line end and no byte 255.
abbrev plain_byte : ℕ → Bool
plain_byte c = not (is_separator c || (c == 255 || c == 10))

abbrev pub IsPlain : Str → Type 0
IsPlain [] = ⊥
IsPlain (c ∷ s) = (is_space c || is_quote c ≡ false) × All (λ b. plain_byte b ≡ true) (c ∷ s)

-- The cells with commas between them.
joined : List Str → Str
joined [] = []
joined (v ∷ []) = v
joined (v ∷ w ∷ cells) = v ++ (b',' ∷ joined (w ∷ cells))

-- The end of a line, or a separator: where a plain cell ends.
abbrev Stops : Str → Type 0
Stops [] = Unit
Stops (c ∷ s) = is_separator c ≡ true

take_value-plain :
    (v tail : Str)
    → All (λ b. plain_byte b ≡ true) v
    → Stops tail
    → take_value none (v ++ tail) ≡ (v, tail)
take_value-plain [] [] h k = unfold take_value in refl
take_value-plain [] (c ∷ tail) h k = take_value-separator c tail k
take_value-plain (b ∷ v) tail h k =
    let rest = take_value-plain v tail h.1 k in
    let here = h.0 in
    take_value-other b (v ++ tail) (ground arith) (ground arith)
    ∙ ap (λ (q : Str × Str). (b ∷ q.0, q.1)) rest

-- The last cell of a line, and one with a comma behind it.
read_value-last : (c : ℕ) (s : Str) → IsPlain (c ∷ s) → read_value c s ≡ (c ∷ s, [])
unfolding read_value
read_value-last c s h =
    let plain : is_quote c ≡ false = ground arith in
    let taken : take_value none (c ∷ s) ≡ (c ∷ s, []) =
      subst (λ u. take_value none u ≡ (c ∷ s, [])) (append_nil (c ∷ s))
        (take_value-plain (c ∷ s) [] h.1 tt) in
    rw (plain, taken) (unfold after_value drop_quote skip_space drop_separator in refl)

read_value-comma :
    (c : ℕ) (s tail : Str) → IsPlain (c ∷ s) → read_value c (s ++ (b',' ∷ tail)) ≡ (c ∷ s, tail)
unfolding read_value
read_value-comma c s tail h =
    let plain : is_quote c ≡ false = ground arith in
    let taken : take_value none (c ∷ (s ++ (b',' ∷ tail))) ≡ (c ∷ s, b',' ∷ tail) =
      take_value-plain (c ∷ s) (b',' ∷ tail) h.1 refl in
    rw (plain, taken, after_value-separator b',' tail refl)

skip-plain : (c : ℕ) (s t : Str) → IsPlain (c ∷ s) → skip_space (c ∷ t) ≡ c ∷ t
unfolding skip_space
skip-plain c s t h = ground arith

-- A round that reads the plain cell `c ∷ s`.
read-plain :
    (fuel c : ℕ) (s t rest : Str) (values : List Str)
    → IsPlain (c ∷ s)
    → read_value c t ≡ (c ∷ s, rest)
    → read_values fuel rest ≡ some values
    → read_values (suc fuel) (c ∷ t) ≡ some ((c ∷ s) ∷ values)
read-plain fuel c s t rest values h e q =
    let here = h.1.0 in
    let byte : (c == 255) ≡ false = ground arith in
    read_values-value fuel (c ∷ t) c t values (skip-plain c s t h) byte
      (subst (λ (u : Str × Str). read_values fuel u.1 ≡ some values) (sym e) q)
    ∙ ap (λ (u : Str × Str). some (u.0 ∷ values)) e

-- The loop reads the joined cells back, with a round for each of them and one more.
read_values-joined :
    (fuel : ℕ) (v : Str) (cells : List Str)
    → All IsPlain (v ∷ cells)
    → length (v ∷ cells) < fuel
    → read_values fuel (joined (v ∷ cells)) ≡ some (v ∷ cells)
unfolding joined
read_values-joined zero v cells h k = absurd (omega arith)
read_values-joined (suc fuel) [] cells h k = absurd h.0
read_values-joined (suc zero) (c ∷ s) cells h k = absurd (omega arith)
read_values-joined (suc (suc fuel)) (c ∷ s) [] h k =
    read-plain (suc fuel) c s s [] [] h.0 (read_value-last c s h.0)
      (read_values-end fuel [] (unfold skip_space in refl))
read_values-joined (suc (suc fuel)) (c ∷ s) (w ∷ cells) h k =
    read-plain (suc fuel) c s (s ++ (b',' ∷ joined (w ∷ cells))) (joined (w ∷ cells)) (w ∷ cells)
      h.0 (read_value-comma c s (joined (w ∷ cells)) h.0)
      (read_values-joined (suc fuel) w cells h.1 (omega arith))

cell_end-comma : (i n : ℕ) → i + 1 < n → cell_end i n ≡ b','
unfolding cell_end
cell_end-comma i n h = ground arith

cell_end-last : (i n : ℕ) → n ≡ i + 1 → cell_end i n ≡ 10
unfolding cell_end
cell_end-last i n h = ground arith

-- What is exported of a row is its cells, joined, and a line end.
export_cells-joined :
    (i n : ℕ) (v : Str) (cells : List Str)
    → n ≡ i + length (v ∷ cells)
    → export_cells i n (v ∷ cells) ≡ joined (v ∷ cells) ++ (10 ∷ [])
unfolding export_cells joined
export_cells-joined i n v [] h = rw (cell_end-last i n (omega arith))
export_cells-joined i n v (w ∷ cells) h = rw (cell_end-comma i n (omega arith)) (
    ap (λ u. v ++ (b',' ∷ u)) (export_cells-joined (i + 1) n w cells (omega arith))
    ∙ sym (append_assoc v (b',' ∷ joined (w ∷ cells)) (10 ∷ [])))

-- A text without line ends is the first line.
HasNoEnd : Str → Type 0
HasNoEnd s = All (λ c. (c == 10) ≡ false) s

lines_of-line : (s more : Str) → HasNoEnd s → lines_of (s ++ (10 ∷ more)) ≡ s ∷ lines_of more
unfolding lines_of push HasNoEnd
lines_of-line [] more h = refl
lines_of-line (c ∷ s) more h = rw (h.0, lines_of-line s more h.1)

plain-HasNoEnd : (s : Str) → All (λ b. plain_byte b ≡ true) s → HasNoEnd s
unfolding HasNoEnd
plain-HasNoEnd [] h = tt
plain-HasNoEnd (c ∷ s) h =
    let here = h.0 in let end : (c == 10) ≡ false = ground arith in (end, plain-HasNoEnd s h.1)

IsPlain-HasNoEnd : (v : Str) → IsPlain v → HasNoEnd v
IsPlain-HasNoEnd [] h = absurd h
IsPlain-HasNoEnd (c ∷ s) h = plain-HasNoEnd (c ∷ s) h.1

joined-HasNoEnd : (cells : List Str) → All IsPlain cells → HasNoEnd (joined cells)
unfolding joined HasNoEnd
joined-HasNoEnd [] h = tt
joined-HasNoEnd (v ∷ []) h = IsPlain-HasNoEnd v h.0
joined-HasNoEnd (v ∷ w ∷ cells) h =
    All-append (λ c. (c == 10) ≡ false) v (b',' ∷ joined (w ∷ cells)) (IsPlain-HasNoEnd v h.0)
      (refl, joined-HasNoEnd (w ∷ cells) h.1)

-- No cell is empty, so there are no more of them than bytes.
length-joined : (cells : List Str) → All IsPlain cells → length cells ≤ length (joined cells)
unfolding joined
length-joined [] h = omega arith
length-joined ([] ∷ cells) h = absurd h.0
length-joined ((c ∷ s) ∷ []) h = omega arith
length-joined ((c ∷ s) ∷ w ∷ cells) h =
    omega (arith, length-append s (b',' ∷ joined (w ∷ cells)), length-joined (w ∷ cells) h.1)

-- For a row of cells, one at least, none of which is empty, begins with white space or a quote,
-- or has a comma, a semicolon, a line end or a byte 255 in it: of what is exported of the row and
-- any text behind it the first line is one from which `read_line` reads the cells back, and the
-- other lines are those of the text behind it.
pub export-read_line :
    (v : Str) (cells : List Str) (more : Str)
    → All IsPlain (v ∷ cells)
    → (line : Str) × (lines_of (export_cells 0 (length (v ∷ cells)) (v ∷ cells) ++ more)
        ≡ line ∷ lines_of more)
      × (read_line line ≡ some (v ∷ cells))
export-read_line v cells more h =
    let line = joined (v ∷ cells) in
    let text = export_cells-joined 0 (length (v ∷ cells)) v cells (omega arith) in
    (
      line,
      rw (text, append_assoc line (10 ∷ []) more)
          (lines_of-line line more (joined-HasNoEnd (v ∷ cells) h)),
      unfold read_line in
          (read_values-joined (suc (length line)) v cells h
            (omega (arith, length-joined (v ∷ cells) h))),
    )
