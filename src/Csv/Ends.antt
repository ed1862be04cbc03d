-- ===== src/Csv/Ends.antt =====
-- db/storage/CSVFile.cpp: the reading of a line ends.
use essa_db.Prelude.{
  ℕ, zero, suc, ◌≤◌, ◌<◌, ◌≡◌, refl, Str, true, false, ◌==◌, Option, none, some, List, [], ◌∷◌,
  length, arith, Bool-cases, inl, inr, ◌⊎◌,
}
use essa_db.Value.Number.{skip_space}
use essa_db.Csv.Read.{
  is_quote, is_separator, take_value, drop_quote, drop_separator, after_value, read_value,
  read_values, read_line,
}

-- What is left behind a value is no longer than what was there.
length-skip_space : (s : Str) → length (skip_space s) ≤ length s
unfolding skip_space
length-skip_space [] = omega arith
length-skip_space (c ∷ s) = ground (arith, length-skip_space s)

length-drop_quote : (s : Str) → length (drop_quote s) ≤ length s
unfolding drop_quote
length-drop_quote [] = omega arith
length-drop_quote (c ∷ s) = ground arith

length-drop_separator : (s : Str) → length (drop_separator s) ≤ length s
unfolding drop_separator
length-drop_separator [] = omega arith
length-drop_separator (c ∷ s) = ground arith

length-after_value : (s : Str) → length (after_value s) ≤ length s
unfolding after_value
length-after_value s = omega (
  arith,
  length-drop_separator (skip_space (drop_quote s)),
  length-skip_space (drop_quote s),
  length-drop_quote s,
)

length-take_value : (quote : Option ℕ) (s : Str) → length (take_value quote s).1 ≤ length s
unfolding take_value
length-take_value quote [] = omega arith
length-take_value quote (c ∷ s) = ground (arith, length-take_value quote s)

-- A separator at the front ends an empty value and is taken.
pub after_value-separator : (c : ℕ) (s : Str) → is_separator c ≡ true → after_value (c ∷ s) ≡ s
unfolding after_value drop_quote skip_space drop_separator
after_value-separator c s h = ground arith

pub take_value-separator :
    (c : ℕ) (s : Str) → is_separator c ≡ true → take_value none (c ∷ s) ≡ ([], c ∷ s)
unfolding take_value
take_value-separator c s h = rw h

pub take_value-other :
    (c : ℕ) (s : Str)
    → is_separator c ≡ false
    → (c == 255) ≡ false
    → take_value none (c ∷ s) ≡ (c ∷ (take_value none s).0, (take_value none s).1)
unfolding take_value
take_value-other c s h k = rw (h, k)

-- What is left behind a value that begins with `c`.
length-read_value : (c : ℕ) (s : Str) → (c == 255) ≡ false → length (read_value c s).1 ≤ length s
unfolding read_value
length-read_value c s h = elim (Bool-cases (is_quote c)) [
  | inl quote ↦
      rw quote
        (omega (arith, length-after_value (take_value (some c) s).1, length-take_value (some c) s))
  | inr plain ↦ elim (Bool-cases (is_separator c)) [
    | inl separator ↦
        rw (plain, take_value-separator c s separator, after_value-separator c s separator)
          (omega arith)
    | inr other ↦
        rw (plain, take_value-other c s other h)
          (omega (arith, length-after_value (take_value none s).1, length-take_value none s))
  ]
]

-- The rounds of the loop of `read_line`.
List-cases : (l : Str) → (l ≡ []) ⊎ ((c : ℕ) × (t : Str) × (l ≡ c ∷ t))
List-cases [] = inl refl
List-cases (c ∷ t) = inr (c, t, refl)

pub read_values-end : (fuel : ℕ) (s : Str) → skip_space s ≡ [] → read_values (suc fuel) s ≡ some []
unfolding read_values
read_values-end fuel s h = rw (read_values, h)

read_values-byte_255 :
    (fuel : ℕ) (s : Str) (c : ℕ) (t : Str)
    → skip_space s ≡ c ∷ t
    → (c == 255) ≡ true
    → read_values (suc fuel) s ≡ some []
unfolding read_values
read_values-byte_255 fuel s c t h k = rw (read_values, h, k)

pub read_values-value :
    (fuel : ℕ) (s : Str) (c : ℕ) (t : Str) (values : List Str)
    → skip_space s ≡ c ∷ t
    → (c == 255) ≡ false
    → read_values fuel (read_value c t).1 ≡ some values
    → read_values (suc fuel) s ≡ some ((read_value c t).0 ∷ values)
unfolding read_values
read_values-value fuel s c t values h k e = rw (read_values, h, k, e)

read_values-ends :
    (fuel : ℕ) (s : Str)
    → length s < fuel
    → (values : List Str) × (read_values fuel s ≡ some values)
read_values-ends zero s h = absurd (omega arith)
read_values-ends (suc fuel) s h = elim (List-cases (skip_space s)) [
  | inl empty ↦ ([], read_values-end fuel s empty)
  | inr (c, t, e) ↦ elim (Bool-cases (c == 255)) [
    | inl last ↦ ([], read_values-byte_255 fuel s c t e last)
    | inr byte ↦
        let shorter : suc (length t) ≤ length s = rw e at (length-skip_space s) in
        let (values, q) =
          read_values-ends fuel (read_value c t).1 (omega (arith, length-read_value c t byte)) in
        ((read_value c t).0 ∷ values, read_values-value fuel s c t values e byte q)
  ]
]

-- The reading of a line ends and gives values, whatever the line is: a round for each of its
-- bytes and one more is enough.
pub read_line-ends : (line : Str) → (values : List Str) × (read_line line ≡ some values)
unfolding read_line
read_line-ends line = read_values-ends (suc (length line)) line (omega arith)
