-- ===== src/Function/Search.antt =====
-- db/sql/ast/Function.cpp: what the functions on text take from `std::string`: positions in 64 bits,
-- `substr`, `find`; and the loops of REPLACE, REPLICATE, STUFF and TRANSLATE.
use essa_db.Prelude.{
  ℕ, zero, suc, ◌-◌, ◌*◌, ◌+ℤ◌, ℤ, pos, negsuc, Str, str_eq, Bool, true, false, ◌&&◌, Option, none,
  some, [], ◌∷◌, ◌++◌, length, take, drop, ltb, ◌==◌, if◌then◌else◌, Result, ok, undefined, ◌>>=◌,
}
use essa_db.Value.Operators.{int32}
use essa_db.Value.Number.{is_space}

-- An `int` that becomes a `size_t`.
unfoldable pub to_size : ℤ → ℕ
to_size (pos n) = n
to_size (negsuc n) = 18446744073709551615 - n

-- `s.substr(start, len)`: it throws where `start` is beyond the end, and nothing catches it.
unfoldable pub substr : Str → ℕ → ℕ → Result Str
substr s start len = if ltb (length s) start then undefined else ok (take len (drop start s))

unfoldable pub is_prefix : Str → Str → Bool
is_prefix [] s = true
is_prefix (b ∷ t) [] = false
is_prefix (b ∷ t) (c ∷ s) = b == c && is_prefix t s

-- The first place of `t` in the text from position `i` on, which is `s`.
unfoldable pub find_in : Str → ℕ → Str → Option ℕ
unfolding is_prefix
find_in t i [] = if is_prefix t [] then some i else none
find_in t i (c ∷ s) = let rest = find_in t (suc i) s in if is_prefix t (c ∷ s) then some i else rest

-- `s.find(t, start)`; `none` is `npos`.
unfoldable pub find : Str → Str → ℕ → Option ℕ
unfolding find_in
find t s start = if ltb (length s) start then none else find_in t start (drop start s)

-- The loop of REPLACE on the text from `i` on. `i += substr.size() - 1` and `i++` step over what was
-- replaced; over an empty text they do not step at all. `none` is a loop that needs more fuel.
unfoldable pub replace_loop : ℕ → Str → Str → Str → Option Str
unfolding is_prefix
replace_loop fuel t by [] = some []
replace_loop zero t by (c ∷ s) = none
replace_loop (suc fuel) t by (c ∷ s) =
    let found = is_prefix t (c ∷ s) in
    let rest = replace_loop fuel t by (if found then drop (length t) (c ∷ s) else s) in
    elim rest [ none ↦ none | some r ↦ some (if found then by ++ r else c ∷ r) ]

-- A step for each byte is enough for a text to replace that is not empty; on an empty one the loop
-- of a text that is not empty never ends.
unfoldable pub replace : Str → Str → Str → Result Str
unfolding replace_loop
replace s t by = elim (replace_loop (length s) t by s) [ none ↦ undefined | some r ↦ ok r ]

unfoldable pub repeat : ℕ → Str → Str
repeat zero s = []
repeat (suc n) s = s ++ repeat n s

-- REPLICATE: a text beyond the longest `std::string` makes `+=` throw.
unfoldable pub replicate_text : Str → ℤ → Result Str
unfolding to_size repeat
replicate_text s count =
    let n = to_size count in
    if ltb 9223372036854775807 (n * length s) then undefined else ok (repeat n s)

-- STUFF: `index + len` is an `int` addition.
unfoldable pub stuff : Str → ℤ → ℤ → Str → Result Str
unfolding substr to_size int32
stuff s index len by = do
  front ← substr s 0 (to_size index)
  next ← int32 (index +ℤ len)
  back ← substr s (to_size next) (length s)
  ok (front ++ (by ++ back))

-- The loop of TRANSLATE: `done` is `result`, `word` is `temp`, which ends in the white space `c`
-- where a word ends; the last word is never translated.
unfoldable pub translate_loop : Str → Str → Str → Str → Str → Str
unfolding str_eq
translate_loop from to done word [] = done ++ word
translate_loop from to done word (c ∷ s) =
    let whole = word ++ (c ∷ []) in
    let translated = if str_eq word from then to ++ (32 ∷ []) else whole in
    translate_loop from to (if is_space c then done ++ translated else done)
      (if is_space c then [] else whole) s

unfoldable pub translate : Str → Str → Str → Str
unfolding translate_loop
translate s from to = translate_loop from to [] [] s
