-- ===== src/Function/Replaced.antt =====
-- db/sql/ast/Function.cpp, REPLACE: when its loop ends, and what it leaves.
use essa_db.Prelude.{
  ℕ, zero, suc, ◌≤◌, ◌≡◌, refl, Str, true, false, none, some, [], ◌∷◌, ◌++◌, length, drop, ok,
  arith, Bool-cases, inl, inr,
}
use essa_db.Function.Search.{is_prefix, replace_loop, replace}

length-drop : (n : ℕ) (s : Str) → length (drop n s) ≤ length s
length-drop zero s = omega arith
length-drop (suc n) [] = omega arith
length-drop (suc n) (c ∷ s) = omega (arith, length-drop n s)

-- A round of the loop where the text to replace is found, and one where it is not.
replace-found :
    (fuel b : ℕ) (t by : Str) (c : ℕ) (s r : Str)
    → is_prefix (b ∷ t) (c ∷ s) ≡ true
    → replace_loop fuel (b ∷ t) by (drop (length t) s) ≡ some r
    → replace_loop (suc fuel) (b ∷ t) by (c ∷ s) ≡ some (by ++ r)
unfolding replace_loop
replace-found fuel b t by c s r found h = ground arith

replace-other :
    (fuel b : ℕ) (t by : Str) (c : ℕ) (s r : Str)
    → is_prefix (b ∷ t) (c ∷ s) ≡ false
    → replace_loop fuel (b ∷ t) by s ≡ some r
    → replace_loop (suc fuel) (b ∷ t) by (c ∷ s) ≡ some (c ∷ r)
unfolding replace_loop
replace-other fuel b t by c s r other h = ground arith

-- With a step for each byte, the loop ends if there is something to replace.
pub replace_loop-ends :
    (fuel : ℕ) (b : ℕ) (t by s : Str)
    → length s ≤ fuel
    → (r : Str) × (replace_loop fuel (b ∷ t) by s ≡ some r)
replace_loop-ends fuel b t by [] h = ([], unfold replace_loop in refl)
replace_loop-ends zero b t by (c ∷ s) h = absurd (omega arith)
replace_loop-ends (suc fuel) b t by (c ∷ s) h = elim (Bool-cases (is_prefix (b ∷ t) (c ∷ s))) [
  | inl found ↦
      let (r, e) =
        replace_loop-ends fuel b t by (drop (length t) s)
          (omega (arith, length-drop (length t) s)) in
      (by ++ r, replace-found fuel b t by c s r found e)
  | inr other ↦
      let (r, e) = replace_loop-ends fuel b t by s (omega arith) in
      (c ∷ r, replace-other fuel b t by c s r other e)
]

replace_lem : (s t by r : Str) → replace_loop (length s) t by s ≡ some r → replace s t by ≡ ok r
unfolding replace
replace_lem s t by r h = ground arith

-- If the text to replace is not empty, REPLACE ends and gives a text, whatever the other two
-- texts are.
pub replace-ends : (b : ℕ) (s t by : Str) → (r : Str) × (replace s (b ∷ t) by ≡ ok r)
replace-ends b s t by =
    let (r, e) = replace_loop-ends (length s) b t by s (omega arith) in
    (r, replace_lem s (b ∷ t) by r e)

-- If the text to replace is empty and the text it is looked for in is not, no number of rounds
-- ends the loop of REPLACE.
pub replace_loop-empty :
    (fuel : ℕ) (by : Str) (c : ℕ) (s : Str) → replace_loop fuel [] by (c ∷ s) ≡ none
unfolding replace_loop is_prefix
replace_loop-empty zero by c s = refl
replace_loop-empty (suc fuel) by c s = rw (replace_loop-empty fuel by c s)
