-- ===== src/Function/Found.antt =====
-- db/sql/ast/Function.cpp, CHARINDEX: the place that `find` gives is the first one.
use native.Mathlib.Nat.{suc-add}
use essa_db.Prelude.{
  ℕ, zero, suc, ◌+◌, ◌-◌, ◌≤◌, ◌<◌, ◌≡◌, refl, Str, true, false, Option, none, some, [], ◌∷◌,
  length, drop, arith, ap, ◌∙◌, sym, Bool-cases, Option-cases, inl, inr, ltb, ltb→lt, subst,
}
use essa_db.Function.Search.{is_prefix, find_in, find}

-- What `find` may answer from place `start` of `s` on: no place where `t` stands, or the first one.
abbrev pub IsFirst : Str → Str → ℕ → Option ℕ → Type 0
IsFirst t s start none = (m : ℕ) → start ≤ m → m ≤ length s → is_prefix t (drop m s) ≡ false
IsFirst t s start (some k) =
    (start ≤ k)
    × (k ≤ length s)
    × (is_prefix t (drop k s) ≡ true)
    × ((m : ℕ) → start ≤ m → m < k → is_prefix t (drop m s) ≡ false)

drop-nil : (n : ℕ) → drop {A = ℕ} n [] ≡ []
drop-nil zero = refl
drop-nil (suc n) = refl

drop-drop : (a b : ℕ) (s : Str) → drop a (drop b s) ≡ drop (b + a) s
drop-drop a zero s = ap (λ (n : ℕ). drop n s) (omega arith)
drop-drop a (suc b) [] = drop-nil a ∙ sym (drop-nil (suc b + a))
drop-drop a (suc b) (c ∷ s) = rw (suc-add b a) (drop-drop a b s)

length-drop : (b : ℕ) (s : Str) → b ≤ length s → b + length (drop b s) ≡ length s
length-drop zero s h = omega arith
length-drop (suc b) [] h = absurd (omega arith)
length-drop (suc b) (c ∷ s) h = omega (arith, length-drop b s (omega arith))

-- The loop, which counts from `i` on, answers `i` plus a place of the text it is at.
NoneHere : Str → Str → Type 0
NoneHere t s = (m : ℕ) → m ≤ length s → is_prefix t (drop m s) ≡ false

FirstHere : Str → Str → ℕ → Type 0
FirstHere t s n =
    (n ≤ length s)
    × (is_prefix t (drop n s) ≡ true)
    × ((m : ℕ) → m < n → is_prefix t (drop m s) ≡ false)

here-first : (t s : Str) → is_prefix t s ≡ true → FirstHere t s 0
unfolding FirstHere
here-first t s h = (omega arith, h, λ m k. absurd (omega arith))

later-none :
    (t : Str) (c : ℕ) (s : Str) → is_prefix t (c ∷ s) ≡ false → NoneHere t s → NoneHere t (c ∷ s)
unfolding NoneHere
later-none t c s h f zero k = h
later-none t c s h f (suc m) k = f m (omega arith)

later-first :
    (t : Str) (c : ℕ) (s : Str) (n : ℕ)
    → is_prefix t (c ∷ s) ≡ false
    → FirstHere t s n
    → FirstHere t (c ∷ s) (suc n)
unfolding FirstHere
later-first t c s n h (le, stands, f) = (omega arith, stands, before)
  where
    before : (m : ℕ) → m < suc n → is_prefix t (drop m (c ∷ s)) ≡ false
    before zero k = h
    before (suc m) k = f m (omega arith)

only_here : (t : Str) → is_prefix t [] ≡ false → NoneHere t []
unfolding NoneHere
only_here t h zero k = h
only_here t h (suc m) k = absurd (omega arith)

find_in-none : (t : Str) (i : ℕ) (s : Str) → find_in t i s ≡ none → NoneHere t s
unfolding find_in
find_in-none t i [] e = elim (Bool-cases (is_prefix t [])) [
  | inl here ↦ let e' : Path (Option ℕ) (some i) none = rw here at e in cc
  | inr other ↦ only_here t other
]
find_in-none t i (c ∷ s) e = elim (Bool-cases (is_prefix t (c ∷ s))) [
  | inl here ↦ let e' : Path (Option ℕ) (some i) none = rw here at e in cc
  | inr other ↦ later-none t c s other (find_in-none t (suc i) s (rw other at e))
]

find_in-some :
    (t : Str) (i : ℕ) (s : Str) (k : ℕ)
    → find_in t i s ≡ some k
    → (n : ℕ) × (k ≡ i + n) × FirstHere t s n
unfolding find_in
find_in-some t i [] k e = elim (Bool-cases (is_prefix t [])) [
  | inl here ↦
      let e' : some i ≡ some k = rw here at e in
      let same : i ≡ k = cc in (0, omega arith, here-first t [] here)
  | inr other ↦ let e' : Path (Option ℕ) none (some k) = rw other at e in cc
]
find_in-some t i (c ∷ s) k e = elim (Bool-cases (is_prefix t (c ∷ s))) [
  | inl here ↦
      let e' : some i ≡ some k = rw here at e in
      let same : i ≡ k = cc in (0, omega arith, here-first t (c ∷ s) here)
  | inr other ↦
      let (n, same, first) = find_in-some t (suc i) s k (rw other at e) in
      (suc n, omega arith, later-first t c s n other first)
]

-- From what the loop answers to what `find` answers.
find_in-IsFirst :
    (t s : Str) (start : ℕ) → start ≤ length s → IsFirst t s start (find_in t start (drop start s))
unfolding NoneHere FirstHere
find_in-IsFirst t s start h = elim (Option-cases (find_in t start (drop start s))) [
  | inl e ↦ subst (IsFirst t s start) (sym e) λ m low high.
      let at : start + (m - start) ≡ m = omega arith in
      let there =
        find_in-none t start (drop start s) e (m - start) (omega (arith, length-drop start s h)) in
      rw (drop-drop (m - start) start s, at) at there
  | inr (k, e) ↦
      let (n, same, (le, stands, before)) = find_in-some t start (drop start s) k e in
      subst (IsFirst t s start) (sym e) (
        omega arith,
        omega (arith, length-drop start s h),
        rw (same, ← drop-drop n start s) stands,
        λ m low high.
            let at : start + (m - start) ≡ m = omega arith in
            let there = before (m - start) (omega arith) in
            rw (drop-drop (m - start) start s, at) at there,
      )
]

-- For all texts t and s and every place `start`: if `find` answers with a place, it is at least
-- `start` and at most the length of s, t stands there in s, and t stands at no earlier place from
-- `start` on; if it answers with none, t stands at no place of s from `start` on.
pub find-IsFirst : (t s : Str) (start : ℕ) → IsFirst t s start (find t s start)
unfolding find
find-IsFirst t s start = elim (Bool-cases (ltb (length s) start)) [
  | inl beyond ↦ rw beyond λ m low high. absurd (omega (arith, ltb→lt (length s) start beyond))
  | inr within ↦ rw within (find_in-IsFirst t s start (ground arith))
]
