-- ===== src/Function/Charindex.antt =====
-- db/sql/ast/Function.cpp, CHARINDEX: the place that it answers with is the first one.
use essa_db.Prelude.{
  ℕ, ◌-◌, ◌≤◌, ◌<◌, ◌≡◌, refl, Str, true, false, ◌==◌, Option, none, some, [], ◌∷◌, ◌++◌, length,
  drop, arith, ap, ◌∙◌, ltb, pos, negsuc, to_int32, ok,
}
use essa_db.Value.Types.{Platform, Value, null, int, varchar}
use essa_db.Value.Convert.{to_int, to_string}
use essa_db.Function.Arguments.{get_required, get_optional, text_argument}
use essa_db.Function.Search.{to_size, is_prefix, find}
use essa_db.Function.Found.{IsFirst, find-IsFirst}
use essa_db.Function.Text.{place, charindex}

-- The text `t` stands in `s` at the place `m`.
abbrev pub StandsAt : Str → Str → ℕ → Type 0
StandsAt t s m = (r : Str) × (drop m s ≡ t ++ r)

-- The first place from `start` on at which `t` stands in `s`, or none.
abbrev pub FirstPlace : Str → Str → ℕ → Option ℕ → Type 0
FirstPlace t s start none = (m : ℕ) → start ≤ m → m ≤ length s → ¬ StandsAt t s m
FirstPlace t s start (some k) =
    (start ≤ k) × (k ≤ length s) × StandsAt t s k × ((m : ℕ) → start ≤ m → m < k → ¬ StandsAt t s m)

prefix-rest : (t s : Str) → is_prefix t s ≡ true → (r : Str) × (s ≡ t ++ r)
unfolding is_prefix
prefix-rest [] s h = (s, refl)
prefix-rest (b ∷ t) [] h = cc
prefix-rest (b ∷ t) (c ∷ s) h =
    let both : (b ≡ c) × (is_prefix t s ≡ true) = ground arith in
    let (r, e) = prefix-rest t s both.1 in (r, rw (both.0, e) refl)

rest-prefix : (t r : Str) → is_prefix t (t ++ r) ≡ true
unfolding is_prefix
rest-prefix [] r = refl
rest-prefix (b ∷ t) r = let same : (b == b) ≡ true = ground arith in rw (same, rest-prefix t r) refl

other-place : (t s : Str) (m : ℕ) → is_prefix t (drop m s) ≡ false → ¬ StandsAt t s m
other-place t s m h (r, e) =
    let here : is_prefix t (drop m s) ≡ true = ap (λ u. is_prefix t u) e ∙ rest-prefix t r in cc

IsFirst-place :
    (t s : Str) (start : ℕ) (o : Option ℕ) → IsFirst t s start o → FirstPlace t s start o
IsFirst-place t s start none h = λ m low high. other-place t s m (h m low high)
IsFirst-place t s start (some k) (low, high, here, before) =
    (low, high, prefix-rest t (drop k s) here, λ m lo hi. other-place t s m (before m lo hi))

small_int : (k : ℕ) → k < 2147483648 → to_int32 (pos k) ≡ pos k
unfolding to_int32
small_int k h = ground arith

module _ (p : Platform) where
  open p use {Float}

  abbrev pub answer : Option ℕ → Value Float
  answer none = null
  answer (some k) = int (pos k)

  place-answer :
      (t s : Str) (start : ℕ) (o : Option ℕ)
      → length s < 2147483648
      → FirstPlace t s start o
      → place p o ≡ answer o
  unfolding place
  place-answer t s start none small h = refl
  place-answer t s start (some k) small h = rw (small_int k (omega (arith, h.1))) refl

  -- For a text t, a text s of less than 2^31 bytes and a place `start`, CHARINDEX of t, s and
  -- `start` is the first place of s from `start` on at which t stands, counted from 0, and null
  -- where there is none; without a third argument it is the first place of all; and with a
  -- negative third argument it is null.
  pub charindex-FirstPlace :
      (t s : Str) (start : ℕ)
      → length s < 2147483648
      → (o : Option ℕ) × FirstPlace t s start o
        × (charindex p (varchar t ∷ varchar s ∷ int (pos start) ∷ []) ≡ ok (answer o))
        × (start ≡ 0 → charindex p (varchar t ∷ varchar s ∷ []) ≡ ok (answer o))
        × ((n : ℕ)
            → n < 2147483648
            → charindex p (varchar t ∷ varchar s ∷ int (negsuc n) ∷ []) ≡ ok null)
  unfolding charindex text_argument get_required get_optional to_int to_string to_size
  charindex-FirstPlace t s start small =
      let first = IsFirst-place t s start (find t s start) (find-IsFirst t s start) in
      let same = place-answer t s start (find t s start) small first in
      (
        find t s start,
        first,
        rw same refl,
        λ e. rw (← same) (rw e refl),
        λ n lt.
            let beyond : ltb (length s) (18446744073709551615 - n) ≡ true = ground arith in
            unfold find in unfold place in rw beyond refl,
      )
