-- ===== src/Expression/Liked.antt =====
-- db/sql/ast/Expression.cpp: what LIKE answers for a pattern without special characters.
use essa_db.Prelude.{
  ℕ, zero, suc, ◌≡◌, refl, Str, Bool, true, false, ◌==◌, some, [], ◌∷◌, All, length, take, drop,
  if◌then◌else◌, ok, ap, ◌∙◌, Bool-cases, inl, inr,
}
use essa_db.Function.Search.{is_prefix}
use essa_db.Expression.Like.{
  is_string_valid, at_needle_end, next_asterisk, skip_asterisk, match_loop, ends_in_asterisk,
  wildcard_parser,
}

-- A character that a pattern takes as it is.
abbrev pub IsPlain : ℕ → Type 0
IsPlain q =
    (q == 0 ≡ false)
    × (q == b'?' ≡ false)
    × (q == b'#' ≡ false)
    × (q == b'[' ≡ false)
    × (q == b'*' ≡ false)

-- Whether `t` stands somewhere in `s`.
abbrev pub stands_in : Str → Str → Bool
stands_in t [] = false
stands_in t (c ∷ s) = if is_prefix t (c ∷ s) then true else stands_in t s

valid-prefix :
    (t s : Str) → All IsPlain t → is_string_valid (take (length t) s) (some t) ≡ ok (is_prefix t s)
unfolding is_string_valid at_needle_end is_prefix
valid-prefix [] s h = refl
valid-prefix (q ∷ t) [] ((z, a, b, c, d), h) = rw z refl
valid-prefix (q ∷ t) (e ∷ s) ((z, a, b, c, d), h) = elim (Bool-cases (q == e)) [
  | inl same ↦ rw a (rw b (rw c (rw same (valid-prefix t s h))))
  | inr other ↦ rw a (rw b (rw c (rw other refl)))
]

next_asterisk-plain : (t : Str) → All IsPlain t → next_asterisk false t ≡ (length t, length t)
unfolding next_asterisk
next_asterisk-plain [] h = refl
next_asterisk-plain (q ∷ t) ((z, a, b, c, d), h) = rw d (rw c (rw (next_asterisk-plain t h) refl))

-- Behind its last character, the pattern fits everywhere.
loop-rest : (s : Str) (k : ℕ) → match_loop s k [] true ≡ ok ([], true)
unfolding match_loop is_string_valid next_asterisk
loop-rest [] k = refl
loop-rest (c ∷ s) zero = loop-rest s 0
loop-rest (c ∷ s) (suc k) = loop-rest s k

take-length : (t : Str) → take (length t) t ≡ t
take-length [] = refl
take-length (q ∷ t) = ap (λ l. q ∷ l) (take-length t)

drop-length : (t : Str) → drop (length t) t ≡ []
drop-length [] = refl
drop-length (q ∷ t) = drop-length t

-- One round at a place where the pattern `p` of `n` characters has not been found before.
loop-round :
    (p : Str) (n c : ℕ) (s : Str) (b : Bool)
    → skip_asterisk p ≡ p
    → next_asterisk false p ≡ (n, n)
    → take n p ≡ p
    → drop n p ≡ []
    → is_string_valid (take n (c ∷ s)) (some p) ≡ ok b
    → match_loop (c ∷ s) 0 p false ≡ (if b then match_loop s n [] true else match_loop s 0 p false)
unfolding match_loop
loop-round p n c s true skips ends takes drops valid =
    rw skips (rw ends (rw takes (rw valid (rw drops refl))))
loop-round p n c s false skips ends takes drops valid =
    rw skips (rw ends (rw takes (rw valid refl)))

skips-plain : (q : ℕ) (t : Str) → IsPlain q → skip_asterisk (q ∷ t) ≡ q ∷ t
unfolding skip_asterisk
skips-plain q t (z, a, b, d, e) = rw e refl

loop-found :
    (q : ℕ) (t : Str) (c : ℕ) (s : Str)
    → All IsPlain (q ∷ t)
    → match_loop (c ∷ s) 0 (q ∷ t) false ≡ (
        if is_prefix (q ∷ t) (c ∷ s)
        then match_loop s (length (q ∷ t)) [] true
        else match_loop s 0 (q ∷ t) false)
loop-found q t c s h =
    loop-round (q ∷ t) (length (q ∷ t)) c s (is_prefix (q ∷ t) (c ∷ s)) (skips-plain q t h.0)
      (next_asterisk-plain (q ∷ t) h) (take-length (q ∷ t)) (drop-length (q ∷ t))
      (valid-prefix (q ∷ t) (c ∷ s) h)

loop-plain :
    (q : ℕ) (t s : Str)
    → All IsPlain (q ∷ t)
    → match_loop s 0 (q ∷ t) false ≡ ok (if stands_in (q ∷ t) s then ([], true) else (q ∷ t, false))
loop-plain q t [] h = unfold match_loop in refl
loop-plain q t (c ∷ s) h = loop-found q t c s h ∙ (elim (Bool-cases (is_prefix (q ∷ t) (c ∷ s))) [
  | inl found ↦ rw found (loop-rest s (length (q ∷ t)))
  | inr other ↦ rw other (loop-plain q t s h)
])

ends_in_asterisk-plain : (t : Str) → All IsPlain t → ends_in_asterisk t ≡ false
unfolding ends_in_asterisk
ends_in_asterisk-plain [] h = refl
ends_in_asterisk-plain (q ∷ []) ((z, a, b, d, e), h) = e
ends_in_asterisk-plain (q ∷ (r ∷ t)) (p, h) = ends_in_asterisk-plain (r ∷ t) h

-- For a pattern that is not empty and has none of the characters * ? # [ and no byte 0, LIKE is
-- true just where the pattern stands somewhere in the text.
pub wildcard_parser-plain :
    (q : ℕ) (t s : Str) → All IsPlain (q ∷ t) → wildcard_parser s (q ∷ t) ≡ ok (stands_in (q ∷ t) s)
unfolding wildcard_parser
wildcard_parser-plain q t s h = rw (loop-plain q t s h) (elim (Bool-cases (stands_in (q ∷ t) s)) [
  | inl found ↦ rw found refl
  | inr other ↦ rw other (rw (ends_in_asterisk-plain (q ∷ t) h) refl)
])
