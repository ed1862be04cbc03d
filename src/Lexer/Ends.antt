-- ===== src/Lexer/Ends.antt =====
-- db/sql/Lexer.cpp: how far each round of the loop goes on.
use essa_db.Prelude.{
  ℕ, ◌+◌, ◌-◌, ◌≤◌, Str, ◌==◌, Bool, true, false, ◌||◌, Option, none, some, [], ◌∷◌, if◌then◌else◌,
  length, Result, ok, err, undefined, ◌>>=◌, ◌≡◌, refl, inl, inr, arith, Bool-cases, Option-cases,
}
use essa_db.Value.Number.{is_digit, is_space, skip_space}
use essa_db.Lexer.Token.{TokenType, Token}
use essa_db.Lexer.Scan.{
  Stream, Scanned, emit, is_alpha, is_wide, word, number, quoted, quoted_behind_space, drop_line,
  scan_word, scan_space, scan_number, comment, scan_dash, scan_bracket, scan_bang, scan_quote,
  scan_date, scan_symbol, symbol, scan, behind, strip_trailing,
}

length-word : (s : Str) → length (word s).1 ≤ length s
unfolding word
length-word [] = omega arith
length-word (c ∷ s) = ground (arith, length-word s)

length-number : (b : Bool) (s : Str) → length (number b s).1 ≤ length s
unfolding number
length-number b [] = omega arith
length-number b (c ∷ s) = ground (arith, length-number (b || c == b'.') s)

length-quoted : (q : ℕ) (s : Str) → length (quoted q s).1 ≤ length s
unfolding quoted
length-quoted q [] = omega arith
length-quoted q (c ∷ s) = ground (arith, length-quoted q s)

length-skip_space : (s : Str) → length (skip_space s) ≤ length s
unfolding skip_space
length-skip_space [] = omega arith
length-skip_space (c ∷ s) = ground (arith, length-skip_space s)

length-quoted_behind_space : (q : ℕ) (s : Str) → length (quoted_behind_space q s).1 ≤ length s
unfolding quoted_behind_space
length-quoted_behind_space q s = ground (arith, length-quoted q (skip_space s), length-skip_space s)

length-drop_line : (s : Str) → length (drop_line s).0 ≤ length s
unfolding drop_line
length-drop_line [] = omega arith
length-drop_line (c ∷ s) = ground (arith, length-drop_line s)

-- Where a word or a number begins, its first character is taken.
length-word_behind :
    (c : ℕ) (r : Str) → (is_alpha c || c == b'_') ≡ true → length (word (c ∷ r)).1 ≤ length r
unfolding word
length-word_behind c r h = ground (arith, length-word r)

length-number_behind :
    (c : ℕ) (r : Str)
    → (is_digit c || c == b'.') ≡ true
    → length (number false (c ∷ r)).1 ≤ length r
unfolding number
length-number_behind c r h = ground (arith, length-number (c == b'.') r)

length-skip_space_behind :
    (c : ℕ) (r : Str) → is_space c ≡ true → length (skip_space (c ∷ r)) ≤ length r
unfolding skip_space
length-skip_space_behind c r h = ground (arith, length-skip_space r)

abbrev pub StartsAt : ℕ → Option Token → Type 0
StartsAt pos none = Unit {0}
StartsAt pos (some t) = t.start ≡ pos

-- A round at the character in front of `r` takes it, goes on in place, and its token starts there.
pub record Onward (s : Stream) (r : Str) (sc : Scanned) : Type 0 where
  pub shorter : length sc.stream.rest ≤ length r
  pub place : sc.stream.pos ≡ s.pos + (length s.rest - length sc.stream.rest)
  pub starts : StartsAt s.pos sc.emitted

emit-Onward :
    (s : Stream) (r : Str) (type : TokenType) (value rest : Str) (eof : Bool)
    → length rest ≤ length r
    → Onward s r (emit s type value rest eof)
emit-Onward s r type value rest eof h = record { shorter = h; place = refl; starts = refl }

-- What a round that has a defined behaviour gives.
abbrev pub OkOnward : Stream → Str → Result Scanned → Type 0
OkOnward s r (ok sc) = Onward s r sc
OkOnward s r _ = Unit {0}

module _ (c : ℕ) (r : Str) (pos : ℕ) (eof : Bool) where
  abbrev here : Stream
  here = record { rest = c ∷ r; pos = pos; eof = eof }

  scan_word-Onward : (is_alpha c || c == b'_') ≡ true → Onward here r (scan_word here)
  unfolding scan_word
  scan_word-Onward h = emit-Onward here r _ _ _ _ (length-word_behind c r h)

  scan_number-Onward : (is_digit c || c == b'.') ≡ true → Onward here r (scan_number here)
  unfolding scan_number
  scan_number-Onward h = emit-Onward here r _ _ _ _ (length-number_behind c r h)

  scan_space-Onward : is_space c ≡ true → Onward here r (scan_space here)
  unfolding scan_space
  scan_space-Onward h = record {
    shorter = length-skip_space_behind c r h;
    place = refl;
    starts = tt;
  }

  comment-length : (r : Str) {behind : Str} → comment r ≡ some behind → length behind ≤ length r
  unfolding comment
  comment-length [] e = cc
  comment-length (c ∷ []) e = cc
  comment-length (c ∷ d ∷ r) e = ground arith

  scan_dash-Onward : Onward here r (scan_dash here r (comment r))
  unfolding scan_dash
  scan_dash-Onward = elim (Option-cases (comment r)) [
    | inl e ↦ rw e (emit-Onward here r _ _ _ _ (omega arith))
    | inr (behind, e) ↦ rw e (record {
      shorter = omega (arith, length-drop_line behind, comment-length r e);
      place = refl;
      starts = tt;
    })
  ]

  scan_bang-Onward : (r' : Str) → length r' ≤ length r → Onward here r (scan_bang here r')
  unfolding scan_bang
  scan_bang-Onward [] h = emit-Onward here r _ _ _ _ (omega arith)
  scan_bang-Onward (d ∷ r') h = elim (Bool-cases (d == b'=')) [
    | inl e ↦ rw e (record { shorter = omega arith; place = refl; starts = refl })
    | inr e ↦ rw e (emit-Onward here r _ _ _ _ h)
  ]

  scan_quote-Onward : Onward here r (scan_quote here r)
  unfolding scan_quote
  scan_quote-Onward = emit-Onward here r _ _ _ _ (length-quoted 39 r)

  scan_date-Onward : Onward here r (scan_date here r)
  unfolding scan_date
  scan_date-Onward = emit-Onward here r _ _ _ _ (length-quoted_behind_space b'#' r)

  scan_symbol-Onward : (o : Option TokenType) → Onward here r (scan_symbol here c r o)
  unfolding scan_symbol
  scan_symbol-Onward none = emit-Onward here r _ _ _ _ (omega arith)
  scan_symbol-Onward (some type) = emit-Onward here r _ _ _ _ (omega arith)

  scan_bracket-OkOnward : OkOnward here r (scan_bracket here r)
  unfolding scan_bracket
  scan_bracket-OkOnward = by_name (strip_trailing (quoted_behind_space b']' r).0)
    where
      by_name :
          (o : Result Str)
          → OkOnward here r (do
            id ← o
            ok (
                emit here TokenType.identifier id
                  (quoted_behind_space b']' r).1
                  (quoted_behind_space b']' r).2))
      by_name (ok id) = emit-Onward here r _ _ _ _ (length-quoted_behind_space b']' r)
      by_name (err e) = tt
      by_name undefined = tt

  if-OkOnward :
      (b : Bool) (x y : Result Scanned)
      → (b ≡ true → OkOnward here r x)
      → OkOnward here r y
      → OkOnward here r (if b then x else y)
  if-OkOnward true x y f g = f refl
  if-OkOnward false x y f g = g

  pub scan-OkOnward : OkOnward here r (scan here c r)
  unfolding scan
  scan-OkOnward =
      if-OkOnward (is_wide c) _ _ (λ e. tt)
        (if-OkOnward (is_alpha c || c == b'_') _ _ scan_word-Onward (
          if-OkOnward (is_space c) _ _ scan_space-Onward (
            if-OkOnward (is_digit c || c == b'.') _ _ scan_number-Onward (
              if-OkOnward (c == b'-') _ _ (λ e. scan_dash-Onward)
                (if-OkOnward (c == b'[') _ _ (λ e. scan_bracket-OkOnward)
                  (if-OkOnward (c == b'!') _ _ (λ e. scan_bang-Onward r (omega arith))
                    (if-OkOnward (c == 39) _ _ (λ e. scan_quote-Onward)
                      (if-OkOnward (c == b'#') _ _ (λ e. scan_date-Onward)
                        (scan_symbol-Onward (symbol c))))))))))
