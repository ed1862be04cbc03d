-- ===== src/Lexer/Rounds.antt =====
-- db/sql/Lexer.cpp: what each branch of the loop takes off the text.
use essa_db.Prelude.{
  ℕ, ◌==◌, ◌||◌, Str, Bool, true, false, Option, none, some, [], ◌∷◌, if◌then◌else◌, Result, ok,
  err, undefined, ◌>>=◌, ◌≡◌, refl, arith, ap, inl, inr, Bool-cases, Option-cases,
}
use essa_db.Value.Number.{is_digit, is_space}
use essa_db.Lexer.Token.{TokenType}
use essa_db.Lexer.Scan.{
  Stream, Scanned, emit, is_alpha, is_wide, quoted_behind_space, comment, scan_dash, scan_bracket,
  scan_bang, scan_quote, scan_date, scan_symbol, symbol, scan, strip_trailing,
}
use essa_db.Lexer.Parts.{
  TakesFrom, quoted-parts, drop_line-parts, quoted_behind_space-parts, comment-parts,
  scan_word-Takes, scan_space-Takes, scan_number-Takes,
}

module _ (c : ℕ) (r : Str) (pos : ℕ) (eof : Bool) where
  abbrev pub here : Stream
  here = record { rest = c ∷ r; pos = pos; eof = eof }

  scan_dash-Takes : c ≡ b'-' → TakesFrom (c ∷ r) (ok (scan_dash here r (comment r)))
  unfolding scan_dash
  scan_dash-Takes h = elim (Option-cases (comment r)) [
    | inl e ↦ rw e (c ∷ [], refl, inl (ap (λ d. d ∷ []) h))
    | inr (behind, e) ↦
        let (g, f, line) = drop_line-parts behind in
        rw e (
          b'-' ∷ b'-' ∷ 32 ∷ g,
          rw (h, comment-parts r e) (ap (λ u. b'-' ∷ b'-' ∷ 32 ∷ u) f),
          inr (g, refl, line),
        )
  ]

  scan_bang-Takes : c ≡ b'!' → (r' : Str) → TakesFrom (c ∷ r') (ok (scan_bang here r'))
  unfolding scan_bang
  scan_bang-Takes h [] = (c ∷ [], refl, inl (ap (λ d. d ∷ []) h))
  scan_bang-Takes h (d ∷ r') = elim (Bool-cases (d == b'=')) [
    | inl e ↦ let same : d ≡ b'=' = ground arith in rw e (c ∷ d ∷ [], refl, inl (rw (h, same) refl))
    | inr e ↦ rw e (c ∷ [], refl, inl (ap (λ d. d ∷ []) h))
  ]

  scan_quote-Takes : c ≡ 39 → TakesFrom (c ∷ r) (ok (scan_quote here r))
  unfolding scan_quote
  scan_quote-Takes h =
      let (p, e) = quoted-parts 39 r in (c ∷ p, ap (λ u. c ∷ u) e, inr (inr (inr (inl (refl, h)))))

  scan_date-Takes : c ≡ b'#' → TakesFrom (c ∷ r) (ok (scan_date here r))
  unfolding scan_date
  scan_date-Takes h =
      let (p, e) = quoted_behind_space-parts b'#' r in
      (c ∷ p, ap (λ u. c ∷ u) e, inr (inr (inr (inr (inr (refl, h))))))

  scan_symbol-Takes : (o : Option TokenType) → TakesFrom (c ∷ r) (ok (scan_symbol here c r o))
  unfolding scan_symbol
  scan_symbol-Takes none = (c ∷ [], refl, inl refl)
  scan_symbol-Takes (some type) = (c ∷ [], refl, inl refl)

  scan_bracket-Takes : c ≡ b'[' → TakesFrom (c ∷ r) (scan_bracket here r)
  unfolding scan_bracket
  scan_bracket-Takes h = by_name (strip_trailing (quoted_behind_space b']' r).0)
    where
      by_name :
          (o : Result Str)
          → TakesFrom (c ∷ r) (do
            id ← o
            ok (
                emit here TokenType.identifier id
                  (quoted_behind_space b']' r).1
                  (quoted_behind_space b']' r).2))
      by_name (ok id) =
          let (p, e) = quoted_behind_space-parts b']' r in
          (c ∷ p, ap (λ u. c ∷ u) e, inr (inr (inr (inr (inl (refl, h))))))
      by_name (err e) = tt
      by_name undefined = tt

  is : (d : ℕ) → (c == d) ≡ true → c ≡ d
  is d e = ground arith

  either :
      (b : Bool) (x y : Result Scanned)
      → (b ≡ true → TakesFrom (c ∷ r) x)
      → TakesFrom (c ∷ r) y
      → TakesFrom (c ∷ r) (if b then x else y)
  either true x y f g = f refl
  either false x y f g = g

  pub scan-Takes : TakesFrom (c ∷ r) (scan here c r)
  unfolding scan
  scan-Takes =
      either (is_wide c) _ _ (λ e. tt)
        (either (is_alpha c || c == b'_') _ _ (λ e. scan_word-Takes here)
          (either (is_space c) _ _ (λ e. scan_space-Takes here)
            (either (is_digit c || c == b'.') _ _ (λ e. scan_number-Takes here)
              (either (c == b'-') _ _ (λ e. scan_dash-Takes (is b'-' e))
                (either (c == b'[') _ _ (λ e. scan_bracket-Takes (is b'[' e))
                  (either (c == b'!') _ _ (λ e. scan_bang-Takes (is b'!' e) r)
                    (either (c == 39) _ _ (λ e. scan_quote-Takes (is 39 e))
                      (either (c == b'#') _ _ (λ e. scan_date-Takes (is b'#' e))
                        (scan_symbol-Takes (symbol c))))))))))
