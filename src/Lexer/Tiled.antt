-- ===== src/Lexer/Tiled.antt =====
-- The tokens of a text, and the gaps between them, are the text, part by part.
use essa_db.Prelude.{
  ℕ, zero, suc, ◌+◌, ◌-◌, ◌<◌, ◌≤◌, Str, ◌==◌, Bool, false, Option, none, some, List, [], ◌∷◌, ◌++◌,
  length, Result, ok, err, undefined, ◌≡◌, inl, inr, arith, Bool-cases, subst, ap, ◌∙◌,
}
use essa_db.Lexer.Token.{Token}
use essa_db.Lexer.Scan.{Scanned, scan, push, push_all, behind, lex_loop, lex, eof_token}
use essa_db.Lexer.Ends.{StartsAt, OkOnward, scan-OkOnward}
use essa_db.Lexer.Parts.{IsGap, IsPart, Takes, TakesFrom}
use essa_db.Lexer.Rounds.{scan-Takes}

-- The end of the text, or a byte that is taken for it.
abbrev pub IsEnd : Str → Type 0
IsEnd [] = Unit
IsEnd (c ∷ r) = c ≡ 255

-- `Tiles pos text ts`: from the offset `pos` on, `text` is parts that are not empty, one for each token but
-- the last, at whose offset that token starts, with gaps between them; then comes the end.
pub data Tiles : ℕ → Str → List Token → Type 0 where
  end : {pos : ℕ} {text : Str} → IsEnd text → Tiles pos text (eof_token pos ∷ [])
  gap :
      {pos : ℕ} {text rest : Str} {ts : List Token} (g : Str)
      → text ≡ g ++ rest
      → 0 < length g
      → IsGap g
      → Tiles (pos + length g) rest ts
      → Tiles pos text ts
  part :
      {pos : ℕ} {text rest : Str} {t : Token} {ts : List Token} (p : Str)
      → text ≡ p ++ rest
      → 0 < length p
      → IsPart t p
      → t.start ≡ pos
      → Tiles (pos + length p) rest ts
      → Tiles pos text (t ∷ ts)

-- The fuel was enough, and the tokens, if the behaviour is defined, tile the text.
abbrev pub Tiled : ℕ → Str → Option (Result (List Token)) → Type 0
Tiled pos text none = ⊥
Tiled pos text (some (ok ts)) = Tiles pos text ts
Tiled pos text (some _) = Unit {0}

length-++ : (a b : Str) → length (a ++ b) ≡ length a + length b
length-++ [] b = omega arith
length-++ (c ∷ a) b = omega (arith, length-++ a b)

module _ (c : ℕ) (r : Str) (pos : ℕ) where
  -- How long the part is that a round takes, and where the next one begins.
  taken :
      (g rest : Str) (pos' : ℕ)
      → c ∷ r ≡ g ++ rest
      → length rest ≤ length r
      → pos' ≡ pos + (length (c ∷ r) - length rest)
      → (0 < length g) × (pos' ≡ pos + length g)
  taken g rest pos' e h k =
      let whole : length (c ∷ r) ≡ length g + length rest = ap length e ∙ length-++ g rest in
      let one : length (c ∷ r) ≡ length r + 1 = omega arith in (omega arith, omega arith)

  push-Tiles :
      (o : Option Token) (rest : Str) (pos' : ℕ) (ts : List Token)
      → Takes (c ∷ r) o rest
      → StartsAt pos o
      → length rest ≤ length r
      → pos' ≡ pos + (length (c ∷ r) - length rest)
      → Tiles pos' rest ts
      → Tiles pos (c ∷ r) (push o ts)
  push-Tiles none rest pos' ts (g, e, is) starts h k later =
      let (some_, at) = taken g rest pos' e h k in
      gap g e some_ is (subst (λ q. Tiles q rest ts) at later)
  push-Tiles (some t) rest pos' ts (p, e, is) starts h k later =
      let (some_, at) = taken p rest pos' e h k in
      part p e some_ is starts (subst (λ q. Tiles q rest ts) at later)

  push_all-Tiled :
      (o : Option Token) (rest : Str) (pos' : ℕ) (later : Option (Result (List Token)))
      → Takes (c ∷ r) o rest
      → StartsAt pos o
      → length rest ≤ length r
      → pos' ≡ pos + (length (c ∷ r) - length rest)
      → Tiled pos' rest later
      → Tiled pos (c ∷ r) (push_all o later)
  push_all-Tiled o rest pos' none a s h k t = absurd t
  push_all-Tiled o rest pos' (some (ok ts)) a s h k t = push-Tiles o rest pos' ts a s h k t
  push_all-Tiled o rest pos' (some (err e)) a s h k t = tt
  push_all-Tiled o rest pos' (some undefined) a s h k t = tt

lex_loop-Tiled :
    (fuel pos : ℕ) (rest : Str) (eof : Bool)
    → length rest < fuel
    → Tiled pos rest (lex_loop fuel pos rest eof)
unfolding lex_loop
lex_loop-Tiled zero pos rest eof h = absurd (omega arith)
lex_loop-Tiled (suc fuel) pos [] eof h = end tt
lex_loop-Tiled (suc fuel) pos (c ∷ r) eof h = elim (Bool-cases (c == 255)) [
  | inl stop ↦ rw stop (end (let same : c ≡ 255 = ground arith in same))
  | inr go ↦ rw go (
      by_scan (λ pos' rest' eof' a. lex_loop-Tiled fuel pos' rest' eof' a)
        (scan (record { rest = c ∷ r; pos = pos; eof = eof }) c r) (scan-OkOnward c r pos eof)
        (scan-Takes c r pos eof))
]
  where
    by_scan :
        ((pos' : ℕ) (rest' : Str) (eof' : Bool)
          → length rest' < fuel
          → Tiled pos' rest' (lex_loop fuel pos' rest' eof'))
        → (sc : Result Scanned) → OkOnward (record { rest = c ∷ r; pos = pos; eof = eof }) r sc
        → TakesFrom (c ∷ r) sc
        → Tiled pos (c ∷ r) (behind sc (λ s. lex_loop fuel s.pos s.rest s.eof))
    by_scan again (ok sc) k takes =
        push_all-Tiled c r pos sc.emitted sc.stream.rest sc.stream.pos _ takes k.starts k.shorter
          k.place
          (again sc.stream.pos sc.stream.rest sc.stream.eof (let b = k.shorter in omega arith))
    by_scan again (err e) k takes = tt
    by_scan again undefined k takes = tt

-- On every text the lexer ends within its fuel, one round more than the text has bytes; and where
-- its behaviour is defined, the text up to its end, or up to a byte 255 where a round begins, is
-- cut into parts that are not empty, one for each token but the last, in order, and gaps in front
-- of, between and behind them. Each token starts at the offset of its part, and the last one is
-- the token for the end. A gap is white space, or a comment from `-- ` up to a line end. A part
-- is the value of its token, or has it as its capitals, or is it and one point more, or begins
-- with the quote, the bracket or the # of a text, a name or a date.
pub lex-Tiled : (text : Str) → Tiled 0 text (lex text)
unfolding lex
lex-Tiled text = lex_loop-Tiled (suc (length text)) 0 text false (omega arith)
