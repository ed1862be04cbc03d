-- ===== src/Parser/Reply.antt =====
-- db/sql/Parser.hpp, Parser.cpp: the state of a `Parser`, and how it moves over the tokens.
use essa_db.Prelude.{
  ℕ, Str, codes, String, Bool, true, false, Option, none, some, List, [], ◌∷◌, if◌then◌else◌,
  Result, DbError, str_eq,
}
use essa_db.Prelude
use essa_db.Lexer.Token.{Token, TokenType, is}

-- The tokens from `m_offset` on stand for the offset. `out_of_fuel` has no counterpart in the program.
pub data Reply (A : Type 0) : Type 0 where
  read : A → List Token → Reply A
  failed : DbError → Reply A
  undefined out_of_fuel : Reply A

abbrev pub Parser : Type 0 → Type 0
Parser A = List Token → Reply A

module _ {A : Type 0} where
  unfoldable pub pure : A → Parser A
  pure a ts = read a ts

  unfoldable pub fail : DbError → Parser A
  fail e ts = failed e

  -- `expected(what, …)`, and another error of the parser.
  abbrev pub expected : String → Parser A
  expected what = fail (DbError.expected (codes what))

  abbrev pub syntax : String → Parser A
  syntax message = fail (DbError.syntax (codes message))

  -- A call outside the parser.
  unfoldable pub lift : Result A → Parser A
  lift (Prelude.ok a) ts = read a ts
  lift (Prelude.err e) ts = failed e
  lift Prelude.undefined ts = undefined

module _ {A B : Type 0} where
  abbrev pub continue : Reply A → (A → Parser B) → Reply B
  continue (read a rest) f = f a rest
  continue (failed e) f = failed e
  continue undefined f = undefined
  continue out_of_fuel f = out_of_fuel

  infixl 5 ◌>>=◌ ◌>>◌
  unfoldable pub ◌>>=◌ : Parser A → (A → Parser B) → Parser B
  m >>= f = λ ts. continue (m ts) f

  abbrev pub ◌>>◌ : Parser A → Parser B → Parser B
  m >> k = m >>= λ _. k

-- `m_tokens[m_offset++]`. Behind the last token nothing is defined.
unfoldable pub next : Parser Token
next [] = undefined
next (t ∷ ts) = read t ts

-- `m_tokens[m_offset]`
unfoldable pub peek : Parser Token
peek [] = undefined
peek (t ∷ ts) = read t (t ∷ ts)

-- `m_tokens[m_offset + 1]`
unfoldable pub peek_second : Parser Token
peek_second (t ∷ u ∷ ts) = read u (t ∷ u ∷ ts)
peek_second _ = undefined

-- `m_offset++` behind a token that was looked at.
abbrev pub skip : Parser (Unit {0})
skip = next >> pure tt

-- A token of a type that is stepped over, or the error.
unfoldable pub expect : TokenType → String → Parser Token
unfolding ◌>>=◌ next fail pure
expect type what = do t ← next; if is t.type type then pure t else expected what

-- The same where the error quotes the token behind the wrong one, which there may not be.
unfoldable pub expect_quoting_next : TokenType → String → Parser (Unit {0})
unfolding ◌>>=◌ next peek fail pure
expect_quoting_next type what = do
  t ← next
  if is t.type type then pure tt else (peek >> expected what)

-- Whether the next token is of that type, and then it is stepped over.
unfoldable pub accept : TokenType → Parser Bool
unfolding ◌>>=◌ next peek pure
accept type = do t ← peek; if is t.type type then (skip >> pure true) else pure false

-- The next token has to be of that type and is stepped over, with an error before it is.
unfoldable pub require : TokenType → String → Parser (Unit {0})
unfolding ◌>>=◌ next peek fail pure
require type what = do t ← peek; if is t.type type then skip else expected what
