-- ===== src/Parser/Simple.antt =====
-- db/sql/Parser.cpp: identifiers, literals, and the parts of statements that call no other part.
use essa_db.Prelude.{
  Str, str_eq, codes, Bool, not, ◌&&◌, Option, none, some, if◌then◌else◌, Result, ok, undefined, ap,
}
use essa_db.Prelude
use essa_db.Value.Types.{Platform, Value, null, int, float, varchar, bool, time}
use essa_db.Value.Number.{stoi}
use essa_db.Value.DateText.{from_iso8601_string}
use essa_db.Lexer.Scan.{compare_case_insensitive}
use essa_db.Lexer.Token.{Token, TokenType, is}
use essa_db.Query.Table.{TableExpression, table_identifier}
use essa_db.Database.Action.{Engine, memory, edb}
use essa_db.Statement.Define.{ExistenceCondition, exists_, not_exists, unspecified}
use essa_db.Parser.Reply.{
  Parser, pure, expected, syntax, lift, next, peek, skip, expect, require, accept, ◌>>=◌, ◌>>◌,
}

-- What nothing catches where it is thrown is undefined.
abbrev pub or_undefined : {A : Type 0} → Option A → Result A
or_undefined none = undefined
or_undefined (some a) = ok a

-- The name behind a period, and the name before it, which is that of a table.
unfoldable pub qualified : Str → Bool → Parser (Str × Option Str)
unfolding ◌>>=◌ expect pure
qualified name Bool.true = do
  t ← expect TokenType.identifier "identifier"
  pure (t.value, some name)
qualified name Bool.false = pure (name, none)

unfoldable pub parse_identifier : Parser (Str × Option Str)
unfolding ◌>>=◌ expect accept qualified
parse_identifier = do
  name ← expect TokenType.identifier "identifier"
  dot ← accept TokenType.period
  qualified name.value dot

unfoldable pub is_alias : Token → Bool
is_alias t =
    is t.type TokenType.identifier
    && not (str_eq t.value (codes "LEFT"))
    && not (str_eq t.value (codes "RIGHT"))

-- An alias that stands behind AS, or alone if it is no LEFT or RIGHT in capitals.
unfoldable pub parse_alias : Parser (Option Str)
unfolding ◌>>=◌ peek next expect pure is_alias
parse_alias = do
  t ← peek
  if is_alias t
      then (skip >> pure (some t.value))
      else if is t.type TokenType.keyword_as
      then (do skip; a ← expect TokenType.identifier "identifier"; pure (some a.value))
      else pure none

unfoldable pub parse_table_identifier : {F : Type 0} → Parser (TableExpression F)
unfolding ◌>>=◌ expect parse_alias pure
parse_table_identifier = do
  name ← expect TokenType.identifier "identifier"
  alias ← parse_alias
  pure (table_identifier name.value alias)

module _ (p : Platform) where
  open p use {Float, stof}

  -- The value of a literal. `std::stoi` and `std::stof` throw where a number does not fit.
  unfoldable pub literal_value : TokenType → Str → Result (Value Float)
  unfolding stoi from_iso8601_string
  literal_value TokenType.int s = Prelude.◌>>=◌ (or_undefined (stoi s)) λ i. ok (int i)
  literal_value TokenType.float s = Prelude.◌>>=◌ (or_undefined (stof s)) λ f. ok (float f)
  literal_value TokenType.string s = ok (varchar s)
  literal_value TokenType.bool s = ok (bool (str_eq s (codes "TRUE")))
  literal_value TokenType.date s = Prelude.◌>>=◌ (from_iso8601_string s) λ d. ok (time d)
  literal_value TokenType.keyword_null s = ok null
  literal_value _ s = Prelude.err (Prelude.DbError.expected (codes "literal"))

  -- (Every caller has seen that there is a literal.)
  unfoldable pub parse_literal : Parser (Value Float)
  unfolding ◌>>=◌ next lift literal_value
  parse_literal = do t ← next; lift (literal_value t.type t.value)

unfoldable pub parse_engine_specification : Parser (Option Engine)
unfolding ◌>>=◌ accept expect pure compare_case_insensitive
parse_engine_specification = do
  given ← accept TokenType.keyword_engine
  if not given then pure none else do
    t ← expect TokenType.identifier "identifier"
    if compare_case_insensitive t.value (codes "EDB")
        then pure (some edb)
        else if compare_case_insensitive t.value (codes "MEMORY")
        then pure (some memory)
        else syntax "Invalid database engine, expected 'EDB' or 'MEMORY'"

unfoldable pub parse_table_existence : Parser ExistenceCondition
unfolding ◌>>=◌ accept next require pure
parse_table_existence = do
  given ← accept TokenType.keyword_if
  if not given then pure unspecified else do
    first ← next
    if is first.type TokenType.keyword_exists
        then pure exists_
        else if is first.type TokenType.keyword_not
        then (do require TokenType.keyword_exists "'EXISTS' after \"NOT'"; pure not_exists)
        else expected "'EXISTS' or \"NOT EXISTS'"
