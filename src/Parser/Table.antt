-- ===== src/Parser/Table.antt =====
-- db/sql/Parser.cpp: the columns and the checks of CREATE TABLE and ALTER TABLE.
use essa_db.Prelude.{
  ℕ, zero, suc, Str, str_eq, codes, Bool, true, false, not, ◌||◌, Option, none, some, List, [], ◌∷◌,
  ◌++◌, length, if◌then◌else◌, Result, ok, err, DbError,
}
use essa_db.Value.Types.{Platform, Value, ValueType, type_from_string}
use essa_db.Lexer.Token.{Token, TokenType, is}
use essa_db.Expression.{Expr}
use essa_db.Expression.Check.{Check, find, add_check, add_constraint}
use essa_db.Table.State.{ForeignKey}
use essa_db.Statement.Define.{ParsedColumn, Key, no_key, primary, foreign, AlterTable}
use essa_db.Parser.Reply.{
  out_of_fuel, Parser, pure, fail, expected, syntax, lift, next, peek, skip, expect, require,
  accept, ◌>>=◌, ◌>>◌,
}
use essa_db.Parser.Operator.{is_literal}
use essa_db.Parser.Simple.{parse_literal}

-- A loop, each round of which takes a token at least.
abbrev pub with_fuel : {A : Type 0} → (ℕ → Parser A) → Parser A
with_fuel loop ts = loop (suc (length ts)) ts

abbrev pub spent : {A : Type 0} → Parser A
spent ts = out_of_fuel

abbrev is_given : {A : Type 0} → Option A → Bool
is_given none = false
is_given (some a) = true

-- Names with commas between them.
unfoldable pub parse_name_list : ℕ → Parser (List Str)
unfolding ◌>>=◌ pure expect accept
parse_name_list zero = spent
parse_name_list (suc fuel) = do
  t ← expect TokenType.identifier "column name"
  more ← accept TokenType.comma
  rest ← (if more then parse_name_list fuel else pure [])
  pure (t.value ∷ rest)

-- What `parse_column` has read behind the type of a column.
pub record Params (F : Type 0) : Type 0 where
  pub auto_increment : Bool
  pub unique : Bool
  pub not_null : Bool
  pub default : Option (Value F)
  pub key : Key

module _ {F : Type 0} where
  abbrev no_params : Params F
  no_params = record {
    auto_increment = false;
    unique = false;
    not_null = false;
    default = none;
    key = no_key;
  }

unfoldable pub is_param : TokenType → Bool
is_param TokenType.identifier = true
is_param TokenType.keyword_default = true
is_param TokenType.keyword_foreign = true
is_param TokenType.keyword_not = true
is_param TokenType.keyword_primary = true
is_param TokenType.keyword_unique = true
is_param _ = false

-- KEY REFERENCES table (column)
unfoldable pub parse_references : Str → Parser ForeignKey
unfolding ◌>>=◌ pure expect
parse_references name = do
  expect TokenType.keyword_key "'KEY' after 'FOREIGN'"
  expect TokenType.keyword_references "'REFERENCES' after 'FOREIGN KEY'"
  table ← expect TokenType.identifier "referenced table name"
  expect TokenType.paren_open "'('"
  column ← expect TokenType.identifier "referenced column name"
  expect TokenType.paren_close "')'"
  pure (record {
    local_column = name;
    referenced_table = table.value;
    referenced_column = column.value;
  })

module _ (p : Platform) where
  open p use {Float}

  unfoldable pub parse_default : Params Float → Parser (Params Float)
  unfolding ◌>>=◌ pure fail peek is_literal parse_literal
  parse_default given = do
    t ← peek
    if not (is_literal t.type) then syntax "Expected value after `DEFAULT`" else do
      v ← parse_literal p
      if is_given given.default
          then syntax "Column already has its default value"
          else pure (record given { default = some v })

  -- What one parameter of a column, which was stepped over, adds to those before it.
  unfoldable pub parse_param : Str → Token → Params Float → Parser (Params Float)
  unfolding ◌>>=◌ pure fail next peek require parse_default parse_references
  parse_param name t given =
      if str_eq t.value (codes "AUTO_INCREMENT")
      then pure (record given { auto_increment = true })
      else if is t.type TokenType.keyword_unique
      then (if given.unique
          then syntax "Column is already 'UNIQUE'"
          else pure (record given { unique = true }))
      else if is t.type TokenType.keyword_not
      then (do
        require TokenType.keyword_null "'NULL' after 'NOT'"
        if given.not_null
            then syntax "Column is already 'NOT NULL'"
            else pure (record given { not_null = true }))
      else if is t.type TokenType.keyword_default
      then parse_default given
      else if is t.type TokenType.keyword_primary
      then (do
        require TokenType.keyword_key "'KEY' after 'PRIMARY'"
        if given.unique || given.not_null
            then syntax "Column is already 'UNIQUE' or 'NOT NULL'"
            else pure (record given { unique = true; not_null = true; key = primary name }))
      else if is t.type TokenType.keyword_foreign
      then (do fk ← parse_references name; pure (record given { key = foreign fk }))
      else syntax "Invalid param for column"

  unfoldable pub parse_params : ℕ → Str → Params Float → Parser (Params Float)
  unfolding ◌>>=◌ pure peek next is_param parse_param
  parse_params zero name given = spent
  parse_params (suc fuel) name given = do
    t ← peek
    if not (is_param t.type)
        then pure given
        else do skip; more ← parse_param name t given; parse_params fuel name more

  unfoldable pub parse_type : Str → Result ValueType
  unfolding type_from_string
  parse_type s = elim (type_from_string s) [
    | none ↦ err (DbError.syntax (codes "Invalid type"))
    | some type ↦ ok type
  ]

  unfoldable pub parse_column : Parser (ParsedColumn Float)
  unfolding ◌>>=◌ pure lift expect parse_type parse_params
  parse_column = do
    name ← expect TokenType.identifier "column name"
    word ← expect TokenType.identifier "column type"
    type ← lift (parse_type word.value)
    params ← with_fuel (λ fuel. parse_params fuel name.value no_params)
    pure (record {
      column = record {
        name = name.value;
        type = type;
        auto_increment = params.auto_increment;
        unique = params.unique;
        not_null = params.not_null;
        default = params.default;
      };
      key = params.key;
    })

module _ (p : Platform) (parse_any : Parser (Expr p.Float)) where
  open p use {Float}

  -- The checks behind a column of CREATE TABLE.
  unfoldable pub parse_checks : ℕ → Check Float → Parser (Check Float)
  unfolding ◌>>=◌ pure fail lift peek next expect require add_check add_constraint find
  parse_checks zero check = spent
  parse_checks (suc fuel) check = do
    t ← peek
    if is t.type TokenType.keyword_check
        then (do
          skip
          if is_given check.main_rule
              then syntax "Default rule already exists"
              else do e ← parse_any; more ← lift (add_check e check); parse_checks fuel more)
        else if is t.type TokenType.keyword_constraint
        then (do
          skip
          name ← expect TokenType.identifier "identifier"
          if is_given (find name.value check.constraints)
              then syntax "Constraint with that name already exists"
              else do
                require TokenType.keyword_check "'CHECK' after identifier"
                e ← parse_any
                more ← lift (add_constraint name.value e check)
                parse_checks fuel more)
        else pure check

  unfoldable pub parse_columns_and_checks :
      ℕ → Check Float → Parser (List (ParsedColumn Float) × Check Float)
  unfolding ◌>>=◌ pure accept parse_column parse_checks
  parse_columns_and_checks zero check = spent
  parse_columns_and_checks (suc fuel) check = do
    column ← parse_column p
    checked ← with_fuel (λ rounds. parse_checks rounds check)
    more ← accept TokenType.comma
    rest ← (if more then parse_columns_and_checks fuel checked else pure ([], checked))
    pure (column ∷ rest.0, rest.1)

  -- CONSTRAINT name CHECK expression, behind the first word.
  unfoldable pub parse_constraint : Parser (Str × Expr Float)
  unfolding ◌>>=◌ pure expect
  parse_constraint = do
    name ← expect TokenType.identifier "constraint name"
    expect TokenType.keyword_check "'CHECK' keyword"
    e ← parse_any
    pure (name.value, e)

  unfoldable pub parse_add : AlterTable Float → Parser (AlterTable Float)
  unfolding ◌>>=◌ pure fail peek next parse_column parse_constraint
  parse_add a = do
    t ← peek
    if is t.type TokenType.identifier
        then (do c ← parse_column p; pure (record a { to_add = a.to_add ++ (c ∷ []) }))
        else if is t.type TokenType.keyword_check
        then (do skip; e ← parse_any; pure (record a { check_to_add = some e }))
        else if is t.type TokenType.keyword_constraint
        then (do
          skip
          c ← parse_constraint
          pure (record a { constraint_to_add = a.constraint_to_add ++ (c ∷ []) }))
        else (do skip; peek; expected "thing to alter")

  unfoldable pub parse_alter : AlterTable Float → Parser (AlterTable Float)
  unfolding ◌>>=◌ pure fail peek next parse_column parse_constraint
  parse_alter a = do
    t ← next
    if is t.type TokenType.keyword_column
        then (do c ← parse_column p; pure (record a { to_alter = a.to_alter ++ (c ∷ []) }))
        else if is t.type TokenType.keyword_check
        then (do e ← parse_any; pure (record a { check_to_alter = some e }))
        else if is t.type TokenType.keyword_constraint
        then (do
          c ← parse_constraint
          pure (record a { constraint_to_alter = a.constraint_to_alter ++ (c ∷ []) }))
        else (do peek; expected "thing to alter")

  unfoldable pub parse_drop : AlterTable Float → Parser (AlterTable Float)
  unfolding ◌>>=◌ pure fail peek next expect parse_name_list
  parse_drop a = do
    t ← next
    if is t.type TokenType.keyword_column
        then (do
          names ← with_fuel parse_name_list
          pure (record a { to_drop = a.to_drop ++ names }))
        else if is t.type TokenType.keyword_check
        then pure (record a { check_to_drop = true })
        else if is t.type TokenType.keyword_constraint
        then (do
          name ← expect TokenType.identifier "constraint name"
          pure (record a { constraint_to_drop = a.constraint_to_drop ++ (name.value ∷ []) }))
        else (do peek; expected "thing to drop")

  -- The loop over what ALTER TABLE does.
  unfoldable pub parse_changes : ℕ → AlterTable Float → Parser (AlterTable Float)
  unfolding ◌>>=◌ pure fail next accept parse_add parse_alter parse_drop
  parse_changes zero a = spent
  parse_changes (suc fuel) a = do
    t ← next
    b ←
        (if is t.type TokenType.keyword_add
          then parse_add a
          else if is t.type TokenType.keyword_alter
          then parse_alter a
          else if is t.type TokenType.keyword_drop
          then parse_drop a
          else syntax "Unrecognized option")
    more ← accept TokenType.comma
    if more then parse_changes fuel b else pure b
