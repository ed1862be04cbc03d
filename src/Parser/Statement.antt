-- ===== src/Parser/Statement.antt =====
-- db/sql/Parser.cpp: statements, and lists of them; the statements of db/sql/ast.
use essa_db.Prelude.{
  ℕ, zero, suc, Str, codes, String, Bool, true, false, not, ◌&&◌, Option, none, some, List, [], ◌∷◌,
  length, if◌then◌else◌,
}
use essa_db.Value.Types.{Platform}
use essa_db.Lexer.Token.{Token, TokenType, is}
use essa_db.Lexer.Scan.{compare_case_insensitive}
use essa_db.Expression.{Expr, Exprs, nil, cons, absent}
use essa_db.Expression.Check.{Check}
use essa_db.Query.Table.{SelectOptions, TableExpression}
use essa_db.Database.Action.{Engine, memory}
use essa_db.Statement.Define.{
  ExistenceCondition, exists_, not_exists, unspecified, ParsedColumn, AlterTable,
}
use essa_db.Parser.Reply.{
  read, undefined, Parser, pure, fail, expected, syntax, next, peek, peek_second, skip, expect,
  accept, ◌>>=◌, ◌>>◌,
}
use essa_db.Parser.Simple.{parse_engine_specification, parse_table_existence}
use essa_db.Parser.Expression.{Calls, Select, parse_expression_list}
use essa_db.Parser.Query.{calls, twice}
use essa_db.Parser.Table.{
  with_fuel, spent, parse_name_list, parse_columns_and_checks, parse_changes,
}

pub data AstStatement (F : Type 0) : Type 0 where
  select_statement : Select F → AstStatement F
  union : Select F → Select F → Bool → AstStatement F
  create_table :
      ExistenceCondition → Str → List (ParsedColumn F) → Check F → Option Engine → AstStatement F
  drop_table : ExistenceCondition → Str → AstStatement F
  truncate_table : ExistenceCondition → Str → AstStatement F
  alter_table : ExistenceCondition → Str → AlterTable F → AstStatement F
  delete_from : Str → Expr F → AstStatement F
  insert_values : Str → List Str → List (Expr F) → AstStatement F
  insert_select : Str → List Str → Select F → AstStatement F
  update : Str → List (Str × Expr F) → AstStatement F
  import_csv : Str → Str → Option Engine → AstStatement F
  show_tables : AstStatement F
  print : AstStatement F → AstStatement F

abbrev is_condition : ExistenceCondition → ExistenceCondition → Bool
is_condition exists_ exists_ = true
is_condition not_exists not_exists = true
is_condition unspecified unspecified = true
is_condition _ _ = false

-- The existence condition and the name of DROP TABLE and TRUNCATE TABLE, the two words of which are
-- stepped over.
unfoldable pub parse_existing_table : Parser (ExistenceCondition × Str)
unfolding ◌>>=◌ pure fail next expect parse_table_existence
parse_existing_table = do
  skip
  skip
  cond ← parse_table_existence
  if is_condition cond not_exists
      then syntax "NOT EXISTS cannot be used here"
      else do name ← expect TokenType.identifier "table name"; pure (cond, name.value)

module _ {F : Type 0} where
  abbrev no_changes : AlterTable F
  no_changes = record {
    to_add = [];
    to_alter = [];
    to_drop = [];
    check_to_add = none;
    check_to_alter = none;
    check_to_drop = false;
    constraint_to_add = [];
    constraint_to_alter = [];
    constraint_to_drop = [];
  }

  abbrev no_checks : Check F
  no_checks = record { address = 0; main_rule = none; constraints = [] }

  unfoldable pub listed : Exprs F → List (Expr F)
  listed nil = []
  listed (cons e es) = e ∷ listed es

  unfoldable pub parse_import : Parser (AstStatement F)
  unfolding ◌>>=◌ pure fail next expect parse_engine_specification compare_case_insensitive
  parse_import = do
    skip
    mode ← expect TokenType.identifier "mode ('CSV')"
    if not (compare_case_insensitive mode.value (codes "CSV"))
        then syntax "Invalid import mode"
        else do
          file ← expect TokenType.string "file name (string)"
          expect TokenType.keyword_into "'INTO'"
          name ← expect TokenType.identifier "table name"
          engine ← parse_engine_specification
          pure (import_csv file.value name.value engine)

  unfoldable pub parse_show : Parser (AstStatement F)
  unfolding ◌>>=◌ pure next expect
  parse_show = do skip; expect TokenType.keyword_tables "'TABLES'"; pure show_tables

module _ (p : Platform)
    (select_expression : SelectOptions p.Float → TableExpression p.Float → Expr p.Float)
    (rec : Calls p.Float) where
  open p use {Float}

  abbrev parse_any : Parser (Expr Float)
  parse_any = rec.expression 0

  unfoldable pub parse_select_statement : Parser (AstStatement Float)
  unfolding ◌>>=◌ pure accept fail peek
  parse_select_statement = do
    lhs ← rec.select
    united ← accept TokenType.keyword_union
    if not united then pure (select_statement lhs) else do
      all ← accept TokenType.keyword_all
      t ← peek
      if not (is t.type TokenType.keyword_select)
          then expected "'SELECT' after 'UNION' statement"
          else do rhs ← rec.select; pure (union lhs rhs (not all))

  -- SET column = expression, once for each column.
  unfoldable pub parse_updates : ℕ → Parser (List (Str × Expr Float))
  unfolding ◌>>=◌ pure accept expect
  parse_updates zero = spent
  parse_updates (suc fuel) = do
    expect TokenType.keyword_set "'SET'"
    column ← expect TokenType.identifier "column name"
    expect TokenType.op_equal "'='"
    e ← parse_any
    more ← accept TokenType.comma
    rest ← (if more then parse_updates fuel else pure [])
    pure ((column.value, e) ∷ rest)

  unfoldable pub parse_update : Parser (AstStatement Float)
  unfolding ◌>>=◌ pure next expect parse_updates
  parse_update = do
    skip
    name ← expect TokenType.identifier "table name after 'UPDATE'"
    pairs ← with_fuel parse_updates
    pure (update name.value pairs)

  unfoldable pub parse_delete_from : Parser (AstStatement Float)
  unfolding ◌>>=◌ pure next expect accept
  parse_delete_from = do
    skip
    expect TokenType.keyword_from "'FROM'"
    name ← expect TokenType.identifier "table name after 'FROM'"
    given ← accept TokenType.keyword_where
    e ← (if given then parse_any else pure absent)
    pure (delete_from name.value e)

  -- Without a list of columns the table is in memory.
  unfoldable pub parse_create_table : Parser (AstStatement Float)
  unfolding ◌>>=◌ pure fail next accept expect parse_table_existence parse_engine_specification
      parse_columns_and_checks
  parse_create_table = do
    skip
    skip
    cond ← parse_table_existence
    if is_condition cond exists_ then syntax "EXISTS cannot be used here" else do
      name ← expect TokenType.identifier "table name"
      paren ← accept TokenType.paren_open
      if not paren then pure (create_table cond name.value [] no_checks (some memory)) else do
        columns ← with_fuel (λ fuel. parse_columns_and_checks p parse_any fuel no_checks)
        expect TokenType.paren_close "')' to close column list"
        engine ← parse_engine_specification
        pure (create_table cond name.value columns.0 columns.1 engine)

  unfoldable pub parse_alter_table : Parser (AstStatement Float)
  unfolding ◌>>=◌ pure next expect parse_table_existence parse_changes
  parse_alter_table = do
    skip
    skip
    cond ← parse_table_existence
    name ← expect TokenType.identifier "table name"
    changes ← with_fuel (λ fuel. parse_changes p parse_any fuel no_changes)
    pure (alter_table cond name.value changes)

  -- The names of the columns in parentheses, if they are given.
  unfoldable pub parse_insert_columns : Parser (List Str)
  unfolding ◌>>=◌ pure accept expect parse_name_list
  parse_insert_columns = do
    paren ← accept TokenType.paren_open
    if not paren then pure [] else do
      columns ← with_fuel parse_name_list
      expect TokenType.paren_close "')' to close column list"
      pure columns

  unfoldable pub parse_insert_into : Parser (AstStatement Float)
  unfolding ◌>>=◌ pure fail next peek expect parse_insert_columns parse_expression_list
  parse_insert_into = do
    skip
    skip
    name ← expect TokenType.identifier "table name"
    paren ← peek
    if not (is paren.type TokenType.paren_open) && not (is paren.type TokenType.keyword_values)
        then pure (insert_values name.value [] [])
        else do
          columns ← parse_insert_columns
          t ← peek
          if is t.type TokenType.keyword_values
              then (do
                skip
                values ←
                    parse_expression_list p select_expression rec "'(' to open value list"
                      "')' to close value list"
                pure (insert_values name.value columns (listed values)))
              else if is t.type TokenType.keyword_select
              then (do query ← rec.select; pure (insert_select name.value columns query))
              else expected "'VALUES' or 'SELECT'"

  -- The second word of a statement, and what is parsed behind it.
  unfoldable pub second_word :
      TokenType → String → Parser (AstStatement Float) → Parser (AstStatement Float)
  unfolding ◌>>=◌ peek_second fail
  second_word type what rest = do t ← peek_second; if is t.type type then rest else expected what

  unfoldable pub parse_statement_impl : ℕ → Parser (AstStatement Float)
  unfolding ◌>>=◌ pure fail peek next second_word parse_select_statement parse_create_table
      parse_existing_table parse_alter_table parse_delete_from parse_insert_into parse_update
      parse_import parse_show
  parse_statement_impl zero = spent
  parse_statement_impl (suc fuel) = do
    let inner = parse_statement_impl fuel
    t ← peek
    if is t.type TokenType.keyword_select
        then parse_select_statement
        else if is t.type TokenType.keyword_create
        then second_word TokenType.keyword_table "thing to create" parse_create_table
        else if is t.type TokenType.keyword_drop
        then second_word TokenType.keyword_table "thing to drop"
            (do (cond, name) ← parse_existing_table; pure (drop_table cond name))
        else if is t.type TokenType.keyword_truncate
        then second_word TokenType.keyword_table "thing to truncate"
            (do (cond, name) ← parse_existing_table; pure (truncate_table cond name))
        else if is t.type TokenType.keyword_alter
        then second_word TokenType.keyword_table "thing to alter" parse_alter_table
        else if is t.type TokenType.keyword_delete
        then parse_delete_from
        else if is t.type TokenType.keyword_insert
        then second_word TokenType.keyword_into "'INTO' after 'INSERT'" parse_insert_into
        else if is t.type TokenType.keyword_update
        then parse_update
        else if is t.type TokenType.keyword_import
        then parse_import
        else if is t.type TokenType.keyword_show
        then parse_show
        else if is t.type TokenType.keyword_print
        then (do skip; s ← inner; pure (print s))
        else expected "statement"

  -- The loop of `parse_statement_list_impl`, up to the end of the text.
  unfoldable pub parse_statements : ℕ → Parser (List (AstStatement Float))
  unfolding ◌>>=◌ pure peek expect parse_statement_impl
  parse_statements zero = spent
  parse_statements (suc fuel) = do
    t ← peek
    if is t.type TokenType.eof then pure [] else do
      s ← with_fuel parse_statement_impl
      expect TokenType.semicolon "semicolon at the end of statement"
      rest ← parse_statements fuel
      pure (s ∷ rest)

module _ (p : Platform)
    (select_expression : SelectOptions p.Float → TableExpression p.Float → Expr p.Float) where
  open p use {Float}

  -- A call takes a token at least before it calls another, or enters a loop in which one does.
  abbrev pub all_calls : List Token → Calls Float
  all_calls ts = calls p select_expression (twice (suc (length ts)))

  unfoldable pub at_end : {A : Type 0} → A → Parser A
  unfolding ◌>>=◌ pure fail peek
  at_end a = do t ← peek; if is t.type TokenType.eof then pure a else syntax "Trailing code found"

  unfoldable pub parse_statement : Parser (AstStatement Float)
  unfolding ◌>>=◌ accept parse_statement_impl at_end calls
  parse_statement ts =
      (do
        s ← with_fuel (parse_statement_impl p select_expression (all_calls ts))
        semicolon ← accept TokenType.semicolon
        at_end s)
        ts

  -- The list of the statements, the first of which says where it starts: without one nothing is
  -- defined.
  unfoldable pub some_statements : List (AstStatement Float) → Parser (List (AstStatement Float))
  some_statements [] ts = undefined
  some_statements (s ∷ ss) ts = read (s ∷ ss) ts

  unfoldable pub parse_statement_list : Parser (List (AstStatement Float))
  unfolding ◌>>=◌ parse_statements some_statements at_end calls
  parse_statement_list ts =
      (do
        ss ← with_fuel (parse_statements p select_expression (all_calls ts))
        some_statements ss
        at_end ss)
        ts
