-- ===== src/Parser/Query.antt =====
-- db/sql/Parser.cpp: what a query reads from, SELECT, and how the functions of the parser call
-- each other.
use essa_db.Prelude.{
  ℕ, zero, suc, ℤ, pos, negsuc, Str, str_eq, codes, not, Option, none, some, List, [], ◌∷◌,
  get_elem?, if◌then◌else◌, Result, ok, err, DbError,
}
use essa_db.Value.Types.{Platform}
use essa_db.Value.Number.{stoi}
use essa_db.Function.Numbers.{to_unsigned}
use essa_db.Lexer.Token.{Token, TokenType, is}
use essa_db.Expression.{Expr, absent, proxy}
use essa_db.Expression.Print.{print}
use essa_db.Query.Join.{JoinType}
use essa_db.Query.Table.{
  SelectColumn, Order, ascending, descending, OrderBySet, GroupOrPartition, group, partition,
  GroupBy, val, perc, Top, SelectOptions, TableExpression, no_table, join_of, cross_join_of,
  select_table,
}
use essa_db.Parser.Reply.{
  out_of_fuel, Parser, pure, fail, expected, lift, next, peek, peek_second, skip, expect,
  expect_quoting_next, require, accept, ◌>>=◌, ◌>>◌,
}
use essa_db.Parser.Operator.{is_join_expression, token_to_join_operation}
use essa_db.Parser.Simple.{parse_identifier, parse_table_identifier, or_undefined}
use essa_db.Parser.Expression.{
  Calls, Select, parse_expression, parse_operand, parse_arguments, parse_in_arguments, parse_cases,
}

-- TOP, with its number of rows: an `int` that becomes an `unsigned`.
unfoldable pub top_value : Str → Result ℕ
unfolding stoi to_unsigned
top_value s = elim (stoi s) [
  | none ↦ err (DbError.syntax (codes "Internal error: Invalid value for int token for TOP"))
  | some i ↦ ok (to_unsigned i)
]

unfoldable pub parse_top : Parser (Option Top)
unfolding ◌>>=◌ pure lift next peek expect accept top_value
parse_top = do
  given ← accept TokenType.keyword_top
  if not given then pure none else do
    t ← expect TokenType.int "integer for TOP value"
    n ← lift (top_value t.value)
    u ← peek
    if str_eq u.value (codes "PERC")
        then (do skip; pure (some (record { unit = perc; value = n })))
        else pure (some (record { unit = val; value = n }))

unfoldable pub parse_as : Parser (Option Str)
unfolding ◌>>=◌ pure accept expect
parse_as = do
  given ← accept TokenType.keyword_as
  if not given
      then pure none
      else do t ← expect TokenType.identifier "identifier in alias"; pure (some t.value)

unfoldable pub parse_into : Parser (Option Str)
unfolding ◌>>=◌ pure accept expect
parse_into = do
  given ← accept TokenType.keyword_into
  if not given
      then pure none
      else do t ← expect TokenType.identifier "table name after 'INTO'"; pure (some t.value)

-- ASC is looked for in capitals; any other word of the kind is DESC.
unfoldable pub parse_order : Parser Order
unfolding ◌>>=◌ pure next peek
parse_order = do
  t ← peek
  if is t.type TokenType.order_by_param
      then (do skip; pure (if str_eq t.value (codes "ASC") then ascending else descending))
      else pure ascending

-- The kind of a join. FULL has to stand before OUTER.
unfoldable pub parse_join_kind : Token → Parser JoinType
unfolding ◌>>=◌ pure require token_to_join_operation
parse_join_kind t =
    if is t.type TokenType.keyword_full
    then (do require TokenType.keyword_outer "'OUTER' after 'FULL'"; pure JoinType.outer_join)
    else pure (token_to_join_operation t)

-- The column that a number in ORDER BY stands for, counted from 1.
unfoldable pub column_at : {F : Type 0} → List (SelectColumn F) → ℤ → Result (Expr F)
column_at [] i = err (DbError.syntax (codes "Index is not allowed when using SELECT *"))
column_at (c ∷ cs) (negsuc n) = err (DbError.syntax (codes "Index must be positive"))
column_at (c ∷ cs) (pos zero) = err (DbError.syntax (codes "Index must be positive"))
column_at (c ∷ cs) (pos (suc n)) = elim (get_elem? (c ∷ cs) n) [
  | none ↦ err (DbError.syntax (codes "Index is out of range"))
  | some column ↦ ok (proxy column.column)
]

module _ (p : Platform)
    (select_expression : SelectOptions p.Float → TableExpression p.Float → Expr p.Float)
    (rec : Calls p.Float) where
  open p use {Float}

  -- The loop of `parse_join_expression`.
  unfoldable pub parse_joins : TableExpression Float → Parser (TableExpression Float)
  unfolding ◌>>=◌ pure peek next expect parse_join_kind parse_identifier is_join_expression
  parse_joins lhs = do
    t ← peek
    if not (is_join_expression t)
        then pure lhs
        else if is t.type TokenType.comma
        then (do skip; rhs ← rec.table_expression; rec.joins (cross_join_of lhs rhs))
        else (do
          skip
          kind ← parse_join_kind t
          expect TokenType.keyword_join "'JOIN'"
          rhs ← rec.table_expression
          expect TokenType.keyword_on "'ON' expression after 'JOIN'"
          on_lhs ← parse_identifier
          expect TokenType.op_equal "'=' after column name"
          on_rhs ← parse_identifier
          rec.joins (join_of lhs on_lhs.0 kind rhs on_rhs.0))

  -- The last parenthesis is stepped over, whatever stands in its place.
  unfoldable pub parse_table_expression : Parser (TableExpression Float)
  unfolding ◌>>=◌ pure fail peek peek_second next parse_table_identifier parse_joins
  parse_table_expression = do
    t ← peek
    lhs ←
        (if is t.type TokenType.identifier
          then parse_table_identifier
          else if is t.type TokenType.paren_open
          then (do
            postfix ← peek_second
            if is postfix.type TokenType.keyword_select
                then (do skip; (o, from) ← rec.select; next; pure (select_table o from))
                else (do skip; e ← rec.table_expression; next; pure e))
          else expected "table or expression")
    parse_joins lhs

  -- The loops of SELECT over its columns, over the names of GROUP BY and over ORDER BY.
  unfoldable pub parse_columns : Parser (List (SelectColumn Float))
  unfolding ◌>>=◌ pure accept parse_as
  parse_columns = do
    e ← rec.expression 0
    alias ← parse_as
    more ← accept TokenType.comma
    rest ← (if more then rec.columns else pure [])
    pure (record { alias = alias; column = e } ∷ rest)

  unfoldable pub parse_names : Parser (List Str)
  unfolding ◌>>=◌ pure lift accept
  parse_names = do
    e ← rec.expression 0
    name ← lift (print p e)
    more ← accept TokenType.comma
    rest ← (if more then rec.names else pure [])
    pure (name ∷ rest)

  unfoldable pub parse_expression_or_index : List (SelectColumn Float) → Parser (Expr Float)
  unfolding ◌>>=◌ peek next lift column_at stoi
  parse_expression_or_index columns = do
    t ← peek
    if is t.type TokenType.int
        then (do skip; i ← lift (or_undefined (stoi t.value)); lift (column_at columns i))
        else rec.expression 0

  unfoldable pub parse_orders : List (SelectColumn Float) → Parser (List (OrderBySet Float))
  unfolding ◌>>=◌ pure accept parse_expression_or_index parse_order
  parse_orders columns = do
    e ← parse_expression_or_index columns
    order ← parse_order
    more ← accept TokenType.comma
    rest ← (if more then rec.orders columns else pure [])
    pure (record { expression = e; order = order } ∷ rest)

  -- WHERE or HAVING, whichever keyword is given.
  unfoldable pub parse_condition : TokenType → Parser (Expr Float)
  unfolding ◌>>=◌ pure accept
  parse_condition keyword = do
    given ← accept keyword
    if given then rec.expression 0 else pure absent

  unfoldable pub parse_from : Parser (TableExpression Float)
  unfolding ◌>>=◌ pure accept
  parse_from = do
    given ← accept TokenType.keyword_from
    if given then rec.table_expression else pure no_table

  -- GROUP BY or PARTITION BY, behind what was given before it, which it replaces.
  unfoldable pub parse_group_by :
      TokenType → GroupOrPartition → Option GroupBy → Parser (Option GroupBy)
  unfolding ◌>>=◌ pure accept expect_quoting_next
  parse_group_by keyword kind before = do
    given ← accept keyword
    if not given then pure before else do
      expect_quoting_next TokenType.keyword_by "'BY' after 'GROUP"
      names ← rec.names
      pure (some (record { kind = kind; columns = names }))

  unfoldable pub parse_order_by :
      List (SelectColumn Float) → Parser (Option (List (OrderBySet Float)))
  unfolding ◌>>=◌ pure accept expect_quoting_next
  parse_order_by columns = do
    given ← accept TokenType.keyword_order
    if not given then pure none else do
      expect_quoting_next TokenType.keyword_by "'BY' after 'ORDER"
      orders ← rec.orders columns
      pure (some orders)

  unfoldable pub parse_select : Parser (Select Float)
  unfolding ◌>>=◌ pure next accept parse_top parse_into parse_from parse_condition parse_group_by
      parse_order_by
  parse_select = do
    skip
    distinct ← accept TokenType.keyword_distinct
    top ← parse_top
    all ← accept TokenType.asterisk
    columns ← (if all then pure [] else rec.columns)
    select_into ← parse_into
    from ← parse_from
    where_ ← parse_condition TokenType.keyword_where
    grouped ← parse_group_by TokenType.keyword_group group none
    group_by ← parse_group_by TokenType.keyword_partition partition grouped
    having ← parse_condition TokenType.keyword_having
    order_by ← parse_order_by columns
    pure (
      record {
        columns = columns;
        where_ = where_;
        order_by = order_by;
        top = top;
        group_by = group_by;
        having = having;
        distinct = distinct;
        select_into = select_into;
      },
      from,
    )

abbrev pub twice : ℕ → ℕ
twice zero = zero
twice (suc n) = suc (suc (twice n))

module _ (p : Platform)
    (select_expression : SelectOptions p.Float → TableExpression p.Float → Expr p.Float) where
  open p use {Float}

  abbrev pub step : Calls Float → Calls Float
  step rec = record {
    expression = parse_expression p select_expression rec;
    operand = parse_operand p select_expression rec;
    arguments = parse_arguments p select_expression rec;
    in_arguments = parse_in_arguments p select_expression rec;
    cases = parse_cases p select_expression rec;
    select = parse_select p select_expression rec;
    table_expression = parse_table_expression p select_expression rec;
    joins = parse_joins p select_expression rec;
    columns = parse_columns p select_expression rec;
    names = parse_names p select_expression rec;
    orders = parse_orders p select_expression rec;
  }

  abbrev exhausted : {A : Type 0} → Parser A
  exhausted ts = out_of_fuel

  -- Calls within calls, as deep as the fuel allows.
  unfoldable pub calls : ℕ → Calls Float
  calls zero = record {
    expression = λ min_precedence. exhausted;
    operand = λ lhs min_precedence. exhausted;
    arguments = λ what. exhausted;
    in_arguments = exhausted;
    cases = λ otherwise. exhausted;
    select = exhausted;
    table_expression = exhausted;
    joins = λ lhs. exhausted;
    columns = exhausted;
    names = exhausted;
    orders = λ columns. exhausted;
  }
  calls (suc fuel) = step (calls fuel)
