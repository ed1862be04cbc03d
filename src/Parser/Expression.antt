-- ===== src/Parser/Expression.antt =====
-- db/sql/Parser.cpp: expressions.
use essa_db.Prelude.{
  ℕ, ◌+◌, Str, str_eq, codes, String, Bool, true, false, not, leb, ◌||◌, List, if◌then◌else◌,
}
use essa_db.Value.Types.{Platform}
use essa_db.Lexer.Token.{TokenType, is}
use essa_db.Aggregate.{AggregateFunction}
use essa_db.Expression.{
  Expr, Exprs, Cases, What, absent, literal, identifier, binary, arithmetic, minus, between, is_in,
  case_of, function, aggregate, nil, cons, no_case, when,
}
use essa_db.Query.Table.{SelectColumn, OrderBySet, SelectOptions, TableExpression}
use essa_db.Parser.Reply.{
  Parser, pure, expected, next, peek, peek_second, skip, expect, expect_quoting_next, require,
  accept, ◌>>=◌, ◌>>◌,
}
use essa_db.Parser.Operator.{
  is_literal, operator_precedence, is_binary_operator, is_arithmetic_operator,
  token_type_to_binary_operation, token_type_to_arithmetic_operation, to_aggregate_function,
}
use essa_db.Parser.Simple.{parse_identifier, parse_literal}

abbrev pub Select : Type 0 → Type 0
Select F = SelectOptions F × TableExpression F

-- The functions that others call once a token is behind them, and the rounds of the loops behind
-- the first one.
pub record Calls (F : Type 0) : Type 0 where
  pub expression : ℕ → Parser (Expr F)
  pub operand : Expr F → ℕ → Parser (Expr F)
  pub arguments : String → Parser (Exprs F)
  pub in_arguments : Parser (Exprs F)
  pub cases : Expr F → Parser (Cases F × Expr F)
  pub select : Parser (Select F)
  pub table_expression : Parser (TableExpression F)
  pub joins : TableExpression F → Parser (TableExpression F)
  pub columns : Parser (List (SelectColumn F))
  pub names : Parser (List Str)
  pub orders : List (SelectColumn F) → Parser (List (OrderBySet F))

-- The right side of an operator: `BetweenRange`, `InArgs`, `IsArgs` or an expression.
pub data Operand (F : Type 0) : Type 0 where
  between_range : Expr F → Expr F → Operand F
  in_args : Exprs F → Operand F
  is_args : What → Operand F
  expression : Expr F → Operand F

abbrev is_aggregate : AggregateFunction → Bool
is_aggregate AggregateFunction.invalid = false
is_aggregate _ = true

abbrev is_operator : TokenType → Bool
is_operator op = is_binary_operator op || is_arithmetic_operator op

unfoldable pub parse_is : Parser What
unfolding ◌>>=◌ next pure
parse_is = do
  t ← next
  if is t.type TokenType.keyword_null
      then pure What.null
      else if is t.type TokenType.keyword_not
      then (do expect TokenType.keyword_null "'NULL' after 'IS NOT'"; pure What.not_null)
      else expected "'NULL' or 'NOT NULL' after 'IS'"

-- OVER (PARTITION BY name), of which nothing is kept that is ever read.
unfoldable pub parse_over : Parser (Unit {0})
unfolding ◌>>=◌ accept pure expect_quoting_next
parse_over = do
  over ← accept TokenType.keyword_over
  if not over then pure tt else do
    expect_quoting_next TokenType.paren_open "'(' for 'OVER PARTITION' clause"
    expect_quoting_next TokenType.keyword_partition "'PARTITION' for 'OVER PARTITION' clause"
    expect_quoting_next TokenType.keyword_by "'BY' after 'PARTITION'"
    expect_quoting_next TokenType.identifier "identifier after 'PARTITION BY'"
    expect_quoting_next TokenType.paren_close "')' to close 'OVER' clause"

module _ {F : Type 0} where
  abbrev is_absent : Expr F → Bool
  is_absent absent = true
  is_absent _ = false

  unfoldable pub combine : TokenType → Expr F → Expr F → Expr F
  combine op lhs rhs =
      if is_binary_operator op
      then binary lhs (token_type_to_binary_operation op) rhs
      else arithmetic lhs (token_type_to_arithmetic_operation op) rhs

-- `select_expression` is the node `SelectExpression`, of which the model has no expression.
module _ (p : Platform)
    (select_expression : SelectOptions p.Float → TableExpression p.Float → Expr p.Float)
    (rec : Calls p.Float) where
  open p use {Float}

  abbrev parse_any : Parser (Expr Float)
  parse_any = rec.expression 0

  -- The loop of `parse_expression_list`, which a comma goes on with.
  unfoldable pub parse_arguments : String → Parser (Exprs Float)
  unfolding ◌>>=◌ pure next peek
  parse_arguments what = do
    e ← parse_any
    t ← peek
    if is t.type TokenType.paren_close
        then (do skip; pure (cons e nil))
        else if is t.type TokenType.comma
        then (do skip; es ← rec.arguments what; pure (cons e es))
        else expected what

  unfoldable pub parse_expression_list : String → String → Parser (Exprs Float)
  unfolding ◌>>=◌ require accept pure
  parse_expression_list open_what close_what = do
    require TokenType.paren_open open_what
    empty ← accept TokenType.paren_close
    if empty then pure nil else rec.arguments close_what

  unfoldable pub parse_in_arguments : Parser (Exprs Float)
  unfolding ◌>>=◌ accept require pure
  parse_in_arguments = do
    e ← parse_any
    more ← accept TokenType.comma
    if more
        then (do es ← rec.in_arguments; pure (cons e es))
        else (do require TokenType.paren_close "')' to close IN expression"; pure (cons e nil))

  unfoldable pub parse_in : Parser (Exprs Float)
  unfolding ◌>>=◌ expect
  parse_in = do expect TokenType.paren_open "'('"; rec.in_arguments

  unfoldable pub parse_between_range : Parser (Operand Float)
  unfolding ◌>>=◌ expect_quoting_next operator_precedence pure
  parse_between_range = do
    lo ← rec.expression (operator_precedence TokenType.keyword_between + 1)
    expect_quoting_next TokenType.keyword_and "'AND' in 'BETWEEN'"
    hi ← rec.expression (operator_precedence TokenType.keyword_between + 1)
    pure (between_range lo hi)

  -- A call of a function, from the parenthesis behind its name on.
  unfoldable pub parse_function : Str → Parser (Expr Float)
  unfolding ◌>>=◌ next pure to_aggregate_function expect_quoting_next parse_over
      parse_expression_list
  parse_function name =
      let f = to_aggregate_function name in
      if is_aggregate f
      then (do
        skip
        e ← parse_any
        expect_quoting_next TokenType.paren_close "')' to close aggregate function"
        parse_over
        pure (aggregate f e))
      else (do
        args ← parse_expression_list "'(' to open argument list" "')' to close argument list"
        pure (function name args))

  -- The loop over the parts of a CASE, with its ELSE so far.
  unfoldable pub parse_cases : Expr Float → Parser (Cases Float × Expr Float)
  unfolding ◌>>=◌ next peek expect pure
  parse_cases otherwise = do
    t ← peek
    if is t.type TokenType.keyword_when
        then (do
          skip
          if not (is_absent otherwise) then expected "'END' after 'ELSE'" else do
            e ← parse_any
            expect TokenType.keyword_then "'THEN'"
            v ← parse_any
            (cases, last) ← rec.cases otherwise
            pure (when e v cases, last))
        else if str_eq t.value (codes "ELSE")
        then (do
          skip
          if not (is_absent otherwise)
              then expected "'END' after 'ELSE'"
              else do e ← parse_any; rec.cases e)
        else if is t.type TokenType.keyword_end
        then (do skip; pure (no_case, otherwise))
        else expected "'WHEN', 'ELSE' or 'END'"

  unfoldable pub parse_rhs : TokenType → Parser (Operand Float)
  unfolding ◌>>=◌ pure parse_between_range parse_in parse_is operator_precedence
  parse_rhs op =
      if is op TokenType.keyword_between
      then parse_between_range
      else if is op TokenType.keyword_in
      then (do args ← parse_in; pure (in_args args))
      else if is op TokenType.keyword_is
      then (do what ← parse_is; pure (is_args what))
      else (do e ← rec.expression (operator_precedence op); pure (expression e))

  -- What an operand becomes if the operator behind it binds tighter.
  unfoldable pub merge : Bool → Expr Float → Parser (Expr Float)
  unfolding pure
  merge true e = pure e
  merge false e = rec.operand e 0

  -- `tight` says that the next operator does not bind tighter than `op`.
  unfoldable pub merge_operand : TokenType → Bool → Expr Float → Operand Float → Parser (Expr Float)
  unfolding ◌>>=◌ pure merge combine
  merge_operand op tight lhs (between_range lo hi) = do
    last ← merge tight hi
    pure (between lhs lo last)
  merge_operand op tight lhs (in_args args) = pure (is_in lhs args)
  merge_operand op tight lhs (is_args what) = pure (Expr.is lhs what)
  merge_operand op tight lhs (expression rhs) = do
    last ← merge tight rhs
    pure (combine op lhs last)

  -- One round of the loop of `parse_operand`. (The test before the loop is the first in it.)
  unfoldable pub parse_operand : Expr Float → ℕ → Parser (Expr Float)
  unfolding ◌>>=◌ peek next pure parse_rhs merge_operand operator_precedence is_binary_operator
      is_arithmetic_operator
  parse_operand lhs min_precedence = do
    t ← peek
    if not (is_operator t.type) || leb (operator_precedence t.type) min_precedence
        then pure lhs
        else do
          skip
          rhs ← parse_rhs t.type
          u ← peek
          new_lhs ←
              merge_operand t.type (leb (operator_precedence u.type) (operator_precedence t.type))
                lhs rhs
          rec.operand new_lhs min_precedence

  -- An expression without the operators behind it. The last parenthesis is stepped over, whatever
  -- stands in its place.
  unfoldable pub parse_primary : Parser (Expr Float)
  unfolding ◌>>=◌ peek peek_second next pure parse_function parse_identifier parse_literal
      parse_cases is_literal
  parse_primary = do
    t ← peek
    if is t.type TokenType.identifier
        then (do
          postfix ← peek_second
          if is postfix.type TokenType.paren_open
              then (do skip; parse_function t.value)
              else (do (id, table) ← parse_identifier; pure (identifier id table)))
        else if is t.type TokenType.op_sub
        then (do skip; e ← rec.expression 501; pure (minus e))
        else if is t.type TokenType.paren_open
        then (do
          postfix ← peek_second
          if is postfix.type TokenType.keyword_select
              then (do skip; (o, from) ← rec.select; next; pure (select_expression o from))
              else (do skip; e ← parse_any; next; pure e))
        else if is t.type TokenType.keyword_case
        then (do skip; (cases, otherwise) ← rec.cases absent; pure (case_of cases otherwise))
        else if is_literal t.type
        then (do v ← parse_literal p; pure (literal v))
        else expected "expression"

  unfoldable pub parse_expression : ℕ → Parser (Expr Float)
  unfolding ◌>>=◌ parse_primary parse_operand
  parse_expression min_precedence = do lhs ← parse_primary; parse_operand lhs min_precedence
