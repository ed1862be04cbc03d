-- ===== src/Parser/Safe/Expressions.antt =====
-- db/sql/Parser.cpp: the functions that parse expressions keep within their fuel, given calls that do.
use essa_db.Prelude.{ℕ, suc, Str, String, Bool, true, false, List}
use essa_db.Value.Types.{Platform}
use essa_db.Lexer.Token.{TokenType}
use essa_db.Expression.{Expr}
use essa_db.Query.Table.{SelectColumn, SelectOptions, TableExpression}
use essa_db.Parser.Safe.{Safe, skip-Safe, accept-Safe, words}
use essa_db.Parser.Simple.{
  parse_identifier, qualified, parse_alias, parse_table_identifier, parse_literal,
}
use essa_db.Parser.Expression.{
  Calls, parse_is, parse_over, parse_arguments, parse_expression_list, parse_in_arguments, parse_in,
  parse_between_range, parse_function, parse_cases, parse_rhs, merge, merge_operand, parse_operand,
  parse_primary, parse_expression, Operand, between_range, in_args, is_args, expression,
}

pub qualified-Safe : (n : ℕ) (name : Str) (dot : Bool) → Safe n (qualified name dot)
unfolding qualified
qualified-Safe n name true = search words
qualified-Safe n name false = search words

pub parse_identifier-Safe : (n : ℕ) → Safe n parse_identifier
unfolding parse_identifier
parse_identifier-Safe n = search (words, qualified-Safe)

pub parse_alias-Safe : (n : ℕ) → Safe n parse_alias
unfolding parse_alias
parse_alias-Safe n = search words depth 12

pub parse_table_identifier-Safe : (F : Type 0) (n : ℕ) → Safe n (parse_table_identifier {F = F})
unfolding parse_table_identifier
parse_table_identifier-Safe F n = search (words, parse_alias-Safe)

pub parse_literal-Safe : (p : Platform) (n : ℕ) → Safe n (parse_literal p)
unfolding parse_literal
parse_literal-Safe p n = search words

pub parse_is-Safe : (n : ℕ) → Safe n parse_is
unfolding parse_is
parse_is-Safe n = search words depth 12

pub parse_over-Safe : (n : ℕ) → Safe n parse_over
unfolding parse_over
parse_over-Safe n = search words depth 12

-- The functions that take a token before they call another, and the loops that call one at once.
pub record Heads {F : Type 0} (n : ℕ) (rec : Calls F) : Type 0 where
  pub expression : (k : ℕ) → Safe n (rec.expression k)
  pub operand : (e : Expr F) (k : ℕ) → Safe n (rec.operand e k)
  pub cases : (e : Expr F) → Safe n (rec.cases e)
  pub select : Safe n rec.select
  pub table_expression : Safe n rec.table_expression
  pub joins : (t : TableExpression F) → Safe n (rec.joins t)

pub record Loops {F : Type 0} (n : ℕ) (rec : Calls F) : Type 0 where
  pub arguments : (what : String) → Safe n (rec.arguments what)
  pub in_arguments : Safe n rec.in_arguments
  pub columns : Safe n rec.columns
  pub names : Safe n rec.names
  pub orders : (cs : List (SelectColumn F)) → Safe n (rec.orders cs)

module _ (p : Platform) (se : SelectOptions p.Float → TableExpression p.Float → Expr p.Float)
    (rec : Calls p.Float) (n : ℕ) (l : Loops n rec) where
  open p use {Float}

  module _ (h : Heads n rec) where
    pub parse_expression_list-Safe :
        (open_what close_what : String)
        → Safe n (parse_expression_list p se rec open_what close_what)
    unfolding parse_expression_list
    parse_expression_list-Safe open_what close_what = search (words, l.arguments)

    pub parse_in-Safe : Safe n (parse_in p se rec)
    unfolding parse_in
    parse_in-Safe = search (words, l.in_arguments)

    pub parse_between_range-Safe : Safe n (parse_between_range p se rec)
    unfolding parse_between_range
    parse_between_range-Safe = search (words, h.expression)

    pub parse_function-Safe : (name : Str) → Safe n (parse_function p se rec name)
    unfolding parse_function
    parse_function-Safe name =
        search (words, h.expression, parse_over-Safe, parse_expression_list-Safe) depth 12

    pub parse_rhs-Safe : (op : TokenType) → Safe n (parse_rhs p se rec op)
    unfolding parse_rhs
    parse_rhs-Safe op =
        search (words, h.expression, parse_is-Safe, parse_in-Safe, parse_between_range-Safe) depth
          12

    pub merge-Safe : (tight : Bool) (e : Expr Float) → Safe n (merge p se rec tight e)
    unfolding merge
    merge-Safe true e = search words
    merge-Safe false e = search h.operand

    pub merge_operand-Safe :
        (op : TokenType) (tight : Bool) (lhs : Expr Float) (rhs : Operand Float)
        → Safe n (merge_operand p se rec op tight lhs rhs)
    unfolding merge_operand
    merge_operand-Safe op tight lhs (between_range lo hi) = search (words, merge-Safe)
    merge_operand-Safe op tight lhs (in_args args) = search words
    merge_operand-Safe op tight lhs (is_args what) = search words
    merge_operand-Safe op tight lhs (expression rhs) = search (words, merge-Safe)

    pub parse_cases-Safe : (e : Expr Float) → Safe (suc n) (parse_cases p se rec e)
    unfolding parse_cases
    parse_cases-Safe e = search (skip-Safe, words, h.expression, h.cases) depth 20

    pub parse_operand-Safe :
        (lhs : Expr Float) (k : ℕ) → Safe (suc n) (parse_operand p se rec lhs k)
    unfolding parse_operand
    parse_operand-Safe lhs k =
        search (skip-Safe, words, h.operand, parse_rhs-Safe, merge_operand-Safe) depth 20

    pub parse_primary-Safe : Safe (suc n) (parse_primary p se rec)
    unfolding parse_primary
    parse_primary-Safe =
        search
          (
            skip-Safe, words, h.expression, h.cases, h.select, parse_function-Safe,
            parse_identifier-Safe, parse_literal-Safe,
          )
          depth 20

    pub parse_expression-Safe : (k : ℕ) → Safe (suc n) (parse_expression p se rec k)
    unfolding parse_expression
    parse_expression-Safe k = search (words, parse_primary-Safe, parse_operand-Safe)

  module _ (h : Heads (suc n) rec) where
    pub parse_arguments-Safe : (what : String) → Safe (suc n) (parse_arguments p se rec what)
    unfolding parse_arguments
    parse_arguments-Safe what = search (skip-Safe, words, h.expression, l.arguments) depth 12

    pub parse_in_arguments-Safe : Safe (suc n) (parse_in_arguments p se rec)
    unfolding parse_in_arguments
    parse_in_arguments-Safe = search (accept-Safe, words, h.expression, l.in_arguments) depth 12
