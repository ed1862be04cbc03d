-- ===== src/Parser/Safe/Queries.antt =====
-- db/sql/Parser.cpp: the functions that parse queries keep within their fuel, and so the calls do,
-- which have a unit of it for each token and two for each round of a loop.
use essa_db.Prelude.{ℕ, zero, suc, ◌≤◌, Option, List, arith}
use essa_db.Value.Types.{Platform}
use essa_db.Lexer.Token.{Token, TokenType}
use essa_db.Expression.{Expr}
use essa_db.Query.Table.{SelectColumn, SelectOptions, TableExpression, GroupOrPartition, GroupBy}
use essa_db.Parser.Reply.{Parser}
use essa_db.Parser.Safe.{Safe, Safe-le, skip-Safe, accept-Safe, words}
use essa_db.Parser.Safe.Expressions.{
  Heads, Loops, parse_identifier-Safe, parse_table_identifier-Safe, parse_expression-Safe,
  parse_operand-Safe, parse_cases-Safe, parse_arguments-Safe, parse_in_arguments-Safe,
}
use essa_db.Parser.Expression.{Calls}
use essa_db.Parser.Query.{
  parse_top, parse_as, parse_into, parse_order, parse_join_kind, parse_joins,
  parse_table_expression, parse_columns, parse_names, parse_expression_or_index, parse_orders,
  parse_condition, parse_from, parse_group_by, parse_order_by, parse_select, step, calls, twice,
}

parse_top-Safe : (n : ℕ) → Safe n parse_top
unfolding parse_top
parse_top-Safe n = search words depth 12

parse_as-Safe : (n : ℕ) → Safe n parse_as
unfolding parse_as
parse_as-Safe n = search words depth 12

parse_into-Safe : (n : ℕ) → Safe n parse_into
unfolding parse_into
parse_into-Safe n = search words depth 12

parse_order-Safe : (n : ℕ) → Safe n parse_order
unfolding parse_order
parse_order-Safe n = search words depth 12

parse_join_kind-Safe : (n : ℕ) (t : Token) → Safe n (parse_join_kind t)
unfolding parse_join_kind
parse_join_kind-Safe n t = search words depth 12

module _ (p : Platform) (se : SelectOptions p.Float → TableExpression p.Float → Expr p.Float)
    (rec : Calls p.Float) (n : ℕ) (l : Loops n rec) where
  open p use {Float}

  module _ (h : Heads n rec) where
    parse_joins-Safe : (lhs : TableExpression Float) → Safe (suc n) (parse_joins p se rec lhs)
    unfolding parse_joins
    parse_joins-Safe lhs =
        search
          (
            skip-Safe, words, h.table_expression, h.joins, parse_join_kind-Safe,
            parse_identifier-Safe,
          )
          depth 20

    parse_table_expression-Safe : Safe (suc n) (parse_table_expression p se rec)
    unfolding parse_table_expression
    parse_table_expression-Safe =
        search
          (
            skip-Safe, words, h.table_expression, h.select, parse_table_identifier-Safe,
            parse_joins-Safe,
          )
          depth 20

    parse_condition-Safe : (keyword : TokenType) → Safe n (parse_condition p se rec keyword)
    unfolding parse_condition
    parse_condition-Safe keyword = search (words, h.expression)

    parse_from-Safe : Safe n (parse_from p se rec)
    unfolding parse_from
    parse_from-Safe = search (words, h.table_expression)

    parse_group_by-Safe :
        (keyword : TokenType) (kind : GroupOrPartition) (before : Option GroupBy)
        → Safe n (parse_group_by p se rec keyword kind before)
    unfolding parse_group_by
    parse_group_by-Safe keyword kind before = search (words, l.names) depth 12

    parse_order_by-Safe : (cs : List (SelectColumn Float)) → Safe n (parse_order_by p se rec cs)
    unfolding parse_order_by
    parse_order_by-Safe cs = search (words, l.orders) depth 12

    parse_select-Safe : Safe (suc n) (parse_select p se rec)
    unfolding parse_select
    parse_select-Safe =
        search
          (
            skip-Safe, words, l.columns, parse_top-Safe, parse_into-Safe, parse_from-Safe,
            parse_condition-Safe, parse_group_by-Safe, parse_order_by-Safe,
          )
          depth 30

  module _ (h : Heads (suc n) rec) where
    parse_columns-Safe : Safe (suc n) (parse_columns p se rec)
    unfolding parse_columns
    parse_columns-Safe =
        search (accept-Safe, words, h.expression, l.columns, parse_as-Safe) depth 12

    parse_names-Safe : Safe (suc n) (parse_names p se rec)
    unfolding parse_names
    parse_names-Safe = search (accept-Safe, words, h.expression, l.names) depth 12

    parse_expression_or_index-Safe :
        (cs : List (SelectColumn Float)) → Safe (suc n) (parse_expression_or_index p se rec cs)
    unfolding parse_expression_or_index
    parse_expression_or_index-Safe cs = search (words, h.expression) depth 12

    parse_orders-Safe : (cs : List (SelectColumn Float)) → Safe (suc n) (parse_orders p se rec cs)
    unfolding parse_orders
    parse_orders-Safe cs =
        search (accept-Safe, words, l.orders, parse_expression_or_index-Safe, parse_order-Safe)
          depth 12

  Heads-step : Heads n rec → Heads (suc n) (step p se rec)
  Heads-step h = record {
    expression = parse_expression-Safe p se rec n l h;
    operand = parse_operand-Safe p se rec n l h;
    cases = parse_cases-Safe p se rec n l h;
    select = parse_select-Safe h;
    table_expression = parse_table_expression-Safe h;
    joins = parse_joins-Safe h;
  }

  Loops-step : Heads (suc n) rec → Loops (suc n) (step p se rec)
  Loops-step h = record {
    arguments = parse_arguments-Safe p se rec n l h;
    in_arguments = parse_in_arguments-Safe p se rec n l h;
    columns = parse_columns-Safe h;
    names = parse_names-Safe h;
    orders = parse_orders-Safe h;
  }

module _ (p : Platform) (se : SelectOptions p.Float → TableExpression p.Float → Expr p.Float) where
  open p use {Float}

  -- No list has fewer than no tokens.
  vacuous : {A : Type 0} (m : Parser A) → Safe 0 m
  unfolding Safe
  vacuous m ts h = absurd (omega arith)

  Heads-zero : (rec : Calls Float) → Heads 0 rec
  Heads-zero rec = record {
    expression = λ k. vacuous _;
    operand = λ e k. vacuous _;
    cases = λ e. vacuous _;
    select = vacuous _;
    table_expression = vacuous _;
    joins = λ t. vacuous _;
  }

  Loops-zero : (rec : Calls Float) → Loops 0 rec
  Loops-zero rec = record {
    arguments = λ what. vacuous _;
    in_arguments = vacuous _;
    columns = vacuous _;
    names = vacuous _;
    orders = λ cs. vacuous _;
  }

  pub Loops-le : (k n : ℕ) (rec : Calls Float) → k ≤ n → Loops n rec → Loops k rec
  Loops-le k n rec le l = record {
    arguments = λ what. Safe-le _ le (l.arguments what);
    in_arguments = Safe-le _ le l.in_arguments;
    columns = Safe-le _ le l.columns;
    names = Safe-le _ le l.names;
    orders = λ cs. Safe-le _ le (l.orders cs);
  }

  pub Heads-le : (k n : ℕ) (rec : Calls Float) → k ≤ n → Heads n rec → Heads k rec
  Heads-le k n rec le h = record {
    expression = λ k. Safe-le _ le (h.expression k);
    operand = λ e k. Safe-le _ le (h.operand e k);
    cases = λ e. Safe-le _ le (h.cases e);
    select = Safe-le _ le h.select;
    table_expression = Safe-le _ le h.table_expression;
    joins = λ t. Safe-le _ le (h.joins t);
  }

  -- A step keeps the bound of the loops, and raises that of the others.
  same-Loops : (n : ℕ) (rec : Calls Float) → Heads n rec → Loops n rec → Loops n (step p se rec)
  same-Loops zero rec h l = Loops-zero _
  same-Loops (suc n) rec h l = Loops-step p se rec n (Loops-le n (suc n) rec (omega arith) l) h

  pub calls-Safe : (n : ℕ) → Heads n (calls p se (twice n)) × Loops n (calls p se (twice n))
  unfolding calls
  calls-Safe zero = (Heads-zero _, Loops-zero _)
  calls-Safe (suc n) =
      let (h, l) = calls-Safe n in
      let rec = calls p se (twice n) in
      let l' = same-Loops n rec h l in
      let h' = Heads-step p se rec n l h in
      (
        Heads-step p se (step p se rec) n l' (Heads-le n (suc n) _ (omega arith) h'),
        Loops-step p se (step p se rec) n l' h',
      )
