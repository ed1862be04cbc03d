-- ===== src/Parser/Safe/Statements.antt =====
-- db/sql/Parser.cpp: the functions that parse statements keep within their fuel; so the parser comes to
-- an end on every list of tokens.
use essa_db.Prelude.{ℕ, zero, suc, String, List, [], ◌∷◌, length, arith, ◌≢◌}
use essa_db.Value.Types.{Platform}
use essa_db.Lexer.Token.{Token, TokenType}
use essa_db.Expression.{Expr}
use essa_db.Expression.Check.{Check}
use essa_db.Query.Table.{SelectOptions, TableExpression}
use essa_db.Statement.Define.{AlterTable}
use essa_db.Parser.Reply.{Parser, out_of_fuel, accept, ◌>>=◌}
use essa_db.Parser.Query.{calls, twice}
use essa_db.Parser.Safe.Queries.{Heads-le, Loops-le, calls-Safe}
use essa_db.Parser.Safe.{
  Safe, Safe-le, skip-Safe, expects-Safe, words, bind-Safe, Within-out_of_fuel, reads, stops,
}
use essa_db.Parser.Safe.Expressions.{Heads, Loops, parse_expression_list-Safe}
use essa_db.Parser.Expression.{Calls}
use essa_db.Parser.Table.{with_fuel, parse_columns_and_checks, parse_changes}
use essa_db.Parser.Statement.{
  parse_import, parse_show, parse_select_statement, parse_updates, parse_update, parse_delete_from,
  parse_create_table, parse_alter_table, parse_insert_columns, parse_insert_into, second_word,
  parse_statement_impl, parse_statements, AstStatement, at_end, some_statements, parse_statement,
  parse_statement_list,
}
use essa_db.Parser.Safe.Tables.{
  vacuous, with_fuel-Safe, parse_engine_specification-Safe, parse_table_existence-Safe,
  parse_existing_table-Safe, names-Safe, lower, parse_columns_and_checks-Safe, parse_changes-Safe,
}

module _ (F : Type 0) (n : ℕ) where
  parse_import-Safe : Safe n (parse_import {F = F})
  unfolding parse_import
  parse_import-Safe = search (words, parse_engine_specification-Safe) depth 20

  parse_show-Safe : Safe n (parse_show {F = F})
  unfolding parse_show
  parse_show-Safe = search words depth 12

module _ (p : Platform) (se : SelectOptions p.Float → TableExpression p.Float → Expr p.Float)
    (rec : Calls p.Float) where
  open p use {Float}

  parse_updates-Safe : (k : ℕ) → Safe k (rec.expression 0) → Safe k (parse_updates p se rec k)
  unfolding parse_updates
  parse_updates-Safe zero any = vacuous _
  parse_updates-Safe (suc k) any =
      search
        (
          expects-Safe,
          words,
          lower p (rec.expression 0) k any,
          parse_updates-Safe k (lower p (rec.expression 0) k any),
        )
        depth 20

  module _ (n : ℕ) (h : Heads n rec) (l : Loops n rec) where
    updates-Safe : Safe n (with_fuel (parse_updates p se rec))
    updates-Safe =
        with_fuel-Safe n _
          λ k le. parse_updates-Safe k (Safe-le (rec.expression 0) le (h.expression 0))

    columns-Safe :
        (check : Check Float)
        → Safe n (with_fuel (λ fuel. parse_columns_and_checks p (rec.expression 0) fuel check))
    columns-Safe check = with_fuel-Safe n _ λ k le.
        parse_columns_and_checks-Safe p (rec.expression 0) k
          (Safe-le (rec.expression 0) le (h.expression 0)) check

    changes-Safe :
        (a : AlterTable Float)
        → Safe n (with_fuel (λ fuel. parse_changes p (rec.expression 0) fuel a))
    changes-Safe a = with_fuel-Safe n _ λ k le.
        parse_changes-Safe p (rec.expression 0) k (Safe-le (rec.expression 0) le (h.expression 0)) a

    parse_select_statement-Safe : Safe n (parse_select_statement p se rec)
    unfolding parse_select_statement
    parse_select_statement-Safe = search (words, h.select) depth 20

    parse_update-Safe : Safe n (parse_update p se rec)
    unfolding parse_update
    parse_update-Safe = search (words, updates-Safe) depth 20

    parse_delete_from-Safe : Safe n (parse_delete_from p se rec)
    unfolding parse_delete_from
    parse_delete_from-Safe = search (words, h.expression) depth 20

    parse_create_table-Safe : Safe n (parse_create_table p se rec)
    unfolding parse_create_table
    parse_create_table-Safe =
        search (words, columns-Safe, parse_table_existence-Safe, parse_engine_specification-Safe)
          depth 20

    parse_alter_table-Safe : Safe n (parse_alter_table p se rec)
    unfolding parse_alter_table
    parse_alter_table-Safe = search (words, changes-Safe, parse_table_existence-Safe) depth 20

    parse_insert_columns-Safe : Safe n (parse_insert_columns p se rec)
    unfolding parse_insert_columns
    parse_insert_columns-Safe = search (words, names-Safe) depth 20

    parse_insert_into-Safe : Safe n (parse_insert_into p se rec)
    unfolding parse_insert_into
    parse_insert_into-Safe =
        search
          (words, h.select, parse_insert_columns-Safe, parse_expression_list-Safe p se rec n l h)
          depth 20

    second_word-Safe :
        (type : TokenType) (what : String) (rest : Parser (AstStatement Float))
        → Safe n rest
        → Safe n (second_word p se rec type what rest)
    unfolding second_word
    second_word-Safe type what rest safe = search words depth 12

  parse_statement_impl-Safe :
      (k : ℕ) → Heads k rec → Loops k rec → Safe k (parse_statement_impl p se rec k)
  unfolding parse_statement_impl
  parse_statement_impl-Safe zero h l = vacuous _
  parse_statement_impl-Safe (suc k) h l =
      search
        (
          skip-Safe,
          words,
          second_word-Safe (suc k) h l,
          parse_select_statement-Safe (suc k) h l,
          parse_create_table-Safe (suc k) h l,
          parse_alter_table-Safe (suc k) h l,
          parse_delete_from-Safe (suc k) h l,
          parse_insert_into-Safe (suc k) h l,
          parse_update-Safe (suc k) h l,
          parse_existing_table-Safe,
          parse_import-Safe,
          parse_show-Safe,
          parse_statement_impl-Safe k (Heads-le p se k (suc k) rec (omega arith) h)
              (Loops-le p se k (suc k) rec (omega arith) l),
        )
        depth 40

  statement-Safe :
      (n : ℕ) → Heads n rec → Loops n rec → Safe n (with_fuel (parse_statement_impl p se rec))
  statement-Safe n h l =
      with_fuel-Safe n _ λ k le.
        parse_statement_impl-Safe k (Heads-le p se k n rec le h) (Loops-le p se k n rec le l)

  parse_statements-Safe : (k : ℕ) → Heads k rec → Loops k rec → Safe k (parse_statements p se rec k)
  unfolding parse_statements
  parse_statements-Safe zero h l = vacuous _
  parse_statements-Safe (suc k) h l =
      search
        (
          expects-Safe,
          words,
          statement-Safe (suc k) h l,
          parse_statements-Safe k (Heads-le p se k (suc k) rec (omega arith) h)
              (Loops-le p se k (suc k) rec (omega arith) l),
        )
        depth 20

module _ (p : Platform) (se : SelectOptions p.Float → TableExpression p.Float → Expr p.Float) where
  open p use {Float}

  at_end-Safe : {A : Type 0} (n : ℕ) (a : A) → Safe n (at_end p se a)
  unfolding at_end
  at_end-Safe n a = search words depth 12

  some_statements-Safe : (n : ℕ) (ss : List (AstStatement Float)) → Safe n (some_statements p se ss)
  unfolding some_statements Safe
  some_statements-Safe n [] ts h = stops
  some_statements-Safe n (s ∷ ss) ts h = reads (omega arith)

  one_statement :
      (n : ℕ)
      → Safe n (
          with_fuel (parse_statement_impl p se (calls p se (twice n))) >>= λ s.
          accept TokenType.semicolon >>= λ b. at_end p se s)
  one_statement n =
      let (h, l) = calls-Safe p se n in
      search (words, statement-Safe p se _ n h l, at_end-Safe) depth 12

  -- On every list of tokens the parser of a statement ends within its fuel: two levels of calls
  -- and one round of each loop for each token, and one more.
  pub parse_statement-ends : (tokens : List Token) → parse_statement p se tokens ≢ out_of_fuel
  unfolding parse_statement Safe
  parse_statement-ends tokens =
      Within-out_of_fuel (one_statement (suc (length tokens)) tokens (omega arith))

  all_statements :
      (n : ℕ)
      → Safe n (
          with_fuel (parse_statements p se (calls p se (twice n))) >>= λ ss.
          some_statements p se ss >>= λ _. at_end p se ss)
  all_statements n =
      let (h, l) = calls-Safe p se n in
      bind-Safe n _ _
        (with_fuel-Safe n _ λ k le.
          parse_statements-Safe p se _ k (Heads-le p se k n _ le h) (Loops-le p se k n _ le l))
        λ ss. search (words, some_statements-Safe, at_end-Safe)

  pub parse_statement_list-ends :
      (tokens : List Token) → parse_statement_list p se tokens ≢ out_of_fuel
  unfolding parse_statement_list Safe
  parse_statement_list-ends tokens =
      Within-out_of_fuel (all_statements (suc (length tokens)) tokens (omega arith))
