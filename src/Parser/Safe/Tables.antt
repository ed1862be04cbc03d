-- ===== src/Parser/Safe/Tables.antt =====
-- db/sql/Parser.cpp: the functions that parse columns, keys and checks keep within their fuel.
use essa_db.Prelude.{ℕ, zero, suc, ◌≤◌, Str, length, arith}
use essa_db.Value.Types.{Platform}
use essa_db.Lexer.Token.{Token}
use essa_db.Expression.{Expr}
use essa_db.Expression.Check.{Check}
use essa_db.Statement.Define.{AlterTable}
use essa_db.Parser.Reply.{Parser}
use essa_db.Parser.Safe.{Safe, Safe-le, next-Safe, skip-Safe, expects-Safe, accept-Safe, words}
use essa_db.Parser.Safe.Expressions.{parse_literal-Safe}
use essa_db.Parser.Simple.{parse_engine_specification, parse_table_existence}
use essa_db.Parser.Table.{
  with_fuel, parse_name_list, Params, parse_references, parse_default, parse_param, parse_params,
  parse_column, parse_checks, parse_columns_and_checks, parse_constraint, parse_add, parse_alter,
  parse_drop, parse_changes,
}
use essa_db.Parser.Statement.{parse_existing_table}

-- No list has fewer than no tokens.
pub vacuous : {A : Type 0} (m : Parser A) → Safe 0 m
unfolding Safe
vacuous m ts h = absurd (omega arith)

-- A loop that takes a token in each round is given enough rounds.
pub with_fuel-Safe :
    {A : Type 0} (n : ℕ) (loop : ℕ → Parser A)
    → ((k : ℕ) → k ≤ n → Safe k (loop k))
    → Safe n (with_fuel loop)
unfolding Safe
with_fuel-Safe n loop safe ts h = safe (suc (length ts)) (omega arith) ts (omega arith)

pub parse_engine_specification-Safe : (n : ℕ) → Safe n parse_engine_specification
unfolding parse_engine_specification
parse_engine_specification-Safe n = search words depth 12

pub parse_table_existence-Safe : (n : ℕ) → Safe n parse_table_existence
unfolding parse_table_existence
parse_table_existence-Safe n = search words depth 12

pub parse_existing_table-Safe : (n : ℕ) → Safe n parse_existing_table
unfolding parse_existing_table
parse_existing_table-Safe n = search (words, parse_table_existence-Safe) depth 12

pub parse_name_list-Safe : (k : ℕ) → Safe k (parse_name_list k)
unfolding parse_name_list
parse_name_list-Safe zero = vacuous _
parse_name_list-Safe (suc k) = search (expects-Safe, words, parse_name_list-Safe k) depth 12

pub names-Safe : (n : ℕ) → Safe n (with_fuel parse_name_list)
names-Safe n = with_fuel-Safe n _ λ k le. parse_name_list-Safe k

pub parse_references-Safe : (n : ℕ) (name : Str) → Safe n (parse_references name)
unfolding parse_references
parse_references-Safe n name = search words depth 20

module _ (p : Platform) where
  open p use {Float}

  pub parse_default-Safe : (n : ℕ) (given : Params Float) → Safe n (parse_default p given)
  unfolding parse_default
  parse_default-Safe n given = search (words, parse_literal-Safe) depth 12

  pub parse_param-Safe :
      (n : ℕ) (name : Str) (t : Token) (given : Params Float) → Safe n (parse_param p name t given)
  unfolding parse_param
  parse_param-Safe n name t given =
      search (words, parse_default-Safe, parse_references-Safe) depth 20

  pub parse_params-Safe :
      (k : ℕ) (name : Str) (given : Params Float) → Safe k (parse_params p k name given)
  unfolding parse_params
  parse_params-Safe zero name given = vacuous _
  parse_params-Safe (suc k) name given =
      search (skip-Safe, words, parse_param-Safe, parse_params-Safe k) depth 12

  pub params-Safe :
      (n : ℕ) (name : Str) (given : Params Float)
      → Safe n (with_fuel (λ fuel. parse_params p fuel name given))
  params-Safe n name given = with_fuel-Safe n _ λ k le. parse_params-Safe k name given

  pub parse_column-Safe : (n : ℕ) → Safe n (parse_column p)
  unfolding parse_column
  parse_column-Safe n = search (words, params-Safe) depth 12

module _ (p : Platform) (parse_any : Parser (Expr p.Float)) where
  open p use {Float}

  pub lower : (k : ℕ) → Safe (suc k) parse_any → Safe k parse_any
  lower k any = Safe-le parse_any (omega arith) any

  pub parse_checks-Safe :
      (k : ℕ) → Safe k parse_any → (check : Check Float) → Safe k (parse_checks p parse_any k check)
  unfolding parse_checks
  parse_checks-Safe zero any check = vacuous _
  parse_checks-Safe (suc k) any check =
      search (skip-Safe, words, lower k any, parse_checks-Safe k (lower k any)) depth 20

  pub checks-Safe :
      (n : ℕ)
      → Safe n parse_any
      → (check : Check Float) → Safe n (with_fuel (λ rounds. parse_checks p parse_any rounds check))
  checks-Safe n any check =
      with_fuel-Safe n _ λ k le. parse_checks-Safe k (Safe-le parse_any le any) check

  pub parse_columns_and_checks-Safe :
      (k : ℕ)
      → Safe k parse_any
      → (check : Check Float) → Safe k (parse_columns_and_checks p parse_any k check)
  unfolding parse_columns_and_checks
  parse_columns_and_checks-Safe zero any check = vacuous _
  parse_columns_and_checks-Safe (suc k) any check =
      search
        (
          accept-Safe,
          words,
          parse_column-Safe p (suc k),
          checks-Safe (suc k) any,
          parse_columns_and_checks-Safe k (lower k any),
        )
        depth 12

  pub parse_constraint-Safe : (n : ℕ) → Safe n parse_any → Safe n (parse_constraint p parse_any)
  unfolding parse_constraint
  parse_constraint-Safe n any = search words depth 12

  module _ (n : ℕ) (any : Safe n parse_any) where
    pub parse_add-Safe : (a : AlterTable Float) → Safe n (parse_add p parse_any a)
    unfolding parse_add
    parse_add-Safe a =
        search (words, any, parse_column-Safe p n, parse_constraint-Safe n any) depth 20

    pub parse_alter-Safe : (a : AlterTable Float) → Safe n (parse_alter p parse_any a)
    unfolding parse_alter
    parse_alter-Safe a =
        search (words, any, parse_column-Safe p n, parse_constraint-Safe n any) depth 20

    pub parse_drop-Safe : (a : AlterTable Float) → Safe n (parse_drop p parse_any a)
    unfolding parse_drop
    parse_drop-Safe a = search (words, names-Safe n) depth 20

  pub parse_changes-Safe :
      (k : ℕ) → Safe k parse_any → (a : AlterTable Float) → Safe k (parse_changes p parse_any k a)
  unfolding parse_changes
  parse_changes-Safe zero any a = vacuous _
  parse_changes-Safe (suc k) any a =
      search
        (
          next-Safe,
          words,
          parse_add-Safe k (lower k any),
          parse_alter-Safe k (lower k any),
          parse_drop-Safe k (lower k any),
          parse_changes-Safe k (lower k any),
        )
        depth 20
