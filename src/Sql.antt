-- ===== src/Sql.antt =====
-- db/sql/SQL.cpp: `run_query`, from the text of a query to the database after it.
pub mod Kept
pub mod Others
pub mod Unchanged
pub mod Valid
use essa_db.Prelude.{
  Str, Bool, true, false, not, ◌&&◌, Option, none, some, List, [], ◌∷◌, Result, ok, err, undefined,
  if◌then◌else◌,
}
use essa_db.Prelude
use essa_db.Value.Types.{Platform}
use essa_db.Lexer.Token.{Token}
use essa_db.Lexer.Scan.{lex}
use essa_db.Expression.{Expr, Context, absent}
use essa_db.Query.Table.{SelectOptions, TableExpression}
use essa_db.Database.Action.{Action, pure, raise, lift, gets, ◌>>=◌, ◌>>◌}
use essa_db.Database.Tables.{ResultSet}
use essa_db.Statement.Define.{
  create_table_statement, drop_table_statement, truncate_table, alter_table,
}
use essa_db.Statement.Manipulate.{delete_from, insert_values, update}
use essa_db.Statement.Queries
use essa_db.Statement.Queries.{select_statement, union_statement, insert_select}
use essa_db.Csv.Import.{import_statement}
use essa_db.Parser.Reply.{Reply, read, failed, undefined, out_of_fuel}
use essa_db.Parser.Statement
use essa_db.Parser.Statement.{AstStatement, parse_statement}

-- A condition that is a null pointer is none.
abbrev condition : {F : Type 0} → Expr F → Option (Expr F)
condition absent = none
condition e = some e

-- The answer of the parser as that of a call.
abbrev pub answer : {A : Type 0} → Reply A → Result A
answer (read a ts) = ok a
answer (failed e) = err e
answer Reply.undefined = Result.undefined
answer out_of_fuel = Result.undefined

module _ (p : Platform)
    (select_expression : SelectOptions p.Float → TableExpression p.Float → Expr p.Float) where
  open p use {Float}

  -- The lexer is given enough fuel.
  abbrev tokens_of : Option (Result (List Token)) → Result (List Token)
  tokens_of none = undefined
  tokens_of (some r) = r

  unfoldable pub parse_text : Str → Result (AstStatement Float)
  unfolding lex parse_statement
  parse_text text =
      Prelude.◌>>=◌ (tokens_of (lex text))
        λ tokens. answer (parse_statement p select_expression tokens)

-- The files that can be opened are a parameter, and so are the name of a backup and the representation
-- of a SELECT within an expression.
module _ (p : Platform) (built_in : Context p.Float) (open_file : Str → Result Str)
    (stamp : Str) where
  open p use {Float}

  abbrev silent : Action Float (Unit {0}) → Action Float (Option (ResultSet Float))
  silent m = m >>= λ u. pure none

  abbrev shown : Action Float (ResultSet Float) → Action Float (Option (ResultSet Float))
  shown m = m >>= λ r. pure (some r)

  -- `Statement::execute`. (What PRINT writes is not modelled.)
  unfoldable pub execute : AstStatement Float → Action Float (Option (ResultSet Float))
  unfolding ◌>>=◌ lift pure
  execute (Statement.select_statement q) = shown (select_statement p built_in q.0 q.1)
  execute (Statement.union lhs rhs distinct) =
      shown (union_statement p built_in distinct lhs.0 lhs.1 rhs.0 rhs.1)
  execute (Statement.create_table cond name columns check engine) =
      silent (create_table_statement cond name columns (some check) engine)
  execute (Statement.drop_table cond name) = silent (drop_table_statement cond name)
  execute (Statement.truncate_table cond name) = silent (truncate_table cond name)
  execute (Statement.alter_table cond name changes) =
      silent (alter_table p built_in stamp cond name changes)
  execute (Statement.delete_from name e) = silent (delete_from p built_in name (condition e))
  execute (Statement.insert_values name columns es) =
      silent (insert_values p built_in name columns es)
  execute (Statement.insert_select name columns q) =
      silent (insert_select p built_in name columns q.0 q.1)
  execute (Statement.update name pairs) = silent (update p built_in name pairs)
  execute (Statement.import_csv file name engine) =
      silent (lift (open_file file) >>= λ text. import_statement p built_in text name engine)
  execute Statement.show_tables = shown Queries.show_tables
  execute (Statement.print s) = execute s

  module _ (select_expression : SelectOptions Float → TableExpression Float → Expr Float) where
    unfoldable pub run_query : Str → Action Float (Option (ResultSet Float))
    unfolding parse_text execute
    run_query text = lift (parse_text p select_expression text) >>= λ s. execute s
