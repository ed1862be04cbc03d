-- ===== src/Sql/Valid.antt =====
-- db/sql/SQL.cpp: `run_query` and the constraints of the tables.
use essa_db.Prelude.{Str, some, Result, ok, err, undefined}
use essa_db.Value.Types.{Platform}
use essa_db.Expression.{Expr, Context}
use essa_db.Query.Table.{SelectOptions, TableExpression}
use essa_db.Query.Unchanged.{select-Keeps}
use essa_db.Database.Action.{Database, ◌>>=◌, lift}
use essa_db.Database.Valid.{Keeps, Any, AllValid, Keeps-bind, Keeps-lift, insert_into-Keeps}
use essa_db.Statement.Queries.{select_statement}
use essa_db.Statement.Session
use essa_db.Statement.Session.{Statement, execute-Keeps}
use essa_db.Sql.Kept.{
  HoldsNoSubquery, Reads, silent-Keeps, shown-Keeps, show_tables-Keeps, union-Keeps,
  insert_select-Keeps,
}
use essa_db.Parser.Statement
use essa_db.Parser.Statement.{AstStatement}
use essa_db.Sql.{execute, parse_text, run_query}

-- A statement that is neither UPDATE nor ALTER TABLE and has no INTO in a query.
abbrev pub IsChecked : {F : Type 0} → AstStatement F → Type 0
IsChecked (Statement.select_statement q) = Reads q
IsChecked (Statement.union lhs rhs distinct) = Reads lhs × Reads rhs
IsChecked (Statement.insert_select name columns q) = Reads q
IsChecked (Statement.alter_table cond name changes) = ⊥
IsChecked (Statement.update name pairs) = ⊥
IsChecked (Statement.print s) = IsChecked s
IsChecked _ = Unit {0}

abbrev pub IsCheckedAnswer : {F : Type 0} → Result (AstStatement F) → Type 0
IsCheckedAnswer (ok s) = IsChecked s
IsCheckedAnswer _ = Unit {0}

module _ (p : Platform) (built_in : Context p.Float) (open_file : Str → Result Str)
    (stamp : Str) where
  open p use {Float}

  checked-Keeps :
      (s : AstStatement Float)
      → IsChecked s
      → Keeps (AllValid p) Any (execute p built_in open_file stamp s)
  unfolding execute select_statement Session.execute
  checked-Keeps (Statement.select_statement q) a =
      shown-Keeps p built_in (AllValid p) _ (select-Keeps p built_in (AllValid p) q.0 q.1 a.0 a.1)
  checked-Keeps (Statement.union lhs rhs distinct) (a, b) =
      shown-Keeps p built_in (AllValid p) _
        (union-Keeps p built_in (AllValid p) lhs rhs distinct a b)
  checked-Keeps (Statement.create_table cond name columns check engine) a =
      silent-Keeps p built_in (AllValid p) _
        (execute-Keeps p built_in (Session.create cond name columns (some check) engine))
  checked-Keeps (Statement.drop_table cond name) a =
      silent-Keeps p built_in (AllValid p) _ (execute-Keeps p built_in (Session.drop cond name))
  checked-Keeps (Statement.truncate_table cond name) a =
      silent-Keeps p built_in (AllValid p) _ (execute-Keeps p built_in (Session.truncate cond name))
  checked-Keeps (Statement.alter_table cond name changes) a = absurd a
  checked-Keeps (Statement.delete_from name e) a =
      silent-Keeps p built_in (AllValid p) _ (execute-Keeps p built_in (Session.delete name _))
  checked-Keeps (Statement.insert_values name columns es) a =
      silent-Keeps p built_in (AllValid p) _
        (execute-Keeps p built_in (Session.insert name columns es))
  checked-Keeps (Statement.insert_select name columns q) a =
      silent-Keeps p built_in (AllValid p) _ (
        insert_select-Keeps p built_in (AllValid p) name (insert_into-Keeps p built_in name) columns
          q a)
  checked-Keeps (Statement.update name pairs) a = absurd a
  checked-Keeps (Statement.import_csv file name engine) a = silent-Keeps p built_in (AllValid p) _ (
      Keeps-bind _ _ _ (Keeps-lift (open_file file))
        λ text _. execute-Keeps p built_in (Session.import text name engine))
  checked-Keeps Statement.show_tables a =
      shown-Keeps p built_in (AllValid p) _ (show_tables-Keeps p built_in (AllValid p))
  checked-Keeps (Statement.print s) a = checked-Keeps s a

  -- For every text that holds no SELECT within an expression (its tree does not depend on how one
  -- would be represented) and of which the parser makes no UPDATE, no ALTER TABLE and no query
  -- with INTO: if every table of a database, whose checks hold no SELECT either, is valid, every
  -- table of the database after `run_query` of that text is valid, whether it succeeds or not and
  -- whatever the files hold.
  pub run_query-AllValid :
      (select_expression : SelectOptions Float → TableExpression Float → Expr Float) (text : Str)
      (db : Database Float)
      → HoldsNoSubquery p text
      → IsCheckedAnswer (parse_text p select_expression text)
      → AllValid p db
      → AllValid p (run_query p built_in open_file stamp select_expression text db).1
  unfolding run_query ◌>>=◌ lift
  run_query-AllValid select_expression text db alone a h =
      answered (parse_text p select_expression text) a
    where
      answered :
          (r : Result (AstStatement Float))
          → IsCheckedAnswer r
          → AllValid p ((lift r >>= λ s. execute p built_in open_file stamp s) db).1
      answered (ok s) a = (checked-Keeps s a).after db h
      answered (err e) a = h
      answered undefined a = h
