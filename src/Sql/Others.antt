-- ===== src/Sql/Others.antt =====
-- db/sql/SQL.cpp: `run_query` and the tables that the text of a query does not name.
use essa_db.Prelude.{Str, str_eq, false, Option, none, some, Result, ok, err, undefined, ◌≡◌, refl}
use essa_db.Value.Types.{Platform}
use essa_db.Expression.{Expr, Context}
use essa_db.Table.State.{Table}
use essa_db.Query.Table.{SelectOptions, TableExpression}
use essa_db.Query.Unchanged.{select-Keeps}
use essa_db.Database.Action.{Database, Action, ◌>>=◌, lift, pure, find_table, continue}
use essa_db.Database.Tables.{ResultSet}
use essa_db.Database.Valid.{Keeps, Any, Keeps-bind, Keeps-lift}
use essa_db.Database.Others.{Still, insert_into-Still}
use essa_db.Statement.Queries.{select_statement}
use essa_db.Statement.Define.{truncate_table}
use essa_db.Statement.Others.{
  create_table_statement-Spares, drop_table_statement-Spares, truncate_table-spares,
  delete_from-Spares, insert_values-Spares, update-Spares, import_statement-Spares,
}
use essa_db.Parser.Statement
use essa_db.Parser.Statement.{AstStatement}
use essa_db.Sql.{execute, parse_text, run_query}
use essa_db.Sql.Kept.{HoldsNoSubquery, Reads, show_tables-Keeps, union-Keeps, insert_select-Keeps}

module _ {F : Type 0} (stamp other : Str) (db : Database F) where
  -- The statement names another table than `other`. TRUNCATE makes a table of the name that the old one
  -- bears; ALTER TABLE, which may change a check that tables share, is left out.
  abbrev pub Elsewhere : AstStatement F → Type 0
  Elsewhere (Statement.select_statement q) = Reads q
  Elsewhere (Statement.union lhs rhs distinct) = Reads lhs × Reads rhs
  Elsewhere (Statement.create_table cond name columns check engine) = str_eq name other ≡ false
  Elsewhere (Statement.drop_table cond name) = str_eq name other ≡ false
  Elsewhere (Statement.truncate_table cond name) =
      (str_eq name other ≡ false)
      × ((t : Table F) → find_table name db.tables ≡ some t → str_eq t.name other ≡ false)
  Elsewhere (Statement.alter_table cond name changes) = ⊥
  Elsewhere (Statement.delete_from name e) = str_eq name other ≡ false
  Elsewhere (Statement.insert_values name columns es) = str_eq name other ≡ false
  Elsewhere (Statement.insert_select name columns q) = (str_eq name other ≡ false) × Reads q
  Elsewhere (Statement.update name pairs) = str_eq name other ≡ false
  Elsewhere (Statement.import_csv file name engine) = str_eq name other ≡ false
  Elsewhere Statement.show_tables = Unit {0}
  Elsewhere (Statement.print s) = Elsewhere s

  abbrev pub AnswersElsewhere : Result (AstStatement F) → Type 0
  AnswersElsewhere (ok s) = Elsewhere s
  AnswersElsewhere _ = Unit {0}

module _ (p : Platform) (built_in : Context p.Float) (other : Str)
    (found : Option (Table p.Float)) where
  open p use {Float}

  abbrev Same : Database Float → Type 0
  Same = Still other found

  -- An answer that is added to a call changes nothing.
  module _ {A B : Type 0} (m : Action Float A) (f : A → B) (db : Database Float) where
    answered-Same : Same (m db).1 → Same ((m >>= λ a. pure (f a)) db).1
    unfolding ◌>>=◌ pure
    answered-Same h = by_result (m db).0
      where
        by_result : (r : Result A) → Same (continue r (λ a. pure (f a)) (m db).1).1
        by_result (ok a) = h
        by_result (err e) = h
        by_result undefined = h

module _ (p : Platform) (built_in : Context p.Float) (open_file : Str → Result Str)
    (stamp : Str) where
  open p use {Float}

  abbrev no_result : Option (ResultSet Float)
  no_result = none

  execute-others :
      (other : Str) (s : AstStatement Float) (db : Database Float)
      → Elsewhere stamp other db s
      → find_table other (execute p built_in open_file stamp s db).1.tables
        ≡ find_table other db.tables
  unfolding execute select_statement
  execute-others other s db a = by_statement s a
    where
      found : Option (Table Float)
      found = find_table other db.tables

      silent :
          (m : Action Float (Unit {0}))
          → Keeps (Still other found) Any m
          → Still other found ((m >>= λ u. pure no_result) db).1
      silent m k = answered-Same p built_in other found m _ db (k.after db refl)

      shown :
          (m : Action Float (ResultSet Float))
          → Keeps (Still other found) Any m
          → Still other found ((m >>= λ r. pure (some r)) db).1
      shown m k = answered-Same p built_in other found m _ db (k.after db refl)

      by_statement :
          (s : AstStatement Float)
          → Elsewhere stamp other db s
          → Still other found (execute p built_in open_file stamp s db).1
      by_statement (Statement.select_statement q) a =
          shown _ (select-Keeps p built_in (Still other found) q.0 q.1 a.0 a.1)
      by_statement (Statement.union lhs rhs distinct) (a, b) =
          shown _ (union-Keeps p built_in (Still other found) lhs rhs distinct a b)
      by_statement (Statement.create_table cond name columns check engine) ne = silent _ (
          create_table_statement-Spares p built_in other found name ne cond columns (some check)
            engine)
      by_statement (Statement.drop_table cond name) ne =
          silent _ (drop_table_statement-Spares p built_in other found name ne cond)
      by_statement (Statement.truncate_table cond name) (ne, k) =
          answered-Same p built_in other found (truncate_table cond name) _ db
            (truncate_table-spares p built_in other found name ne cond db refl k)
      by_statement (Statement.alter_table cond name changes) ne = absurd ne
      by_statement (Statement.delete_from name e) ne =
          silent _ (delete_from-Spares p built_in other found name ne _)
      by_statement (Statement.insert_values name columns es) ne =
          silent _ (insert_values-Spares p built_in other found name ne columns es)
      by_statement (Statement.insert_select name columns q) (ne, r) = silent _ (
          insert_select-Keeps p built_in (Still other found) name
            (λ row. insert_into-Still p built_in other found name row ne) columns q r)
      by_statement (Statement.update name pairs) ne =
          silent _ (update-Spares p built_in other found name ne pairs)
      by_statement (Statement.import_csv file name engine) ne = silent _ (
          Keeps-bind _ _ _ (Keeps-lift (open_file file))
            λ text _. import_statement-Spares p built_in other found name ne text engine)
      by_statement Statement.show_tables a =
          shown _ (show_tables-Keeps p built_in (Still other found))
      by_statement (Statement.print s) a = by_statement s a

  -- For every text that holds no SELECT within an expression (its tree does not depend on how one
  -- would be represented) and of which the parser makes no ALTER TABLE and no query with INTO, on
  -- a database whose checks hold no SELECT either: what the database has under a name is after
  -- `run_query` of that text what it was before, whether it succeeds or not, where the statement
  -- names another table and where the table that TRUNCATE finds bears another name.
  pub run_query-others :
      (select_expression : SelectOptions Float → TableExpression Float → Expr Float) (text : Str)
      (other : Str) (db : Database Float)
      → HoldsNoSubquery p text
      → AnswersElsewhere stamp other db (parse_text p select_expression text)
      → find_table other (run_query p built_in open_file stamp select_expression text db).1.tables
        ≡ find_table other db.tables
  unfolding run_query ◌>>=◌ lift
  run_query-others select_expression text other db alone a =
      answered (parse_text p select_expression text) a
    where
      answered :
          (r : Result (AstStatement Float))
          → AnswersElsewhere stamp other db r
          → find_table other ((lift r >>= λ s. execute p built_in open_file stamp s) db).1.tables
            ≡ find_table other db.tables
      answered (ok s) a = execute-others other s db a
      answered (err e) a = refl
      answered undefined a = refl
