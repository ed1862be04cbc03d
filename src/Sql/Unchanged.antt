-- ===== src/Sql/Unchanged.antt =====
-- db/sql/SQL.cpp: the texts of which `run_query` makes queries, and the database that they read.
use essa_db.Prelude.{Str, Result, ok, err, undefined, ◌≡◌, refl}
use essa_db.Value.Types.{Platform}
use essa_db.Expression.{Expr, Context}
use essa_db.Query.Table.{SelectOptions, TableExpression}
use essa_db.Query.Unchanged.{select-Keeps}
use essa_db.Database.Action.{Database, ◌>>=◌, lift}
use essa_db.Database.Valid.{Keeps, Any}
use essa_db.Statement.Queries.{select_statement}
use essa_db.Parser.Statement
use essa_db.Parser.Statement.{AstStatement}
use essa_db.Sql.{execute, parse_text, run_query}
use essa_db.Sql.Kept.{HoldsNoSubquery, Reads, shown-Keeps, show_tables-Keeps, union-Keeps}

-- A statement that asks for rows and stores none.
abbrev pub IsQuery : {F : Type 0} → AstStatement F → Type 0
IsQuery (Statement.select_statement q) = Reads q
IsQuery (Statement.union lhs rhs distinct) = Reads lhs × Reads rhs
IsQuery Statement.show_tables = Unit {0}
IsQuery (Statement.print s) = IsQuery s
IsQuery _ = ⊥

abbrev pub IsQueryAnswer : {F : Type 0} → Result (AstStatement F) → Type 0
IsQueryAnswer (ok s) = IsQuery s
IsQueryAnswer _ = Unit {0}

module _ (p : Platform) (built_in : Context p.Float) (open_file : Str → Result Str)
    (stamp : Str) where
  open p use {Float}

  module _ (P : Database Float → Type 0) where
    query-Keeps :
        (s : AstStatement Float) → IsQuery s → Keeps P Any (execute p built_in open_file stamp s)
    unfolding execute select_statement
    query-Keeps (Statement.select_statement q) a =
        shown-Keeps p built_in P _ (select-Keeps p built_in P q.0 q.1 a.0 a.1)
    query-Keeps (Statement.union lhs rhs distinct) (a, b) =
        shown-Keeps p built_in P _ (union-Keeps p built_in P lhs rhs distinct a b)
    query-Keeps Statement.show_tables a =
        shown-Keeps p built_in P _ (show_tables-Keeps p built_in P)
    query-Keeps (Statement.print s) a = query-Keeps s a
    query-Keeps _ a = absurd a

  -- For every text that holds no SELECT within an expression (its tree does not depend on how one
  -- would be represented), if what the parser makes of it, if anything, is a SELECT, a UNION or
  -- SHOW TABLES, PRINT of one included, in which no query has an INTO, then `run_query` of that
  -- text leaves a database whose checks hold no SELECT either as it was, whether it succeeds or
  -- not.
  pub run_query-unchanged :
      (select_expression : SelectOptions Float → TableExpression Float → Expr Float) (text : Str)
      (db : Database Float)
      → HoldsNoSubquery p text
      → IsQueryAnswer (parse_text p select_expression text)
      → (run_query p built_in open_file stamp select_expression text db).1 ≡ db
  unfolding run_query ◌>>=◌ lift
  run_query-unchanged select_expression text db alone a =
      answered (parse_text p select_expression text) a
    where
      answered :
          (r : Result (AstStatement Float))
          → IsQueryAnswer r
          → ((lift r >>= λ s. execute p built_in open_file stamp s) db).1 ≡ db
      answered (ok s) a = (query-Keeps (λ d. d ≡ db) s a).after db refl
      answered (err e) a = refl
      answered undefined a = refl
