-- ===== src/Query/Unchanged.antt =====
-- db/sql/Select.cpp, db/sql/ast/TableExpression.cpp: queries without INTO, and the database that they read.
use essa_db.Prelude.{Str, Option, none, some, Result, ◌≡◌}
use essa_db.Value.Types.{Platform}
use essa_db.Expression.{Context}
use essa_db.Database.Action.{Database, lift}
use essa_db.Database.Tables.{ResultSet, table}
use essa_db.Database.Valid.{Keeps, Any, Keeps-bind, Keeps-pure, Keeps-lift, Keeps-gets}
use essa_db.Query.Join.{Relation}
use essa_db.Query.Table.{
  SelectOptions, TableExpression, no_table, simple, table_identifier, join_of, cross_join_of,
  select_table,
}
use essa_db.Query.{execute_select, evaluate_table, select, store_into}

-- No query that a table expression holds has an INTO.
abbrev pub StoresNothing : {F : Type 0} → TableExpression F → Type 0
StoresNothing (join_of lhs on_lhs kind rhs on_rhs) = StoresNothing lhs × StoresNothing rhs
StoresNothing (cross_join_of lhs rhs) = StoresNothing lhs × StoresNothing rhs
StoresNothing (select_table o from) = (o.select_into ≡ none) × StoresNothing from
StoresNothing _ = Unit {0}

module _ (p : Platform) (built_in : Context p.Float) (P : Database p.Float → Type 0) where
  open p use {Float}

  pub table-reads : (name : Str) → Keeps P Any (table name)
  unfolding table
  table-reads name = record { after = λ db h. h; gives = λ db h a e. tt }

  pub lift-Keeps : {A : Type 0} (r : Result A) → Keeps P Any (lift r)
  unfolding lift
  lift-Keeps r = record { after = λ db h. h; gives = λ db h a e. tt }

  store_into-Keeps :
      (into : Option Str) (r : ResultSet Float)
      → into ≡ none
      → Keeps P Any (store_into p built_in into r)
  unfolding store_into
  store_into-Keeps none r e = Keeps-pure tt
  store_into-Keeps (some name) r e = cc

  execute_select-Keeps :
      (o : SelectOptions Float) (from : TableExpression Float) (r : Option (Relation Float))
      → o.select_into ≡ none
      → Keeps P Any (execute_select p built_in o from r)
  unfolding execute_select
  execute_select-Keeps o from r e = Keeps-bind _ _ _ (Keeps-lift _) λ columns _.
      Keeps-bind Any _ _ (Keeps-gets _) λ db _. Keeps-bind _ _ _ (Keeps-lift _) λ rows _.
        Keeps-bind _ _ _ (Keeps-lift _) λ finished _.
          Keeps-bind _ _ _ (Keeps-lift _)
            λ names _. Keeps-bind Any _ _ (store_into-Keeps o.select_into _ e) λ u _. Keeps-pure _

  evaluate_table-Keeps :
      (from : TableExpression Float)
      → StoresNothing from
      → Keeps P Any (evaluate_table p built_in from)
  unfolding evaluate_table
  evaluate_table-Keeps no_table s = lift-Keeps _
  evaluate_table-Keeps (simple t) s = Keeps-pure _
  evaluate_table-Keeps (table_identifier id alias) s =
      Keeps-bind Any _ _ (table-reads id) λ t _. Keeps-pure _
  evaluate_table-Keeps (join_of lhs on_lhs kind rhs on_rhs) (a, b) =
      Keeps-bind Any _ _ (evaluate_table-Keeps lhs a)
        λ l _. Keeps-bind Any _ _ (evaluate_table-Keeps rhs b) λ r _. lift-Keeps _
  evaluate_table-Keeps (cross_join_of lhs rhs) (a, b) =
      Keeps-bind Any _ _ (evaluate_table-Keeps lhs a)
        λ l _. Keeps-bind Any _ _ (evaluate_table-Keeps rhs b) λ r _. Keeps-pure _
  evaluate_table-Keeps (select_table o no_table) (a, b) =
      Keeps-bind Any _ _ (execute_select-Keeps o no_table none a)
        λ result _. Keeps-bind Any _ _ (Keeps-gets _) λ db _. lift-Keeps _
  evaluate_table-Keeps (select_table o from) (a, b) =
      Keeps-bind Any _ _ (evaluate_table-Keeps from b) λ relation _.
        Keeps-bind Any _ _ (execute_select-Keeps o from (some relation) a)
          λ result _. Keeps-bind Any _ _ (Keeps-gets _) λ db _. lift-Keeps _

  pub select-Keeps :
      (o : SelectOptions Float) (from : TableExpression Float)
      → o.select_into ≡ none
      → StoresNothing from
      → Keeps P Any (select p built_in o from)
  unfolding select
  select-Keeps o no_table e s = execute_select-Keeps o no_table none e
  select-Keeps o from e s =
      Keeps-bind Any _ _ (evaluate_table-Keeps from s)
        λ relation _. execute_select-Keeps o from (some relation) e
