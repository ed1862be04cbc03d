-- ===== src/Statement/Queries.antt =====
-- db/sql/ast/Select.cpp: SELECT and UNION as statements, INSERT of the rows of a query; Show.cpp.
use essa_db.Prelude.{
  ℕ, zero, suc, Str, codes, Bool, List, [], ◌∷◌, map, length, Result, ok, undefined,
}
use essa_db.Prelude
use essa_db.Value.Types.{Platform, Value, varchar}
use essa_db.Row.{Tuple}
use essa_db.Expression.{Context}
use essa_db.Database.Action.{Action, pure, lift, gets, ◌>>=◌, ◌>>◌}
use essa_db.Database.Tables.{ResultSet, table, insert_into, create_tuple_from_values}
use essa_db.Query.Table.{SelectOptions, TableExpression}
use essa_db.Query.{select, union}

-- `Show::execute`, with the tables in the order of the model's map.
unfoldable pub show_tables : {F : Type 0} → Action F (ResultSet F)
show_tables = do
  tables ← gets (λ db. db.tables)
  pure (record {
    column_names = codes "name" ∷ [];
    rows = map (λ entry. varchar (entry.1.name) ∷ []) tables;
  })

module _ {F : Type 0} where
  -- The first values of a row; past its end there is no value.
  unfoldable pub first_values : ℕ → Tuple F → Result (Tuple F)
  first_values zero row = ok []
  first_values (suc n) [] = undefined
  first_values (suc n) (v ∷ row) = Prelude.◌>>=◌ (first_values n row) λ vs. ok (v ∷ vs)

  unfoldable pub paired : List Str → Tuple F → Result (List (Str × Value F))
  paired [] row = ok []
  paired (name ∷ names) [] = undefined
  paired (name ∷ names) (v ∷ row) =
      Prelude.◌>>=◌ (paired names row) λ values. ok ((name, v) ∷ values)

module _ (p : Platform) (built_in : Context p.Float) where
  open p use {Float}

  -- `SelectStatement::execute`, and UNION of two queries.
  unfoldable pub select_statement :
      SelectOptions Float → TableExpression Float → Action Float (ResultSet Float)
  unfolding select
  select_statement o from = select p built_in o from

  unfoldable pub union_statement :
      Bool
      → SelectOptions Float
      → TableExpression Float
      → SelectOptions Float
      → TableExpression Float
      → Action Float (ResultSet Float)
  unfolding select union
  union_statement distinct o from o' from' =
      union p built_in distinct (select p built_in o from) (select p built_in o' from')

  -- One row of the query. Without columns as many values are taken as the table has rows.
  unfoldable pub insert_row_of : Str → List Str → Tuple Float → Action Float (Unit {0})
  unfolding first_values paired create_tuple_from_values insert_into
  insert_row_of name [] row = do
    t ← table name
    values ← lift (first_values (length t.rows) row)
    insert_into p built_in name values
  insert_row_of name (c ∷ cs) row = do
    t ← table name
    values ← lift (paired (c ∷ cs) row)
    tuple ← lift (create_tuple_from_values t.columns values)
    insert_into p built_in name tuple

  unfoldable pub insert_result : Str → List Str → List (Tuple Float) → Action Float (Unit {0})
  unfolding insert_row_of
  insert_result name columns [] = pure tt
  insert_result name columns (row ∷ rows) = do
    insert_row_of name columns row
    insert_result name columns rows

  -- `InsertInto::execute` with a query.
  unfoldable pub insert_select :
      Str → List Str → SelectOptions Float → TableExpression Float → Action Float (Unit {0})
  unfolding table select insert_result
  insert_select name columns o from = do
    t ← table name
    result ← select p built_in o from
    insert_result name columns result.rows
