-- ===== src/Statement/Manipulate.antt =====
-- db/sql/ast/Statement.cpp: DELETE and UPDATE; db/sql/ast/Select.cpp: INSERT of values.
use essa_db.Prelude.{
  ℕ, Str, Bool, true, false, Option, none, some, List, [], ◌∷◌, if◌then◌else◌, Result, ok, err,
  undefined, DbError,
}
use essa_db.Prelude
use essa_db.Value.Types.{Platform, Value}
use essa_db.Expression.{Expr, Context, evaluate}
use essa_db.Table.State.{Table, get_column}
use essa_db.Database.Action.{Action, pure, lift, ◌>>=◌, ◌>>◌, with_table}
use essa_db.Database.Tables.{table, insert_into, create_tuple_from_values}
use essa_db.Statement.Rows.{remove_marked, mark_rows, update_rows}

module _ (p : Platform) (built_in : Context p.Float) where
  open p use {Float}

  abbrev write : Str → Table Float → Action Float (Unit {0})
  write name t db = (ok tt, with_table name t db)

  -- `DeleteFrom::execute`
  unfoldable pub delete_from : Str → Option (Expr Float) → Action Float (Unit {0})
  delete_from name cond = do
    t ← table name
    marks ← lift (mark_rows p built_in t.columns cond t.rows)
    write name (record t { rows = remove_marked marks t.rows })

  -- One assignment of `Update::execute`.
  unfoldable pub update_column : Str → Str × Expr Float → Action Float (Unit {0})
  update_column name (column, e) = do
    t ← table name
    let pass = update_rows p built_in t.columns (get_column t.columns column) e t.rows
    write name (record t { rows = pass.1 })
    lift pass.0

  unfoldable pub assign_all : Str → List (Str × Expr Float) → Action Float (Unit {0})
  unfolding update_column
  assign_all name [] = pure tt
  assign_all name (pair ∷ pairs) = do update_column name pair; assign_all name pairs

  -- `Update::execute`: the assignments one after the other, each over all rows.
  unfoldable pub update : Str → List (Str × Expr Float) → Action Float (Unit {0})
  unfolding assign_all
  update name pairs = do table name; assign_all name pairs

  -- The values of an INSERT are evaluated with no frame: `current_frame` asserts that there is one,
  -- for an identifier and for an aggregate.
  value_context : Context Float
  value_context = record built_in { resolve = λ id t. undefined; tuple = []; row_group = undefined }

  evaluate_values : List (Expr Float) → Result (List (Value Float))
  evaluate_values [] = ok []
  evaluate_values (e ∷ es) =
      Prelude.◌>>=◌ (evaluate p value_context e)
        λ v. Prelude.◌>>=◌ (evaluate_values es) λ vs. ok (v ∷ vs)

  -- As many values as there are columns in the statement: a missing one is read past the end.
  named_values : List Str → List (Expr Float) → Result (List (Str × Value Float))
  named_values [] es = ok []
  named_values (name ∷ names) [] = undefined
  named_values (name ∷ names) (e ∷ es) =
      Prelude.◌>>=◌ (evaluate p value_context e)
        λ v. Prelude.◌>>=◌ (named_values names es) λ vs. ok ((name, v) ∷ vs)

  -- `InsertInto::execute` with a list of values.
  unfoldable pub insert_values : Str → List Str → List (Expr Float) → Action Float (Unit {0})
  unfolding value_context evaluate_values named_values
  insert_values name [] es = do
    t ← table name
    row ← lift (evaluate_values es)
    insert_into p built_in name row
  insert_values name (c ∷ cs) es = do
    t ← table name
    values ← lift (named_values (c ∷ cs) es)
    row ← lift (create_tuple_from_values t.columns values)
    insert_into p built_in name row
