-- ===== src/Database/Restructure.antt =====
-- db/core/Database.cpp: `restructure_table`, which ALTER TABLE ends in.
use essa_db.Prelude.{
  Str, str_eq, not, ◌&&◌, Option, none, some, List, [], ◌∷◌, if◌then◌else◌, Result, ok, err,
  undefined, DbError,
}
use essa_db.Value.Types.{Platform, Value}
use essa_db.Row.{Tuple, Column}
use essa_db.Expression.{Context}
use essa_db.Table.State.{Table, get_column, rename}
use essa_db.Database.Action.{
  memory, Action, pure, raise, lift, gets, ◌>>=◌, ◌>>◌, find_table, insert_table, erase_table,
  write_table,
}
use essa_db.Database.Tables.{
  TableSetup, exists, is_some, change_tables, create_table, create_tuple_from_values, insert_into,
}

module _ {F : Type 0} where
  -- The values of a row whose columns the new table has, with their names.
  unfoldable pub kept_values :
      List (Column F) → List (Column F) → Tuple F → Result (List (Str × Value F))
  kept_values new old [] = ok []
  kept_values new [] (v ∷ row) = undefined
  kept_values new (c ∷ old) (v ∷ row) = elim (kept_values new old row) [
    | ok rest ↦ ok (if is_some (get_column new c.name) then (c.name, v) ∷ rest else rest)
    | err e ↦ err e
    | undefined ↦ undefined
  ]

  -- A table that is there: the iterator of the map is followed without a test.
  deref : Option (Table F) → Result (Table F)
  deref none = undefined
  deref (some t) = ok t

module _ (p : Platform) (built_in : Context p.Float) where
  open p use {Float}

  unfoldable pub copy_row :
      Str → List (Column Float) → List (Column Float) → Tuple Float → Action Float (Unit {0})
  unfolding kept_values create_tuple_from_values insert_into
  copy_row name new old row = do
    values ← lift (kept_values new old row)
    row' ← lift (create_tuple_from_values new values)
    insert_into p built_in name row'

  unfoldable pub copy_rows :
      Str → List (Column Float) → List (Column Float) → List (Tuple Float) → Action Float (Unit {0})
  unfolding copy_row
  copy_rows name new old [] = pure tt
  copy_rows name new old (row ∷ rows) = do copy_row name new old row; copy_rows name new old rows

  -- The old table is put away under `backup_name`, which the source makes of the name and the time of
  -- day, a new one is made from the setup and with the same check, which both tables hold then, and the rows are inserted one by one.
  unfoldable pub restructure_table : Str → Str → TableSetup Float → Action Float (Unit {0})
  unfolding deref rename insert_table erase_table write_table create_table
  restructure_table backup_name old_name setup = do
    taken ← gets (exists setup.name)
    if not (str_eq old_name setup.name) && taken then raise DbError.table_exists else do
      old ← gets (λ db. find_table old_name db.tables)
      t ← lift (deref old)
      change_tables (λ m. erase_table old_name (insert_table backup_name t m))
      stored ← gets (λ db. find_table backup_name db.tables)
      b ← lift (deref stored)
      change_tables (write_table backup_name (rename backup_name b))
      create_table setup b.check memory
      copy_rows setup.name setup.columns b.columns b.rows
      change_tables (erase_table backup_name)
