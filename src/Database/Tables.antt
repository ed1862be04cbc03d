-- ===== src/Database/Tables.antt =====
-- db/core/Database.cpp: tables come and go, and rows enter them; db/core/TupleFromValues.cpp.
use essa_db.Prelude.{
  ℕ, Str, str_eq, Bool, true, false, Option, none, some, List, [], ◌∷◌, ◌++◌, if◌then◌else◌, Result,
  ok, err, undefined, DbError, length, replicate, set, map,
}
use essa_db.Prelude
use essa_db.Value.Types.{Platform, Value, null, type}
use essa_db.Row.{Tuple, Column}
use essa_db.Expression.{Context}
use essa_db.Expression.Check.{Check}
use essa_db.Table.State.{Table, get_column}
use essa_db.Table.Checks.{Tables}
use essa_db.Table.Insert.{insert}
use essa_db.Database.Action.{
  Database, Engine, memory, edb, Action, raise, lift, gets, ◌>>=◌, ◌>>◌, find_table, insert_table,
  erase_table, with_table,
}

-- `TableSetup`
pub record TableSetup (F : Type 0) : Type 0 where
  pub name : Str
  pub columns : List (Column F)

-- `ResultSet`
pub record ResultSet (F : Type 0) : Type 0 where
  pub column_names : List Str
  pub rows : List (Tuple F)

abbrev pub is_some {ℓ} : {A : Type ℓ} → Option A → Bool
is_some none = false
is_some (some a) = true

module _ {F : Type 0} where
  -- A new `MemoryBackedTable`: no rows, no keys, no counters.
  abbrev pub new_table : TableSetup F → Option (Check F) → Table F
  new_table setup check = record {
    name = setup.name;
    columns = setup.columns;
    rows = [];
    check = check;
    auto_increment_values = [];
    primary_key = none;
    foreign_keys = [];
  }

  abbrev pub exists : Str → Database F → Bool
  exists name db = is_some (find_table name db.tables)

  unfoldable pub or_missing : Option (Table F) → Result (Table F)
  or_missing none = err DbError.no_such_table
  or_missing (some t) = ok t

  -- `Database::table`
  unfoldable pub table : Str → Action F (Table F)
  unfolding find_table or_missing
  table name db = (or_missing (find_table name db.tables), db)

  unfoldable pub change_tables : (List (Str × Table F) → List (Str × Table F)) → Action F (Unit {0})
  change_tables f db = (ok tt, record db { tables = f db.tables })

  unfoldable pub create_with : TableSetup F → Option (Check F) → Engine → Action F (Unit {0})
  create_with setup check memory = change_tables (insert_table setup.name (new_table setup check))
  create_with setup check edb = raise DbError.file_in_memory_database

  -- `Database::create_table`; a database in memory has no path for a file-backed table.
  unfoldable pub create_table : TableSetup F → Option (Check F) → Engine → Action F (Unit {0})
  unfolding find_table insert_table create_with
  create_table setup check engine = do
    taken ← gets (exists setup.name)
    if taken then raise DbError.table_exists else create_with setup check engine

  -- `Database::add_table`
  unfoldable pub add_table : Table F → Action F (Unit {0})
  unfolding insert_table
  add_table t = change_tables (insert_table t.name t)

  -- `Database::drop_table`
  unfoldable pub drop_table : Str → Action F (Unit {0})
  unfolding table erase_table
  drop_table name = do table name; change_tables (erase_table name)

  -- The columns of `create_from_select_result`, typed after the first row.
  select_columns : Tuple F → List Str → Result (List (Column F))
  select_columns row [] = ok []
  select_columns [] (name ∷ names) = undefined
  select_columns (v ∷ row) (name ∷ names) = Prelude.◌>>=◌ (select_columns row names) λ cs. ok (
      record {
        name = name;
        type = type v;
        auto_increment = false;
        unique = false;
        not_null = false;
        default = none;
      }
      ∷ cs)

  columns_of_first : List (Tuple F) → List Str → Result (List (Column F))
  columns_of_first rows [] = ok []
  columns_of_first [] (name ∷ names) = undefined
  columns_of_first (row ∷ rows) names = select_columns row names

  -- `Database::create_table_from_query`; a result with no row has no type for its columns.
  unfoldable pub create_table_from_query : ResultSet F → Str → Action F (Unit {0})
  unfolding columns_of_first select_columns insert_table
  create_table_from_query select name = do
    columns ← lift (columns_of_first select.rows select.column_names)
    change_tables (
        insert_table name
          (record (new_table (record { name = Prelude.codes "SelectResult"; columns = columns })
            none) { rows = select.rows }))

  put_value : Tuple F → Option (ℕ × Column F) → Value F → Result (Tuple F)
  put_value row none v = err DbError.no_such_column
  put_value row (some (i, c)) v = ok (set row i v)

  put_values : List (Column F) → Tuple F → List (Str × Value F) → Result (Tuple F)
  put_values cs row [] = ok row
  put_values cs row ((name, v) ∷ values) =
      Prelude.◌>>=◌ (put_value row (get_column cs name) v) λ row'. put_values cs row' values

  -- `create_tuple_from_values`: null where no value is named, the last one where several are.
  unfoldable pub create_tuple_from_values :
      List (Column F) → List (Str × Value F) → Result (Tuple F)
  unfolding put_values put_value
  create_tuple_from_values cs values = put_values cs (replicate (length cs) null) values

abbrev pub tables_of : {F : Type 0} → Database F → Tables F
tables_of db name = find_table name db.tables

module _ (p : Platform) (built_in : Context p.Float) where
  open p use {Float}

  -- `table->insert(&db, row)` on a table of the database itself.
  unfoldable pub insert_into : Str → Tuple Float → Action Float (Unit {0})
  insert_into name row = do
    t ← table name
    db ← gets (λ db. db)
    t' ← lift (insert p built_in (some (tables_of db)) t row)
    λ db'. (ok tt, with_table name t' db')
