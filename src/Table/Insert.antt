-- ===== src/Table/Insert.antt =====
-- db/core/Table.cpp: `Table::insert`.
use essa_db.Prelude.{Str, List, [], ◌∷◌, Option, Result, ok, ◌>>=◌, ◌>>◌}
use essa_db.Value.Types.{Platform}
use essa_db.Row.{Tuple}
use essa_db.Expression.{Context}
use essa_db.Table.State.{Table, increment, insert_unchecked}
use essa_db.Table.Fill.{Filled, fill}
use essa_db.Table.Checks.{Tables, perform_table_integrity_checks, perform_database_integrity_checks}

unfoldable pub increment_all : {F : Type 0} → List Str → Table F → Result (Table F)
increment_all [] t = ok t
increment_all (name ∷ names) t = do t' ← increment name t; increment_all names t'

module _ (p : Platform) (built_in : Context p.Float) where
  open p use {Float}

  -- The row with its generated values is checked; only then do the counters and the rows change.
  unfoldable pub insert_filled :
      Option (Tables Float) → Table Float → Filled Float → Result (Table Float)
  insert_filled db t filled = do
    perform_table_integrity_checks p t filled.row
    perform_database_integrity_checks p built_in db t filled.row
    t' ← increment_all filled.to_increment t
    ok (insert_unchecked filled.row t')

  unfoldable pub insert : Option (Tables Float) → Table Float → Tuple Float → Result (Table Float)
  insert db t row = do filled ← fill t row t.columns; insert_filled db t filled
