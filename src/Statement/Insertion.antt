-- ===== src/Statement/Insertion.antt =====
-- Putting a row into a table of a database: done at once or not at all, and to that table alone.
use essa_db.Prelude.{Str, str_eq, str_eq_refl, false, some, Result, ok, err, undefined, ◌≡◌, refl}
use essa_db.Value.Types.{Platform}
use essa_db.Row.{Tuple}
use essa_db.Expression.{Context}
use essa_db.Table.State.{Table}
use essa_db.Table.Insert.{insert}
use essa_db.Table.Referenced.{Appends, insert-Appends}
use essa_db.Database.Action.{Database, find_table, with_table, ◌>>=◌, continue}
use essa_db.Database.Laws.{find-write}
use essa_db.Database.Tables.{table, or_missing, insert_into, tables_of}

module _ (p : Platform) (built_in : Context p.Float) (name : Str) (row : Tuple p.Float) where
  open p use {Float}

  -- The outcome of an insertion into the table `t`.
  abbrev pub Inserts : Database Float → Table Float → Result (Unit {0}) × Database Float → Type 0
  Inserts db t (ok _, db') =
      (t' : Table Float) × Appends p built_in (tables_of db) t row t'
      × (find_table name db'.tables ≡ some t')
      × ((other : Str)
          → str_eq name other ≡ false
          → find_table other db'.tables ≡ find_table other db.tables)
  Inserts db t (_, db') = db' ≡ db

  finish : Result (Table Float) → Database Float → Result (Unit {0}) × Database Float
  finish (ok t') db = (ok tt, with_table name t' db)
  finish (err e) db = (err e, db)
  finish undefined db = (undefined, db)

  insert_run :
      (db : Database Float) (t : Table Float)
      → find_table name db.tables ≡ some t
      → insert_into p built_in name row db
        ≡ finish (insert p built_in (some (tables_of db)) t row) db
  unfolding insert_into table or_missing ◌>>=◌ finish
  insert_run db t e = rw e (by_result (insert p built_in (some (tables_of db)) t row))
    where
      by_result :
          (r : Result (Table Float))
          → continue r (λ t' db'. (ok tt, with_table name t' db')) db ≡ finish r db
      by_result (ok t') = refl
      by_result (err e) = refl
      by_result undefined = refl

  -- Where the database has a table t of the given name, putting a row into it either succeeds and
  -- the name finds a table that `Appends` relates to t and the row, and every other name finds
  -- what it found; or it fails and leaves the database as it was.
  pub insert_into-Inserts :
      (db : Database Float) (t : Table Float)
      → find_table name db.tables ≡ some t
      → Inserts db t (insert_into p built_in name row db)
  unfolding finish with_table
  insert_into-Inserts db t e =
      rw (insert_run db t e) (by_result (insert p built_in (some (tables_of db)) t row) refl)
    where
      by_result :
          (r : Result (Table Float))
          → insert p built_in (some (tables_of db)) t row ≡ r
          → Inserts db t (finish r db)
      by_result (ok t') h = (
        t',
        insert-Appends p built_in (tables_of db) t row t' h,
        rw find-write (rw (str_eq_refl name, e)),
        λ other ne. rw find-write (rw ne),
      )
      by_result (err _) h = refl
      by_result undefined h = refl
