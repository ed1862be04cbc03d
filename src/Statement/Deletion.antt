-- ===== src/Statement/Deletion.antt =====
-- DELETE as a client sees it: what it leaves of its table and of the others, and where it fails.
use essa_db.Prelude.{
  Str, str_eq, Bool, false, Option, some, List, Result, ok, err, undefined, ◌≡◌, refl,
}
use essa_db.Value.Types.{Platform}
use essa_db.Row.{Tuple}
use essa_db.Expression.{Expr, Context}
use essa_db.Table.State.{Table}
use essa_db.Database.Action.{Database, find_table, with_table, ◌>>=◌, continue}
use essa_db.Database.Laws.{find_written, others_unwritten}
use essa_db.Database.Tables.{table, or_missing}
use essa_db.Statement.Rows.{remove_marked, mark_rows}
use essa_db.Statement.Deleted.{Keeps, remove_marked-Keeps}
use essa_db.Statement.Manipulate.{delete_from}

module _ (p : Platform) (built_in : Context p.Float) (name : Str)
    (cond : Option (Expr p.Float)) where
  open p use {Float}

  -- The rows of `t` once those with a mark are gone.
  abbrev without : List Bool → Table Float → Table Float
  without marks t = record t { rows = remove_marked marks t.rows }

  abbrev finish :
      Result (List Bool) → Table Float → Database Float → Result (Unit {0}) × Database Float
  finish (ok marks) t db = (ok tt, with_table name (without marks t) db)
  finish (err e) t db = (err e, db)
  finish undefined t db = (undefined, db)

  -- The run of the statement, by what the table lookup and the first pass found.
  delete_run :
      (db : Database Float) (t : Table Float)
      → find_table name db.tables ≡ some t
      → delete_from p built_in name cond db
        ≡ finish (mark_rows p built_in t.columns cond t.rows) t db
  unfolding delete_from table or_missing ◌>>=◌
  delete_run db t e = rw e (by_marks (mark_rows p built_in t.columns cond t.rows))
    where
      by_marks :
          (r : Result (List Bool))
          → continue r (λ marks db'. (ok tt, with_table name (without marks t) db')) db
            ≡ finish r t db
      by_marks (ok marks) = refl
      by_marks (err e) = refl
      by_marks undefined = refl

  -- The outcome of a deletion from a table that is there.
  abbrev pub Deletes : Database Float → Table Float → Result (Unit {0}) × Database Float → Type 0
  Deletes db t (ok _, db') =
      (kept : List (Tuple Float)) × Keeps p built_in t.columns cond t.rows kept
      × (find_table name db'.tables ≡ some (record t { rows = kept }))
      × ((other : Str)
          → str_eq name other ≡ false
          → find_table other db'.tables ≡ find_table other db.tables)
  Deletes db t (_, db') = db' ≡ db

  -- Where the database has a table t of the given name, a deletion from it that succeeds leaves
  -- in that table the rows of t on which the condition is false, in their order, and no others,
  -- the rest of t as it was, and every other name finds what it found; one that fails leaves the
  -- database as it was.
  pub delete_from-Deletes :
      (db : Database Float) (t : Table Float)
      → find_table name db.tables ≡ some t
      → Deletes db t (delete_from p built_in name cond db)
  delete_from-Deletes db t e =
      rw (delete_run db t e) (by_marks (mark_rows p built_in t.columns cond t.rows) refl)
    where
      by_marks :
          (r : Result (List Bool))
          → mark_rows p built_in t.columns cond t.rows ≡ r
          → Deletes db t (finish r t db)
      by_marks (ok marks) h = (
        remove_marked marks t.rows,
        remove_marked-Keeps p built_in t.columns cond t.rows marks h,
        find_written name db t _ e,
        λ other ne. others_unwritten name db _ other ne,
      )
      by_marks (err _) h = refl
      by_marks undefined h = refl
