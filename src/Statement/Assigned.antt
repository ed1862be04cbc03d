-- ===== src/Statement/Assigned.antt =====
-- UPDATE as a client sees it: what it leaves of its table and of the other tables.
use essa_db.Prelude.{
  Str, str_eq, false, some, List, [], ◌∷◌, Result, ok, err, undefined, ◌≡◌, refl, ◌∙◌,
}
use essa_db.Value.Types.{Platform}
use essa_db.Row.{Tuple}
use essa_db.Expression.{Expr, Context}
use essa_db.Table.State.{Table, get_column}
use essa_db.Database.Action.{Database, find_table, with_table, continue, ◌>>=◌, pure}
use essa_db.Database.Laws.{find_written, others_unwritten}
use essa_db.Database.Tables.{table, or_missing}
use essa_db.Statement.Rows.{update_rows}
use essa_db.Statement.Manipulate.{update_column, assign_all, update}
use essa_db.Statement.Updated.{
  Pass, Passes, no_more, then_, last_fails, last_stops, update_rows-Pass,
}

module _ (p : Platform) (built_in : Context p.Float) (name : Str) where
  open p use {Float}

  -- An UPDATE of a table that is there: of that table it changes the rows alone.
  abbrev pub Updates :
      List (Str × Expr Float)
      → Database Float
      → Table Float
      → Result (Unit {0}) × Database Float
      → Type 0
  Updates pairs db t (r, db') =
      (rows : List (Tuple Float)) × Passes p built_in t.columns pairs r t.rows rows
      × (find_table name db'.tables ≡ some (record t { rows = rows }))
      × ((other : Str)
          → str_eq name other ≡ false
          → find_table other db'.tables ≡ find_table other db.tables)

  pass_of : Table Float → Str × Expr Float → Result (Unit {0}) × List (Tuple Float)
  pass_of t (column, e) = update_rows p built_in t.columns (get_column t.columns column) e t.rows

  -- The run of one assignment.
  update_column_run :
      (pair : Str × Expr Float) (db : Database Float) (t : Table Float)
      → find_table name db.tables ≡ some t
      → update_column p built_in name pair db
        ≡ ((pass_of t pair).0, with_table name (record t { rows = (pass_of t pair).1 }) db)
  unfolding update_column table or_missing ◌>>=◌ pass_of
  update_column_run (column, e) db t there = rw there refl

  -- What the assignments behind one that ended with `r` add to it.
  continue-Updates :
      (column : Str) (e : Expr Float) (pairs : List (Str × Expr Float)) (db : Database Float)
      (t : Table Float) (r : Result (Unit {0})) (rows : List (Tuple Float))
      → find_table name db.tables ≡ some t
      → Pass p built_in t.columns (get_column t.columns column) e r t.rows rows
      → (let u : Table Float = record t { rows = rows } in
          Updates pairs
            (with_table name u db)
            u
            (assign_all p built_in name pairs (with_table name u db)))
      → Updates ((column, e) ∷ pairs) db t (
          continue r
            (λ done. assign_all p built_in name pairs)
            (with_table name (record t { rows = rows }) db))
  continue-Updates column e pairs db t (ok _) rows there h (rows', passes, found, others) = (
    rows',
    then_ h passes,
    found,
    λ other ne. others other ne ∙ others_unwritten name db (record t { rows = rows }) other ne,
  )
  continue-Updates column e pairs db t (err error) rows there h later = (
    rows,
    last_fails h,
    find_written name db t (record t { rows = rows }) there,
    others_unwritten name db (record t { rows = rows }),
  )
  continue-Updates column e pairs db t undefined rows there h later = (
    rows,
    last_stops h,
    find_written name db t (record t { rows = rows }) there,
    others_unwritten name db (record t { rows = rows }),
  )

  assign_all-Updates :
      (pairs : List (Str × Expr Float)) (db : Database Float) (t : Table Float)
      → find_table name db.tables ≡ some t
      → Updates pairs db t (assign_all p built_in name pairs db)
  unfolding assign_all pure ◌>>=◌ pass_of
  assign_all-Updates [] db t there = (t.rows, no_more, there, λ other ne. refl)
  assign_all-Updates ((column, e) ∷ pairs) db t there =
      let u : Table Float = record t { rows = (pass_of t (column, e)).1 } in
      rw (update_column_run (column, e) db t there) (
        continue-Updates column e pairs db t (pass_of t (column, e)).0 u.rows there
          (update_rows-Pass p built_in t.columns (get_column t.columns column) e t.rows)
          (assign_all-Updates pairs (with_table name u db) u (find_written name db t u there)))

  -- Where the database has a table t of the given name, an UPDATE of it changes the rows of that
  -- table alone. Its assignments are passes over the rows, each over what the one before it left:
  -- in each row up to one that fails, the cell of the column is the value of the expression on
  -- the row as the pass found it, and the other cells are as they were; the row that fails and
  -- those behind it are as they were, no later pass is made, and the result is that failure.
  pub update-Updates :
      (pairs : List (Str × Expr Float)) (db : Database Float) (t : Table Float)
      → find_table name db.tables ≡ some t
      → Updates pairs db t (update p built_in name pairs db)
  unfolding update table or_missing ◌>>=◌
  update-Updates pairs db t there = rw there (assign_all-Updates pairs db t there)
