-- ===== src/Statement/Session.antt =====
-- A session: statements one after the other, each of which may fail. Whatever they are, every table
-- goes on meeting the constraints of its columns and its primary key. UPDATE is left out, which
-- checks no constraint, and so is ALTER TABLE, which may give a key to a table that has rows.
use essa_db.Prelude.{
  Str, str_eq_refl, false, not, Option, none, some, List, [], ◌∷◌, Result, ok, err, undefined, ◌≡◌,
  refl, arith, Bool-cases, inl, inr, map, ◌∙◌,
}
use essa_db.Value.Types.{Platform}
use essa_db.Expression.{Expr, Context}
use essa_db.Expression.Check.{Check}
use essa_db.Table.State.{Table}
use essa_db.Table.Valid.{IsValid}
use essa_db.Database.Action.{
  Database, Engine, memory, edb, Action, ◌>>=◌, ◌>>◌, find_table, insert_table, with_table,
}
use essa_db.Database.Laws.{find-insert}
use essa_db.Database.Tables.{
  TableSetup, new_table, table, exists, is_some, change_tables, or_missing, create_table,
  create_with,
}
use essa_db.Database.Valid.{
  Keeps, Any, AllValid, Keeps-bind, Keeps-pure, Keeps-lift, Keeps-gets, Keeps-if, table-Keeps,
  write-Keeps, create_table-Keeps, drop_table-Keeps, insert_into-Keeps, write-Entry, insert-Entry,
  no_rows-ValidRows,
}
use essa_db.Csv.Import.{import_statement}
use essa_db.Csv.Keeps.{import_statement-Keeps}
use essa_db.Statement.Rows.{mark_rows, remove_marked}
use essa_db.Statement.Deleted.{remove_marked-ValidRows}
use essa_db.Statement.Manipulate.{insert_values, delete_from}
use essa_db.Statement.Define.{
  ExistenceCondition, ParsedColumn, modify_table, set_keys, set_key, create_table_statement,
  placed_at, drop_table_statement, truncate_table,
}

pub data Statement (F : Type 0) : Type 0 where
  create :
      ExistenceCondition
      → Str
      → List (ParsedColumn F)
      → Option (Check F)
      → Option Engine
      → Statement F
  drop : ExistenceCondition → Str → Statement F
  truncate : ExistenceCondition → Str → Statement F
  insert : Str → List Str → List (Expr F) → Statement F
  delete : Str → Option (Expr F) → Statement F
  import : Str → Str → Option Engine → Statement F

module _ (p : Platform) (built_in : Context p.Float) where
  open p use {Float}

  unfoldable pub execute : Statement Float → Action Float (Unit {0})
  execute (create cond name columns check engine) =
      create_table_statement cond name columns check engine
  execute (drop cond name) = drop_table_statement cond name
  execute (truncate cond name) = truncate_table cond name
  execute (insert name columns es) = insert_values p built_in name columns es
  execute (delete name cond) = delete_from p built_in name cond
  execute (import text name engine) = import_statement p built_in text name engine

  -- An error ends its own statement alone; where a statement has no defined behaviour, the session ends.
  abbrev go_on : Result (Unit {0}) → Database Float → Database Float → Database Float
  go_on undefined db rest = db
  go_on _ db rest = rest

  unfoldable pub run : List (Statement Float) → Database Float → Database Float
  run [] db = db
  run (s ∷ ss) db = let (r, db') = execute s db in let rest = run ss db' in go_on r db' rest

  delete_from-Keeps :
      (name : Str) (cond : Option (Expr Float))
      → Keeps (AllValid p) Any (delete_from p built_in name cond)
  unfolding delete_from
  delete_from-Keeps name cond = Keeps-bind (IsValid p) _ _ (table-Keeps p name) λ t v.
      Keeps-bind _ _ _ (Keeps-lift (mark_rows p built_in t.columns cond t.rows)) λ marks e.
        write-Keeps p name (record t { rows = remove_marked marks t.rows })
          (remove_marked-ValidRows p t.columns t.primary_key marks t.rows v)

  insert_values-Keeps :
      (name : Str) (columns : List Str) (es : List (Expr Float))
      → Keeps (AllValid p) Any (insert_values p built_in name columns es)
  unfolding insert_values
  insert_values-Keeps name [] es =
      Keeps-bind _ _ _ (table-Keeps p name)
        λ t v. Keeps-bind _ _ _ (Keeps-lift _) λ row e. insert_into-Keeps p built_in name row
  insert_values-Keeps name (c ∷ cs) es = Keeps-bind _ _ _ (table-Keeps p name) λ t v.
      Keeps-bind _ _ _ (Keeps-lift _)
        λ values e. Keeps-bind _ _ _ (Keeps-lift _) λ row e'. insert_into-Keeps p built_in name row

  drop_table_statement-Keeps :
      (cond : ExistenceCondition) (name : Str)
      → Keeps (AllValid p) Any (drop_table_statement cond name)
  unfolding drop_table_statement
  drop_table_statement-Keeps cond name =
      Keeps-bind Any _ _ (Keeps-gets _)
        λ go _. Keeps-if (not go) _ _ (Keeps-pure tt) (drop_table-Keeps p name)

  truncate_table-Keeps :
      (cond : ExistenceCondition) (name : Str) → Keeps (AllValid p) Any (truncate_table cond name)
  unfolding truncate_table
  truncate_table-Keeps cond name = Keeps-bind Any _ _ (Keeps-gets _) λ go _.
      Keeps-if (not go) _ _ (Keeps-pure tt) (
        Keeps-bind _ _ _ (table-Keeps p name)
          λ t v. Keeps-bind Any _ _ (drop_table-Keeps p name) λ u _. create_table-Keeps p _ _ _)

  set_key-rows : (c : ParsedColumn Float) (t : Table Float) → (set_key c.key t).rows ≡ t.rows
  unfolding set_key
  set_key-rows c t = ground arith

  set_keys-rows : (cs : List (ParsedColumn Float)) (t : Table Float) → (set_keys cs t).rows ≡ t.rows
  unfolding set_keys
  set_keys-rows [] t = refl
  set_keys-rows (c ∷ cs) t = set_keys-rows cs (set_key c.key t) ∙ set_key-rows c t

  -- A table that was just made has no rows, so any key may be set on it.
  keys_on_new :
      (setup : TableSetup Float) (check : Option (Check Float)) (cs : List (ParsedColumn Float))
      → IsValid p (set_keys cs (new_table setup check))
  keys_on_new setup check cs = rw (set_keys-rows cs (new_table setup check)) (
      no_rows-ValidRows p (set_keys cs (new_table setup check)).columns
        (set_keys cs (new_table setup check)).primary_key)

  not_there : (o : Option (Table Float)) → is_some o ≡ false → o ≡ none
  not_there none h = refl
  not_there (some t) h = cc

  find_new :
      (name : Str) (t : Table Float) (m : List (Str × Table Float))
      → is_some (find_table name m) ≡ false
      → find_table name (insert_table name t m) ≡ some t
  find_new name t m h =
      rw find-insert (rw (not_there (find_table name m) h) (rw (str_eq_refl name)))

  create_and_modify :
      (setup : TableSetup Float) (check : Option (Check Float)) (cs : List (ParsedColumn Float))
      (e : Engine) (db : Database Float)
      → AllValid p db
      → AllValid p ((create_table setup check e >> modify_table setup.name (set_keys cs)) db).1
  unfolding create_table create_with change_tables table or_missing ◌>>=◌ with_table
  create_and_modify setup check cs edb db h = elim (Bool-cases (exists setup.name db)) [
    | inl taken ↦ rw taken h
    | inr new ↦ rw new h
  ]
  create_and_modify setup check cs memory db h = elim (Bool-cases (exists setup.name db)) [
    | inl taken ↦ rw taken h
    | inr new ↦
        let t = new_table setup check in
        rw new (
          rw (find_new setup.name t db.tables new) (
            write-Entry p setup.name (set_keys cs t) (insert_table setup.name t db.tables)
              (keys_on_new setup check cs)
              (insert-Entry p setup.name t db.tables (no_rows-ValidRows p setup.columns none) h)))
  ]

  create_table_statement-Keeps :
      (cond : ExistenceCondition) (name : Str) (cs : List (ParsedColumn Float))
      (check : Option (Check Float)) (engine : Option Engine)
      → Keeps (AllValid p) Any (create_table_statement cond name cs check engine)
  unfolding create_table_statement
  create_table_statement-Keeps cond name cs check engine = Keeps-bind Any _ _ (Keeps-gets _) λ go _.
      Keeps-if (not go) _ _ (Keeps-pure tt) (
        Keeps-bind Any _ _ (Keeps-gets _) λ e _. Keeps-bind Any _ _ (Keeps-gets _) λ address _.
          record {
            after =
                create_and_modify (record { name = name; columns = map (λ c. c.column) cs })
                  (placed_at address check) cs e;
            gives = λ db h a _. tt;
          })

  pub execute-Keeps : (s : Statement Float) → Keeps (AllValid p) Any (execute s)
  unfolding execute
  execute-Keeps (create cond name cs check engine) =
      create_table_statement-Keeps cond name cs check engine
  execute-Keeps (drop cond name) = drop_table_statement-Keeps cond name
  execute-Keeps (truncate cond name) = truncate_table-Keeps cond name
  execute-Keeps (insert name columns es) = insert_values-Keeps name columns es
  execute-Keeps (delete name cond) = delete_from-Keeps name cond
  execute-Keeps (import text name engine) = import_statement-Keeps p built_in text name engine

  go_on-AllValid :
      (r : Result (Unit {0})) (db rest : Database Float)
      → AllValid p db
      → AllValid p rest
      → AllValid p (go_on r db rest)
  go_on-AllValid (ok _) db rest h k = k
  go_on-AllValid (err _) db rest h k = k
  go_on-AllValid undefined db rest h k = h

  -- If every table of a database is valid, every table of the database after any session of
  -- CREATE, DROP, TRUNCATE, INSERT (of values), DELETE and IMPORT statements is valid, whichever
  -- of them fail. A table is valid when every row has one cell for each column, of the column's
  -- type or null and not null in a NOT NULL column, when no two rows are found equal in a UNIQUE
  -- column, and when, if the column of the primary key exists, no two rows are found equal in it
  -- and none is null there.
  pub run-AllValid :
      (ss : List (Statement Float)) (db : Database Float) → AllValid p db → AllValid p (run ss db)
  unfolding run
  run-AllValid [] db h = h
  run-AllValid (s ∷ ss) db h =
      let after = (execute-Keeps s).after db h in
      go_on-AllValid (execute s db).0 (execute s db).1 (run ss (execute s db).1) after
        (run-AllValid ss (execute s db).1 after)
