-- ===== src/Database/Others.antt =====
-- The table of one name under changes of the tables of other names.
use essa_db.Prelude.{
  Str, str_eq, Bool, false, Option, none, some, List, if◌then◌else◌, ok, ◌≡◌, refl, ◌∙◌,
}
use essa_db.Value.Types.{Platform}
use essa_db.Row.{Tuple, Column}
use essa_db.Expression.{Context}
use essa_db.Expression.Check.{Check}
use essa_db.Table.State.{Table}
use essa_db.Database.Action.{
  Database, Engine, memory, edb, find_table, insert_table, erase_table, write_table, with_table,
}
use essa_db.Database.Laws.{find-insert, find-erase, find-write, others_unwritten}
use essa_db.Database.Tables.{
  table, change_tables, create_with, create_table, drop_table, insert_into,
}
use essa_db.Database.Valid.{Keeps, Any, Keeps-bind, Keeps-raise, Keeps-lift, Keeps-gets, Keeps-if}

module _ {F : Type 0} (other : Str) (found : Option (Table F)) where
  -- What the database has under the name `other`.
  abbrev pub Still : Database F → Type 0
  Still db = find_table other db.tables ≡ found

  pub table-Still : (name : Str) → Keeps Still Any (table name)
  unfolding table
  table-Still name = record { after = λ db h. h; gives = λ db h a e. tt }

  change_tables-Still :
      (f : List (Str × Table F) → List (Str × Table F))
      → ((m : List (Str × Table F)) → find_table other (f m) ≡ find_table other m)
      → Keeps Still Any (change_tables f)
  unfolding change_tables
  change_tables-Still f same = record { after = λ db h. same db.tables ∙ h; gives = λ db h a e. tt }

  module _ (name : Str) (ne : str_eq name other ≡ false) where
    pub with_table-Still : (t : Table F) → Keeps Still Any (λ db. (ok tt, with_table name t db))
    with_table-Still t = record {
      after = λ db h. others_unwritten name db t other ne ∙ h;
      gives = λ db h a e. tt;
    }

    insert-Still : (t : Table F) → Keeps Still Any (change_tables (insert_table name t))
    insert-Still t =
        change_tables-Still _
          λ m. find-insert name other t m ∙ kept (str_eq name other) (find_table other m) ne
      where
        kept :
            (b : Bool) (o : Option (Table F))
            → b ≡ false
            → elim o [ some s ↦ some s | none ↦ if b then some t else none ] ≡ o
        kept b none e = rw e refl
        kept b (some s) e = refl

    erase-Still : Keeps Still Any (change_tables (erase_table name))
    erase-Still = change_tables-Still _ λ m. rw find-erase (rw ne refl)

    write-Still : (t : Table F) → Keeps Still Any (change_tables (write_table name t))
    write-Still t = change_tables-Still _ λ m. rw find-write (rw ne refl)

    pub drop_table-Still : Keeps Still Any (drop_table name)
    unfolding drop_table
    drop_table-Still = Keeps-bind Any _ _ (table-Still name) λ t _. erase-Still

    pub create_table-Still :
        (columns : List (Column F)) (check : Option (Check F)) (engine : Engine)
        → Keeps Still Any (create_table (record { name = name; columns = columns }) check engine)
    unfolding create_table create_with
    create_table-Still columns check memory =
        Keeps-bind Any _ _ (Keeps-gets _)
          λ taken _. Keeps-if taken _ _ (Keeps-raise _) (insert-Still _)
    create_table-Still columns check edb =
        Keeps-bind Any _ _ (Keeps-gets _)
          λ taken _. Keeps-if taken _ _ (Keeps-raise _) (Keeps-raise _)

module _ (p : Platform) (built_in : Context p.Float) (other : Str)
    (found : Option (Table p.Float)) where
  open p use {Float}

  pub insert_into-Still :
      (name : Str) (row : Tuple Float)
      → str_eq name other ≡ false
      → Keeps (Still other found) Any (insert_into p built_in name row)
  unfolding insert_into
  insert_into-Still name row ne = Keeps-bind Any _ _ (table-Still other found name) λ t _.
      Keeps-bind Any _ _ (Keeps-gets _)
        λ db _. Keeps-bind _ _ _ (Keeps-lift _) λ t' _. with_table-Still other found name ne t'
