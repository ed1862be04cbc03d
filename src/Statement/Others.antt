-- ===== src/Statement/Others.antt =====
-- db/sql/ast/Statement.cpp, Select.cpp: each statement and the tables that it does not name.
use essa_db.Prelude.{
  Str, str_eq, false, Option, none, some, List, [], ◌∷◌, ◌≡◌, refl, Bool-cases, inl, inr,
}
use essa_db.Value.Types.{Platform}
use essa_db.Row.{Tuple}
use essa_db.Expression.{Expr, Context}
use essa_db.Expression.Check.{Check}
use essa_db.Table.State.{Table}
use essa_db.Database.Action.{Database, Engine, memory, Action, lift, ◌>>=◌, find_table}
use essa_db.Database.Tables.{table, or_missing, insert_into, drop_table, create_table}
use essa_db.Database.Valid.{Keeps, Any, Keeps-bind, Keeps-pure, Keeps-lift, Keeps-gets, Keeps-if}
use essa_db.Database.Others.{
  Still, table-Still, with_table-Still, drop_table-Still, create_table-Still, insert_into-Still,
}
use essa_db.Csv.Import.{import_from_csv, import_into, import_to_table, import_statement}
use essa_db.Statement.Manipulate.{delete_from, update_column, assign_all, update, insert_values}
use essa_db.Statement.Define.{
  ExistenceCondition, ParsedColumn, modify_table, create_table_statement, drop_table_statement,
  truncate_table, table_exists, placed_at,
}

module _ (p : Platform) (built_in : Context p.Float) (other : Str) (found : Option (Table p.Float))
    (name : Str) (ne : str_eq name other ≡ false) where
  open p use {Float}

  abbrev pub Spares : {A : Type 0} → Action Float A → Type 0
  Spares m = Keeps (Still other found) Any m

  modify_table-Spares : (f : Table Float → Table Float) → Spares (modify_table name f)
  modify_table-Spares f =
      Keeps-bind Any _ _ (table-Still other found name)
        λ t _. with_table-Still other found name ne (f t)

  pub create_table_statement-Spares :
      (cond : ExistenceCondition) (cs : List (ParsedColumn Float)) (check : Option (Check Float))
      (engine : Option Engine)
      → Spares (create_table_statement cond name cs check engine)
  unfolding create_table_statement
  create_table_statement-Spares cond cs check engine = Keeps-bind Any _ _ (Keeps-gets _) λ go _.
      Keeps-if _ _ _ (Keeps-pure tt) (
        Keeps-bind Any _ _ (Keeps-gets _) λ e _. Keeps-bind Any _ _ (Keeps-gets _) λ address _.
          Keeps-bind Any _ _ (create_table-Still other found name ne _ (placed_at address check) e)
            λ u _. modify_table-Spares _)

  pub drop_table_statement-Spares :
      (cond : ExistenceCondition) → Spares (drop_table_statement cond name)
  unfolding drop_table_statement
  drop_table_statement-Spares cond =
      Keeps-bind Any _ _ (Keeps-gets _)
        λ go _. Keeps-if _ _ _ (Keeps-pure tt) (drop_table-Still other found name ne)

  pub delete_from-Spares : (cond : Option (Expr Float)) → Spares (delete_from p built_in name cond)
  unfolding delete_from
  delete_from-Spares cond =
      Keeps-bind Any _ _ (table-Still other found name)
        λ t _. Keeps-bind _ _ _ (Keeps-lift _) λ marks _. with_table-Still other found name ne _

  insert-Spares : (row : Tuple Float) → Spares (insert_into p built_in name row)
  insert-Spares row = insert_into-Still p built_in other found name row ne

  pub insert_values-Spares :
      (columns : List Str) (es : List (Expr Float))
      → Spares (insert_values p built_in name columns es)
  unfolding insert_values
  insert_values-Spares [] es =
      Keeps-bind Any _ _ (table-Still other found name)
        λ t _. Keeps-bind _ _ _ (Keeps-lift _) λ row _. insert-Spares row
  insert_values-Spares (c ∷ cs) es = Keeps-bind Any _ _ (table-Still other found name) λ t _.
      Keeps-bind _ _ _ (Keeps-lift _)
        λ values _. Keeps-bind _ _ _ (Keeps-lift _) λ row _. insert-Spares row

  update_column-Spares : (pair : Str × Expr Float) → Spares (update_column p built_in name pair)
  unfolding update_column
  update_column-Spares (column, e) = Keeps-bind Any _ _ (table-Still other found name) λ t _.
      Keeps-bind Any _ _ (with_table-Still other found name ne _)
        λ u _. record { after = (Keeps-lift _).after; gives = λ db h a k. tt }

  assign_all-Spares : (pairs : List (Str × Expr Float)) → Spares (assign_all p built_in name pairs)
  unfolding assign_all
  assign_all-Spares [] = Keeps-pure tt
  assign_all-Spares (pair ∷ pairs) =
      Keeps-bind Any _ _ (update_column-Spares pair) λ u _. assign_all-Spares pairs

  pub update-Spares : (pairs : List (Str × Expr Float)) → Spares (update p built_in name pairs)
  unfolding update
  update-Spares pairs =
      Keeps-bind Any _ _ (table-Still other found name) λ t _. assign_all-Spares pairs

  import_from_csv-Spares :
      (rows : List (Tuple Float)) → Spares (import_from_csv p built_in name rows)
  unfolding import_from_csv
  import_from_csv-Spares [] = Keeps-pure tt
  import_from_csv-Spares (row ∷ rows) =
      Keeps-bind Any _ _ (insert-Spares row) λ u _. import_from_csv-Spares rows

  import_into-Spares :
      (text : Str) (engine : Engine) (t : Option (Table Float))
      → Spares (import_into p built_in text name engine t)
  unfolding import_into
  import_into-Spares text engine (some t) =
      Keeps-bind _ _ _ (Keeps-lift _) λ file _. import_from_csv-Spares file.rows
  import_into-Spares text engine none = Keeps-bind _ _ _ (Keeps-lift _) λ file _.
      Keeps-bind Any _ _ (create_table-Still other found name ne file.columns none engine)
        λ u _. import_from_csv-Spares file.rows

  pub import_statement-Spares :
      (text : Str) (engine : Option Engine) → Spares (import_statement p built_in text name engine)
  unfolding import_statement import_to_table
  import_statement-Spares text engine =
      Keeps-bind Any _ _ (Keeps-gets _)
        λ d _. Keeps-bind Any _ _ (Keeps-gets _) λ there _. import_into-Spares text _ there

  -- The new table has the name that the old one bears, which need not be the one that it is found by.
  pub truncate_table-spares :
      (cond : ExistenceCondition) (db : Database Float)
      → Still other found db
      → ((t : Table Float) → find_table name db.tables ≡ some t → str_eq t.name other ≡ false)
      → Still other found (truncate_table cond name db).1
  unfolding truncate_table table or_missing ◌>>=◌
  truncate_table-spares cond db h k = elim (Bool-cases (table_exists cond name db)) [
    | inl go ↦ rw go (at (find_table name db.tables) k)
    | inr stay ↦ rw stay h
  ]
    where
      at :
          (o : Option (Table Float))
          → ((t : Table Float) → o ≡ some t → str_eq t.name other ≡ false)
          → Still other found
              ((lift (or_missing o) >>= λ t. drop_table name >>= λ u.
                  create_table (record { name = t.name; columns = t.columns }) t.check memory)
                db).1
      at none k = h
      at (some t) k =
          (Keeps-bind Any _ _ (drop_table-Still other found name ne) λ u _.
              create_table-Still other found t.name (k t refl) t.columns t.check memory).after
            db h
