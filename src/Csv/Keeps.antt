-- ===== src/Csv/Keeps.antt =====
-- db/core/Database.cpp: an import keeps the tables of a database valid, whether it succeeds or not.
use essa_db.Prelude.{Str, Option, none, some, List, [], ◌∷◌}
use essa_db.Value.Types.{Platform}
use essa_db.Row.{Tuple}
use essa_db.Expression.{Context}
use essa_db.Table.State.{Table}
use essa_db.Database.Action.{Engine}
use essa_db.Database.Valid.{
  Keeps, Any, AllValid, Keeps-bind, Keeps-pure, Keeps-lift, Keeps-gets, create_table-Keeps,
  insert_into-Keeps,
}
use essa_db.Csv.Import.{import_from_csv, import_into, import_to_table, import_statement}

module _ (p : Platform) (built_in : Context p.Float) where
  open p use {Float}

  import_from_csv-Keeps :
      (name : Str) (rows : List (Tuple Float))
      → Keeps (AllValid p) Any (import_from_csv p built_in name rows)
  unfolding import_from_csv
  import_from_csv-Keeps name [] = Keeps-pure tt
  import_from_csv-Keeps name (row ∷ rows) =
      Keeps-bind Any _ _ (insert_into-Keeps p built_in name row)
        λ u _. import_from_csv-Keeps name rows

  import_into-Keeps :
      (text name : Str) (engine : Engine) (t : Option (Table Float))
      → Keeps (AllValid p) Any (import_into p built_in text name engine t)
  unfolding import_into
  import_into-Keeps text name engine (some t) =
      Keeps-bind _ _ _ (Keeps-lift _) λ file e. import_from_csv-Keeps name file.rows
  import_into-Keeps text name engine none = Keeps-bind _ _ _ (Keeps-lift _) λ file e.
      Keeps-bind Any _ _ (create_table-Keeps p _ _ _) λ u _. import_from_csv-Keeps name file.rows

  pub import_statement-Keeps :
      (text name : Str) (engine : Option Engine)
      → Keeps (AllValid p) Any (import_statement p built_in text name engine)
  unfolding import_statement import_to_table
  import_statement-Keeps text name engine =
      Keeps-bind Any _ _ (Keeps-gets _)
        λ e _. Keeps-bind Any _ _ (Keeps-gets _) λ t _. import_into-Keeps text name _ t
