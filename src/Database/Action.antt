-- ===== src/Database/Action.antt =====
-- Calls that change a database and may fail, and the map of tables (`std::unordered_map`).
use essa_db.Prelude.{
  Str, str_eq, Option, none, some, List, [], ◌∷◌, if◌then◌else◌, Result, ok, err, undefined,
  DbError,
}
use essa_db.Table.State.{Table}

-- `DatabaseEngine`
pub data Engine : Type 0 where
  memory edb : Engine

pub record Database (F : Type 0) : Type 0 where
  pub tables : List (Str × Table F)
  pub default_engine : Engine

abbrev pub Action : Type 0 → Type 0 → Type 0
Action F A = Database F → Result A × Database F

module _ {F A : Type 0} where
  unfoldable pub pure : A → Action F A
  pure a db = (ok a, db)

  unfoldable pub raise : DbError → Action F A
  raise e db = (err e, db)

  -- A call that does not change the database.
  unfoldable pub lift : Result A → Action F A
  lift r db = (r, db)

  unfoldable pub gets : (Database F → A) → Action F A
  gets f db = (ok (f db), db)

module _ {F A B : Type 0} where
  abbrev pub continue : Result A → (A → Action F B) → Action F B
  continue (ok a) f db = f a db
  continue (err e) f db = (err e, db)
  continue undefined f db = (undefined, db)

  infixl 5 ◌>>=◌ ◌>>◌
  -- To open this opens `pure`, `raise`, `lift` and `gets` too.
  unfoldable pub ◌>>=◌ : Action F A → (A → Action F B) → Action F B
  unfolding pure raise lift gets
  ◌>>=◌ m f db = let (r, db') = m db in continue r f db'

  abbrev pub ◌>>◌ : Action F A → Action F B → Action F B
  m >> k = m >>= λ _. k

module _ {F : Type 0} where
  unfoldable pub find_table : Str → List (Str × Table F) → Option (Table F)
  find_table name [] = none
  find_table name ((n, t) ∷ m) = if str_eq n name then some t else find_table name m

  -- `m_tables.insert`: nothing happens where the name is taken.
  unfoldable pub insert_table : Str → Table F → List (Str × Table F) → List (Str × Table F)
  insert_table name t [] = (name, t) ∷ []
  insert_table name t ((n, s) ∷ m) =
      if str_eq n name then (n, s) ∷ m else (n, s) ∷ insert_table name t m

  unfoldable pub erase_table : Str → List (Str × Table F) → List (Str × Table F)
  erase_table name [] = []
  erase_table name ((n, s) ∷ m) =
      let rest = erase_table name m in if str_eq n name then rest else (n, s) ∷ rest

  -- A write through the pointer to a table that is in the map.
  unfoldable pub write_table : Str → Table F → List (Str × Table F) → List (Str × Table F)
  write_table name t [] = []
  write_table name t ((n, s) ∷ m) =
      if str_eq n name then (n, t) ∷ m else (n, s) ∷ write_table name t m

  unfoldable pub with_table : Str → Table F → Database F → Database F
  unfolding write_table
  with_table name t db = record db { tables = write_table name t db.tables }
