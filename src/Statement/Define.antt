-- ===== src/Statement/Define.antt =====
-- db/sql/ast/Statement.cpp: CREATE, DROP, TRUNCATE and ALTER TABLE.
use essa_db.Prelude.{
  ℕ, suc, ltb, ◌==◌, Str, str_eq, Bool, true, false, not, Option, none, some, List, [], ◌∷◌, ◌++◌,
  if◌then◌else◌, Result, ok, err, undefined, DbError, map,
}
use essa_db.Prelude
use essa_db.Value.Types.{Platform}
use essa_db.Row.{Column}
use essa_db.Expression.{Expr, Context}
use essa_db.Expression.Check.{
  Check, add_check, alter_check, drop_check, add_constraint, alter_constraint, drop_constraint,
}
use essa_db.Table.State.{Table, ForeignKey, set_primary_key, add_foreign_key, drop_foreign_key}
use essa_db.Database.Action.{
  Database, Engine, memory, Action, pure, raise, lift, gets, ◌>>=◌, ◌>>◌, with_table,
}
use essa_db.Database.Tables.{exists, table, create_table, drop_table}
use essa_db.Database.Restructure.{restructure_table}

-- `ParsedColumn::key`
pub data Key : Type 0 where
  no_key : Key
  primary : Str → Key
  foreign : ForeignKey → Key

pub record ParsedColumn (F : Type 0) : Type 0 where
  pub column : Column F
  pub key : Key

-- `TableStatement::ExistenceCondition`
pub data ExistenceCondition : Type 0 where
  exists_ not_exists unspecified : ExistenceCondition

module _ {F : Type 0} where
  -- `TableStatement::table_exists`: whether the statement is to run.
  unfoldable pub table_exists : ExistenceCondition → Str → Database F → Bool
  table_exists unspecified name db = true
  table_exists exists_ name db = exists name db
  table_exists not_exists name db = not (exists name db)

  unfoldable pub set_key : Key → Table F → Table F
  set_key no_key t = t
  set_key (primary name) t = set_primary_key (some name) t
  set_key (foreign fk) t = add_foreign_key fk t

  unfoldable pub set_keys : List (ParsedColumn F) → Table F → Table F
  set_keys [] t = t
  set_keys (c ∷ cs) t = set_keys cs (set_key c.key t)

  engine_or_default : Option Engine → Database F → Engine
  engine_or_default none db = db.default_engine
  engine_or_default (some e) db = e

  -- An address that no check of a table has: that of a check which a statement makes.
  fresh_from : List (Str × Table F) → ℕ
  fresh_from [] = 0
  fresh_from ((n, t) ∷ m) = max_check (fresh_from m) t.check
    where
      max_check : ℕ → Option (Check F) → ℕ
      max_check k none = k
      max_check k (some c) = if ltb c.address k then k else suc c.address

  unfoldable pub fresh_address : Database F → ℕ
  unfolding fresh_from
  fresh_address db = fresh_from db.tables

  abbrev pub placed_at : ℕ → Option (Check F) → Option (Check F)
  placed_at address none = none
  placed_at address (some c) = some (record c { address = address })

  -- The check of an address is changed: every table that holds it sees that.
  unfoldable pub change_shared : Check F → List (Str × Table F) → List (Str × Table F)
  change_shared c [] = []
  change_shared c ((n, t) ∷ m) = (n, seen t.check) ∷ change_shared c m
    where
      seen : Option (Check F) → Table F
      seen none = t
      seen (some d) = if d.address == c.address then record t { check = some c } else t

  abbrev pub modify_table : Str → (Table F → Table F) → Action F (Unit {0})
  modify_table name f = do t ← table name; λ db. (ok tt, with_table name (f t) db)

  -- `CreateTable::execute`
  unfoldable pub create_table_statement :
      ExistenceCondition
      → Str
      → List (ParsedColumn F)
      → Option (Check F)
      → Option Engine
      → Action F (Unit {0})
  unfolding set_keys engine_or_default fresh_address
  create_table_statement cond name columns check engine = do
    run ← gets (table_exists cond name)
    if not run then pure tt else do
      e ← gets (engine_or_default engine)
      address ← gets fresh_address
      create_table (record { name = name; columns = map (λ c. c.column) columns })
          (placed_at address check) e
      modify_table name (set_keys columns)

  -- `DropTable::execute`
  unfoldable pub drop_table_statement : ExistenceCondition → Str → Action F (Unit {0})
  drop_table_statement cond name = do
    run ← gets (table_exists cond name)
    if not run then pure tt else drop_table name

  -- `TruncateTable::execute`: a new table with the name, the columns and the check of the old one.
  unfoldable pub truncate_table : ExistenceCondition → Str → Action F (Unit {0})
  truncate_table cond name = do
    run ← gets (table_exists cond name)
    if not run then pure tt else do
      t ← table name
      drop_table name
      create_table (record { name = t.name; columns = t.columns }) t.check memory

-- `AlterTable`
pub record AlterTable (F : Type 0) : Type 0 where
  pub to_add : List (ParsedColumn F)
  pub to_alter : List (ParsedColumn F)
  pub to_drop : List Str
  pub check_to_add : Option (Expr F)
  pub check_to_alter : Option (Expr F)
  pub check_to_drop : Bool
  pub constraint_to_add : List (Str × Expr F)
  pub constraint_to_alter : List (Str × Expr F)
  pub constraint_to_drop : List Str

module _ {F : Type 0} where
  -- A column that is altered stands where the column of its name stood.
  replace_column : Column F → List (Column F) → List (Column F)
  replace_column c [] = []
  replace_column c (d ∷ ds) =
      let rest = replace_column c ds in if str_eq d.name c.name then c ∷ rest else d ∷ rest

  without_column : Str → List (Column F) → List (Column F)
  without_column name [] = []
  without_column name (d ∷ ds) =
      let rest = without_column name ds in if str_eq d.name name then rest else d ∷ rest

  replace_columns : List (ParsedColumn F) → List (Column F) → List (Column F)
  replace_columns [] ds = ds
  replace_columns (c ∷ cs) ds = replace_columns cs (replace_column c.column ds)

  without_columns : List Str → List (Column F) → List (Column F)
  without_columns [] ds = ds
  without_columns (name ∷ names) ds = without_columns names (without_column name ds)

  -- The columns of the table after the statement.
  unfoldable pub new_columns : AlterTable F → List (Column F) → List (Column F)
  unfolding replace_column without_column replace_columns without_columns
  new_columns a old =
      without_columns a.to_drop
        (replace_columns a.to_alter (old ++ map (λ (c : ParsedColumn F). c.column) a.to_add))

  -- A key that is on a dropped column goes.
  drop_key : Str → Table F → Table F
  drop_key name t =
      let same : Bool = elim t.primary_key [ none ↦ false | some key ↦ str_eq key name ] in
      drop_foreign_key name (if same then set_primary_key none t else t)

  drop_keys : List Str → Table F → Table F
  drop_keys [] t = t
  drop_keys (name ∷ names) t = drop_keys names (drop_key name t)

  -- What the statement does to the keys of the table, before it is restructured.
  unfoldable pub change_keys : AlterTable F → Table F → Table F
  unfolding set_keys drop_keys drop_key
  change_keys a t = drop_keys a.to_drop (set_keys a.to_alter (set_keys a.to_add t))

  -- `validate_check_exists_and_is_supported`, and a change to the check object behind it.
  unfoldable pub change_check : Str → (Check F → Result (Check F)) → Action F (Unit {0})
  unfolding change_shared
  change_check name f = do
    t ← table name
    elim t.check [
      | none ↦ raise DbError.no_check
      | some c ↦ do
        c' ← lift (f c)
        λ db. (ok tt, record db { tables = change_shared c' db.tables })
    ]

  unfoldable pub when_some :
      {A : Type 0} → Option A → (A → Action F (Unit {0})) → Action F (Unit {0})
  when_some none f = pure tt
  when_some (some a) f = f a

  unfoldable pub for_each : {A : Type 0} → List A → (A → Action F (Unit {0})) → Action F (Unit {0})
  for_each [] f = pure tt
  for_each (a ∷ as') f = do f a; for_each as' f

  -- The last part of `AlterTable::execute`.
  unfoldable pub change_checks : Str → AlterTable F → Action F (Unit {0})
  unfolding change_check when_some for_each
  change_checks name a = do
    when_some a.check_to_add (λ e. change_check name (add_check e))
    when_some a.check_to_alter (λ e. change_check name (alter_check e))
    if a.check_to_drop then change_check name drop_check else pure tt
    for_each a.constraint_to_add (λ x. change_check name (add_constraint x.0 x.1))
    for_each a.constraint_to_alter (λ x. change_check name (alter_constraint x.0 x.1))
    for_each a.constraint_to_drop (λ n. change_check name (drop_constraint n))

module _ (p : Platform) (built_in : Context p.Float) where
  open p use {Float}

  -- `AlterTable::execute`. `stamp` is the time of day that the backup's name ends in.
  unfoldable pub alter_table :
      Str → ExistenceCondition → Str → AlterTable Float → Action Float (Unit {0})
  alter_table stamp cond name a = do
    run ← gets (table_exists cond name)
    if not run then pure tt else do
      t ← table name
      modify_table name (change_keys a)
      restructure_table p built_in (name ++ (Prelude.codes "__BACKUP" ++ stamp)) name
          (record { name = name; columns = new_columns a t.columns })
      change_checks name a
