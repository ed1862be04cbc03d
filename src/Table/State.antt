-- ===== src/Table/State.antt =====
-- db/core/Table.hpp (`MemoryBackedTable`), IndexedRelation.hpp, Relation.cpp, Database.hpp: the state
-- of a table and of a database, and how columns and rows are found.
use essa_db.Prelude.{
  ℕ, suc, ℤ, pos, ◌+ℤ◌, Str, str_eq, Bool, false, Option, none, some, List, [], ◌∷◌, ◌++◌,
  if◌then◌else◌, Result, ok, undefined, ◌>>=◌,
}
use essa_db.Value.Types.{Platform, Value, type, type_eq}
use essa_db.Value.Compare.{value_eq}
use essa_db.Value.Operators.{int32}
use essa_db.Row.{Tuple, Column, value_at}
use essa_db.Expression.Check.{Check}

-- `ForeignKey`; a primary key is the name of its column.
pub record ForeignKey : Type 0 where
  pub local_column : Str
  pub referenced_table : Str
  pub referenced_column : Str

-- `std::map<std::string, int>`; a name that is not there counts as 0.
abbrev pub Counters : Type 0
Counters = List (Str × ℤ)

pub record Table (F : Type 0) : Type 0 where
  pub name : Str
  pub columns : List (Column F)
  pub rows : List (Tuple F)
  pub check : Option (Check F)
  pub auto_increment_values : Counters
  pub primary_key : Option Str
  pub foreign_keys : List ForeignKey

unfoldable pub counter : Str → Counters → ℤ
counter name [] = pos 0
counter name ((n, i) ∷ m) = if str_eq n name then i else counter name m

unfoldable pub set_counter : Str → ℤ → Counters → Counters
set_counter name i [] = (name, i) ∷ []
set_counter name i ((n, j) ∷ m) =
    if str_eq n name then (n, i) ∷ m else (n, j) ∷ set_counter name i m

keys_without : Str → List ForeignKey → List ForeignKey
keys_without name [] = []
keys_without name (fk ∷ fks) =
    let rest = keys_without name fks in if str_eq fk.local_column name then rest else fk ∷ rest

module _ {F : Type 0} where
  -- `Relation::get_column(name)`: the first column of that name, with its index.
  unfoldable pub find_column : Str → ℕ → List (Column F) → Option (ℕ × Column F)
  find_column name i [] = none
  find_column name i (c ∷ cs) =
      if str_eq c.name name then some (i, c) else find_column name (suc i) cs

  abbrev pub get_column : List (Column F) → Str → Option (ℕ × Column F)
  get_column cs name = find_column name 0 cs

  -- `next_auto_increment_value` and `increment`: `int` additions.
  unfoldable pub next_auto_increment_value : Table F → Str → Result ℤ
  unfolding int32 counter
  next_auto_increment_value t name = int32 (counter name t.auto_increment_values +ℤ pos 1)

  unfoldable pub increment : Str → Table F → Result (Table F)
  unfolding next_auto_increment_value set_counter
  increment name t = do
    i ← next_auto_increment_value t name
    ok (record t { auto_increment_values = set_counter name i t.auto_increment_values })

  abbrev pub set_primary_key : Option Str → Table F → Table F
  set_primary_key key t = record t { primary_key = key }

  abbrev pub add_foreign_key : ForeignKey → Table F → Table F
  add_foreign_key key t = record t { foreign_keys = t.foreign_keys ++ (key ∷ []) }

  -- `drop_foreign_key`: every key of that local column goes.
  unfoldable pub drop_foreign_key : Str → Table F → Table F
  unfolding keys_without
  drop_foreign_key name t = record t { foreign_keys = keys_without name t.foreign_keys }

  unfoldable pub insert_unchecked : Tuple F → Table F → Table F
  insert_unchecked row t = record t { rows = t.rows ++ (row ∷ []) }

  unfoldable pub rename : Str → Table F → Table F
  rename new_name t = record t { name = new_name }

module _ (p : Platform) where
  open p use {Float}

  -- What `find_first_matching_tuple` does with a row while nothing is found: an error of the
  -- comparison ends the program.
  unfoldable pub matches : ℕ → Value Float → Tuple Float → Result Bool
  matches column value row = do
    v ← value_at row column
    if type_eq (type v) (type value)
        then elim (value_eq p v value) [ ok b ↦ ok b | _ ↦ undefined ]
        else ok false

  -- `Relation::find_first_matching_tuple`, over the rows of a relation.
  unfoldable pub find_first_matching_tuple :
      ℕ → Value Float → List (Tuple Float) → Result (Option (Tuple Float))
  unfolding matches
  find_first_matching_tuple column value [] = ok none
  find_first_matching_tuple column value (row ∷ rows) = do
    hit ← matches column value row
    if hit then ok (some row) else find_first_matching_tuple column value rows
