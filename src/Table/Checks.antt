-- ===== src/Table/Checks.antt =====
-- db/core/Table.cpp: `check_value_validity`, `perform_table_integrity_checks`, and both versions of
-- `perform_database_integrity_checks`.
use essa_db.Prelude.{
  ℕ, suc, Str, Bool, true, false, not, ◌&&◌, Option, none, some, List, [], ◌∷◌, length, ◌==◌,
  if◌then◌else◌, Result, ok, err, DbError, ◌>>=◌, ◌>>◌, fail_if,
}
use essa_db.Value.Types.{Platform, Value, is_null, type, type_eq}
use essa_db.Value.Convert.{to_bool}
use essa_db.Value.Compare.{value_eq}
use essa_db.Row.{Tuple, Column, value_at}
use essa_db.Expression.{Expr, Context, evaluate}
use essa_db.Expression.Check.{Check, Constraints}
use essa_db.Table.State.{Table, ForeignKey, get_column, find_first_matching_tuple}

-- What the tables of a database are called, and what they hold.
abbrev pub Tables : Type 0 → Type 0
Tables F = Str → Option (Table F)

module _ (p : Platform) where
  open p use {Float}

  -- The walk over the stored rows for a value that the new row repeats.
  unfoldable pub no_duplicate : DbError → ℕ → Value Float → List (Tuple Float) → Result (Unit {0})
  no_duplicate e i v [] = ok tt
  no_duplicate e i v (other ∷ rows) = do
    w ← value_at other i
    same ← value_eq p w v
    fail_if same e
    no_duplicate e i v rows

  -- `check_value_validity(row, column_index)`, for the column at that index.
  unfoldable pub check_value_validity :
      List (Tuple Float) → Tuple Float → ℕ → Column Float → Result (Unit {0})
  unfolding no_duplicate
  check_value_validity rows row i c = do
    v ← value_at row i
    fail_if (not (is_null v) && not (type_eq c.type (type v))) DbError.type_mismatch
    fail_if (c.not_null && is_null v) DbError.null_in_not_null
    if c.unique then no_duplicate DbError.not_unique i v rows else ok tt

  -- The loop over the columns from index `i` on.
  unfoldable pub check_values :
      List (Tuple Float) → Tuple Float → ℕ → List (Column Float) → Result (Unit {0})
  check_values rows row i [] = ok tt
  check_values rows row i (c ∷ cs) = do
    check_value_validity rows row i c
    check_values rows row (suc i) cs

  unfoldable pub check_key_at :
      List (Tuple Float) → Tuple Float → Option (ℕ × Column Float) → Result (Unit {0})
  check_key_at rows row none = err DbError.internal
  check_key_at rows row (some (i, c)) = do
    v ← value_at row i
    fail_if (is_null v) DbError.null_primary_key
    no_duplicate DbError.primary_key_not_unique i v rows

  -- The part of the checks that is about the primary key.
  unfoldable pub check_primary_key : Table Float → Tuple Float → Option Str → Result (Unit {0})
  unfolding check_key_at no_duplicate
  check_primary_key t row none = ok tt
  check_primary_key t row (some key) = check_key_at t.rows row (get_column t.columns key)

  unfoldable pub perform_table_integrity_checks : Table Float → Tuple Float → Result (Unit {0})
  perform_table_integrity_checks t row = do
    fail_if (not (length row == length t.columns)) DbError.column_count
    check_primary_key t row t.primary_key
    check_values t.rows row 0 t.columns

  unfoldable pub require_column : Option (ℕ × Column Float) → Result ℕ
  require_column none = err DbError.internal
  require_column (some (i, c)) = ok i

  unfoldable pub require_table : Option (Table Float) → Result (Table Float)
  require_table none = err DbError.no_such_table
  require_table (some t) = ok t

  unfoldable pub require_match : Option (Tuple Float) → Result (Unit {0})
  require_match none = err DbError.foreign_key_missing
  require_match (some row) = ok tt

  -- One foreign key: a null refers to nothing.
  unfoldable pub check_foreign_key :
      Tables Float → List (Column Float) → Tuple Float → ForeignKey → Result (Unit {0})
  unfolding require_column require_table require_match
  check_foreign_key db columns row fk = do
    i ← require_column (get_column columns fk.local_column)
    t ← require_table (db fk.referenced_table)
    j ← require_column (get_column t.columns fk.referenced_column)
    v ← value_at row i
    if is_null v
        then ok tt
        else do found ← find_first_matching_tuple p j v t.rows; require_match found

  unfoldable pub check_foreign_keys :
      Tables Float → List (Column Float) → Tuple Float → List ForeignKey → Result (Unit {0})
  check_foreign_keys db columns row [] = ok tt
  check_foreign_keys db columns row (fk ∷ fks) = do
    check_foreign_key db columns row fk
    check_foreign_keys db columns row fks

  abbrev nonempty : List ForeignKey → Bool
  nonempty [] = false
  nonempty (fk ∷ fks) = true

  -- `Table::perform_database_integrity_checks`; without a database no foreign key can be checked.
  unfoldable pub check_references :
      Option (Tables Float) → Table Float → Tuple Float → Result (Unit {0})
  check_references none t row = fail_if (nonempty t.foreign_keys) DbError.internal
  check_references (some db) t row = check_foreign_keys db t.columns row t.foreign_keys

  -- One rule of a table's check, on the new row.
  unfoldable pub holds : Context Float → Expr Float → Result (Unit {0})
  holds c e = do v ← evaluate p c e; b ← to_bool p v; fail_if (not b) DbError.check_failed

  unfoldable pub check_constraints : Context Float → Constraints Float → Result (Unit {0})
  unfolding holds
  check_constraints c [] = ok tt
  check_constraints c ((name, e) ∷ m) = do holds c e; check_constraints c m

  unfoldable pub check_main_rule : Context Float → Option (Expr Float) → Result (Unit {0})
  unfolding holds
  check_main_rule c none = ok tt
  check_main_rule c (some e) = holds c e

  -- What a rule reads: a column by its name, whatever table it is qualified with, in the new row.
  read_column : Tuple Float → Option (ℕ × Column Float) → Result (Value Float)
  read_column row none = err DbError.no_such_column
  read_column row (some (i, c)) = value_at row i

  module _ (built_in : Context Float) where
    unfoldable pub row_context : List (Column Float) → Tuple Float → Context Float
    unfolding read_column
    row_context columns row = record built_in {
      resolve = λ id table. read_column row (get_column columns id);
      tuple = row;
      row_group = ok none;
      in_row = λ other id table. read_column other (get_column columns id);
    }

    -- `MemoryBackedTable::perform_database_integrity_checks`
    unfoldable pub check_rules :
        Option (Tables Float) → Table Float → Tuple Float → Option (Check Float) → Result (Unit {0})
    unfolding row_context check_main_rule check_constraints
    check_rules db t row none = ok tt
    check_rules none t row (some rules) = err DbError.internal
    check_rules (some db) t row (some rules) = do
      check_main_rule (row_context t.columns row) rules.main_rule
      check_constraints (row_context t.columns row) rules.constraints

    unfoldable pub perform_database_integrity_checks :
        Option (Tables Float) → Table Float → Tuple Float → Result (Unit {0})
    perform_database_integrity_checks db t row = do
      check_references db t row
      check_rules db t row t.check
