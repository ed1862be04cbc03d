-- ===== src/Table/Referenced.antt =====
-- The foreign keys of a row that a successful `Table::insert` appends.
use essa_db.Prelude.{
  ℕ, Bool, true, false, Option, none, some, List, [], ◌∷◌, ◌++◌, Result, ok, err, undefined, ◌>>=◌,
  ◌≡◌, refl, ◌⊎◌, inl, inr, All, >>=-eq-ok, ◌∙◌, ap, Bool-cases, Option-cases, if◌then◌else◌,
}
use essa_db.Value.Types.{Platform, Value, is_null, type, type_eq}
use essa_db.Value.Compare.{value_eq}
use essa_db.Row.{Tuple, Column, value_at}
use essa_db.Expression.{Context}
use essa_db.Table.State.{
  Table, ForeignKey, get_column, insert_unchecked, matches, find_first_matching_tuple,
}
use essa_db.Table.Checks.{
  Tables, perform_database_integrity_checks, check_references, check_foreign_keys,
  check_foreign_key, require_column, require_table, require_match,
}
use essa_db.Table.Insert.{insert}
use essa_db.Table.Inserted.{insert-Inserted}
use essa_db.Table.Appended.{RowFilled, fill-RowFilled}

module _ (p : Platform) where
  open p use {Float}

  -- A row among `rows` has, at `j`, a value of the type of `v` that is found equal to it.
  abbrev pub Holds : ℕ → Value Float → List (Tuple Float) → Type 0
  Holds j v [] = ⊥
  Holds j v (row ∷ rows) =
      ((w : Value Float) × (value_at row j ≡ ok w)
        × (type_eq (type w) (type v) ≡ true)
        × (value_eq p w v ≡ ok true))
      ⊎ Holds j v rows

  -- The value of `row` at the foreign key is null, or a row of the table it names has it.
  pub record Refers (db : Tables Float) (columns : List (Column Float)) (row : Tuple Float)
      (fk : ForeignKey) : Type 0 where
    pub local : ℕ × Column Float
    pub local_found : get_column columns fk.local_column ≡ some local
    pub target : Table Float
    pub target_found : db fk.referenced_table ≡ some target
    pub referenced : ℕ × Column Float
    pub referenced_found : get_column target.columns fk.referenced_column ≡ some referenced
    pub value : Value Float
    pub at : value_at row local.0 ≡ ok value
    pub met : (is_null value ≡ true) ⊎ Holds referenced.0 value target.rows

  typed_equal :
      (t : Bool) (r : Result Bool)
      → (if t then elim r [ ok b ↦ ok b | _ ↦ undefined ] else ok false) ≡ ok true
      → (t ≡ true) × (r ≡ ok true)
  typed_equal true (ok b) h = (refl, h)
  typed_equal true (err e) h = cc
  typed_equal true undefined h = cc
  typed_equal false r h = cc

  matches-ok :
      (j : ℕ) (v : Value Float) (row : Tuple Float)
      → matches p j v row ≡ ok true
      → (w : Value Float) × (value_at row j ≡ ok w)
        × (type_eq (type w) (type v) ≡ true)
        × (value_eq p w v ≡ ok true)
  unfolding matches
  matches-ok j v row h =
      let (w, at, h1) = >>=-eq-ok (value_at row j) _ h in
      let (typed, equal) = typed_equal (type_eq (type w) (type v)) (value_eq p w v) h1 in
      (w, at, typed, equal)

  find-Holds :
      (j : ℕ) (v : Value Float) (rows : List (Tuple Float)) {row : Tuple Float}
      → find_first_matching_tuple p j v rows ≡ ok (some row)
      → Holds j v rows
  unfolding find_first_matching_tuple
  find-Holds j v [] h = cc
  find-Holds j v (row ∷ rows) h =
      let (hit, found, h1) = >>=-eq-ok (matches p j v row) _ h in
      elim (Bool-cases hit) [
        | inl here ↦ inl (matches-ok j v row (rw (← here) found))
        | inr away ↦ inr (find-Holds j v rows (rw away at h1))
      ]

  require_column-ok :
      (o : Option (ℕ × Column Float)) {i : ℕ}
      → require_column p o ≡ ok i
      → (c : ℕ × Column Float) × (o ≡ some c) × (c.0 ≡ i)
  unfolding require_column
  require_column-ok none h = cc
  require_column-ok (some c) h = (c, refl, cc)

  require_table-ok :
      (o : Option (Table Float)) {t : Table Float} → require_table p o ≡ ok t → o ≡ some t
  unfolding require_table
  require_table-ok none h = cc
  require_table-ok (some t) h = cc

  found-Holds :
      (j : ℕ) (v : Value Float) (rows : List (Tuple Float))
      → (do found ← find_first_matching_tuple p j v rows; require_match p found) ≡ ok tt
      → Holds j v rows
  unfolding require_match
  found-Holds j v rows h =
      let (found, search, h1) = >>=-eq-ok (find_first_matching_tuple p j v rows) _ h in
      elim (Option-cases found) [
        | inl none_there ↦ absurd (let h2 = rw none_there at h1 in cc)
        | inr (row, there) ↦ find-Holds j v rows {row = row} (rw (← there) search)
      ]

  check_foreign_key-Refers :
      (db : Tables Float) (columns : List (Column Float)) (row : Tuple Float) (fk : ForeignKey)
      → check_foreign_key p db columns row fk ≡ ok tt
      → Refers db columns row fk
  unfolding check_foreign_key
  check_foreign_key-Refers db columns row fk h =
      let (i, h_i, h1) = >>=-eq-ok (require_column p (get_column columns fk.local_column)) _ h in
      let (t, h_t, h2) = >>=-eq-ok (require_table p (db fk.referenced_table)) _ h1 in
      let (j, h_j, h3) =
        >>=-eq-ok (require_column p (get_column t.columns fk.referenced_column)) _ h2 in
      let (v, at, h4) = >>=-eq-ok (value_at row i) _ h3 in
      let (local, found_local, same_i) = require_column-ok _ h_i in
      let (far, found_far, same_j) = require_column-ok _ h_j in
      record {
        local = local;
        local_found = found_local;
        target = t;
        target_found = require_table-ok _ h_t;
        referenced = far;
        referenced_found = found_far;
        value = v;
        at = rw same_i at;
        met = met_by (is_null v) (found-Holds far.0 v t.rows) (rw same_j h4);
      }
    where
      met_by :
          {A : Type 0} (b : Bool) {r : Result (Unit {0})}
          → (r ≡ ok tt → A)
          → (if b then ok tt else r) ≡ ok tt
          → (b ≡ true) ⊎ A
      met_by true f e = inl refl
      met_by false f e = inr (f e)

  check_foreign_keys-Refers :
      (db : Tables Float) (columns : List (Column Float)) (row : Tuple Float)
      (fks : List ForeignKey)
      → check_foreign_keys p db columns row fks ≡ ok tt
      → All (Refers db columns row) fks
  unfolding check_foreign_keys
  check_foreign_keys-Refers db columns row [] h = tt
  check_foreign_keys-Refers db columns row (fk ∷ fks) h =
      let (u, first, rest) = >>=-eq-ok (check_foreign_key p db columns row fk) _ h in
      (
        check_foreign_key-Refers db columns row fk first,
        check_foreign_keys-Refers db columns row fks rest,
      )

module _ (p : Platform) (built_in : Context p.Float) where
  open p use {Float}

  -- What an insertion into `t` that succeeded made of it.
  pub record Appends (db : Tables Float) (t : Table Float) (row : Tuple Float) (t' : Table Float)
      : Type 0 where
    pub stored : Tuple Float
    pub rows : t'.rows ≡ t.rows ++ (stored ∷ [])
    pub filled : RowFilled t t.columns row stored
    pub references : All (Refers p db t.columns stored) t.foreign_keys
    pub columns : t'.columns ≡ t.columns
    pub primary_key : t'.primary_key ≡ t.primary_key
    pub foreign_keys : t'.foreign_keys ≡ t.foreign_keys
    pub check : t'.check ≡ t.check

  -- If `insert` of a row into t succeeds with t', then t' has the rows of t and one row behind
  -- them, and the columns, the keys and the check of t. Each cell of the new row is the given one
  -- where that is not null, else the next value of the column's counter where it is
  -- AUTO_INCREMENT, else the column's default; and for each foreign key of t the new row is null
  -- there or a row of the referenced table has an equal value of the same type.
  pub insert-Appends :
      (db : Tables Float) (t : Table Float) (row : Tuple Float) (t' : Table Float)
      → insert p built_in (some db) t row ≡ ok t'
      → Appends db t row t'
  unfolding perform_database_integrity_checks check_references insert_unchecked
  insert-Appends db t row t' h =
      let s = insert-Inserted p built_in (some db) t row h in
      let same = s.same in
      let (u, keys, rest) =
        >>=-eq-ok (check_references p (some db) t s.filled.row) _ s.database_checks in
      record {
        stored = s.filled.row;
        rows = ap (λ u. u.rows) s.appended ∙ ap (λ rows. rows ++ (s.filled.row ∷ [])) same.rows;
        filled = fill-RowFilled t row t.columns s.fills;
        references = check_foreign_keys-Refers p db t.columns s.filled.row t.foreign_keys keys;
        columns = ap (λ u. u.columns) s.appended ∙ same.columns;
        primary_key = ap (λ u. u.primary_key) s.appended ∙ same.primary_key;
        foreign_keys = ap (λ u. u.foreign_keys) s.appended ∙ same.foreign_keys;
        check = ap (λ u. u.check) s.appended ∙ same.check;
      }
