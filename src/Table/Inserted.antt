-- ===== src/Table/Inserted.antt =====
-- What a successful `Table::insert` did, and that it keeps a table valid.
use native.Mathlib.Nat.{add-zero}
use essa_db.Prelude.{
  Str, not, Option, List, [], ◌∷◌, length, ◌==◌, ok, fail_if, ◌≡◌, arith, All-append, >>=-eq-ok, ap,
  ◌∙◌, fail_if-ok,
}
use essa_db.Value.Types.{Platform}
use essa_db.Row.{Tuple, value_at}
use essa_db.Expression.{Context}
use essa_db.Table.State.{Table, increment, insert_unchecked, next_auto_increment_value}
use essa_db.Table.Fill.{Filled, fill}
use essa_db.Table.Checks.{
  Tables, perform_table_integrity_checks, perform_database_integrity_checks, check_primary_key,
}
use essa_db.Table.Insert.{increment_all, insert_filled, insert}
use essa_db.Table.Valid.{IsValid, Fits, check_values-ok, check_primary_key-ok}

-- Two tables that differ in their counters alone.
pub record SameButCounters {F : Type 0} (t t' : Table F) : Type 0 where
  pub name : t'.name ≡ t.name
  pub columns : t'.columns ≡ t.columns
  pub rows : t'.rows ≡ t.rows
  pub check : t'.check ≡ t.check
  pub primary_key : t'.primary_key ≡ t.primary_key
  pub foreign_keys : t'.foreign_keys ≡ t.foreign_keys

increment-SameButCounters :
    {F : Type 0} (name : Str) (t : Table F) {t' : Table F}
    → increment name t ≡ ok t'
    → SameButCounters t t'
unfolding increment
increment-SameButCounters name t h =
    let (i, next, made) = >>=-eq-ok (next_auto_increment_value t name) _ h in
    record {
      name = cc made;
      columns = cc made;
      rows = cc made;
      check = cc made;
      primary_key = cc made;
      foreign_keys = cc made;
    }

increment_all-SameButCounters :
    {F : Type 0} (names : List Str) (t : Table F) {t' : Table F}
    → increment_all names t ≡ ok t'
    → SameButCounters t t'
unfolding increment_all
increment_all-SameButCounters [] t h = record {
  name = cc;
  columns = cc;
  rows = cc;
  check = cc;
  primary_key = cc;
  foreign_keys = cc;
}
increment_all-SameButCounters (name ∷ names) t h =
    let (s, first, rest) = >>=-eq-ok (increment name t) _ h in
    let a = increment-SameButCounters name t first in
    let b = increment_all-SameButCounters names s rest in
    record {
      name = b.name ∙ a.name;
      columns = b.columns ∙ a.columns;
      rows = b.rows ∙ a.rows;
      check = b.check ∙ a.check;
      primary_key = b.primary_key ∙ a.primary_key;
      foreign_keys = b.foreign_keys ∙ a.foreign_keys;
    }

module _ (p : Platform) (built_in : Context p.Float) where
  open p use {Float}

  -- The steps of an insertion that succeeded.
  pub record Inserted (db : Option (Tables Float)) (t : Table Float) (row : Tuple Float)
      (t' : Table Float) : Type 0 where
    pub filled : Filled Float
    pub fills : fill t row t.columns ≡ ok filled
    pub table_checks : perform_table_integrity_checks p t filled.row ≡ ok tt
    pub database_checks : perform_database_integrity_checks p built_in db t filled.row ≡ ok tt
    pub counted : Table Float
    pub counts : increment_all filled.to_increment t ≡ ok counted
    pub same : SameButCounters t counted
    pub appended : t' ≡ insert_unchecked filled.row counted

  pub insert-Inserted :
      (db : Option (Tables Float)) (t : Table Float) (row : Tuple Float) {t' : Table Float}
      → insert p built_in db t row ≡ ok t'
      → Inserted db t row t'
  unfolding insert insert_filled
  insert-Inserted db t row h =
      let (f, fills, h1) = >>=-eq-ok (fill t row t.columns) _ h in
      let (u1, table_checks, h2) = >>=-eq-ok (perform_table_integrity_checks p t f.row) _ h1 in
      let (u2, database_checks, h3) =
        >>=-eq-ok (perform_database_integrity_checks p built_in db t f.row) _ h2 in
      let (s, counts, h4) = >>=-eq-ok (increment_all f.to_increment t) _ h3 in
      record {
        filled = f;
        fills = fills;
        table_checks = table_checks;
        database_checks = database_checks;
        counted = s;
        counts = counts;
        same = increment_all-SameButCounters f.to_increment t counts;
        appended = cc h4;
      }

  -- The checks on the table make room for the row among the rows of a valid table.
  table_checks-IsValid :
      (t : Table Float) (row : Tuple Float)
      → IsValid p t
      → perform_table_integrity_checks p t row ≡ ok tt
      → IsValid p (insert_unchecked row t)
  unfolding perform_table_integrity_checks insert_unchecked
  table_checks-IsValid t row v h =
      let (u1, count, h1) = >>=-eq-ok (fail_if (not (length row == length t.columns)) _) _ h in
      let (u2, keyed, h2) = >>=-eq-ok (check_primary_key p t row t.primary_key) _ h1 in
      let len = fail_if-ok _ _ count in
      let (fits, unique) =
        check_values-ok p t.rows row row 0 t.columns (ground arith)
          (λ k. ap (value_at row) (add-zero k)) v.unique h2 in
      record {
        fits = All-append (Fits t.columns) t.rows (row ∷ []) v.fits (fits, tt);
        unique = unique;
        keyed = check_primary_key-ok p t row t.primary_key v.keyed keyed;
      }

  -- If a table is valid and `insert` of a row into it succeeds with the table t', then t' is
  -- valid, whatever the row, the database and the rules of the table are.
  pub insert-IsValid :
      (db : Option (Tables Float)) (t : Table Float) (row : Tuple Float) (t' : Table Float)
      → IsValid p t
      → insert p built_in db t row ≡ ok t'
      → IsValid p t'
  insert-IsValid db t row t' v h =
      let s = insert-Inserted db t row h in
      let same = s.same in
      let valid = table_checks-IsValid t s.filled.row v s.table_checks in
      rw s.appended
        (unfold insert_unchecked in rw (same.columns, same.primary_key, same.rows) valid)
