-- ===== src/Database/Laws.antt =====
-- Lookup in the map of tables after each change of it.
use essa_db.Prelude.{
  Str, str_eq, str_eq_iff, str_eq_refl, false, none, some, List, [], ◌∷◌, if◌then◌else◌, ◌≡◌, arith,
}
use essa_db.Table.State.{Table}
use essa_db.Database.Action.{
  Database, with_table, find_table, insert_table, erase_table, write_table,
}

module _ {F : Type 0} where
  -- A write reaches the table of its name, if there is one, and no other.
  pub find-write :
      (name other : Str) (t : Table F) (m : List (Str × Table F))
      → find_table other (write_table name t m) ≡ (
          if str_eq name other
          then elim (find_table other m) [ none ↦ none | some _ ↦ some t ]
          else find_table other m)
  unfolding find_table write_table
  find-write name other t [] = ground arith
  find-write name other t ((n, s) ∷ m) = ground (
    arith,
    find-write name other t m,
    str_eq_iff n name,
    str_eq_iff n other,
    str_eq_iff name other,
  )

  pub find_written :
      (name : Str) (db : Database F) (t u : Table F)
      → find_table name db.tables ≡ some t
      → find_table name (with_table name u db).tables ≡ some u
  unfolding with_table
  find_written name db t u e = rw find-write (rw (str_eq_refl name, e))

  pub others_unwritten :
      (name : Str) (db : Database F) (u : Table F) (other : Str)
      → str_eq name other ≡ false
      → find_table other (with_table name u db).tables ≡ find_table other db.tables
  unfolding with_table
  others_unwritten name db u other ne = rw find-write (rw ne)

  pub find-insert :
      (name other : Str) (t : Table F) (m : List (Str × Table F))
      → find_table other (insert_table name t m) ≡ elim (find_table other m) [
        | some s ↦ some s
        | none ↦ if str_eq name other then some t else none
      ]
  unfolding find_table insert_table
  find-insert name other t [] = ground arith
  find-insert name other t ((n, s) ∷ m) = ground (
    arith,
    find-insert name other t m,
    str_eq_iff n name,
    str_eq_iff n other,
    str_eq_iff name other,
  )

  pub find-erase :
      (name other : Str) (m : List (Str × Table F))
      → find_table other (erase_table name m)
        ≡ (if str_eq name other then none else find_table other m)
  unfolding find_table erase_table
  find-erase name other [] = ground arith
  find-erase name other ((n, s) ∷ m) =
      ground (
        arith,
        find-erase name other m,
        str_eq_iff n name,
        str_eq_iff n other,
        str_eq_iff name other,
      )
