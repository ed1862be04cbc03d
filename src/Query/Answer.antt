-- ===== src/Query/Answer.antt =====
-- db/core/ResultSet.cpp: the answer of a query as a value, and the comparison of two answers.
use essa_db.Prelude.{
  Bool, true, false, ◌==◌, ◌&&◌, not, List, [], ◌∷◌, length, if◌then◌else◌, Result, ok, err,
  undefined, codes,
}
use essa_db.Value.Types.{Platform, Value}
use essa_db.Row.{Tuple, value_at, tuple_eq}
use essa_db.Database.Tables.{ResultSet}

module _ {F : Type 0} where
  unfoldable pub create_single_value : Value F → ResultSet F
  create_single_value v = record { column_names = codes "tmp" ∷ []; rows = (v ∷ []) ∷ [] }

  unfoldable pub is_convertible_to_value : ResultSet F → Bool
  is_convertible_to_value r = length r.rows == 1 && length r.column_names == 1

  -- Without a row or without a value there is nothing to read.
  unfoldable pub as_value : ResultSet F → Result (Value F)
  as_value r = first_value r.rows
    where
      first_value : List (Tuple F) → Result (Value F)
      first_value [] = undefined
      first_value (row ∷ rows) = value_at row 0

module _ (p : Platform) where
  open p use {Float}

  -- The loop ends at the first rows that differ, and then the answer is `true`.
  unfoldable pub compare_rows : List (Tuple Float) → List (Tuple Float) → Result Bool
  unfolding tuple_eq
  compare_rows [] others = ok true
  compare_rows (row ∷ rows) [] = undefined
  compare_rows (row ∷ rows) (other ∷ others) =
      next (tuple_eq p row other) (compare_rows rows others)
    where
      next : Result Bool → Result Bool → Result Bool
      next (ok same) rest = if not same then ok true else rest
      next (err e) rest = ok false
      next undefined rest = undefined

  unfoldable pub compare : ResultSet Float → ResultSet Float → Result Bool
  unfolding compare_rows
  compare r other =
      if not (length r.rows == length other.rows) then ok false else compare_rows r.rows other.rows
