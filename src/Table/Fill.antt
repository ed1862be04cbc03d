-- ===== src/Table/Fill.antt =====
-- db/core/Table.cpp: the first part of `Table::insert`, which puts generated and default values where
-- the new row has none.
use essa_db.Prelude.{
  ℤ, Str, List, [], ◌∷◌, if◌then◌else◌, Result, ok, err, undefined, DbError, ◌>>=◌,
}
use essa_db.Value.Types.{Value, ValueType, null, int, type_eq}
use essa_db.Row.{Tuple, Column, default_value}
use essa_db.Table.State.{Table, next_auto_increment_value}

-- A row with the columns whose counters are to go up once it is in.
pub record Filled (F : Type 0) : Type 0 where
  pub row : Tuple F
  pub to_increment : List Str

module _ {F : Type 0} where
  abbrev pub cons_value : Value F → Filled F → Filled F
  cons_value v f = record f { row = v ∷ f.row }

  abbrev pub cons_generated : ℤ → Str → Filled F → Filled F
  cons_generated i name f = record { row = int i ∷ f.row; to_increment = name ∷ f.to_increment }

  -- One cell, and what the cells behind it become. A column for a null cell must be there: the
  -- vector is read at an index that is not checked.
  unfoldable pub fill_cell :
      Table F → Value F → List (Column F) → Result (Filled F) → Result (Filled F)
  fill_cell t null [] rest = undefined
  fill_cell t null (c ∷ cs) rest =
      if c.auto_increment
      then (if type_eq c.type ValueType.int
          then (do i ← next_auto_increment_value t c.name; f ← rest; ok (cons_generated i c.name f))
          else err DbError.auto_increment_non_int)
      else (do f ← rest; ok (cons_value (default_value c) f))
  fill_cell t v cs rest = do f ← rest; ok (cons_value v f)

  abbrev tail : List (Column F) → List (Column F)
  tail [] = []
  tail (c ∷ cs) = cs

  -- The loop, over the cells from one index on and the columns from the same index on.
  unfoldable pub fill : Table F → Tuple F → List (Column F) → Result (Filled F)
  fill t [] cs = ok (record { row = []; to_increment = [] })
  fill t (v ∷ row) cs = fill_cell t v cs (fill t row (tail cs))
