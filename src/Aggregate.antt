-- ===== src/Aggregate.antt =====
-- db/sql/ast/Function.hpp, Function.cpp: the aggregate functions, as loops over the rows of a group.
-- What the expression of the aggregate evaluates to at a row is an argument.
pub mod Bounds
use essa_db.Prelude.{
  ℕ, zero, suc, ℤ, pos, ◌+ℤ◌, Bool, List, [], ◌∷◌, length, if◌then◌else◌, Result, ok, undefined,
  ◌>>=◌,
}
use essa_db.Value.Types.{Platform, Value, int, float, is_null}
use essa_db.Value.Convert.{to_int, to_float}
use essa_db.Value.Operators.{int32}

-- `AggregateFunction::Function`
pub data AggregateFunction : Type 0 where
  invalid count sum min max avg : AggregateFunction

-- The divisor of AVG.
abbrev pub divisor : ℕ → ℕ
divisor zero = 1
divisor (suc n) = suc n

module _ (p : Platform) where
  open p use {Float, float_lt}

  -- `std::min(a, b)` and `std::max(a, b)`
  abbrev pub smaller : Float → Float → Float
  smaller a b = if float_lt b a then b else a

  abbrev pub larger : Float → Float → Float
  larger a b = if float_lt a b then b else a

module _ (p : Platform) {Row : Type 0} where
  open p use {Float, float_of_int, float_add, float_div, float_max, float_min}

  -- The rows where the expression is not null.
  unfoldable pub count_rows : (Row → Result (Value Float)) → ℤ → List Row → Result ℤ
  unfolding int32
  count_rows at n [] = ok n
  count_rows at n (row ∷ rows) = do
    v ← at row
    n' ← if is_null v then ok n else int32 (n +ℤ pos 1)
    count_rows at n' rows

  -- The loops of SUM, MIN and MAX, which differ in how a float joins the last result.
  unfoldable pub fold_floats :
      (Float → Float → Float) → (Row → Result (Value Float)) → Float → List Row → Result Float
  unfolding to_float
  fold_floats join at acc [] = ok acc
  fold_floats join at acc (row ∷ rows) = do
    v ← at row
    x ← to_float p v
    fold_floats join at (join acc x) rows

  -- The loop of AVG adds integers up as floats.
  unfoldable pub sum_ints : (Row → Result (Value Float)) → Float → List Row → Result Float
  unfolding to_int
  sum_ints at acc [] = ok acc
  sum_ints at acc (row ∷ rows) = do
    v ← at row
    i ← to_int p v
    sum_ints at (float_add acc (float_of_int i)) rows

  unfoldable pub aggregate_rows :
      AggregateFunction → (Row → Result (Value Float)) → List Row → Result (Value Float)
  unfolding count_rows fold_floats sum_ints
  aggregate_rows AggregateFunction.invalid at rows = undefined
  aggregate_rows AggregateFunction.count at rows = do n ← count_rows at (pos 0) rows; ok (int n)
  aggregate_rows AggregateFunction.sum at rows = do
    x ← fold_floats float_add at (float_of_int (pos 0)) rows
    ok (float x)
  aggregate_rows AggregateFunction.min at rows = do
    x ← fold_floats (smaller p) at float_max rows
    ok (float x)
  aggregate_rows AggregateFunction.max at rows = do
    x ← fold_floats (larger p) at float_min rows
    ok (float x)
  aggregate_rows AggregateFunction.avg at rows = do
    x ← sum_ints at (float_of_int (pos 0)) rows
    ok (float (float_div x (float_of_int (pos (divisor (length rows))))))
