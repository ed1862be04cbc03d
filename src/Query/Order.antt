-- ===== src/Query/Order.antt =====
-- db/sql/Select.cpp: DISTINCT, ORDER BY and TOP.
use essa_db.Prelude.{
  ℕ, ◌-◌, ℤ, pos, Bool, true, false, Option, none, some, List, [], ◌∷◌, ◌++◌, length, take,
  replicate, leb, if◌then◌else◌, Result, ok, undefined, ◌>>=◌,
}
use essa_db.Value.Types.{Platform, Value}
use essa_db.Row.{Tuple, tuple_lt}
use essa_db.Expression.{Context, evaluate}
use essa_db.Query.Table.{OrderBySet, Order, ascending, descending, Top, val, perc}
use essa_db.Query.Scope.{TupleWithSource, row_eq}

module _ {ℓ} {A : Type ℓ} where
  -- A stable insertion sort by a test for "less": what a stable sort gives, where the test is a
  -- strict weak order, is no choice of the algorithm.
  unfoldable pub insert_by : (A → A → Bool) → A → List A → List A
  insert_by lt x [] = x ∷ []
  insert_by lt x (y ∷ ys) = if lt y x then y ∷ insert_by lt x ys else x ∷ y ∷ ys

  unfoldable pub stable_sort : (A → A → Bool) → List A → List A
  unfolding insert_by
  stable_sort lt [] = []
  stable_sort lt (x ∷ xs) = insert_by lt x (stable_sort lt xs)

module _ (p : Platform) where
  open p use {Float}

  -- The inner loop of DISTINCT: is the row among the ones that are kept?
  unfoldable pub occurs : TupleWithSource Float → List (TupleWithSource Float) → Result Bool
  unfolding row_eq
  occurs row [] = ok false
  occurs row (kept ∷ occurences) = do
    same ← row_eq p row kept
    if same then ok true else occurs row occurences

  unfoldable pub distinct_loop :
      List (TupleWithSource Float)
      → List (TupleWithSource Float)
      → Result (List (TupleWithSource Float))
  unfolding occurs
  distinct_loop occurences [] = ok occurences
  distinct_loop occurences (row ∷ rows) = do
    found ← occurs row occurences
    distinct_loop (if found then occurences else occurences ++ (row ∷ [])) rows

  unfoldable pub distinct_rows :
      Bool → List (TupleWithSource Float) → Result (List (TupleWithSource Float))
  unfolding distinct_loop
  distinct_rows false rows = ok rows
  distinct_rows true rows = distinct_loop [] rows

  -- The left value where a column ascends, the right one where it descends.
  abbrev pub chosen : Order → Value Float → Value Float → Value Float
  chosen ascending v w = v
  chosen descending v w = w

  -- What ORDER BY compares: of a descending column the value of the other row.
  unfoldable pub pick : List (OrderBySet Float) → Tuple Float → Tuple Float → Tuple Float
  pick [] a b = []
  pick (o ∷ os) [] b = []
  pick (o ∷ os) (v ∷ a) [] = []
  pick (o ∷ os) (v ∷ a) (w ∷ b) = chosen o.order v w ∷ pick os a b

  -- The comparison of the sort, on rows with the values of their order columns.
  unfoldable pub sorts_first :
      List (OrderBySet Float)
      → Tuple Float × TupleWithSource Float
      → Tuple Float × TupleWithSource Float
      → Bool
  unfolding pick tuple_lt
  sorts_first os (a, row) (b, other) = tuple_lt p (pick os a b) (pick os b a)

  -- The values of the order columns at a row.
  unfoldable pub order_values : Context Float → List (OrderBySet Float) → Result (Tuple Float)
  unfolding evaluate
  order_values c [] = ok []
  order_values c (o ∷ os) = do v ← evaluate p c o.expression; vs ← order_values c os; ok (v ∷ vs)

  unfoldable pub with_order_values :
      (TupleWithSource Float → Context Float)
      → List (OrderBySet Float)
      → List (TupleWithSource Float)
      → Result (List (Tuple Float × TupleWithSource Float))
  unfolding order_values
  with_order_values at os [] = ok []
  with_order_values at os (row ∷ rows) = do
    a ← order_values (at row) os
    rest ← with_order_values at os rows
    ok ((a, row) ∷ rest)

  unfoldable pub rows_of : List (Tuple Float × TupleWithSource Float) → List (TupleWithSource Float)
  rows_of [] = []
  rows_of ((a, row) ∷ rows) = row ∷ rows_of rows

  -- ORDER BY. Where there are two rows every row is compared, so each of them is evaluated; an error
  -- of any comparison is the answer.
  unfoldable pub order_rows :
      (TupleWithSource Float → Context Float)
      → Option (List (OrderBySet Float))
      → List (TupleWithSource Float)
      → Result (List (TupleWithSource Float))
  unfolding with_order_values stable_sort sorts_first rows_of
  order_rows at none rows = ok rows
  order_rows at (some os) [] = ok []
  order_rows at (some os) (row ∷ []) = ok (row ∷ [])
  order_rows at (some os) (row ∷ row' ∷ rows) = do
    keyed ← with_order_values at os (row ∷ row' ∷ rows)
    ok (rows_of (stable_sort (sorts_first os) keyed))

  -- `rows.resize(n, { {}, {} })`
  unfoldable pub resize : ℕ → List (TupleWithSource Float) → List (TupleWithSource Float)
  resize n rows = take n rows ++ replicate (n - length rows) (record { tuple = []; source = none })

  -- `rows.size() * mul`, as a `size_t`.
  share : Top → ℕ → Result ℕ
  share top n =
      let percent = if leb top.value 100 then top.value else 100 in
      let mul = p.float_div (p.float_of_int (pos percent)) (p.float_of_int (pos 100)) in
      elim (p.float_to_int (p.float_mul (p.float_of_int (pos n)) mul)) [
        | none ↦ undefined
        | some i ↦ elim i [ pos k ↦ ok k | ℤ.negsuc k ↦ undefined ]
      ]

  unfoldable pub top_rows :
      Option Top → List (TupleWithSource Float) → Result (List (TupleWithSource Float))
  unfolding share resize
  top_rows none rows = ok rows
  top_rows (some top) rows = elim top.unit [
    | val ↦ ok (resize (if leb top.value (length rows) then top.value else length rows) rows)
    | perc ↦ do n ← share top (length rows); ok (resize n rows)
  ]
