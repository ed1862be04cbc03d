-- ===== src/Query/Ordered.antt =====
-- db/sql/Select.cpp: what ORDER BY does to the rows of a result.
use mathlib.Core.List.{Perm}
use mathlib.Core.List.Perm
use essa_db.Prelude.{
  Bool, false, some, List, [], ◌∷◌, ◌≡◌, refl, All, ok, >>=-eq-ok, ok-injective, Bool-cases, inl,
  inr, sym, ◌∙◌, ap,
}
use essa_db.Value.Types.{Platform, ValueType}
use essa_db.Value.Order.{same}
use essa_db.Row.{Tuple}
use essa_db.Expression.{Context}
use essa_db.Query.Table.{OrderBySet}
use essa_db.Query.Scope.{TupleWithSource}
use essa_db.Query.Order.{
  insert_by, stable_sort, sorts_first, order_values, with_order_values, rows_of, order_rows,
}
use essa_db.Query.Above.{OfKinds, is_above, sorts_first-asym, sorts_first-above}
use essa_db.Query.Sorted.{IsOrdered, stable_sort-All, stable_sort-IsOrdered}

module _ (p : Platform) where
  open p use {Float}

  module _ (at : TupleWithSource Float → Context Float) (os : List (OrderBySet Float)) where
    abbrev IsKeyed : Tuple Float × TupleWithSource Float → Type 0
    IsKeyed (a, row) = order_values p (at row) os ≡ ok a

    -- Evaluating the order columns keeps the rows, each with its own values.
    keyed_lem :
        (rows : List (TupleWithSource Float)) (keyed : List (Tuple Float × TupleWithSource Float))
        → with_order_values p at os rows ≡ ok keyed
        → (rows_of p keyed ≡ rows) × All IsKeyed keyed
    unfolding with_order_values rows_of
    keyed_lem [] keyed e = rw (← ok-injective e) (refl, tt)
    keyed_lem (row ∷ rows) keyed e =
        let (a, ea, e') = >>=-eq-ok (order_values p (at row) os) _ e in
        let (rest, er, e'') = >>=-eq-ok (with_order_values p at os rows) _ e' in
        let (same, all) = keyed_lem rows rest er in
        rw (← ok-injective e'') (ap (λ l. row ∷ l) same, (ea, all))

    module _
        (lt : Tuple Float × TupleWithSource Float
          → Tuple Float × TupleWithSource Float
          → Bool) where
      insert_by-Perm :
          (x : Tuple Float × TupleWithSource Float) (l : List (Tuple Float × TupleWithSource Float))
          → Perm (rows_of p (insert_by lt x l)) (x.1 ∷ rows_of p l)
      unfolding insert_by rows_of
      insert_by-Perm x [] = Perm.rfl
      insert_by-Perm x (y ∷ l) = elim (Bool-cases (lt y x)) [
        | inl behind ↦
            rw behind
              (Perm.trans (Perm.cons y.1 (insert_by-Perm x l)) (Perm.swap x.1 y.1 (rows_of p l)))
        | inr before ↦ rw before Perm.rfl
      ]

      stable_sort-Perm :
          (l : List (Tuple Float × TupleWithSource Float))
          → Perm (rows_of p (stable_sort lt l)) (rows_of p l)
      unfolding stable_sort rows_of
      stable_sort-Perm [] = Perm.rfl
      stable_sort-Perm (x ∷ l) =
          Perm.trans (insert_by-Perm x (stable_sort lt l)) (Perm.cons x.1 (stable_sort-Perm l))

    -- If ORDER BY of some rows gives `out`, then `out` is a permutation of these rows, whatever
    -- the columns hold and however their values compare.
    pub order_rows-Perm :
        (rows out : List (TupleWithSource Float))
        → order_rows p at (some os) rows ≡ ok out
        → Perm out rows
    unfolding order_rows
    order_rows-Perm [] out e = rw (← ok-injective e) Perm.rfl
    order_rows-Perm (row ∷ []) out e = rw (← ok-injective e) Perm.rfl
    order_rows-Perm (row ∷ row' ∷ rows) out e =
        let (keyed, ek, eo) = >>=-eq-ok (with_order_values p at os (row ∷ row' ∷ rows)) _ e in
        let (same, _) = keyed_lem (row ∷ row' ∷ rows) keyed ek in
        rw (← ok-injective eo) (rw (← same) (stable_sort-Perm (sorts_first p os) keyed))

    -- `x` may stand in front of `y`: `y` is not above it.
    abbrev pub MayPrecede : TupleWithSource Float → TupleWithSource Float → Type 0
    MayPrecede x y =
        (a b : Tuple Float)
        → order_values p (at x) os ≡ ok a
        → order_values p (at y) os ≡ ok b
        → is_above p os b a ≡ false

    abbrev pub InOrder : List (TupleWithSource Float) → Type 0
    InOrder [] = Unit
    InOrder (x ∷ []) = Unit
    InOrder (x ∷ y ∷ rows) = MayPrecede x y × InOrder (y ∷ rows)

    module _ (ks : List ValueType) where
      -- The values of the order columns of a row, where they exist, are of the kinds `ks`.
      abbrev pub HasKinds : TupleWithSource Float → Type 0
      HasKinds row = (a : Tuple Float) → order_values p (at row) os ≡ ok a → OfKinds ks a

      -- The order of rows with their values is the order of the rows.
      rows_of-InOrder :
          (l : List (Tuple Float × TupleWithSource Float))
          → All IsKeyed l
          → All (λ x. OfKinds ks x.0) l
          → IsOrdered (sorts_first p os) l
          → InOrder (rows_of p l)
      unfolding rows_of
      rows_of-InOrder [] k h o = tt
      rows_of-InOrder (x ∷ []) k h o = tt
      rows_of-InOrder ((a, x) ∷ (b, y) ∷ l) k h o = (
        λ a' b' ea eb.
            rw (ok-injective (sym ea ∙ k.0), ok-injective (sym eb ∙ k.1.0))
              (sym (sorts_first-above p os ks (b, y) (a, x) h.1.0 h.0) ∙ o.0),
        rows_of-InOrder ((b, y) ∷ l) k.1 h.1 o.1,
      )

      keyed-OfKinds :
          (l : List (Tuple Float × TupleWithSource Float))
          → All IsKeyed l
          → All HasKinds (rows_of p l)
          → All (λ x. OfKinds ks x.0) l
      unfolding rows_of
      keyed-OfKinds [] k h = tt
      keyed-OfKinds ((a, x) ∷ l) k h = (h.0 a k.0, keyed-OfKinds l k.1 h.1)

      -- If the values that the order columns have at the given rows are integers, texts or
      -- Booleans, of one kind for each column, and ORDER BY of these rows gives `out`, then `out`
      -- is a permutation of these rows, and of two neighbours in `out` the second is never above
      -- the first. A row is above another where, in the first column in which their values are
      -- not equal, its value is less, or greater if the column descends.
      pub order_rows-InOrder :
          (rows out : List (TupleWithSource Float))
          → All HasKinds rows
          → order_rows p at (some os) rows ≡ ok out
          → Perm out rows × InOrder out
      unfolding order_rows
      order_rows-InOrder [] out h e = rw (← ok-injective e) (Perm.rfl, tt)
      order_rows-InOrder (row ∷ []) out h e = rw (← ok-injective e) (Perm.rfl, tt)
      order_rows-InOrder (row ∷ row' ∷ rows) out h e =
          let (keyed, ek, eo) = >>=-eq-ok (with_order_values p at os (row ∷ row' ∷ rows)) _ e in
          let (same, all) = keyed_lem (row ∷ row' ∷ rows) keyed ek in
          let kinds = keyed-OfKinds keyed all (rw same h) in
          let sorted = stable_sort-All (sorts_first p os) (λ x. OfKinds ks x.0) keyed kinds in
          (
            order_rows-Perm (row ∷ row' ∷ rows) out e,
            rw (← ok-injective eo) (
                rows_of-InOrder (stable_sort (sorts_first p os) keyed)
                  (stable_sort-All (sorts_first p os) IsKeyed keyed all) sorted
                  (stable_sort-IsOrdered (sorts_first p os) (λ x. OfKinds ks x.0)
                    (λ x y. sorts_first-asym p os ks x y) keyed kinds)),
          )
