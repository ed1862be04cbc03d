-- ===== src/Aggregate/Bounds.antt =====
-- db/sql/ast/Function.cpp: what COUNT counts, and between which bounds MAX lies.
use essa_db.Prelude.{
  ℕ, suc, ◌+◌, ◌≡◌, refl, ℤ, pos, ◌+ℤ◌, true, false, List, [], ◌∷◌, All, arith, Result, ok, ◌>>=◌,
  >>=-eq-ok, ok-injective, Bool-cases, inl, inr, if◌then◌else◌, sym, ◌∙◌, ap,
}
use essa_db.Value.Types.{Platform, Value, int, float, is_null}
use essa_db.Value.Convert.{to_float}
use essa_db.Value.Operators.{int32}
use essa_db.Aggregate.{AggregateFunction, count_rows, fold_floats, larger, aggregate_rows}

unfoldable pub non_nulls : {F : Type 0} → List (Value F) → ℕ
non_nulls [] = 0
non_nulls (v ∷ vs) = let rest = non_nulls vs in if is_null v then rest else suc rest

one_more : (k : ℕ) (z : ℤ) → int32 (pos k +ℤ pos 1) ≡ ok z → z ≡ pos (k + 1)
unfolding int32 ◌+ℤ◌
one_more k z e = ground arith

module _ (p : Platform) where
  open p use {Float, float_lt}

  module _ (irreflexive : (a : Float) → float_lt a a ≡ false)
      (transitive : (a b c : Float)
        → float_lt a b ≡ true
        → float_lt b c ≡ true
        → float_lt a c ≡ true) where
    -- The larger of two is less than nothing that one of them is not less than.
    larger-left : (a b c : Float) → float_lt a c ≡ false → float_lt (larger p a b) c ≡ false
    larger-left a b c h = elim (Bool-cases (float_lt a b)) [
      | inr other ↦ rw other h
      | inl less ↦ rw less (elim (Bool-cases (float_lt b c)) [
        | inr fine ↦ fine
        | inl below ↦ absurd (ground (arith, transitive a b c less below))
      ])
    ]

    larger-right : (a b : Float) → float_lt (larger p a b) b ≡ false
    larger-right a b = elim (Bool-cases (float_lt a b)) [
      | inr other ↦ rw other other
      | inl less ↦ rw less (irreflexive b)
    ]

module _ (p : Platform) {Row : Type 0} where
  open p use {Float, float_lt, float_min}

  -- What the expression evaluates to at each of the rows.
  unfoldable pub values_at : (Row → Result (Value Float)) → List Row → Result (List (Value Float))
  values_at at [] = ok []
  values_at at (row ∷ rows) = do v ← at row; vs ← values_at at rows; ok (v ∷ vs)

  count_rows_lem :
      (at : Row → Result (Value Float)) (k : ℕ) (rows : List Row) (z : ℤ)
      → count_rows p at (pos k) rows ≡ ok z
      → (vs : List (Value Float)) × (values_at at rows ≡ ok vs) × (z ≡ pos (k + non_nulls vs))
  unfolding count_rows values_at non_nulls
  count_rows_lem at k [] z e = ([], refl, sym (ok-injective e) ∙ ap pos (omega arith))
  count_rows_lem at k (row ∷ rows) z e =
      let (v, ev, e') = >>=-eq-ok (at row) _ e in
      elim (Bool-cases (is_null v)) [
        | inl absent ↦
            let (vs, q, same) = count_rows_lem at k rows z (rw absent at e') in
            (v ∷ vs, rw (ev, q), rw absent same)
        | inr there ↦
            let (n, en, e'') = >>=-eq-ok (int32 (pos k +ℤ pos 1)) _ (rw there at e') in
            let (vs, q, same) = count_rows_lem at (k + 1) rows z (rw (one_more k n en) at e'') in
            (v ∷ vs, rw (ev, q), rw there (same ∙ ap pos (omega arith)))
      ]

  -- If COUNT over the rows of a group succeeds, the expression has a value at each of the rows,
  -- and the result is the number of these values that are not null.
  pub count-non_nulls :
      (at : Row → Result (Value Float)) (rows : List Row) (v : Value Float)
      → aggregate_rows p AggregateFunction.count at rows ≡ ok v
      → (vs : List (Value Float)) × (values_at at rows ≡ ok vs) × (v ≡ int (pos (non_nulls vs)))
  unfolding aggregate_rows
  count-non_nulls at rows v e =
      let (z, ez, e') = >>=-eq-ok (count_rows p at (pos 0) rows) _ e in
      let (vs, q, same) = count_rows_lem at 0 rows z ez in
      (vs, q, sym (ok-injective e') ∙ ap int (same ∙ ap pos (omega arith)))

  module _ (irreflexive : (a : Float) → float_lt a a ≡ false)
      (transitive : (a b c : Float)
        → float_lt a b ≡ true
        → float_lt b c ≡ true
        → float_lt a c ≡ true) where
    fold-larger :
        (at : Row → Result (Value Float)) (acc c r : Float) (rows : List Row)
        → float_lt acc c ≡ false
        → fold_floats p (larger p) at acc rows ≡ ok r
        → float_lt r c ≡ false
    unfolding fold_floats
    fold-larger at acc c r [] h e = rw (← ok-injective e) h
    fold-larger at acc c r (row ∷ rows) h e =
        let (v, ev, e') = >>=-eq-ok (at row) _ e in
        let (x, ex, e'') = >>=-eq-ok (to_float p v) _ e' in
        fold-larger at (larger p acc x) c r rows (larger-left p irreflexive transitive acc x c h)
          e''

    -- The expression's value at the row, where it has one as a float, is not above `r`.
    abbrev pub IsBelow : (Row → Result (Value Float)) → Float → Row → Type 0
    IsBelow at r row =
        (v : Value Float) (x : Float) → at row ≡ ok v → to_float p v ≡ ok x → float_lt r x ≡ false

    fold-IsBelow :
        (at : Row → Result (Value Float)) (acc r : Float) (rows : List Row)
        → fold_floats p (larger p) at acc rows ≡ ok r
        → All (IsBelow at r) rows
    unfolding fold_floats
    fold-IsBelow at acc r [] e = tt
    fold-IsBelow at acc r (row ∷ rows) e =
        let (v, ev, e') = >>=-eq-ok (at row) _ e in
        let (x, ex, e'') = >>=-eq-ok (to_float p v) _ e' in
        (
          λ v' x' ev' ex'.
              let same : v ≡ v' = ok-injective (sym ev ∙ ev') in
              let same' : x ≡ x' = ok-injective (sym ex ∙ rw same ex') in
              rw (← same') (
                fold-larger at (larger p acc x) x r rows
                  (larger-right p irreflexive transitive acc x) e''),
          fold-IsBelow at (larger p acc x) r rows e'',
        )

    -- Where `<` of floats is irreflexive and transitive and MAX over the rows of a group
    -- succeeds, the result is a float r that is not less than the smallest positive float, and
    -- not less than the value of any row.
    pub max-IsBelow :
        (at : Row → Result (Value Float)) (rows : List Row) (w : Value Float)
        → aggregate_rows p AggregateFunction.max at rows ≡ ok w
        → (r : Float) × (w ≡ float r) × (float_lt r float_min ≡ false) × All (IsBelow at r) rows
    unfolding aggregate_rows
    max-IsBelow at rows w e =
        let (r, er, e') = >>=-eq-ok (fold_floats p (larger p) at float_min rows) _ e in
        (
          r,
          sym (ok-injective e'),
          fold-larger at float_min float_min r rows (irreflexive float_min) er,
          fold-IsBelow at float_min r rows er,
        )
