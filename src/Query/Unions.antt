-- ===== src/Query/Unions.antt =====
-- db/sql/ast/Select.cpp: which rows a UNION has.
use mathlib.Core.List.{Mem, mem-cons_self, mem-cons_of_mem}
use essa_db.Prelude.{
  Bool, true, false, List, [], ◌∷◌, ◌++◌, ◌≡◌, ◌⊎◌, All, arith, ok, >>=-eq-ok, ok-injective,
  Bool-cases, inl, inr, if◌then◌else◌, sym, ◌∙◌, ap, subst,
}
use essa_db.Value.Types.{Platform}
use essa_db.Row.{Tuple, tuple_eq}
use essa_db.Expression.{Context}
use essa_db.Database.Tables.{ResultSet}
use essa_db.Query.{among, added_rows, union_of, same_names}

module _ (p : Platform) (built_in : Context p.Float) where
  open p use {Float}

  -- The row is found equal to none of the list.
  abbrev pub IsNew : List (Tuple Float) → Tuple Float → Type 0
  IsNew rows row = All (λ other. tuple_eq p row other ≡ ok false) rows

  not-among :
      (row : Tuple Float) (rows : List (Tuple Float))
      → among p built_in row rows ≡ ok false
      → IsNew rows row
  unfolding among
  not-among row [] e = tt
  not-among row (other ∷ rows) e =
      let (same, es, e') = >>=-eq-ok (tuple_eq p row other) _ e in
      elim (Bool-cases same) [
        | inl equal ↦ absurd (ground arith)
        | inr differ ↦ (es ∙ ap (λ (b : Bool). ok b) differ, not-among row rows (rw differ at e'))
      ]

  -- A round of the loop.
  with_row : Bool → Tuple Float → List (Tuple Float) → List (Tuple Float)
  with_row found row rows = if found then rows else row ∷ rows

  added-round :
      (lhs rhs out : List (Tuple Float)) (row : Tuple Float)
      → added_rows p built_in true lhs (row ∷ rhs) ≡ ok out
      → (found : Bool) × (rows : List (Tuple Float)) × (among p built_in row lhs ≡ ok found)
        × (added_rows p built_in true lhs rhs ≡ ok rows)
        × (with_row found row rows ≡ out)
  unfolding added_rows with_row
  added-round lhs rhs out row e =
      let (found, ef, e') = >>=-eq-ok (among p built_in row lhs) _ e in
      let (rows, er, e'') = >>=-eq-ok (added_rows p built_in true lhs rhs) _ e' in
      (found, rows, ef, er, ok-injective e'')

  step :
      (found : Bool) (row : Tuple Float) (rows lhs : List (Tuple Float))
      → among p built_in row lhs ≡ ok found
      → All (IsNew lhs) rows
      → All (IsNew lhs) (with_row found row rows)
  unfolding with_row
  step true row rows lhs e h = h
  step false row rows lhs e h = (not-among row lhs e, h)

  added-IsNew :
      (lhs rhs out : List (Tuple Float))
      → added_rows p built_in true lhs rhs ≡ ok out
      → All (IsNew lhs) out
  added-IsNew lhs [] out e = unfold added_rows in rw (← ok-injective e) tt
  added-IsNew lhs (row ∷ rhs) out e =
      let (found, rows, ef, er, eo) = added-round lhs rhs out row e in
      let later = added-IsNew lhs rhs rows er in rw (← eo) (step found row rows lhs ef later)

  -- Every row of the right query is added, or is found equal to a row of the left one.
  step-Mem :
      (found : Bool) (row k : Tuple Float) (rows : List (Tuple Float))
      → Mem k rows
      → Mem k (with_row found row rows)
  unfolding with_row
  step-Mem true row k rows m = m
  step-Mem false row k rows m = mem-cons_of_mem row m

  abbrev pub IsAdded : List (Tuple Float) → List (Tuple Float) → Tuple Float → Type 0
  IsAdded lhs out row = Mem row out ⊎ (among p built_in row lhs ≡ ok true)

  step-IsAdded :
      (found : Bool) (row : Tuple Float) (rows lhs : List (Tuple Float))
      → among p built_in row lhs ≡ ok found
      → IsAdded lhs (with_row found row rows) row
  unfolding with_row
  step-IsAdded true row rows lhs e = inr e
  step-IsAdded false row rows lhs e = inl mem-cons_self

  IsAdded-step :
      (found : Bool) (row : Tuple Float) (rows lhs : List (Tuple Float)) (rhs : List (Tuple Float))
      → All (IsAdded lhs rows) rhs
      → All (IsAdded lhs (with_row found row rows)) rhs
  IsAdded-step found row rows lhs [] h = tt
  IsAdded-step found row rows lhs (k ∷ rhs) (inl m, h) =
      (inl (step-Mem found row k rows m), IsAdded-step found row rows lhs rhs h)
  IsAdded-step found row rows lhs (k ∷ rhs) (inr e, h) =
      (inr e, IsAdded-step found row rows lhs rhs h)

  all-IsAdded :
      (lhs rhs out : List (Tuple Float))
      → added_rows p built_in true lhs rhs ≡ ok out
      → All (IsAdded lhs out) rhs
  all-IsAdded lhs [] out e = tt
  all-IsAdded lhs (row ∷ rhs) out e =
      let (found, rows, ef, er, eo) = added-round lhs rhs out row e in
      subst (λ o. All (IsAdded lhs o) (row ∷ rhs)) eo
        (
          step-IsAdded found row rows lhs ef,
          IsAdded-step found row rows lhs rhs (all-IsAdded lhs rhs rows er),
        )

  union_of-rows :
      (distinct : Bool) (l r u : ResultSet Float)
      → union_of p built_in distinct l r ≡ ok u
      → (added : List (Tuple Float)) × (added_rows p built_in distinct l.rows r.rows ≡ ok added)
        × (u.rows ≡ l.rows ++ added)
  unfolding union_of
  union_of-rows distinct l r u e =
      elim (Bool-cases (same_names p built_in l.column_names r.column_names)) [
        | inl same ↦
            let e' = rw same at e in
            let (added, ea, eu) = >>=-eq-ok (added_rows p built_in distinct l.rows r.rows) _ e' in
            (added, ea, ap (λ x. x.rows) (sym (ok-injective eu)))
        | inr other ↦ absurd (ground arith)
      ]

  -- If a UNION of two results succeeds, its rows are those of the left result and behind them
  -- rows that are found equal to no row of the left result; and every row of the right result is
  -- among these or is found equal to a row of the left result.
  pub union_of-distinct :
      (l r u : ResultSet Float)
      → union_of p built_in true l r ≡ ok u
      → (added : List (Tuple Float)) × (u.rows ≡ l.rows ++ added)
        × All (IsNew l.rows) added
        × All (IsAdded l.rows added) r.rows
  union_of-distinct l r u e =
      let (added, ea, eu) = union_of-rows true l r u e in
      (added, eu, added-IsNew l.rows r.rows added ea, all-IsAdded l.rows r.rows added ea)
