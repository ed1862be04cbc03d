-- ===== src/Query/Kept.antt =====
-- db/sql/Select.cpp, db/sql/ast/Select.cpp: which rows DISTINCT, TOP and UNION keep.
use mathlib.Core.List.{Mem, mem-cons_self, mem-cons_of_mem, mem-append_left, mem-append_right}
use essa_db.Prelude.{
  Bool, true, false, List, [], ◌∷◌, ◌++◌, ◌≡◌, ◌⊎◌, All, All-append, arith, ok, >>=-eq-ok,
  ok-injective, Bool-cases, inl, inr, if◌then◌else◌, ◌∙◌, ap,
}
use essa_db.Value.Types.{Platform}
use essa_db.Query.Scope.{TupleWithSource, row_eq}
use essa_db.Query.Order.{occurs, distinct_loop, distinct_rows}

module _ (p : Platform) where
  open p use {Float}

  abbrev Row : Type 0
  Row = TupleWithSource Float

  -- No row is found equal to one in front of it.
  abbrev pub IsDistinct : List Row → Type 0
  IsDistinct [] = Unit
  IsDistinct (x ∷ rows) = All (λ y. row_eq p y x ≡ ok false) rows × IsDistinct rows

  -- The row is found equal to one of the list.
  abbrev pub IsIn : Row → List Row → Type 0
  IsIn row rows = (kept : Row) × Mem kept rows × (row_eq p row kept ≡ ok true)

  not-occurs :
      (row : Row) (kept : List Row)
      → occurs p row kept ≡ ok false
      → All (λ k. row_eq p row k ≡ ok false) kept
  unfolding occurs
  not-occurs row [] e = tt
  not-occurs row (k ∷ kept) e =
      let (same, es, e') = >>=-eq-ok (row_eq p row k) _ e in
      elim (Bool-cases same) [
        | inl yes' ↦ absurd (ground arith)
        | inr no' ↦ (es ∙ ap (λ (b : Bool). ok b) no', not-occurs row kept (rw no' at e'))
      ]

  occurs-IsIn : (row : Row) (kept : List Row) → occurs p row kept ≡ ok true → IsIn row kept
  unfolding occurs
  occurs-IsIn row [] e = cc
  occurs-IsIn row (k ∷ kept) e =
      let (same, es, e') = >>=-eq-ok (row_eq p row k) _ e in
      elim (Bool-cases same) [
        | inl yes' ↦ (k, mem-cons_self, es ∙ ap (λ (b : Bool). ok b) yes')
        | inr no' ↦
            let (k', m, q) = occurs-IsIn row kept (rw no' at e') in (k', mem-cons_of_mem k m, q)
      ]

  append-IsDistinct :
      (kept : List Row) (row : Row)
      → IsDistinct kept
      → All (λ k. row_eq p row k ≡ ok false) kept
      → IsDistinct (kept ++ (row ∷ []))
  append-IsDistinct [] row d h = (tt, tt)
  append-IsDistinct (k ∷ kept) row d h = (
    All-append (λ y. row_eq p y k ≡ ok false) kept (row ∷ []) d.0 (h.0, tt),
    append-IsDistinct kept row d.1 h.1,
  )

  -- What a round of DISTINCT keeps.
  next : Bool → List Row → Row → List Row
  next found kept row = if found then kept else kept ++ (row ∷ [])

  next-IsDistinct :
      (found : Bool) (kept : List Row) (row : Row)
      → occurs p row kept ≡ ok found
      → IsDistinct kept
      → IsDistinct (next found kept row)
  unfolding next
  next-IsDistinct true kept row e d = d
  next-IsDistinct false kept row e d = append-IsDistinct kept row d (not-occurs row kept e)

  next-Mem :
      (found : Bool) (kept : List Row) (row k : Row) → Mem k kept → Mem k (next found kept row)
  unfolding next
  next-Mem true kept row k m = m
  next-Mem false kept row k m = mem-append_left (row ∷ []) m

  -- The row is in the list, or found equal to one of it.
  abbrev pub IsKept : Row → List Row → Type 0
  IsKept row rows = Mem row rows ⊎ IsIn row rows

  IsKept-mono :
      (row : Row) (l m : List Row) → ((k : Row) → Mem k l → Mem k m) → IsKept row l → IsKept row m
  IsKept-mono row l m f (inl h) = inl (f row h)
  IsKept-mono row l m f (inr (k, h, e)) = inr (k, f k h, e)

  next-IsKept :
      (found : Bool) (kept : List Row) (row : Row)
      → occurs p row kept ≡ ok found
      → IsKept row (next found kept row)
  unfolding next
  next-IsKept true kept row e = inr (occurs-IsIn row kept e)
  next-IsKept false kept row e = inl (mem-append_right kept mem-cons_self)

  next-All :
      (P : Row → Type 0) (found : Bool) (kept : List Row) (row : Row)
      → All P kept
      → P row
      → All P (next found kept row)
  unfolding next
  next-All P true kept row h k = h
  next-All P false kept row h k = All-append P kept (row ∷ []) h (k, tt)

  All-map :
      (P Q : Row → Type 0) (rows : List Row) → ((r : Row) → P r → Q r) → All P rows → All Q rows
  All-map P Q [] f h = tt
  All-map P Q (r ∷ rows) f h = (f r h.0, All-map P Q rows f h.1)

  loop-round :
      (kept rows out : List Row) (row : Row)
      → distinct_loop p kept (row ∷ rows) ≡ ok out
      → (found : Bool) × (occurs p row kept ≡ ok found)
        × (distinct_loop p (next found kept row) rows ≡ ok out)
  unfolding distinct_loop next
  loop-round kept rows out row e = >>=-eq-ok (occurs p row kept) _ e

  -- What is kept stays, no two rows that are kept are found equal, and every row is kept.
  loop-Mem :
      (rows kept out : List Row) (k : Row)
      → distinct_loop p kept rows ≡ ok out
      → Mem k kept
      → Mem k out
  loop-Mem [] kept out k e m = unfold distinct_loop in rw (← ok-injective e) m
  loop-Mem (row ∷ rows) kept out k e m =
      let (found, eo, e') = loop-round kept rows out row e in
      loop-Mem rows (next found kept row) out k e' (next-Mem found kept row k m)

  loop-IsDistinct :
      (rows kept out : List Row)
      → distinct_loop p kept rows ≡ ok out
      → IsDistinct kept
      → IsDistinct out
  loop-IsDistinct [] kept out e d = unfold distinct_loop in rw (← ok-injective e) d
  loop-IsDistinct (row ∷ rows) kept out e d =
      let (found, eo, e') = loop-round kept rows out row e in
      loop-IsDistinct rows (next found kept row) out e' (next-IsDistinct found kept row eo d)

  loop-IsKept :
      (rows kept out : List Row)
      → distinct_loop p kept rows ≡ ok out
      → All (λ row. IsKept row out) rows
  loop-IsKept [] kept out e = tt
  loop-IsKept (row ∷ rows) kept out e =
      let (found, eo, e') = loop-round kept rows out row e in
      (
        IsKept-mono row (next found kept row) out
            (λ k m. loop-Mem rows (next found kept row) out k e' m) (next-IsKept found kept row eo),
        loop-IsKept rows (next found kept row) out e',
      )

  loop-All :
      (P : Row → Type 0) (rows kept out : List Row)
      → distinct_loop p kept rows ≡ ok out
      → All P kept
      → All P rows
      → All P out
  loop-All P [] kept out e h q = unfold distinct_loop in rw (← ok-injective e) h
  loop-All P (row ∷ rows) kept out e h q =
      let (found, eo, e') = loop-round kept rows out row e in
      loop-All P rows (next found kept row) out e' (next-All P found kept row h q.0) q.1

  All-Mem : (rows : List Row) → All (λ r. Mem r rows) rows
  All-Mem [] = tt
  All-Mem (r ∷ rows) = (
    mem-cons_self,
    All-map (λ k. Mem k rows) (λ k. Mem k (r ∷ rows)) rows (λ k m. mem-cons_of_mem r m)
        (All-Mem rows),
  )

  -- If DISTINCT of some rows gives `out`, then no row of `out` is found equal to one in front of
  -- it, every row of `out` is one of the given rows, and every given row is in `out` or is found
  -- equal to a row of `out`.
  pub distinct_rows_lem :
      (rows out : List Row)
      → distinct_rows p true rows ≡ ok out
      → IsDistinct out × All (λ r. Mem r rows) out × All (λ r. IsKept r out) rows
  unfolding distinct_rows
  distinct_rows_lem rows out e = (
    loop-IsDistinct rows [] out e tt,
    loop-All (λ r. Mem r rows) rows [] out e tt (All-Mem rows),
    loop-IsKept rows [] out e,
  )
