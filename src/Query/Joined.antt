-- ===== src/Query/Joined.antt =====
-- db/sql/ast/TableExpression.cpp: which rows an inner join has.
use mathlib.Core.List.{Mem, mem-cons_self, mem-cons_of_mem}
use essa_db.Prelude.{
  ℕ, Bool, true, false, List, [], ◌∷◌, ◌≡◌, refl, All, length, arith, Result, ok, >>=-eq-ok,
  ok-injective, Bool-cases, inl, inr, ◌∙◌, ap, leb, Str, ◌>>=◌,
}
use essa_db.Value.Types.{Platform, Value}
use essa_db.Value.Compare.{value_eq, sorts_before}
use essa_db.Row.{Tuple, value_at}
use essa_db.Query.Join.{
  Relation, Entry, Step, joins, adds, passes, create_joined_tuple, on_index, insert_entry, add_rows,
  decide, decide_inner, inner_join, last_step, walk, walk_contents, walk_kind, join_rows,
}

module _ (p : Platform) where
  open p use {Float}

  -- If what the walk makes of two entries that are `Good` is `Fine`, all of its rows are.
  module _ (Good : Entry Float → Type 0) (Fine : Tuple Float → Type 0)
      (at : Entry Float → Entry Float → Result (Step Float))
      (fine : (last it : Entry Float) (step : Step Float)
        → Good last
        → Good it
        → at last it ≡ ok step
        → All Fine (last_step p step)) where
    walk-Fine :
        (last : Entry Float) (es : List (Entry Float)) (out : List (Tuple Float))
        → Good last
        → All Good es
        → walk p at last es ≡ ok out
        → All Fine out
    unfolding walk last_step
    walk-Fine last [] out g h e = rw (← ok-injective e) tt
    walk-Fine last (it ∷ []) out g h e =
        let (step, es, e') = >>=-eq-ok (at last it) _ e in
        rw (← ok-injective e') (fine last it step g h.0 es)
    walk-Fine last (it ∷ next ∷ es) out g h e =
        let (step, at_it, e') = >>=-eq-ok (at last it) _ e in
        after step (fine last it step g h.0 at_it) (walk-Fine next es) (walk-Fine it (next ∷ es)) e'
      where
        after :
            (step : Step Float)
            → All Fine (last_step p step)
            → ((out' : List (Tuple Float))
                → Good next
                → All Good es
                → walk p at next es ≡ ok out'
                → All Fine out')
            → ((out' : List (Tuple Float))
                → Good it
                → All Good (next ∷ es)
                → walk p at it (next ∷ es) ≡ ok out'
                → All Fine out')
            → elim step as (λ x. Result (List (Tuple Float))) [
              | joins row ↦ (walk p at next es >>= λ rows. ok (row ∷ rows))
              | adds row ↦ (walk p at it (next ∷ es) >>= λ rows. ok (row ∷ rows))
              | passes ↦ walk p at it (next ∷ es)
            ]
              ≡ ok out
            → All Fine out
        after (joins row) f over on e' =
            let (rows, er, eo) = >>=-eq-ok (walk p at next es) _ e' in
            rw (← ok-injective eo) (f.0, over rows h.1.0 h.1.1 er)
        after (adds row) f over on e' =
            let (rows, er, eo) = >>=-eq-ok (walk p at it (next ∷ es)) _ e' in
            rw (← ok-injective eo) (f.0, on rows h.0 h.1 er)
        after passes f over on e' = on out h.0 h.1 e'

  -- An entry is a row of its relation, under the value of its column.
  module _ (lhs rhs : List (Tuple Float)) (i j : ℕ) where
    abbrev IsEntry : Entry Float → Type 0
    IsEntry e =
        ((e.is_left ≡ true) → Mem e.row lhs × (value_at e.row i ≡ ok e.key))
        × ((e.is_left ≡ false) → Mem e.row rhs × (value_at e.row j ≡ ok e.key))

    -- The row joins a row of each side, whose values in the two columns are found equal.
    abbrev pub IsMatch : Tuple Float → Type 0
    IsMatch row =
        (l : Tuple Float) × (r : Tuple Float) × (a : Value Float) × (b : Value Float) × Mem l lhs
        × Mem r rhs
        × (value_at l i ≡ ok a)
        × (value_at r j ≡ ok b)
        × (value_eq p b a ≡ ok true)
        × (row ≡ create_joined_tuple l r)

    insert_entry-All :
        (P : Entry Float → Type 0) (e : Entry Float) (es : List (Entry Float))
        → P e
        → All P es
        → All P (insert_entry p e es)
    unfolding insert_entry
    insert_entry-All P e [] h k = (h, tt)
    insert_entry-All P e (f ∷ es) h k = elim (Bool-cases (sorts_before p e.key f.key)) [
      | inl front ↦ rw front (h, k)
      | inr behind ↦ rw behind (k.0, insert_entry-All P e es h k.1)
    ]

    -- All rows that enter `contents` are entries, if those of the relation are.
    add_rows-All :
        (P : Entry Float → Type 0) (c : ℕ) (side : Bool) (rows : List (Tuple Float))
        (contents out : List (Entry Float))
        → All
            (λ row.
              (v : Value Float)
              → value_at row c ≡ ok v
              → P (record { key = v; is_left = side; row = row }))
            rows
        → All P contents
        → add_rows p c side rows contents ≡ ok out
        → All P out
    unfolding add_rows
    add_rows-All P c side [] contents out h k e = rw (← ok-injective e) k
    add_rows-All P c side (row ∷ rows) contents out h k e = elim (Bool-cases (leb (length row) c)) [
      | inl short ↦ absurd (ground arith)
      | inr long ↦
          let (v, ev, e') = >>=-eq-ok (value_at row c) _ (rw long at e) in
          let entry : Entry Float = record { key = v; is_left = side; row = row } in
          add_rows-All P c side rows (insert_entry p entry contents) out h.1
            (insert_entry-All P entry contents (h.0 v ev) k) e'
    ]

    inner-IsMatch :
        (l r : ℕ) (last it : Entry Float) (step : Step Float)
        → IsEntry last
        → IsEntry it
        → decide p inner_join l r last it ≡ ok step
        → All IsMatch (last_step p step)
    unfolding decide decide_inner last_step
    inner-IsMatch l r last it step g h e = elim (Bool-cases last.is_left) [
      | inr not_left ↦ rw (← ok-injective (rw not_left at e)) tt
      | inl left ↦ elim (Bool-cases it.is_left) [
        | inl left' ↦ rw (← ok-injective (rw (left, left') at e)) tt
        | inr right ↦
            let (same, es, e') = >>=-eq-ok (value_eq p it.key last.key) _ (rw (left, right) at e) in
            elim (Bool-cases same) [
              | inr differ ↦ rw (← ok-injective (rw differ at e')) tt
              | inl equal ↦
                  let (ml, vl) = g.0 left in
                  let (mr, vr) = h.1 right in
                  rw (← ok-injective (rw equal at e')) (
                    (
                      last.row,
                      it.row,
                      last.key,
                      it.key,
                      ml,
                      mr,
                      vl,
                      vr,
                      es ∙ ap (λ (b : Bool). ok b) equal,
                      refl,
                    ),
                    tt,
                  )
            ]
      ]
    ]

    rows-IsEntry :
        (side : Bool) (rows : List (Tuple Float)) (c : ℕ)
        → ((row : Tuple Float) (v : Value Float)
            → Mem row rows
            → value_at row c ≡ ok v
            → IsEntry (record { key = v; is_left = side; row = row }))
        → All
            (λ row.
              (v : Value Float)
              → value_at row c ≡ ok v
              → IsEntry (record { key = v; is_left = side; row = row }))
            rows
    rows-IsEntry side [] c f = tt
    rows-IsEntry side (row ∷ rows) c f = (
      λ v ev. f row v mem-cons_self ev,
      rows-IsEntry side rows c (λ r v m ev. f r v (mem-cons_of_mem row m) ev),
    )

    walk_contents-IsMatch :
        (l r : ℕ) (contents : List (Entry Float)) (out : List (Tuple Float))
        → All IsEntry contents
        → walk_contents p (decide p inner_join l r) contents ≡ ok out
        → All IsMatch out
    unfolding walk_contents
    walk_contents-IsMatch l r [] out h e = cc
    walk_contents-IsMatch l r (c ∷ es) out h e =
        walk-Fine IsEntry IsMatch (decide p inner_join l r) (inner-IsMatch l r) c es out h.0 h.1 e

  -- If an inner join of two relations succeeds, each of its rows is a row of the left relation
  -- followed by one of the right relation, and the value of the right one in its ON column is
  -- found equal to that of the left one in its own.
  pub inner_join-IsMatch :
      (on_lhs on_rhs : Str) (lhs rhs : Relation Float) (out : List (Tuple Float))
      → join_rows p inner_join on_lhs on_rhs lhs rhs ≡ ok out
      → All
          (IsMatch lhs.rows rhs.rows (on_index on_lhs lhs.columns) (on_index on_rhs rhs.columns))
          out
  unfolding join_rows walk_kind
  inner_join-IsMatch on_lhs on_rhs lhs rhs out e =
      let i = on_index on_lhs lhs.columns in
      let j = on_index on_rhs rhs.columns in
      let (left, el, e') = >>=-eq-ok (add_rows p i true lhs.rows []) _ e in
      let (contents, ec, e'') = >>=-eq-ok (add_rows p j false rhs.rows left) _ e' in
      let entries : All (IsEntry lhs.rows rhs.rows i j) left =
        add_rows-All lhs.rows rhs.rows i j (IsEntry lhs.rows rhs.rows i j) i true lhs.rows [] left
          (rows-IsEntry lhs.rows rhs.rows i j true lhs.rows i
            (λ row v m ev. (λ _. (m, ev), λ b. absurd (ground arith))))
          tt el in
      let all : All (IsEntry lhs.rows rhs.rows i j) contents =
        add_rows-All lhs.rows rhs.rows i j (IsEntry lhs.rows rhs.rows i j) j false rhs.rows left
          contents
          (rows-IsEntry lhs.rows rhs.rows i j false rhs.rows j
            (λ row v m ev. (λ b. absurd (ground arith), λ _. (m, ev))))
          entries ec in
      walk_contents-IsMatch lhs.rows rhs.rows i j (length lhs.columns) (length rhs.columns) contents
        out all e''
