-- ===== src/Statement/Updated.antt =====
-- The passes of an UPDATE over the rows: which cells they write, and what is left where one fails.
use essa_db.Prelude.{
  ℕ, zero, suc, Str, Option, none, some, List, [], ◌∷◌, get_elem?, Result, ok, err, undefined, ◌≡◌,
  ◌≢◌, refl, ap, DbError, >>=-eq-ok, ok-injective,
}
use essa_db.Value.Types.{Platform, Value}
use essa_db.Row.{Tuple, Column, set_value}
use essa_db.Expression.{Expr, Context, evaluate}
use essa_db.Table.State.{get_column}
use essa_db.Table.Checks.{row_context}
use essa_db.Statement.Rows.{update_row, update_rows, after_row}

-- The cell at `i` is `v`, and the others are those of the old row.
abbrev pub Sets : {F : Type 0} → ℕ → Value F → Tuple F → Tuple F → Type 0
Sets i v row row' =
    (get_elem? row' i ≡ some v) × ((j : ℕ) → j ≢ i → get_elem? row' j ≡ get_elem? row j)

set_value-Sets :
    {F : Type 0} (row row' : Tuple F) (i : ℕ) (v : Value F)
    → set_value row i v ≡ ok row'
    → Sets i v row row'
unfolding set_value
set_value-Sets [] row' i v e = cc
set_value-Sets (w ∷ row) row' zero v e = rw (← ok-injective e) (refl, λ j ne. other j ne)
  where
    other : (j : ℕ) → j ≢ 0 → get_elem? (v ∷ row) j ≡ get_elem? (w ∷ row) j
    other zero ne = absurd (ne refl)
    other (suc j) ne = refl
set_value-Sets (w ∷ row) row' (suc i) v e =
    let (rest, er, e') = >>=-eq-ok (set_value row i v) _ e in
    let (at, others) = set_value-Sets row rest i v er in
    rw (← ok-injective e') (at, λ j ne. other rest others j ne)
  where
    other :
        (rest : Tuple _)
        → ((j : ℕ) → j ≢ i → get_elem? rest j ≡ get_elem? row j)
        → (j : ℕ) → j ≢ suc i
        → get_elem? (w ∷ rest) j ≡ get_elem? (w ∷ row) j
    other rest others zero ne = refl
    other rest others (suc j) ne = others j (λ q. ne (ap suc q))

module _ (p : Platform) (built_in : Context p.Float) (columns : List (Column p.Float)) where
  open p use {Float}

  -- The row with the value that the expression has on the old one.
  abbrev pub IsUpdated : Option (ℕ × Column Float) → Expr Float → Tuple Float → Tuple Float → Type 0
  IsUpdated none e row row' = ⊥
  IsUpdated (some (i, c)) e row row' =
      (v : Value Float) × (evaluate p (row_context p built_in columns row) e ≡ ok v)
      × Sets i v row row'

  -- The rows up to the one that fails are updated; that one and those behind it are as they were.
  pub data Pass (column : Option (ℕ × Column Float)) (e : Expr Float)
      : Result (Unit {0}) → List (Tuple Float) → List (Tuple Float) → Type 0 where
    ends : Pass column e (ok tt) [] []
    writes :
        {r : Result (Unit {0})} {row row' : Tuple Float} {rows rows' : List (Tuple Float)}
        → IsUpdated column e row row'
        → Pass column e r rows rows'
        → Pass column e r (row ∷ rows) (row' ∷ rows')
    fails :
        {error : DbError} {row : Tuple Float} {rows : List (Tuple Float)}
        → update_row p built_in columns column e row ≡ err error
        → Pass column e (err error) (row ∷ rows) (row ∷ rows)
    stops :
        {row : Tuple Float} {rows : List (Tuple Float)}
        → update_row p built_in columns column e row ≡ undefined
        → Pass column e undefined (row ∷ rows) (row ∷ rows)

  update_row-IsUpdated :
      (column : Option (ℕ × Column Float)) (e : Expr Float) (row row' : Tuple Float)
      → update_row p built_in columns column e row ≡ ok row'
      → IsUpdated column e row row'
  unfolding update_row
  update_row-IsUpdated none e row row' h = cc
  update_row-IsUpdated (some (i, c)) e row row' h =
      let (v, ev, es) = >>=-eq-ok (evaluate p (row_context p built_in columns row) e) _ h in
      (v, ev, set_value-Sets row row' i v es)

  pub update_rows-Pass :
      (column : Option (ℕ × Column Float)) (e : Expr Float) (rows : List (Tuple Float))
      → Pass column e
          (update_rows p built_in columns column e rows).0
          rows
          (update_rows p built_in columns column e rows).1
  unfolding update_rows
  update_rows-Pass column e [] = ends
  update_rows-Pass column e (row ∷ rows) =
      by_row (update_row p built_in columns column e row) refl (update_rows-Pass column e rows)
    where
      by_row :
          (r : Result (Tuple Float))
          → update_row p built_in columns column e row ≡ r
          → Pass column e
              (update_rows p built_in columns column e rows).0
              rows
              (update_rows p built_in columns column e rows).1
          → Pass column e
              (after_row p built_in columns r row
                (update_rows p built_in columns column e rows)
                rows).0
              (row ∷ rows)
              (after_row p built_in columns r row
                (update_rows p built_in columns column e rows)
                rows).1
      by_row (ok row') h later = writes (update_row-IsUpdated column e row row' h) later
      by_row (err error) h later = fails h
      by_row undefined h later = stops h

  -- One pass for each assignment, the next one over what the last one left; the first pass that does
  -- not end well is the last.
  pub data Passes
      : List (Str × Expr Float)
        → Result (Unit {0})
        → List (Tuple Float)
        → List (Tuple Float)
        → Type 0 where
    no_more : {rows : List (Tuple Float)} → Passes [] (ok tt) rows rows
    then_ :
        {name : Str} {e : Expr Float} {pairs : List (Str × Expr Float)} {r : Result (Unit {0})}
        {rows middle rows' : List (Tuple Float)}
        → Pass (get_column columns name) e (ok tt) rows middle
        → Passes pairs r middle rows'
        → Passes ((name, e) ∷ pairs) r rows rows'
    last_fails :
        {name : Str} {e : Expr Float} {pairs : List (Str × Expr Float)} {error : DbError}
        {rows rows' : List (Tuple Float)}
        → Pass (get_column columns name) e (err error) rows rows'
        → Passes ((name, e) ∷ pairs) (err error) rows rows'
    last_stops :
        {name : Str} {e : Expr Float} {pairs : List (Str × Expr Float)}
        {rows rows' : List (Tuple Float)}
        → Pass (get_column columns name) e undefined rows rows'
        → Passes ((name, e) ∷ pairs) undefined rows rows'
