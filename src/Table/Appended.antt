-- ===== src/Table/Appended.antt =====
-- The row that a successful `Table::insert` appends, cell by cell, and the rows it refers to.
use essa_db.Prelude.{
  ℤ, true, false, List, [], ◌∷◌, Result, ok, err, DbError, if◌then◌else◌, ◌>>=◌, ◌≡◌, refl, ◌⊎◌,
  inl, inr, >>=-eq-ok, Bool-cases,
}
use essa_db.Value.Types.{Value, ValueType, null, int, is_null, type_eq}
use essa_db.Row.{Tuple, Column, default_value}
use essa_db.Table.State.{Table, next_auto_increment_value}
use essa_db.Table.Fill.{Filled, fill, fill_cell, cons_generated}

module _ {F : Type 0} where
  -- What becomes of the cell `v` in the column `c`.
  abbrev pub CellFilled : Table F → Column F → Value F → Value F → Type 0
  CellFilled t c null w =
      ((c.auto_increment ≡ true)
        × ((i : ℤ) × (next_auto_increment_value t c.name ≡ ok i) × (w ≡ int i)))
      ⊎ ((c.auto_increment ≡ false) × (w ≡ default_value c))
  CellFilled t c v w = w ≡ v

  -- Cells behind the last column stay as they are, none of them null.
  abbrev pub RowFilled : Table F → List (Column F) → Tuple F → Tuple F → Type 0
  RowFilled t cs [] [] = Unit {0}
  RowFilled t cs [] (w ∷ ws) = ⊥
  RowFilled t cs (v ∷ vs) [] = ⊥
  RowFilled t [] (v ∷ vs) (w ∷ ws) = (is_null v ≡ false) × (w ≡ v) × RowFilled t [] vs ws
  RowFilled t (c ∷ cs) (v ∷ vs) (w ∷ ws) = CellFilled t c v w × RowFilled t cs vs ws

  -- How one round of the loop extends what the later rounds made.
  abbrev Round : Table F → List (Column F) → Value F → Result (Filled F) → Filled F → Type 0
  Round t [] v rest f = (g : Filled F) × (rest ≡ ok g) × (f.row ≡ v ∷ g.row) × (is_null v ≡ false)
  Round t (c ∷ cs) v rest f =
      (g : Filled F) × (w : Value F) × (rest ≡ ok g) × (f.row ≡ w ∷ g.row) × CellFilled t c v w

  fill_cell-Round :
      (t : Table F) (v : Value F) (cs : List (Column F)) (rest : Result (Filled F)) {f : Filled F}
      → fill_cell t v cs rest ≡ ok f
      → Round t cs v rest f
  unfolding fill_cell
  fill_cell-Round t null [] rest {f} h = cc
  fill_cell-Round t null (c ∷ cs) rest {f} h = elim (Bool-cases c.auto_increment) [
    | inl auto ↦ generated auto (Bool-cases (type_eq c.type ValueType.int)) (rw auto at h)
    | inr given ↦
        let (g, made, rest_ok) = >>=-eq-ok rest _ (rw given at h) in
        (g, default_value c, made, cc, inr (given, refl))
  ]
    where
      generated :
          c.auto_increment ≡ true
          → (type_eq c.type ValueType.int ≡ true) ⊎ (type_eq c.type ValueType.int ≡ false)
          → (if type_eq c.type ValueType.int
              then (do
                i ← next_auto_increment_value t c.name
                f' ← rest
                ok (cons_generated i c.name f'))
              else err DbError.auto_increment_non_int)
            ≡ ok f
          → Round t (c ∷ cs) null rest f
      generated auto (inl is_int) e =
          let (i, next, e1) = >>=-eq-ok (next_auto_increment_value t c.name) _ (rw is_int at e) in
          let (g, made, e2) = >>=-eq-ok rest _ e1 in
          (g, int i, made, cc, inl (auto, (i, next, refl)))
      generated auto (inr other) e = absurd (let e' = rw other at e in cc)
  fill_cell-Round t v [] rest {f} h = let (g, made, e) = >>=-eq-ok rest _ h in (g, made, cc, refl)
  fill_cell-Round t v (c ∷ cs) rest {f} h =
      let (g, made, e) = >>=-eq-ok rest _ h in (g, v, made, cc, refl)

  pub fill-RowFilled :
      (t : Table F) (row : Tuple F) (cs : List (Column F)) {f : Filled F}
      → fill t row cs ≡ ok f
      → RowFilled t cs row f.row
  unfolding fill
  fill-RowFilled t [] cs {f} h = let e : f.row ≡ [] = cc in rw e tt
  fill-RowFilled t (v ∷ row) [] {f} h =
      let (g, made, e, present) = fill_cell-Round t v [] (fill t row []) h in
      rw e (present, refl, fill-RowFilled t row [] made)
  fill-RowFilled t (v ∷ row) (c ∷ cs) {f} h =
      let (g, w, made, e, cell) = fill_cell-Round t v (c ∷ cs) (fill t row cs) h in
      rw e (cell, fill-RowFilled t row cs made)
