-- ===== src/Statement/Deleted.antt =====
-- What a deletion leaves: rows of the table in their order, which still meet its constraints.
use essa_db.Prelude.{
  ℕ, suc, Str, Bool, true, false, Option, none, some, List, [], ◌∷◌, ok, ◌≡◌, refl, All, >>=-eq-ok,
  ok-injective, ◌⊎◌, inl, inr,
}
use essa_db.Value.Types.{Platform}
use essa_db.Row.{Tuple, Column}
use essa_db.Expression.{Expr, Context}
use essa_db.Table.State.{get_column}
use essa_db.Table.Valid.{ValidRows, Fits, Differ, Distinct, UniqueFrom, KeyHolds, KeyAt, Present}
use essa_db.Statement.Rows.{remove_marked, mark_rows, should_include_row}

remove_marked-All :
    {F : Type 0} (P : Tuple F → Type 0) (marks : List Bool) (rows : List (Tuple F))
    → All P rows
    → All P (remove_marked marks rows)
unfolding remove_marked
remove_marked-All P [] [] h = tt
remove_marked-All P (b ∷ marks) [] h = tt
remove_marked-All P [] (row ∷ rows) h = h
remove_marked-All P (true ∷ marks) (row ∷ rows) h = remove_marked-All P marks rows h.1
remove_marked-All P (false ∷ marks) (row ∷ rows) h = (h.0, remove_marked-All P marks rows h.1)

module _ (p : Platform) where
  open p use {Float}

  remove_marked-Distinct :
      (i : ℕ) (marks : List Bool) (rows : List (Tuple Float))
      → Distinct p i rows
      → Distinct p i (remove_marked marks rows)
  unfolding remove_marked
  remove_marked-Distinct i [] [] h = tt
  remove_marked-Distinct i (b ∷ marks) [] h = tt
  remove_marked-Distinct i [] (row ∷ rows) h = h
  remove_marked-Distinct i (true ∷ marks) (row ∷ rows) h = remove_marked-Distinct i marks rows h.1
  remove_marked-Distinct i (false ∷ marks) (row ∷ rows) h =
      (remove_marked-All (Differ p i row) marks rows h.0, remove_marked-Distinct i marks rows h.1)

  remove_marked-UniqueFrom :
      (i : ℕ) (cs : List (Column Float)) (marks : List Bool) (rows : List (Tuple Float))
      → UniqueFrom p rows i cs
      → UniqueFrom p (remove_marked marks rows) i cs
  remove_marked-UniqueFrom i [] marks rows h = tt
  remove_marked-UniqueFrom i (c ∷ cs) marks rows h = (
    (λ e. remove_marked-Distinct i marks rows (h.0 e)),
    remove_marked-UniqueFrom (suc i) cs marks rows h.1,
  )

  remove_marked-KeyAt :
      (found : Option (ℕ × Column Float)) (marks : List Bool) (rows : List (Tuple Float))
      → KeyAt p rows found
      → KeyAt p (remove_marked marks rows) found
  remove_marked-KeyAt none marks rows h = tt
  remove_marked-KeyAt (some (i, c)) marks rows h =
      (remove_marked-Distinct i marks rows h.0, remove_marked-All (Present p i) marks rows h.1)

  remove_marked-KeyHolds :
      (cs : List (Column Float)) (key : Option Str) (marks : List Bool) (rows : List (Tuple Float))
      → KeyHolds p rows cs key
      → KeyHolds p (remove_marked marks rows) cs key
  remove_marked-KeyHolds cs none marks rows h = tt
  remove_marked-KeyHolds cs (some key) marks rows h =
      remove_marked-KeyAt (get_column cs key) marks rows h

  pub remove_marked-ValidRows :
      (cs : List (Column Float)) (key : Option Str) (marks : List Bool) (rows : List (Tuple Float))
      → ValidRows p cs key rows
      → ValidRows p cs key (remove_marked marks rows)
  remove_marked-ValidRows cs key marks rows v = record {
    fits = remove_marked-All (Fits cs) marks rows v.fits;
    unique = remove_marked-UniqueFrom 0 cs marks rows v.unique;
    keyed = remove_marked-KeyHolds cs key marks rows v.keyed;
  }

  module _ (built_in : Context p.Float) (columns : List (Column p.Float))
      (cond : Option (Expr p.Float)) where
    -- The rows on which the condition is false, in their order, where it is defined on all rows.
    abbrev pub Keeps : List (Tuple Float) → List (Tuple Float) → Type 0
    Keeps [] kept = kept ≡ []
    Keeps (row ∷ rows) kept =
        ((should_include_row p built_in columns cond row ≡ ok true) × Keeps rows kept)
        ⊎ ((should_include_row p built_in columns cond row ≡ ok false)
            × ((rest : List (Tuple Float)) × (kept ≡ row ∷ rest) × Keeps rows rest))

    pub remove_marked-Keeps :
        (rows : List (Tuple Float)) (marks : List Bool)
        → mark_rows p built_in columns cond rows ≡ ok marks
        → Keeps rows (remove_marked marks rows)
    unfolding mark_rows remove_marked
    remove_marked-Keeps [] marks h = refl
    remove_marked-Keeps (row ∷ rows) marks h =
        let (b, one, h1) = >>=-eq-ok (should_include_row p built_in columns cond row) _ h in
        let (bs, all, h2) = >>=-eq-ok (mark_rows p built_in columns cond rows) _ h1 in
        let e = ok-injective h2 in rw (← e) (by_mark b bs one (remove_marked-Keeps rows bs all))
      where
        by_mark :
            (b : Bool) (bs : List Bool)
            → should_include_row p built_in columns cond row ≡ ok b
            → Keeps rows (remove_marked bs rows)
            → Keeps (row ∷ rows) (remove_marked (b ∷ bs) (row ∷ rows))
        by_mark true bs one rest = inl (one, rest)
        by_mark false bs one rest = inr (one, (remove_marked bs rows, refl, rest))
