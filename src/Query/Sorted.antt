-- ===== src/Query/Sorted.antt =====
-- The stable sort of db/sql/Select.cpp, for any comparison: it keeps what holds of every element, and
-- puts none directly in front of one that is less.
use essa_db.Prelude.{Bool, true, false, List, [], ◌∷◌, ◌≡◌, All, Bool-cases, inl, inr}
use essa_db.Query.Order.{insert_by, stable_sort}

module _ {A : Type 0} where
  -- No element stands directly in front of one that is less.
  abbrev pub IsOrdered : (A → A → Bool) → List A → Type 0
  IsOrdered lt [] = Unit
  IsOrdered lt (x ∷ []) = Unit
  IsOrdered lt (x ∷ y ∷ l) = (lt y x ≡ false) × IsOrdered lt (y ∷ l)

  module _ (lt : A → A → Bool) where
    insert-before : (x y : A) (l : List A) → lt y x ≡ false → insert_by lt x (y ∷ l) ≡ x ∷ y ∷ l
    unfolding insert_by
    insert-before x y l h = rw h

    insert-behind :
        (x y : A) (l : List A) → lt y x ≡ true → insert_by lt x (y ∷ l) ≡ y ∷ insert_by lt x l
    unfolding insert_by
    insert-behind x y l h = rw h

    insert_by-All : (P : A → Type 0) (x : A) (l : List A) → P x → All P l → All P (insert_by lt x l)
    insert_by-All P x [] h k = unfold insert_by in (h, tt)
    insert_by-All P x (y ∷ l) h k = elim (Bool-cases (lt y x)) [
      | inl behind ↦ rw (insert-behind x y l behind) (k.0, insert_by-All P x l h k.1)
      | inr before ↦ rw (insert-before x y l before) (h, k)
    ]

    pub stable_sort-All : (P : A → Type 0) (l : List A) → All P l → All P (stable_sort lt l)
    unfolding stable_sort
    stable_sort-All P [] h = tt
    stable_sort-All P (x ∷ l) h = insert_by-All P x (stable_sort lt l) h.0 (stable_sort-All P l h.1)

    tail-IsOrdered : (y : A) (l : List A) → IsOrdered lt (y ∷ l) → IsOrdered lt l
    tail-IsOrdered y [] o = tt
    tail-IsOrdered y (z ∷ l) o = o.1

    module _ (P : A → Type 0) (asym : (a b : A) → P a → P b → lt a b ≡ true → lt b a ≡ false) where
      -- What is inserted behind `y` leaves `y` in its place.
      insert-IsOrdered-behind :
          (y x : A) (l : List A)
          → lt x y ≡ false
          → IsOrdered lt (y ∷ l)
          → IsOrdered lt (insert_by lt x l)
          → IsOrdered lt (y ∷ insert_by lt x l)
      insert-IsOrdered-behind y x [] h o q = unfold insert_by in (h, tt)
      insert-IsOrdered-behind y x (z ∷ l) h o q = elim (Bool-cases (lt z x)) [
        | inl behind ↦ rw (insert-behind x z l behind) (o.0, rw (insert-behind x z l behind) at q)
        | inr before ↦ rw (insert-before x z l before) (h, rw (insert-before x z l before) at q)
      ]

      insert_by-IsOrdered :
          (x : A) (l : List A) → P x → All P l → IsOrdered lt l → IsOrdered lt (insert_by lt x l)
      insert_by-IsOrdered x [] h k o = unfold insert_by in tt
      insert_by-IsOrdered x (y ∷ l) h k o = elim (Bool-cases (lt y x)) [
        | inl behind ↦ rw (insert-behind x y l behind) (
            insert-IsOrdered-behind y x l (asym y x k.0 h behind) o
              (insert_by-IsOrdered x l h k.1 (tail-IsOrdered y l o)))
        | inr before ↦ rw (insert-before x y l before) (before, o)
      ]

      pub stable_sort-IsOrdered : (l : List A) → All P l → IsOrdered lt (stable_sort lt l)
      unfolding stable_sort
      stable_sort-IsOrdered [] h = tt
      stable_sort-IsOrdered (x ∷ l) h =
          insert_by-IsOrdered x (stable_sort lt l) h.0 (stable_sort-All P l h.1)
            (stable_sort-IsOrdered l h.1)
