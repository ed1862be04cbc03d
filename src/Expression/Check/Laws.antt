-- ===== src/Expression/Check/Laws.antt =====
-- What the operations on the named constraints of a table do to the lookup of a name.
use essa_db.Prelude.{
  Str, str_eq, str_lt, Bool, true, false, not, Option, none, some, [], ◌∷◌, if◌then◌else◌, Result,
  ok, err, undefined, ◌≡◌, refl, arith, DbError, str_eq_iff, Bool-cases, inl, inr, ◌∙◌,
}
use essa_db.Expression.{Expr}
use essa_db.Expression.Check.{
  Check, Constraints, find, insert_sorted, replace, erase, add_constraint, alter_constraint,
  drop_constraint, is_there,
}

apart : (n name : Str) → str_eq n name ≡ false → str_eq name n ≡ false
apart n name h = ground (arith, str_eq_iff n name, str_eq_iff name n)

module _ {F : Type 0} where
  -- Where the new name goes, no lookup of another one can tell.
  find-insert_sorted :
      (name other : Str) (e : Expr F) (m : Constraints F)
      → find name m ≡ none
      → find other (insert_sorted name e m) ≡ (if str_eq name other then some e else find other m)
  unfolding find insert_sorted
  find-insert_sorted name other e [] h = refl
  find-insert_sorted name other e ((n, d) ∷ m) h = ground (
    arith,
    find-insert_sorted name other e m,
    str_eq_iff n name,
    str_eq_iff n other,
    str_eq_iff name other,
  )

  find-replace :
      (name other : Str) (e : Expr F) (m : Constraints F)
      → is_there (find name m) ≡ true
      → find other (replace name e m) ≡ (if str_eq name other then some e else find other m)
  unfolding find replace
  find-replace name other e [] h = absurd (cc)
  find-replace name other e ((n, d) ∷ m) h = ground (
    arith,
    find-replace name other e m,
    str_eq_iff n name,
    str_eq_iff n other,
    str_eq_iff name other,
  )

  find-replace-other :
      (name other : Str) (e : Expr F) (m : Constraints F)
      → str_eq name other ≡ false
      → find other (replace name e m) ≡ find other m
  unfolding replace find
  find-replace-other name other e [] h = refl
  find-replace-other name other e ((n, d) ∷ m) h = ground (
    arith,
    find-replace-other name other e m,
    str_eq_iff n name,
    str_eq_iff n other,
    str_eq_iff name other,
  )

  -- No name is there twice.
  abbrev pub Unique : Constraints F → Type 0
  Unique [] = Unit {0}
  Unique ((n, d) ∷ m) = (find n m ≡ none) × Unique m

  find-erase :
      (name other : Str) (m : Constraints F)
      → Unique m
      → find other (erase name m) ≡ (if str_eq name other then none else find other m)
  unfolding find erase
  find-erase name other [] u = ground arith
  find-erase name other ((n, d) ∷ m) u = ground (
    arith,
    find-erase name other m u.1,
    u.0,
    str_eq_iff n name,
    str_eq_iff n other,
    str_eq_iff name other,
  )

  insert_sorted-Unique :
      (name : Str) (e : Expr F) (m : Constraints F)
      → find name m ≡ none
      → Unique m
      → Unique (insert_sorted name e m)
  unfolding find insert_sorted
  insert_sorted-Unique name e [] h u = (refl, tt)
  insert_sorted-Unique name e ((n, d) ∷ m) h u = elim (Bool-cases (str_eq n name)) [
    | inl same ↦ absurd (let h' = rw same at h in cc)
    | inr away ↦
        let later = rw away at h in
        elim (Bool-cases (str_lt name n)) [
          | inl before ↦ rw before (rw away later, u)
          | inr behind ↦ rw behind (
            find-insert_sorted name n e m later ∙ rw (apart n name away) u.0,
            insert_sorted-Unique name e m later u.1,
          )
        ]
  ]

  replace-Unique :
      (name : Str) (e : Expr F) (m : Constraints F) → Unique m → Unique (replace name e m)
  unfolding replace
  replace-Unique name e [] u = tt
  replace-Unique name e ((n, d) ∷ m) u = elim (Bool-cases (str_eq n name)) [
    | inl same ↦ rw same u
    | inr away ↦
        rw away
          (find-replace-other name n e m (apart n name away) ∙ u.0, replace-Unique name e m u.1)
  ]

  erase-Unique : (name : Str) (m : Constraints F) → Unique m → Unique (erase name m)
  unfolding erase
  erase-Unique name [] u = tt
  erase-Unique name ((n, d) ∷ m) u = elim (Bool-cases (str_eq n name)) [
    | inl same ↦ rw same u.1
    | inr away ↦
        rw away (find-erase name n m u.1 ∙ rw (apart n name away) u.0, erase-Unique name m u.1)
  ]

-- An operation on the constraint of one name.
pub data Change (F : Type 0) : Type 0 where
  add alter : Expr F → Change F
  drop : Change F

module _ {F : Type 0} where
  abbrev pub change : Change F → Str → Check F → Result (Check F)
  change (add e) name c = add_constraint name e c
  change (alter e) name c = alter_constraint name e c
  change drop name c = drop_constraint name c

  abbrev wanted : Change F → Option (Expr F)
  wanted (add e) = some e
  wanted (alter e) = some e
  wanted drop = none

  -- Whether the operation wants the name to be there.
  abbrev wants : Change F → Bool
  wants (add e) = false
  wants (alter e) = true
  wants drop = true

  abbrev refusal : Change F → DbError
  refusal (add e) = DbError.constraint_exists
  refusal (alter e) = DbError.no_constraint
  refusal drop = DbError.no_constraint

  -- The outcome of an operation.
  abbrev pub Changes : Change F → Str → Check F → Result (Check F) → Type 0
  Changes op name c (ok c') =
      (is_there (find name c.constraints) ≡ wants op)
      × ((other : Str)
          → find other c'.constraints
            ≡ (if str_eq name other then wanted op else find other c.constraints))
      × Unique c'.constraints
      × (c'.main_rule ≡ c.main_rule)
  Changes op name c (err e) =
      (is_there (find name c.constraints) ≡ not (wants op)) × (e ≡ refusal op)
  Changes op name c undefined = ⊥

  absent_name : (o : Option (Expr F)) → is_there o ≡ false → o ≡ none
  absent_name none h = refl
  absent_name (some e) h = cc

  -- On the check of a table, no two of whose constraints have one name, adding, altering or
  -- dropping the constraint of a name succeeds just where the name is, for adding, not there, and
  -- else there, and is refused with the error for that otherwise. Where it succeeds, that name
  -- finds the new expression, or nothing once it is dropped, every other name finds what it
  -- found, still no name is there twice, and the main rule is as it was.
  pub change-Changes :
      (op : Change F) (name : Str) (c : Check F)
      → Unique c.constraints
      → Changes op name c (change op name c)
  unfolding add_constraint alter_constraint drop_constraint
  change-Changes (add e) name c u = elim (Bool-cases (is_there (find name c.constraints))) [
    | inl there ↦ rw there (there, refl)
    | inr missing ↦
        let free = absent_name (find name c.constraints) missing in
        rw missing (
          missing,
          λ other. find-insert_sorted name other e c.constraints free,
          insert_sorted-Unique name e c.constraints free u,
          refl,
        )
  ]
  change-Changes (alter e) name c u = elim (Bool-cases (is_there (find name c.constraints))) [
    | inl there ↦ rw there (
      there,
      λ other. find-replace name other e c.constraints there,
      replace-Unique name e c.constraints u,
      refl,
    )
    | inr missing ↦ rw missing (missing, refl)
  ]
  change-Changes drop name c u = elim (Bool-cases (is_there (find name c.constraints))) [
    | inl there ↦ rw there (
      there,
      λ other. find-erase name other c.constraints u,
      erase-Unique name c.constraints u,
      refl,
    )
    | inr missing ↦ rw missing (missing, refl)
  ]
