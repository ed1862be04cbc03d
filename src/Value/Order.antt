-- ===== src/Value/Order.antt =====
-- The six comparisons agree with one another and with equality of values, on two integers, two texts
-- or two Booleans.
use essa_db.Prelude.{
  ℤ, Str, ◌≡◌, refl, ◌↔◌, ok, Bool, true, false, not, ◌||◌, str_eq, str_lt, str_eq_iff,
  str_lt_total, str_lt_of_eq, arith, eq_of_parts, ltb_ℤ, eqb_ℤ, ap,
}
use essa_db.Value.Types.{Platform, Value, int, varchar, bool}
use essa_db.Value.Compare.{
  value_lt, value_le, value_eq, value_ge, value_gt, value_ne, bool_eq, bool_lt,
}

abbrev pub SameKind : {F : Type 0} → Value F → Value F → Type 0
SameKind (int a) (int b) = Unit {0}
SameKind (varchar s) (varchar t) = Unit {0}
SameKind (bool a) (bool b) = Unit {0}
SameKind _ _ = ⊥

-- One of less, equal, greater, and no two.
abbrev pub exactly_one : Bool → Bool → Bool → Bool
exactly_one true false false = true
exactly_one false true false = true
exactly_one false false true = true
exactly_one _ _ _ = false

module _ (p : Platform) where
  -- How `v` and `w` compare.
  pub record Compares (v w : Value p.Float) (less same greater : Bool) : Type 0 where
    pub lt : value_lt p v w ≡ ok less
    pub eq : value_eq p v w ≡ ok same
    pub gt : value_gt p v w ≡ ok greater
    pub le : value_le p v w ≡ ok (less || same)
    pub ge : value_ge p v w ≡ ok (not less)
    pub ne : value_ne p v w ≡ ok (not same)
    pub flip : value_lt p w v ≡ ok greater
    pub one : exactly_one less same greater ≡ true
    pub same_value : (same ≡ true) ↔ (v ≡ w)

  int-Compares : (a b : ℤ) → Compares (int a) (int b) (ltb_ℤ a b) (eqb_ℤ a b) (ltb_ℤ b a)
  unfolding value_lt value_eq value_gt value_le value_ge value_ne
  int-Compares a b = record {
    lt = refl;
    eq = refl;
    gt = ground arith;
    le = ground arith;
    ge = refl;
    ne = refl;
    flip = refl;
    one = ground arith;
    same_value = (λ h. ap int (eq_of_parts a b (ground arith)), λ e. ground arith);
  }

  bool-Compares :
      (a b : Bool) → Compares (bool a) (bool b) (bool_lt a b) (bool_eq a b) (bool_lt b a)
  unfolding value_lt value_eq value_gt value_le value_ge value_ne
  bool-Compares a b = record {
    lt = ground arith;
    eq = ground arith;
    gt = ground arith;
    le = ground arith;
    ge = ground arith;
    ne = ground arith;
    flip = ground arith;
    one = ground arith;
    same_value = ground arith;
  }

  varchar-Compares :
      (s t : Str) → Compares (varchar s) (varchar t) (str_lt s t) (str_eq s t) (str_lt t s)
  unfolding value_lt value_eq value_gt value_le value_ge value_ne
  varchar-Compares s t = record {
    lt = refl;
    eq = refl;
    gt = ground (arith, str_lt_total s t, str_lt_of_eq s t);
    le = ground arith;
    ge = refl;
    ne = refl;
    flip = refl;
    one = ground (arith, str_lt_total s t, str_lt_of_eq s t);
    same_value = (λ h. ap varchar ((str_eq_iff s t).0 h), λ e. (str_eq_iff s t).1 (cc e));
  }

  -- How two values of one kind compare, each in terms of the integers, texts or Booleans they hold.
  abbrev pub less : Value p.Float → Value p.Float → Bool
  less (int a) (int b) = ltb_ℤ a b
  less (varchar s) (varchar t) = str_lt s t
  less (bool a) (bool b) = bool_lt a b
  less _ _ = false

  abbrev pub same : Value p.Float → Value p.Float → Bool
  same (int a) (int b) = eqb_ℤ a b
  same (varchar s) (varchar t) = str_eq s t
  same (bool a) (bool b) = bool_eq a b
  same _ _ = false

  -- For two integers, two texts or two Booleans, the six comparisons succeed and agree: exactly
  -- one of less, equal and greater holds; `<=` is less or equal, `>=` is not less, `!=` is not
  -- equal; `<` with the operands swapped is greater; and equal holds just where the two values
  -- are the same.
  pub SameKind-Compares :
      (v w : Value p.Float) → SameKind v w → Compares v w (less v w) (same v w) (less w v)
  SameKind-Compares (int a) (int b) h = int-Compares a b
  SameKind-Compares (varchar s) (varchar t) h = varchar-Compares s t
  SameKind-Compares (bool a) (bool b) h = bool-Compares a b
  SameKind-Compares _ _ h = absurd h
