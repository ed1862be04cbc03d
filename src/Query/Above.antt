-- ===== src/Query/Above.antt =====
-- db/sql/Select.cpp: which of two rows the comparison of ORDER BY puts above the other.
use essa_db.Prelude.{
  Bool, true, false, none, some, List, [], ◌∷◌, ◌≡◌, refl, arith, Bool-cases, inl, inr,
  if◌then◌else◌,
}
use essa_db.Value.Types.{Platform, Value, ValueType, int, varchar, bool}
use essa_db.Value.Order.{SameKind, SameKind-Compares, less, same, exactly_one}
use essa_db.Row.{Tuple, tuple_lt, lt_round, or_next}
use essa_db.Query.Table.{OrderBySet, Order, ascending, descending}
use essa_db.Query.Scope.{TupleWithSource}
use essa_db.Query.Order.{chosen, pick, sorts_first}

-- A value of a type whose values have an order of their own.
abbrev pub OfKind : {F : Type 0} → ValueType → Value F → Type 0
OfKind ValueType.int (int i) = Unit {0}
OfKind ValueType.varchar (varchar s) = Unit {0}
OfKind ValueType.bool (bool b) = Unit {0}
OfKind _ _ = ⊥

abbrev pub OfKinds : {F : Type 0} → List ValueType → Tuple F → Type 0
OfKinds [] [] = Unit
OfKinds (k ∷ ks) (v ∷ a) = OfKind k v × OfKinds ks a
OfKinds _ _ = ⊥

module _ {F : Type 0} where
  OfKind-SameKind : (k : ValueType) (v w : Value F) → OfKind k v → OfKind k w → SameKind v w
  OfKind-SameKind ValueType.int (int i) (int j) h k = tt
  OfKind-SameKind ValueType.varchar (varchar s) (varchar t) h k = tt
  OfKind-SameKind ValueType.bool (bool b) (bool c) h k = tt
  OfKind-SameKind _ _ _ h k = ground arith

module _ (p : Platform) where
  open p use {Float}

  -- A round of the comparison of rows, at two values of one kind.
  lt_round_lem :
      (v w : Value Float)
      → SameKind v w
      → lt_round p v w ≡ (if same p v w then none else some (less p v w))
  unfolding lt_round
  lt_round_lem v w h =
      let c = SameKind-Compares p v w h in
      rw (lt_round, c.eq) (elim (Bool-cases (same p v w)) [ inl e ↦ rw e | inr e ↦ rw (e, c.lt) ])

  -- The step of the comparison, for the answers of a round in both directions and of what follows.
  round-asym :
      (l e g e' rest rest' : Bool)
      → exactly_one l e g ≡ true
      → exactly_one g e' l ≡ true
      → (rest ≡ true → rest' ≡ false)
      → or_next p (if e then none else some l) rest ≡ true
      → or_next p (if e' then none else some g) rest' ≡ false
  round-asym l e g e' rest rest' h k later q = ground arith

  -- Rows of the same kinds are never both less than the other.
  tuple_lt-asym :
      (ks : List ValueType) (a b : Tuple Float)
      → OfKinds ks a
      → OfKinds ks b
      → tuple_lt p a b ≡ true
      → tuple_lt p b a ≡ false
  unfolding tuple_lt
  tuple_lt-asym [] [] [] h k e = refl
  tuple_lt-asym (k ∷ ks) (v ∷ a) (w ∷ b) h q e =
      let there = OfKind-SameKind k v w h.0 q.0 in
      let back = OfKind-SameKind k w v q.0 h.0 in
      let one = (SameKind-Compares p v w there).one in
      let one' = (SameKind-Compares p w v back).one in
      let later = tuple_lt-asym ks a b h.1 q.1 in
      rw (lt_round_lem w v back) (
        round-asym (less p v w) (same p v w) (less p w v) (same p w v) (tuple_lt p a b)
          (tuple_lt p b a) one one' later (rw (lt_round_lem v w there) at e))
  tuple_lt-asym _ _ _ h k e = ground arith

  picked :
      (o : Order) (k : ValueType) (v w : Value Float)
      → OfKind k v
      → OfKind k w
      → OfKind k (chosen p o v w)
  picked ascending k v w h q = h
  picked descending k v w h q = q

  -- The comparison of ORDER BY on rows with the values of their order columns.
  pick-OfKinds :
      (os : List (OrderBySet Float)) (ks : List ValueType) (a b : Tuple Float)
      → OfKinds ks a
      → OfKinds ks b
      → (ks' : List ValueType) × OfKinds ks' (pick p os a b) × OfKinds ks' (pick p os b a)
  unfolding pick
  pick-OfKinds [] ks a b h k = ([], tt, tt)
  pick-OfKinds (o ∷ os) [] [] [] h k = ([], tt, tt)
  pick-OfKinds (o ∷ os) (kind ∷ ks) (v ∷ a) (w ∷ b) h k =
      let (ks', q, q') = pick-OfKinds os ks a b h.1 k.1 in
      (kind ∷ ks', (picked o.order kind v w h.0 k.0, q), (picked o.order kind w v k.0 h.0, q'))
  pick-OfKinds (o ∷ os) _ _ _ h k = absurd (ground arith)

  pub sorts_first-asym :
      (os : List (OrderBySet Float)) (ks : List ValueType)
      (x y : Tuple Float × TupleWithSource Float)
      → OfKinds ks x.0
      → OfKinds ks y.0
      → sorts_first p os x y ≡ true
      → sorts_first p os y x ≡ false
  unfolding sorts_first
  sorts_first-asym os ks (a, row) (b, other) h k e =
      let (ks', q, q') = pick-OfKinds os ks a b h k in
      tuple_lt-asym ks' (pick p os a b) (pick p os b a) q q' e

  -- Whether `v` is above `w` in a column: the less value where it ascends, the greater where it
  -- descends.
  abbrev pub above : Order → Value Float → Value Float → Bool
  above ascending v w = less p v w
  above descending v w = less p w v

  -- Whether the row with the values `a` is above the one with the values `b`: the first column in which
  -- they differ decides.
  unfoldable pub is_above : List (OrderBySet Float) → Tuple Float → Tuple Float → Bool
  is_above (o ∷ os) (v ∷ a) (w ∷ b) =
      let later = is_above os a b in if same p v w then later else above o.order v w
  is_above _ _ _ = false

  round-above :
      (order : Order) (v w : Value Float) (later : Bool)
      → SameKind v w
      → SameKind w v
      → or_next p (lt_round p (chosen p order v w) (chosen p order w v)) later
        ≡ (if same p v w then later else above order v w)
  round-above ascending v w later there back =
      rw (lt_round_lem v w there)
        (elim (Bool-cases (same p v w)) [ inl e ↦ rw e refl | inr e ↦ rw e refl ])
  round-above descending v w later there back =
      let one = (SameKind-Compares p v w there).one in
      let one' = (SameKind-Compares p w v back).one in
      rw (lt_round_lem w v back)
        (same_either_way (less p v w) (same p v w) (less p w v) (same p w v) later one one')
    where
      same_either_way :
          (l e g e' later : Bool)
          → exactly_one l e g ≡ true
          → exactly_one g e' l ≡ true
          → or_next p (if e' then none else some g) later ≡ (if e then later else g)
      same_either_way l e g e' later h k = ground arith

  -- The comparison of ORDER BY, on rows with the values of their order columns.
  pub sorts_first-above :
      (os : List (OrderBySet Float)) (ks : List ValueType)
      (x y : Tuple Float × TupleWithSource Float)
      → OfKinds ks x.0
      → OfKinds ks y.0
      → sorts_first p os x y ≡ is_above os x.0 y.0
  unfolding sorts_first pick tuple_lt is_above
  sorts_first-above [] ks x y h k = refl
  sorts_first-above (o ∷ os) [] ([], row) ([], other) h k = refl
  sorts_first-above (o ∷ os) (kind ∷ ks) (v ∷ a, row) (w ∷ b, other) h k =
      rw (← sorts_first-above os ks (a, row) (b, other) h.1 k.1) (
        round-above o.order v w (tuple_lt p (pick p os a b) (pick p os b a))
          (OfKind-SameKind kind v w h.0 k.0) (OfKind-SameKind kind w v k.0 h.0))
  sorts_first-above (o ∷ os) _ _ _ h k = absurd (ground arith)
