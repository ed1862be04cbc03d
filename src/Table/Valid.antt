-- ===== src/Table/Valid.antt =====
-- The constraints that the rows of a table meet: types, NOT NULL, UNIQUE, primary key. One lemma for
-- each check of Table.cpp says what it establishes.
use native.Mathlib.Nat.{zero-add}
use essa_db.Prelude.{
  ℕ, suc, ◌+◌, Str, true, false, not, ◌&&◌, Option, none, some, List, [], ◌∷◌, ◌++◌, length, ok,
  DbError, fail_if, ◌≡◌, arith, All, All-append, >>=-eq-ok, subst, sym, ◌∙◌, fail_if-ok,
  ok-injective,
}
use essa_db.Value.Types.{Platform, Value, is_null, type, type_eq}
use essa_db.Value.Compare.{value_eq}
use essa_db.Row.{Tuple, Column, value_at}
use essa_db.Table.State.{Table, get_column}
use essa_db.Table.Checks.{
  no_duplicate, check_value_validity, check_values, check_primary_key, check_key_at,
}

-- A cell that its column allows.
pub record CellFits {F : Type 0} (c : Column F) (v : Value F) : Type 0 where
  pub typed : is_null v ≡ false → type_eq c.type (type v) ≡ true
  pub present : c.not_null ≡ true → is_null v ≡ false

-- A row with one allowed cell for each column.
abbrev pub Fits : {F : Type 0} → List (Column F) → Tuple F → Type 0
Fits [] [] = Unit {0}
Fits [] (v ∷ vs) = ⊥
Fits (c ∷ cs) [] = ⊥
Fits (c ∷ cs) (v ∷ vs) = CellFits c v × Fits cs vs

shift : (k i : ℕ) → k + suc i ≡ suc k + i
shift k i = omega arith

module _ (p : Platform) where
  open p use {Float}

  -- Two rows whose values at `i` are found unequal.
  pub record Differ (i : ℕ) (r s : Tuple Float) : Type 0 where
    pub left : Value Float
    pub right : Value Float
    pub at_left : value_at r i ≡ ok left
    pub at_right : value_at s i ≡ ok right
    pub unequal : value_eq p left right ≡ ok false

  -- Every row differs at `i` from every later one.
  abbrev pub Distinct : ℕ → List (Tuple Float) → Type 0
  Distinct i [] = Unit {0}
  Distinct i (r ∷ rows) = All (Differ i r) rows × Distinct i rows

  -- The unique columns among `cs`, the first of which has the index `i`.
  abbrev pub UniqueFrom : List (Tuple Float) → ℕ → List (Column Float) → Type 0
  UniqueFrom rows i [] = Unit {0}
  UniqueFrom rows i (c ∷ cs) = (c.unique ≡ true → Distinct i rows) × UniqueFrom rows (suc i) cs

  pub record Present (i : ℕ) (r : Tuple Float) : Type 0 where
    pub value : Value Float
    pub at : value_at r i ≡ ok value
    pub non_null : is_null value ≡ false

  -- A key whose column exists identifies the rows.
  abbrev pub KeyAt : List (Tuple Float) → Option (ℕ × Column Float) → Type 0
  KeyAt rows none = Unit {0}
  KeyAt rows (some (i, c)) = Distinct i rows × All (Present i) rows

  abbrev pub KeyHolds : List (Tuple Float) → List (Column Float) → Option Str → Type 0
  KeyHolds rows columns none = Unit {0}
  KeyHolds rows columns (some key) = KeyAt rows (get_column columns key)

  -- Rows that meet the constraints of the columns and of the primary key.
  pub record ValidRows (columns : List (Column Float)) (key : Option Str)
      (rows : List (Tuple Float)) : Type 0 where
    pub fits : All (Fits columns) rows
    pub unique : UniqueFrom rows 0 columns
    pub keyed : KeyHolds rows columns key

  abbrev pub IsValid : Table Float → Type 0
  IsValid t = ValidRows t.columns t.primary_key t.rows

  Distinct-append :
      (i : ℕ) (rows : List (Tuple Float)) (row : Tuple Float)
      → Distinct i rows
      → All (λ r. Differ i r row) rows
      → Distinct i (rows ++ (row ∷ []))
  Distinct-append i [] row h k = (tt, tt)
  Distinct-append i (r ∷ rows) row h k =
      (All-append (Differ i r) rows (row ∷ []) h.0 (k.0, tt), Distinct-append i rows row h.1 k.1)

  -- A value that no stored row repeats.
  no_duplicate-ok :
      (e : DbError) (i : ℕ) (v : Value Float) (row : Tuple Float) (rows : List (Tuple Float))
      → value_at row i ≡ ok v
      → no_duplicate p e i v rows ≡ ok tt
      → All (λ r. Differ i r row) rows
  unfolding no_duplicate
  no_duplicate-ok e i v row [] at h = tt
  no_duplicate-ok e i v row (other ∷ rows) at h =
      let (w, at_w, h1) = >>=-eq-ok (value_at other i) _ h in
      let (same, eq, h2) = >>=-eq-ok (value_eq p w v) _ h1 in
      let (u, pass, h3) = >>=-eq-ok (fail_if same e) _ h2 in
      let different : same ≡ false = fail_if-ok same e (pass) in
      (
        record {
          left = w;
          right = v;
          at_left = at_w;
          at_right = at;
          unequal = rw (← different) eq;
        },
        no_duplicate-ok e i v row rows at h3,
      )

  -- What the checks of one cell establish.
  record CellOk (rows : List (Tuple Float)) (row : Tuple Float) (i : ℕ) (c : Column Float)
      : Type 0 where
    value : Value Float
    at : value_at row i ≡ ok value
    fits : CellFits c value
    unique : c.unique ≡ true → All (λ r. Differ i r row) rows

  check_value_validity-ok :
      (rows : List (Tuple Float)) (row : Tuple Float) (i : ℕ) (c : Column Float)
      → check_value_validity p rows row i c ≡ ok tt
      → CellOk rows row i c
  unfolding check_value_validity
  check_value_validity-ok rows row i c h =
      let (v, at_v, h1) = >>=-eq-ok (value_at row i) _ h in
      let (u1, typed, h2) =
        >>=-eq-ok (fail_if (not (is_null v) && not (type_eq c.type (type v))) _) _ h1 in
      let (u2, present, h3) = >>=-eq-ok (fail_if (c.not_null && is_null v) _) _ h2 in
      let t = fail_if-ok _ _ typed in
      let q = fail_if-ok _ _ present in
      record {
        value = v;
        at = at_v;
        fits = record { typed = λ e. ground arith; present = λ e. ground arith };
        unique = λ e. no_duplicate-ok _ i v row rows at_v (rw e at h3);
      }

  -- The loop over the columns: `suf` holds the cells of `row` from the index `i` on.
  pub check_values-ok :
      (rows : List (Tuple Float)) (row suf : Tuple Float) (i : ℕ) (cs : List (Column Float))
      → length suf ≡ length cs
      → ((k : ℕ) → value_at row (k + i) ≡ value_at suf k)
      → UniqueFrom rows i cs
      → check_values p rows row i cs ≡ ok tt
      → Fits cs suf × UniqueFrom (rows ++ (row ∷ [])) i cs
  unfolding check_values
  check_values-ok rows row [] i [] len cells old h = (tt, tt)
  check_values-ok rows row (v ∷ suf) i [] len cells old h = absurd (omega arith)
  check_values-ok rows row [] i (c ∷ cs) len cells old h = absurd (omega arith)
  check_values-ok rows row (v ∷ suf) i (c ∷ cs) len cells old h =
      let (u, first, h1) = >>=-eq-ok (check_value_validity p rows row i c) _ h in
      let cell = check_value_validity-ok rows row i c first in
      let here : value_at row i ≡ ok v = rw (zero-add i) at (cells 0) in
      let same : cell.value ≡ v = ok-injective (sym cell.at ∙ here) in
      let (fits, unique) =
        check_values-ok rows row suf (suc i) cs (omega arith) (λ k. rw (shift k i) (cells (suc k)))
          old.1 h1 in
      (
        (subst (CellFits c) same cell.fits, fits),
        ((λ e. Distinct-append i rows row (old.0 e) (cell.unique e)), unique),
      )

  check_key_at-ok :
      (rows : List (Tuple Float)) (row : Tuple Float) (found : Option (ℕ × Column Float))
      → KeyAt rows found
      → check_key_at p rows row found ≡ ok tt
      → KeyAt (rows ++ (row ∷ [])) found
  unfolding check_key_at
  check_key_at-ok rows row none old h = tt
  check_key_at-ok rows row (some (i, c)) old h =
      let (v, at_v, h1) = >>=-eq-ok (value_at row i) _ h in
      let (u, present, h2) = >>=-eq-ok (fail_if (is_null v) _) _ h1 in
      let non_null = fail_if-ok _ _ present in
      (
        Distinct-append i rows row old.0 (no_duplicate-ok _ i v row rows at_v h2),
        All-append (Present i) rows (row ∷ []) old.1
            (record { value = v; at = at_v; non_null = non_null }, tt),
      )

  pub check_primary_key-ok :
      (t : Table Float) (row : Tuple Float) (key : Option Str)
      → KeyHolds t.rows t.columns key
      → check_primary_key p t row key ≡ ok tt
      → KeyHolds (t.rows ++ (row ∷ [])) t.columns key
  unfolding check_primary_key
  check_primary_key-ok t row none old h = tt
  check_primary_key-ok t row (some key) old h =
      check_key_at-ok t.rows row (get_column t.columns key) old h
