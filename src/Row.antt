-- ===== src/Row.antt =====
-- db/core/Tuple.hpp, Tuple.cpp: rows of values; db/core/TableSetup.hpp and Column.hpp: columns.
use essa_db.Prelude.{
  ℕ, zero, suc, Str, Bool, true, false, Option, none, some, List, [], ◌∷◌, ◌++◌, length, ◌==◌,
  if◌then◌else◌, Result, ok, undefined, ◌>>=◌,
}
use essa_db.Value.Types.{Platform, Value, ValueType, null}
use essa_db.Value.Compare.{value_eq, value_lt}

abbrev pub Tuple : Type 0 → Type 0
Tuple F = List (Value F)

pub record Column (F : Type 0) : Type 0 where
  pub name : Str
  pub type : ValueType
  pub auto_increment : Bool
  pub unique : Bool
  pub not_null : Bool
  pub default : Option (Value F)

module _ {F : Type 0} where
  -- `Column::default_value()`
  abbrev pub default_value : Column F → Value F
  default_value c = elim c.default [ none ↦ null | some v ↦ v ]

  -- `Tuple::value(index)`, which asserts that the index is in range.
  abbrev pub value_at : Tuple F → ℕ → Result (Value F)
  value_at [] i = undefined
  value_at (v ∷ row) zero = ok v
  value_at (v ∷ row) (suc i) = value_at row i

  -- `Tuple::set_value(index, value)`, which asserts it too.
  unfoldable pub set_value : Tuple F → ℕ → Value F → Result (Tuple F)
  set_value [] i w = undefined
  set_value (v ∷ row) zero w = ok (w ∷ row)
  set_value (v ∷ row) (suc i) w = do rest ← set_value row i w; ok (v ∷ rest)

  -- `Tuple::remove(index)`
  unfoldable pub remove : Tuple F → ℕ → Tuple F
  remove [] i = []
  remove (v ∷ row) zero = row
  remove (v ∷ row) (suc i) = v ∷ remove row i

  -- `Tuple::extend()`
  abbrev pub extend : Tuple F → Tuple F
  extend row = row ++ (null ∷ [])

module _ (p : Platform) where
  open p use {Float}

  -- The loop of `operator==`, over two rows of one length.
  unfoldable pub tuple_eq_loop : Tuple Float → Tuple Float → Result Bool
  tuple_eq_loop [] ws = ok true
  tuple_eq_loop (v ∷ vs) [] = undefined
  tuple_eq_loop (v ∷ vs) (w ∷ ws) = do
    same ← value_eq p v w
    if same then tuple_eq_loop vs ws else ok false

  unfoldable pub tuple_eq : Tuple Float → Tuple Float → Result Bool
  unfolding tuple_eq_loop
  tuple_eq lhs rhs = if length lhs == length rhs then tuple_eq_loop lhs rhs else ok false

  -- One round of `operator<`: `some` is a return, `none` goes on to the next column.
  unfoldable pub lt_round : Value Float → Value Float → Option Bool
  lt_round v w = elim (value_eq p v w) [
    | ok true ↦ none
    | ok false ↦ elim (value_lt p v w) [ ok b ↦ some b | _ ↦ some false ]
    | _ ↦ some false
  ]

  abbrev pub or_next : Option Bool → Bool → Bool
  or_next (some b) rest = b
  or_next none rest = rest

  -- A missing value counts as null; an error ends the comparison with `false`.
  unfoldable pub tuple_lt : Tuple Float → Tuple Float → Bool
  unfolding lt_round
  tuple_lt [] [] = false
  tuple_lt [] (w ∷ ws) = or_next (lt_round null w) (tuple_lt [] ws)
  tuple_lt (v ∷ vs) [] = or_next (lt_round v null) (tuple_lt vs [])
  tuple_lt (v ∷ vs) (w ∷ ws) = or_next (lt_round v w) (tuple_lt vs ws)
