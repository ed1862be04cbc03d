-- ===== src/Value/Compare.antt =====
-- db/core/Value.cpp: the comparisons of values; db/core/Value.hpp: `ValueSorter`. The left operand
-- decides how the right one is converted.
use essa_db.Prelude.{
  ltb_ℤ, eqb_ℤ, Bool, true, false, not, if◌then◌else◌, Result, ok, ◌>>=◌, str_eq, str_lt,
}
use essa_db.Value.Types.{Platform, Value, null, float, varchar, bool, is_null}
use essa_db.Value.Convert.{to_int, to_float, to_string, to_bool}

abbrev pub bool_lt : Bool → Bool → Bool
bool_lt false true = true
bool_lt _ _ = false

abbrev pub bool_eq : Bool → Bool → Bool
bool_eq true b = b
bool_eq false b = not b

module _ (p : Platform) where
  open p use {Float, float_lt, float_eq}

  lt_by_int : Value Float → Value Float → Result Bool
  unfolding to_int
  lt_by_int lhs rhs = do a ← to_int p lhs; b ← to_int p rhs; ok (ltb_ℤ a b)

  eq_by_int : Value Float → Value Float → Result Bool
  unfolding to_int
  eq_by_int lhs rhs = do a ← to_int p lhs; b ← to_int p rhs; ok (eqb_ℤ a b)

  lt_non_null : Value Float → Value Float → Result Bool
  unfolding lt_by_int to_float to_string to_bool str_lt
  lt_non_null (bool a) rhs = do b ← to_bool p rhs; ok (bool_lt a b)
  lt_non_null (float a) rhs = do b ← to_float p rhs; ok (float_lt a b)
  lt_non_null (varchar a) rhs = do b ← to_string p rhs; ok (str_lt a b)
  lt_non_null lhs rhs = lt_by_int lhs rhs

  unfoldable pub value_lt : Value Float → Value Float → Result Bool
  unfolding lt_non_null
  value_lt lhs rhs =
      if is_null lhs then ok true else if is_null rhs then ok false else lt_non_null lhs rhs

  unfoldable pub value_eq : Value Float → Value Float → Result Bool
  unfolding eq_by_int to_float to_string to_bool str_eq
  value_eq null rhs = ok (is_null rhs)
  value_eq (bool a) rhs = do b ← to_bool p rhs; ok (bool_eq a b)
  value_eq (float a) rhs = do b ← to_float p rhs; ok (float_eq a b)
  value_eq (varchar a) rhs = do b ← to_string p rhs; ok (str_eq a b)
  value_eq lhs rhs = eq_by_int lhs rhs

  -- `||` and `&&` evaluate their right operand only where it decides.
  unfoldable pub value_le : Value Float → Value Float → Result Bool
  unfolding value_lt value_eq
  value_le lhs rhs = do less ← value_lt lhs rhs; if less then ok true else value_eq lhs rhs

  unfoldable pub value_ge : Value Float → Value Float → Result Bool
  unfolding value_lt
  value_ge lhs rhs = do less ← value_lt lhs rhs; ok (not less)

  unfoldable pub value_gt : Value Float → Value Float → Result Bool
  unfolding value_lt value_eq
  value_gt lhs rhs = do
    less ← value_lt lhs rhs
    if not less then (do same ← value_eq lhs rhs; ok (not same)) else ok false

  unfoldable pub value_ne : Value Float → Value Float → Result Bool
  unfolding value_eq
  value_ne lhs rhs = do same ← value_eq lhs rhs; ok (not same)

  -- `ValueSorter::operator()`: an error counts as "not less".
  unfoldable pub sorts_before : Value Float → Value Float → Bool
  unfolding value_lt
  sorts_before lhs rhs = elim (value_lt lhs rhs) [ ok b ↦ b | _ ↦ false ]
