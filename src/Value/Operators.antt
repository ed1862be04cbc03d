-- ===== src/Value/Operators.antt =====
-- db/core/Value.cpp: `operator+`, `-`, `*`, `/` on values. The left operand decides the type. What
-- leaves the range of `int`, and a division of Booleans by false, is undefined in C++.
use essa_db.Prelude.{
  ℤ, pos, ◌+ℤ◌, ◌-ℤ◌, ◌*ℤ◌, ◌/ℤ◌, is_int32, eqb_ℤ, Bool, false, not, ◌++◌, ◌||◌, if◌then◌else◌,
  Result, ok, err, undefined, DbError, ◌>>=◌, ◌>>◌, fail_if,
}
use essa_db.Value.Types.{
  Platform, Value, null, int, float, varchar, bool, time, is_null, to_utc_epoch, from_utc_epoch,
}
use essa_db.Value.Convert.{to_int, to_float, to_string, to_bool}

-- A sum, difference, product or quotient of two `int`s, where it is one.
unfoldable pub int32 : ℤ → Result ℤ
int32 z = if is_int32 z then ok z else undefined

-- `bool` values take part in arithmetic as 0 and 1, and any result but 0 is true again.
abbrev bool_to_int : Bool → ℤ
bool_to_int b = if b then pos 1 else pos 0

abbrev int_to_bool : ℤ → Bool
int_to_bool z = not (eqb_ℤ z (pos 0))

module _ (p : Platform) where
  open p use {Float, float_of_int, float_add, float_sub, float_mul, float_div, float_eq}

  add_non_null : Value Float → Value Float → Result (Value Float)
  unfolding int32 to_int to_float to_string to_bool ◌+ℤ◌
  add_non_null null rhs = ok null
  add_non_null (bool a) rhs = do
    b ← to_bool p rhs
    ok (bool (int_to_bool (bool_to_int a +ℤ bool_to_int b)))
  add_non_null (int a) rhs = do b ← to_int p rhs; c ← int32 (a +ℤ b); ok (int c)
  add_non_null (float a) rhs = do b ← to_float p rhs; ok (float (float_add a b))
  add_non_null (varchar a) rhs = do b ← to_string p rhs; ok (varchar (a ++ b))
  add_non_null (time a) rhs = do
    b ← to_int p rhs
    ok (time (from_utc_epoch p (to_utc_epoch p a +ℤ b)))

  sub_non_null : Value Float → Value Float → Result (Value Float)
  unfolding int32 to_int to_float to_bool ◌-ℤ◌
  sub_non_null null rhs = ok null
  sub_non_null (bool a) rhs = do
    b ← to_bool p rhs
    ok (bool (int_to_bool (bool_to_int a -ℤ bool_to_int b)))
  sub_non_null (int a) rhs = do b ← to_int p rhs; c ← int32 (a -ℤ b); ok (int c)
  sub_non_null (float a) rhs = do b ← to_float p rhs; ok (float (float_sub a b))
  sub_non_null (varchar a) rhs = err DbError.no_operator
  sub_non_null (time a) rhs = do
    b ← to_int p rhs
    ok (time (from_utc_epoch p (to_utc_epoch p a -ℤ b)))

  -- `&&` reads its right operand only where the left one is true.
  mul_non_null : Value Float → Value Float → Result (Value Float)
  unfolding int32 to_int to_float to_bool ◌*ℤ◌
  mul_non_null null rhs = ok null
  mul_non_null (bool a) rhs = if a then (do b ← to_bool p rhs; ok (bool b)) else ok (bool false)
  mul_non_null (int a) rhs = do b ← to_int p rhs; c ← int32 (a *ℤ b); ok (int c)
  mul_non_null (float a) rhs = do b ← to_float p rhs; ok (float (float_mul a b))
  mul_non_null (varchar a) rhs = err DbError.no_operator
  mul_non_null (time a) rhs = err DbError.no_operator

  div_non_null : Value Float → Value Float → Result (Value Float)
  unfolding int32 to_int to_float to_bool ◌/ℤ◌
  div_non_null null rhs = ok null
  div_non_null (bool a) rhs = do b ← to_bool p rhs; if b then ok (bool a) else undefined
  div_non_null (int a) rhs = do
    b ← to_int p rhs
    fail_if (eqb_ℤ b (pos 0)) DbError.divide_by_zero
    c ← int32 (a /ℤ b)
    ok (int c)
  div_non_null (float a) rhs = do
    b ← to_float p rhs
    fail_if (float_eq b (float_of_int (pos 0))) DbError.divide_by_zero
    ok (float (float_div a b))
  div_non_null (varchar a) rhs = err DbError.no_operator
  div_non_null (time a) rhs = err DbError.no_operator

  unfoldable pub value_add : Value Float → Value Float → Result (Value Float)
  unfolding add_non_null
  value_add lhs rhs = if is_null lhs || is_null rhs then ok null else add_non_null lhs rhs

  unfoldable pub value_sub : Value Float → Value Float → Result (Value Float)
  unfolding sub_non_null
  value_sub lhs rhs = if is_null lhs || is_null rhs then ok null else sub_non_null lhs rhs

  unfoldable pub value_mul : Value Float → Value Float → Result (Value Float)
  unfolding mul_non_null
  value_mul lhs rhs = if is_null lhs || is_null rhs then ok null else mul_non_null lhs rhs

  unfoldable pub value_div : Value Float → Value Float → Result (Value Float)
  unfolding div_non_null
  value_div lhs rhs = if is_null lhs || is_null rhs then ok null else div_non_null lhs rhs
