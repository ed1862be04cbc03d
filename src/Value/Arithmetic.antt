-- ===== src/Value/Arithmetic.antt =====
-- What the four operators on values return, whatever the types of the operands.
use essa_db.Prelude.{ℤ, IsInt32, ◌≡◌, ok, false, ◌||◌, arith}
use essa_db.Value.Types.{Platform, Value, null, int, type, is_null}
use essa_db.Value.Convert.{to_int, to_float, to_string, to_bool}
use essa_db.Value.Operators.{int32, value_add, value_sub, value_mul, value_div}

-- Every `int` that a value holds fits in 32 bits.
abbrev pub InRange : {F : Type 0} → Value F → Type 0
InRange (int i) = IsInt32 i
InRange _ = Unit {0}

-- The result is null where an operand is, and else of the type of the left operand, in range.
pub record Typed {F : Type 0} (a b c : Value F) : Type 0 where
  pub nulls : is_null c ≡ (is_null a || is_null b)
  pub types : is_null c ≡ false → type c ≡ type a
  pub range : InRange c

int32-IsInt32 : (z : ℤ) {c : ℤ} → int32 z ≡ ok c → IsInt32 c
unfolding int32
int32-IsInt32 z h = ground arith

module _ (p : Platform) where
  pub add-Typed : (a b : Value p.Float) {c : Value p.Float} → value_add p a b ≡ ok c → Typed a b c
  unfolding value_add to_int to_bool to_float to_string int32
  add-Typed null b h = ground arith
  add-Typed a null h = ground arith
  add-Typed a b h = ground arith

  pub sub-Typed : (a b : Value p.Float) {c : Value p.Float} → value_sub p a b ≡ ok c → Typed a b c
  unfolding value_sub to_int to_bool to_float to_string int32
  sub-Typed null b h = ground arith
  sub-Typed a null h = ground arith
  sub-Typed a b h = ground arith

  pub mul-Typed : (a b : Value p.Float) {c : Value p.Float} → value_mul p a b ≡ ok c → Typed a b c
  unfolding value_mul to_int to_bool to_float to_string int32
  mul-Typed null b h = ground arith
  mul-Typed a null h = ground arith
  mul-Typed a b h = ground arith

  pub div-Typed : (a b : Value p.Float) {c : Value p.Float} → value_div p a b ≡ ok c → Typed a b c
  unfolding value_div to_int to_bool to_float to_string int32
  div-Typed null b h = ground arith
  div-Typed a null h = ground arith
  div-Typed a b h = ground arith
