-- ===== src/Function/Numbers.antt =====
-- db/sql/ast/Function.cpp: the built-in functions on numbers and dates, and IFNULL. The C library's
-- mathematics, clock and random numbers are a parameter.
use essa_db.Prelude.{
  ℕ, ◌-◌, ℤ, pos, negsuc, ◌-ℤ◌, ◌/ℤ◌, ltb_ℤ, Str, none, some, [], ◌∷◌, if◌then◌else◌, Result, ok,
  err, undefined, DbError, ◌>>=◌, to_int32,
}
use essa_db.Value.Types.{
  Platform, Value, Tm, Date, null, int, float, varchar, time, is_null, to_tm_struct, to_utc_epoch,
  from_utc_epoch, from_local_epoch,
}
use essa_db.Value.Convert.{to_int, to_string}
use essa_db.Value.Operators.{int32}
use essa_db.Function.Arguments.{get_required, text_argument, float_argument, time_argument}
use essa_db.Function.Text.{Builtin}

-- <cmath>, <cstdlib>, <ctime>, <chrono>: what the functions call. `Double` is the type of `M_PI`.
pub record CLibrary (F : Type 0) : Type 1 where
  pub Double : Type 0
  pub widen : F → Double
  pub narrow : Double → F
  pub double_mul : Double → Double → Double
  pub double_div : Double → Double → Double
  pub m_pi : Double
  pub fabs : F → F
  pub acos : F → F
  pub asin : F → F
  pub atan : F → F
  pub atan2 : F → F → F
  pub ceil : F → F
  pub cos : F → F
  pub exp : F → F
  pub floor : F → F
  pub log : F → F
  pub log10 : F → F
  pub pow : F → F → F
  pub round : F → F
  pub sin : F → F
  pub sqrt : F → F
  pub tan : F → F
  -- The first `rand()` after `srand(seed)`.
  pub rand : ℕ → ℤ
  -- The clock in seconds.
  pub now : ℤ
  -- What `strftime` leaves in a zeroed buffer of 256 bytes.
  pub strftime : Str → Tm → Str

-- `unsigned seed`
unfoldable pub to_unsigned : ℤ → ℕ
to_unsigned (pos n) = n
to_unsigned (negsuc n) = 4294967295 - n

module _ (p : Platform) (l : CLibrary p.Float) where
  open p use {Float, float_of_int, float_to_int, float_mul, float_div, float_lt, float_eq}

  abbrev to_integer : Float → Result (Value Float)
  to_integer x = elim (float_to_int x) [ none ↦ undefined | some i ↦ ok (int i) ]

  -- A function of one number, and of two.
  unfoldable pub on_float : (Float → Float) → Builtin p
  unfolding float_argument
  on_float f args = do x ← float_argument p args 0; ok (float (f x))

  unfoldable pub on_floats : (Float → Float → Float) → Builtin p
  unfolding float_argument
  on_floats f args = do x ← float_argument p args 0; y ← float_argument p args 1; ok (float (f x y))

  -- CEILING, FLOOR and ROUND.
  unfoldable pub rounded : (Float → Float) → Builtin p
  unfolding float_argument
  rounded f args = do x ← float_argument p args 0; to_integer (f x)

  -- `std::abs(int)`
  unfoldable pub abs_int : ℤ → Result ℤ
  unfolding int32
  abs_int i = int32 (if ltb_ℤ i (pos 0) then pos 0 -ℤ i else i)

  abs_value : Value Float → Result (Value Float)
  unfolding abs_int to_string
  abs_value (int i) = do j ← abs_int i; ok (int j)
  abs_value (float x) = ok (float (l.fabs x))
  abs_value null = ok null
  abs_value v = do s ← to_string p v; err DbError.invalid_argument

  unfoldable pub abs : Builtin p
  unfolding get_required abs_value
  abs args = do v ← get_required args 0; abs_value v

  abbrev pub cot : Float → Float
  cot x = float_div (float_of_int (pos 1)) (l.tan x)

  abbrev pub degrees : Float → Float
  degrees x =
      l.narrow (l.double_mul (l.double_div (l.widen x) l.m_pi) (l.widen (float_of_int (pos 180))))

  abbrev pub radians : Float → Float
  radians x = l.narrow (l.double_mul (l.widen (float_div x (float_of_int (pos 180)))) l.m_pi)

  abbrev pub square : Float → Float
  square x = float_mul x x

  unfoldable pub pi : Builtin p
  pi [] = ok (float (l.narrow l.m_pi))
  pi (v ∷ args) = err DbError.invalid_argument

  unfoldable pub rand_function : Builtin p
  unfolding to_int to_unsigned
  rand_function (v ∷ []) = do i ← to_int p v; ok (int (l.rand (to_unsigned i)))
  rand_function args = ok (int (l.rand (to_unsigned (to_int32 l.now))))

  unfoldable pub sign : Builtin p
  unfolding float_argument
  sign args = do
    x ← float_argument p args 0
    let zero = float_of_int (pos 0)
    ok (int (if float_eq x zero then pos 0 else if float_lt x zero then negsuc 0 else pos 1))

  unfoldable pub ifnull : Builtin p
  unfolding get_required
  ifnull args = do
    v ← get_required args 0
    alternative ← get_required args 1
    ok (if is_null v then alternative else v)

  unfoldable pub datediff : Builtin p
  unfolding time_argument
  datediff args = do
    start ← time_argument p args 0
    end ← time_argument p args 1
    ok (int (to_int32 ((to_utc_epoch p end -ℤ to_utc_epoch p start) /ℤ pos 86400)))

  unfoldable pub date_format : Builtin p
  unfolding time_argument text_argument
  date_format args = do
    d ← time_argument p args 0
    fmt ← text_argument p args 1
    ok (varchar (l.strftime fmt (to_tm_struct d)))

  -- DAY, MONTH and YEAR.
  unfoldable pub date_part : (Date → ℤ) → Builtin p
  unfolding time_argument
  date_part field args = do d ← time_argument p args 0; ok (int (field d))

  -- GETDATE and SYSGETTIME; GETUTCDATE.
  unfoldable pub local_now : Builtin p
  local_now args = ok (time (from_local_epoch p l.now))

  unfoldable pub utc_now : Builtin p
  utc_now args = ok (time (from_utc_epoch p l.now))
