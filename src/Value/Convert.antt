-- ===== src/Value/Convert.antt =====
-- db/core/Value.cpp: conversions between the types of values, and to and from text.
use essa_db.Prelude.{
  ℤ, pos, Str, codes, Bool, true, false, not, Option, none, some, ◌++◌, if◌then◌else◌, Result, ok,
  err, undefined, DbError, ◌>>=◌, str_eq, ltb_ℤ, eqb_ℤ, to_int32,
}
use essa_db.Value.Types.{
  Platform, Date, Value, ValueType, null, int, float, varchar, bool, time, type, to_tm_struct,
}
use essa_db.Value.Number.{print_int, stoi}
use essa_db.Value.DateText.{from_iso8601_string, format_date}

-- A call that may throw, in a `try` whose handler returns an error.
abbrev or_error {ℓ} : {A : Type ℓ} → Option A → DbError → Result A
or_error none e = err e
or_error (some a) e = ok a

-- A call that has no defined result for some arguments.
abbrev or_undefined {ℓ} : {A : Type ℓ} → Option A → Result A
or_undefined none = undefined
or_undefined (some a) = ok a

module _ (p : Platform) where
  open p use {Float, float_of_int, float_to_int, stof, float_to_string, mktime}

  unfoldable pub from_string : ValueType → Str → Result (Value Float)
  from_string ValueType.null s = err DbError.internal
  from_string ValueType.int s = do i ← or_error (stoi s) DbError.cannot_convert; ok (int i)
  from_string ValueType.float s = do f ← or_error (stof s) DbError.cannot_convert; ok (float f)
  from_string ValueType.varchar s = ok (varchar s)
  from_string ValueType.bool s =
      if str_eq s (codes "true")
      then ok (bool true)
      else if str_eq s (codes "false")
      then ok (bool false)
      else err DbError.cannot_convert
  from_string ValueType.time s = do d ← from_iso8601_string s; ok (time d)

  -- The test on the range of a timestamp looks at its upper end alone.
  unfoldable pub to_int : Value Float → Result ℤ
  to_int null = ok (pos 0)
  to_int (int i) = ok i
  to_int (float f) = or_undefined (float_to_int f)
  to_int (varchar s) = or_error (stoi s) DbError.cannot_convert
  to_int (bool b) = ok (if b then pos 1 else pos 0)
  to_int (time d) =
      let range = mktime (to_tm_struct d) in
      if ltb_ℤ (pos 2147483647) range
      then err DbError.timestamp_out_of_range
      else ok (to_int32 range)

  unfoldable pub to_float : Value Float → Result Float
  to_float null = ok (float_of_int (pos 0))
  to_float (int i) = ok (float_of_int i)
  to_float (float f) = ok f
  to_float (varchar s) = or_error (stof s) DbError.cannot_convert
  to_float (bool b) = ok (float_of_int (if b then pos 1 else pos 0))
  to_float (time d) = err DbError.not_convertible

  unfoldable pub to_string : Value Float → Result Str
  to_string null = ok (codes "null")
  to_string (int i) = ok (print_int i)
  to_string (float f) = ok (float_to_string f)
  to_string (varchar s) = ok s
  to_string (bool b) = ok (if b then codes "true" else codes "false")
  to_string (time d) = ok (format_date d)

  unfoldable pub to_bool : Value Float → Result Bool
  unfolding to_int
  to_bool v = do i ← to_int v; ok (not (eqb_ℤ i (pos 0)))

  unfoldable pub to_time : Value Float → Result Date
  to_time (time d) = ok d
  to_time _ = err DbError.not_convertible

  unfoldable pub to_debug_string : Value Float → Result Str
  unfolding to_string
  to_debug_string v = do
    s ← to_string v
    ok (elim (type v) [
      | ValueType.null ↦ s
      | ValueType.int ↦ codes "int " ++ s
      | ValueType.float ↦ codes "float " ++ s
      | ValueType.varchar ↦ codes "varchar '" ++ (s ++ codes "'")
      | ValueType.bool ↦ codes "bool " ++ s
      | ValueType.time ↦ codes "time " ++ s
    ])

  -- db/sql/Printing.cpp: `escape_string_literal`, which escapes nothing.
  unfoldable pub escape_string_literal : Str → Str
  escape_string_literal s = codes "'" ++ (s ++ codes "'")

  unfoldable pub to_sql_serialized_string : Value Float → Result Str
  unfolding to_string escape_string_literal
  to_sql_serialized_string null = ok (codes "NULL")
  to_sql_serialized_string (varchar s) = ok (escape_string_literal s)
  to_sql_serialized_string v = to_string v
