-- ===== src/Value/Types.antt =====
-- db/core/Value.hpp: dates, the types of values, the values; and what the conversions take from the
-- C and C++ run time.
use essa_db.Prelude.{
  ℤ, pos, Str, codes, Bool, true, false, Option, none, some, [], ◌∷◌, ◌+ℤ◌, ◌-ℤ◌, str_eq,
  if◌then◌else◌, ltb, ◌||◌,
}

pub record Date : Type 0 where
  pub year : ℤ
  pub month : ℤ
  pub day : ℤ
  pub hour : ℤ
  pub min : ℤ
  pub sec : ℤ

-- `struct tm`, without the fields that the program leaves alone.
pub record Tm : Type 0 where
  pub tm_year : ℤ
  pub tm_mon : ℤ
  pub tm_mday : ℤ
  pub tm_hour : ℤ
  pub tm_min : ℤ
  pub tm_sec : ℤ

-- `Value::Type`
pub data ValueType : Type 0 where
  null int float varchar bool time : ValueType

-- The run time: 32-bit floats and the calendar of <ctime>. Nothing is assumed of them here.
-- `float_to_int` has no value where the cast of C++ is undefined.
pub record Platform : Type 1 where
  pub Float : Type 0
  pub float_of_int : ℤ → Float
  pub float_to_int : Float → Option ℤ
  pub float_add : Float → Float → Float
  pub float_sub : Float → Float → Float
  pub float_mul : Float → Float → Float
  pub float_div : Float → Float → Float
  pub float_lt : Float → Float → Bool
  pub float_eq : Float → Float → Bool
  pub float_max : Float
  pub float_min : Float
  pub stof : Str → Option Float
  pub float_to_string : Float → Str
  pub mktime : Tm → ℤ
  pub gmtime : ℤ → Tm
  pub localtime : ℤ → Tm

-- The variant and its tag, which the constructors of `Value` always set together.
pub data Value (F : Type 0) : Type 0 where
  null : Value F
  int : ℤ → Value F
  float : F → Value F
  varchar : Str → Value F
  bool : Bool → Value F
  time : Date → Value F

module _ {F : Type 0} where
  abbrev pub type : Value F → ValueType
  type Value.null = ValueType.null
  type (Value.int i) = ValueType.int
  type (Value.float f) = ValueType.float
  type (Value.varchar s) = ValueType.varchar
  type (Value.bool b) = ValueType.bool
  type (Value.time d) = ValueType.time

  abbrev pub is_null : Value F → Bool
  is_null Value.null = true
  is_null _ = false

-- `operator==` and `operator!=` of the enumeration.
abbrev pub type_eq : ValueType → ValueType → Bool
type_eq ValueType.null ValueType.null = true
type_eq ValueType.int ValueType.int = true
type_eq ValueType.float ValueType.float = true
type_eq ValueType.varchar ValueType.varchar = true
type_eq ValueType.bool ValueType.bool = true
type_eq ValueType.time ValueType.time = true
type_eq _ _ = false

unfoldable pub type_from_string : Str → Option ValueType
type_from_string str =
    if str_eq str (codes "INT")
    then some ValueType.int
    else if str_eq str (codes "FLOAT")
    then some ValueType.float
    else if str_eq str (codes "VARCHAR")
    then some ValueType.varchar
    else if str_eq str (codes "BOOL")
    then some ValueType.bool
    else if str_eq str (codes "TIME")
    then some ValueType.time
    else none

unfoldable pub type_to_string : ValueType → Str
type_to_string ValueType.int = codes "INT"
type_to_string ValueType.float = codes "FLOAT"
type_to_string ValueType.varchar = codes "VARCHAR"
type_to_string ValueType.bool = codes "BOOL"
type_to_string ValueType.time = codes "TIME"
type_to_string ValueType.null = codes "NULL"

all_digits : Str → Bool
all_digits [] = true
all_digits (c ∷ s) = if ltb c b'0' || ltb b'9' c then false else all_digits s

-- The type that a cell of a CSV file suggests for its column.
unfoldable pub find_type : Str → ValueType
unfolding all_digits
find_type str =
    if str_eq str (codes "null")
    then ValueType.null
    else if all_digits str
    then ValueType.int
    else ValueType.varchar

unfoldable pub to_tm_struct : Date → Tm
to_tm_struct d = record {
  tm_year = d.year -ℤ pos 1900;
  tm_mon = d.month -ℤ pos 1;
  tm_mday = d.day;
  tm_hour = d.hour;
  tm_min = d.min;
  tm_sec = d.sec;
}

unfoldable pub from_tm_struct : Tm → Date
from_tm_struct tm = record {
  year = tm.tm_year +ℤ pos 1900;
  month = tm.tm_mon +ℤ pos 1;
  day = tm.tm_mday;
  hour = tm.tm_hour;
  min = tm.tm_min;
  sec = tm.tm_sec;
}

module _ (p : Platform) where
  abbrev pub to_utc_epoch : Date → ℤ
  to_utc_epoch d = p.mktime (to_tm_struct d)

  abbrev pub from_utc_epoch : ℤ → Date
  from_utc_epoch t = from_tm_struct (p.gmtime t)

  abbrev pub from_local_epoch : ℤ → Date
  from_local_epoch t = from_tm_struct (p.localtime t)
