-- ===== src/Tests/Fixture.antt =====
-- A platform whose floats are natural numbers, and a table of people with a reference to cities.
use essa_db.Prelude.{
  ℕ, ℤ, pos, codes, true, false, ltb, ◌==◌, ◌+◌, ◌-◌, ◌*◌, none, some, [], ◌∷◌, ok, err, DbError,
}
use essa_db.Value.Types.{Platform, Tm, ValueType, null, int, varchar}
use essa_db.Row.{Tuple, Column}
use essa_db.Expression.{Context}
use essa_db.Table.State.{Table}
use essa_db.Database.Action.{Database, memory}

abbrev midnight : Tm
midnight = record {
  tm_year = pos 70;
  tm_mon = pos 0;
  tm_mday = pos 1;
  tm_hour = pos 0;
  tm_min = pos 0;
  tm_sec = pos 0;
}

abbrev magnitude : ℤ → ℕ
magnitude (ℤ.pos n) = n
magnitude (ℤ.negsuc n) = 0

abbrev pub platform : Platform
platform = record {
  Float = ℕ;
  float_of_int = magnitude;
  float_to_int = λ n. some (pos n);
  float_add = λ a b. a + b;
  float_sub = λ a b. a - b;
  float_mul = λ a b. a * b;
  float_div = λ a b. a;
  float_lt = ltb;
  float_eq = λ a b. a == b;
  float_max = 1000;
  float_min = 1;
  stof = λ s. none;
  float_to_string = λ n. codes "";
  mktime = λ tm. pos 0;
  gmtime = λ t. midnight;
  localtime = λ t. midnight;
}

abbrev pub built_in : Context ℕ
built_in = record {
  resolve = λ id t. err DbError.invalid_identifier;
  tuple = [];
  find_function = λ name. none;
  row_group = ok none;
  in_row = λ row id t. err DbError.invalid_identifier;
  regex_match = λ s t. err DbError.invalid_identifier;
}

abbrev pub id_column : Column ℕ
id_column = record {
  name = codes "id";
  type = ValueType.int;
  auto_increment = true;
  unique = true;
  not_null = true;
  default = none;
}

abbrev pub city_column : Column ℕ
city_column = record {
  name = codes "city";
  type = ValueType.varchar;
  auto_increment = false;
  unique = false;
  not_null = false;
  default = none;
}

abbrev pub cities : Table ℕ
cities = record {
  name = codes "cities";
  columns = city_column ∷ [];
  rows = (varchar (codes "Rome") ∷ []) ∷ [];
  check = none;
  auto_increment_values = [];
  primary_key = none;
  foreign_keys = [];
}

abbrev pub people : Table ℕ
people = record {
  name = codes "people";
  columns = id_column ∷ city_column ∷ [];
  rows = [];
  check = none;
  auto_increment_values = [];
  primary_key = some (codes "id");
  foreign_keys =
      record {
        local_column = codes "city";
        referenced_table = codes "cities";
        referenced_column = codes "city";
      }
      ∷ [];
}

abbrev pub from_rome : Tuple ℕ
from_rome = null ∷ varchar (codes "Rome") ∷ []

-- The people once someone from Rome is in.
abbrev pub one_person : Table ℕ
one_person = record people {
  rows = (int (pos 1) ∷ varchar (codes "Rome") ∷ []) ∷ [];
  auto_increment_values = (codes "id", pos 1) ∷ [];
}

abbrev pub database : Database ℕ
database = record {
  tables = (codes "cities", cities) ∷ (codes "people", people) ∷ [];
  default_engine = memory;
}
