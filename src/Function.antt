-- ===== src/Function.antt =====
-- db/sql/ast/Function.cpp: the built-in functions by their names, and how a call finds them.
pub mod Arguments
pub mod Charindex
pub mod Letters
pub mod Found
pub mod Numbers
pub mod Replaced
pub mod Search
pub mod Text
pub mod Trimmed
use essa_db.Prelude.{Str, str_eq, codes, Option, none, some, List, [], ◌∷◌, reverse, if◌then◌else◌}
use essa_db.Value.Types.{Platform}
use essa_db.Function.Letters.{upper, lower, ltrim, rtrim, trim}
use essa_db.Expression.{Context}
use essa_db.Function.Text
use essa_db.Function.Text.{Builtin, on_text}
use essa_db.Function.Numbers
use essa_db.Function.Numbers.{CLibrary, on_float, on_floats, rounded, date_part}

module _ (p : Platform) (l : CLibrary p.Float) where
  -- `s_functions`, as `setup_sql_functions` fills it.
  unfoldable pub s_functions : List (Str × Builtin p)
  s_functions =
      (codes "LEN", Text.len p)
      ∷ (codes "LENGTH", Text.len p)
      ∷ (codes "STR", Text.str p)
      ∷ (codes "ASCII", Text.ascii p)
      ∷ (codes "CHAR", Text.char p)
      ∷ (codes "CHARINDEX", Text.charindex p)
      ∷ (codes "CONCAT", Text.concat p)
      ∷ (codes "LOWER", on_text p lower)
      ∷ (codes "SUBSTRING", Text.substring p)
      ∷ (codes "UPPER", on_text p upper)
      ∷ (codes "LEFT", Text.left p)
      ∷ (codes "RIGHT", Text.right p)
      ∷ (codes "LTRIM", on_text p ltrim)
      ∷ (codes "RTRIM", on_text p rtrim)
      ∷ (codes "TRIM", on_text p trim)
      ∷ (codes "REPLACE", Text.replace_function p)
      ∷ (codes "REPLICATE", Text.replicate_function p)
      ∷ (codes "REVERSE", on_text p reverse)
      ∷ (codes "STUFF", Text.stuff_function p)
      ∷ (codes "TRANSLATE", Text.translate_function p)
      ∷ (codes "ABS", Numbers.abs p l)
      ∷ (codes "ACOS", on_float p l l.acos)
      ∷ (codes "ASIN", on_float p l l.asin)
      ∷ (codes "ATAN", on_float p l l.atan)
      ∷ (codes "ATN2", on_floats p l l.atan2)
      ∷ (codes "CEILING", rounded p l l.ceil)
      ∷ (codes "COS", on_float p l l.cos)
      ∷ (codes "COT", on_float p l (Numbers.cot p l))
      ∷ (codes "DEGREES", on_float p l (Numbers.degrees p l))
      ∷ (codes "EXP", on_float p l l.exp)
      ∷ (codes "FLOOR", rounded p l l.floor)
      ∷ (codes "LOG", on_float p l l.log)
      ∷ (codes "LOG10", on_float p l l.log10)
      ∷ (codes "PI", Numbers.pi p l)
      ∷ (codes "POWER", on_floats p l l.pow)
      ∷ (codes "RADIANS", on_float p l (Numbers.radians p l))
      ∷ (codes "RAND", Numbers.rand_function p l)
      ∷ (codes "ROUND", rounded p l l.round)
      ∷ (codes "SIGN", Numbers.sign p l)
      ∷ (codes "SIN", on_float p l l.sin)
      ∷ (codes "SQRT", on_float p l l.sqrt)
      ∷ (codes "SQUARE", on_float p l (Numbers.square p l))
      ∷ (codes "TAN", on_float p l l.tan)
      ∷ (codes "IFNULL", Numbers.ifnull p l)
      ∷ (codes "DATEDIFF", Numbers.datediff p l)
      ∷ (codes "DATE_FORMAT", Numbers.date_format p l)
      ∷ (codes "DAY", date_part p l (λ d. d.day))
      ∷ (codes "GETDATE", Numbers.local_now p l)
      ∷ (codes "GETUTCDATE", Numbers.utc_now p l)
      ∷ (codes "MONTH", date_part p l (λ d. d.month))
      ∷ (codes "SYSGETTIME", Numbers.local_now p l)
      ∷ (codes "YEAR", date_part p l (λ d. d.year))
      ∷ []

  unfoldable pub lookup : Str → List (Str × Builtin p) → Option (Builtin p)
  lookup name [] = none
  lookup name ((n, f) ∷ fs) = if str_eq n name then some f else lookup name fs

  -- The name is looked up in upper case.
  unfoldable pub find_function : Str → Option (Builtin p)
  unfolding s_functions lookup upper
  find_function name = lookup (upper name) s_functions

  -- The surroundings of an expression, with the built-in functions.
  unfoldable pub with_functions : Context p.Float → Context p.Float
  unfolding find_function
  with_functions c = record c { find_function = find_function }
