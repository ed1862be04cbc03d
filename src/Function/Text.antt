-- ===== src/Function/Text.antt =====
-- db/sql/ast/Function.cpp: the built-in functions on text.
use essa_db.Prelude.{
  ℕ, ◌+◌, ◌-◌, ◌%◌, pos, Str, Option, none, some, List, [], ◌∷◌, ◌++◌, length, if◌then◌else◌,
  Result, ok, err, DbError, ◌>>=◌, to_int32,
}
use essa_db.Value.Types.{Platform, Value, null, int, varchar, is_null}
use essa_db.Value.Convert.{to_int, to_string}
use essa_db.Function.Arguments.{get_required, get_optional, text_argument, int_argument}
use essa_db.Function.Letters.{code_of, char_of}
use essa_db.Function.Search.{to_size, substr, find, replace, replicate_text, stuff, translate}

-- RIGHT: the subtraction of two `size_t`.
unfoldable pub right_text : Str → ℕ → Result Str
unfolding substr
right_text s len = substr s ((length s + 18446744073709551616 - len) % 18446744073709551616) len

module _ (p : Platform) where
  open p use {Float}

  abbrev pub Builtin : Type 0
  Builtin = List (Value Float) → Result (Value Float)

  abbrev as_text : Result Str → Result (Value Float)
  as_text r = do s ← r; ok (varchar s)

  unfoldable pub len : Builtin
  unfolding get_required to_string
  len args = do
    v ← get_required args 0
    if is_null v then ok null else (do s ← to_string p v; ok (int (to_int32 (pos (length s)))))

  unfoldable pub str : Builtin
  unfolding text_argument
  str args = as_text (text_argument p args 0)

  first_code : Str → Result (Value Float)
  unfolding code_of
  first_code [] = err DbError.invalid_argument
  first_code (c ∷ s) = ok (int (code_of c))

  unfoldable pub ascii : Builtin
  unfolding get_required to_string first_code
  ascii args = do
    v ← get_required args 0
    if is_null v then ok null else (do s ← to_string p v; first_code s)

  unfoldable pub char : Builtin
  unfolding int_argument char_of
  char args = do i ← int_argument p args 0; ok (varchar (char_of i ∷ []))

  unfoldable pub place : Option ℕ → Value Float
  place none = null
  place (some i) = int (to_int32 (pos i))

  unfoldable pub charindex : Builtin
  unfolding text_argument get_optional to_int to_size find place
  charindex args = do
    t ← text_argument p args 0
    s ← text_argument p args 1
    start ← to_int p (get_optional args 2 (int (pos 0)))
    ok (place (find t s (to_size start)))

  -- The loop of CONCAT: what the arguments after `result` add to it.
  unfoldable pub concat_all : Str → List (Value Float) → Result Str
  unfolding to_string
  concat_all result [] = ok result
  concat_all result (v ∷ args) = do s ← to_string p v; concat_all (result ++ s) args

  unfoldable pub concat : Builtin
  unfolding concat_all
  concat [] = err DbError.missing_argument
  concat (v ∷ args) = as_text (concat_all [] (v ∷ args))

  -- The functions of one text: LOWER, UPPER, LTRIM, RTRIM, TRIM and REVERSE.
  unfoldable pub on_text : (Str → Str) → Builtin
  unfolding text_argument
  on_text f args = do s ← text_argument p args 0; ok (varchar (f s))

  unfoldable pub substring : Builtin
  unfolding text_argument int_argument substr to_size
  substring args = do
    s ← text_argument p args 0
    start ← int_argument p args 1
    n ← int_argument p args 2
    as_text (substr s (to_size start) (to_size n))

  unfoldable pub left : Builtin
  unfolding text_argument int_argument substr to_size
  left args = do
    s ← text_argument p args 0
    n ← int_argument p args 1
    as_text (substr s 0 (to_size n))

  unfoldable pub right : Builtin
  unfolding text_argument int_argument right_text to_size
  right args = do
    s ← text_argument p args 0
    n ← int_argument p args 1
    as_text (right_text s (to_size n))

  unfoldable pub replace_function : Builtin
  unfolding text_argument replace
  replace_function args = do
    s ← text_argument p args 0
    t ← text_argument p args 1
    by ← text_argument p args 2
    as_text (replace s t by)

  unfoldable pub replicate_function : Builtin
  unfolding text_argument int_argument replicate_text
  replicate_function args = do
    s ← text_argument p args 0
    n ← int_argument p args 1
    as_text (replicate_text s n)

  unfoldable pub stuff_function : Builtin
  unfolding text_argument int_argument stuff
  stuff_function args = do
    s ← text_argument p args 0
    index ← int_argument p args 1
    n ← int_argument p args 2
    by ← text_argument p args 3
    as_text (stuff s index n by)

  unfoldable pub translate_function : Builtin
  unfolding text_argument translate
  translate_function args = do
    s ← text_argument p args 0
    from ← text_argument p args 1
    to ← text_argument p args 2
    ok (varchar (translate s from to))
