-- ===== src/Tests/Functions.antt =====
-- The built-in functions on small texts and groups.
use essa_db.Prelude.{
  ℕ, ◌*◌, ◌≡◌, refl, Str, codes, true, false, none, some, List, [], ◌∷◌, ◌++◌, All, reverse, Result,
  ok, ltb, arith, str_eq, to_int32, pos, negsuc, Option, ◌<◌, ◌+ℤ◌,
}
use essa_db.Value.Types.{Value, null, int, float, varchar}
use essa_db.Value.Convert.{to_float}
use essa_db.Value.Operators.{int32}
use essa_db.Aggregate.{AggregateFunction, aggregate_rows, count_rows, fold_floats}
use essa_db.Aggregate.Bounds.{values_at, non_nulls, count-non_nulls, IsBelow, max-IsBelow}
use essa_db.Function.Numbers.{CLibrary}
use essa_db.Expression.{nil, cons, literal, function, evaluate, call_function}
use essa_db.Function.{find_function, with_functions}
use essa_db.Function.Letters.{trim, upper, to_upper}
use essa_db.Function.Search.{
  find, replace, replace_loop, translate, is_prefix, find_in, translate_loop,
}
use essa_db.Function.Charindex.{FirstPlace, answer, charindex-FirstPlace}
use essa_db.Function.Text.{len, charindex}
use essa_db.Function.Trimmed.{IsBlank, StartsClean, trim_lem}
use essa_db.Function.Replaced.{replace-ends, replace_loop-empty}
use essa_db.Tests.Fixture.{platform, built_in}

-- A C library whose functions leave their argument as it is.
abbrev c_library : CLibrary ℕ
c_library = record {
  Double = ℕ;
  widen = λ x. x;
  narrow = λ x. x;
  double_mul = λ x y. x * y;
  double_div = λ x y. x;
  m_pi = 3;
  fabs = λ x. x;
  acos = λ x. x;
  asin = λ x. x;
  atan = λ x. x;
  atan2 = λ x y. x;
  ceil = λ x. x;
  cos = λ x. x;
  exp = λ x. x;
  floor = λ x. x;
  log = λ x. x;
  log10 = λ x. x;
  pow = λ x y. x;
  round = λ x. x;
  sin = λ x. x;
  sqrt = λ x. x;
  tan = λ x. x;
  rand = λ seed. pos seed;
  now = pos 0;
  strftime = λ s tm. s;
}

-- A name in small letters finds its function, too.
call_of_len :
    evaluate platform
      (with_functions platform c_library built_in)
      (function (codes "len") (cons (literal (varchar (codes "abc"))) nil))
    ≡ ok (int (pos 3))
unfolding evaluate with_functions find_function upper to_upper call_function str_eq len to_int32
call_of_len = refl

find_second : find (codes "an") (codes "banana") 2 ≡ some 3
unfolding find find_in is_prefix
find_second = refl

charindex-FirstPlace_example :
    (o : Option ℕ) × FirstPlace (codes "an") (codes "banana") 2 o
    × (charindex platform (varchar (codes "an") ∷ varchar (codes "banana") ∷ int (pos 2) ∷ [])
        ≡ ok (answer platform o))
    × (Path ℕ 2 0
        → charindex platform (varchar (codes "an") ∷ varchar (codes "banana") ∷ [])
          ≡ ok (answer platform o))
    × ((n : ℕ)
        → n < 2147483648
        → charindex platform (varchar (codes "an") ∷ varchar (codes "banana") ∷ int (negsuc n) ∷ [])
          ≡ ok null)
charindex-FirstPlace_example =
    charindex-FirstPlace platform (codes "an") (codes "banana") 2 (omega arith)

replace_each : replace (codes "banana") (codes "an") (codes "o") ≡ ok (codes "booa")
unfolding replace replace_loop is_prefix
replace_each = refl

replace-ends_example : (r : Str) × (replace (codes "banana") (97 ∷ codes "n") (codes "o") ≡ ok r)
replace-ends_example = replace-ends 97 (codes "banana") (codes "n") (codes "o")

replace_loop-empty_example : replace_loop 1000 [] (codes "o") (98 ∷ codes "anana") ≡ none
replace_loop-empty_example = replace_loop-empty 1000 (codes "o") 98 (codes "anana")

trim_lem_example :
    (front : Str) × (back : Str) × IsBlank front
    × IsBlank back
    × (codes "  a b " ≡ front ++ (trim (codes "  a b ") ++ back))
    × StartsClean (trim (codes "  a b "))
    × StartsClean (reverse (trim (codes "  a b ")))
trim_lem_example = trim_lem (codes "  a b ")

translate_first : translate (codes "a b a") (codes "a") (codes "c") ≡ codes "c b a"
unfolding translate translate_loop
translate_first = refl

abbrev group : List (Value ℕ)
group = int (pos 7) ∷ null ∷ int (pos 5) ∷ []

abbrev itself : Value ℕ → Result (Value ℕ)
itself v = ok v

count_group : aggregate_rows platform AggregateFunction.count itself group ≡ ok (int (pos 2))
unfolding aggregate_rows count_rows int32 ◌+ℤ◌
count_group = refl

count-non_nulls_example :
    (vs : List (Value ℕ)) × (values_at platform itself group ≡ ok vs)
    × (◌≡◌ {A = Value ℕ} (int (pos 2)) (int (pos (non_nulls vs))))
count-non_nulls_example = count-non_nulls platform itself group (int (pos 2)) count_group

max_group : aggregate_rows platform AggregateFunction.max itself group ≡ ok (float 7)
unfolding aggregate_rows fold_floats to_float
max_group = refl

irreflexive : (a : ℕ) → ltb a a ≡ false
irreflexive a = ground arith

transitive : (a b c : ℕ) → ltb a b ≡ true → ltb b c ≡ true → ltb a c ≡ true
transitive a b c h k = ground arith

max-IsBelow_example :
    (r : ℕ) × (◌≡◌ {A = Value ℕ} (float 7) (float r))
    × (ltb r 1 ≡ false)
    × All (IsBelow platform irreflexive transitive itself r) group
max-IsBelow_example = max-IsBelow platform irreflexive transitive itself group (float 7) max_group
