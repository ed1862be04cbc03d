-- ===== src/Expression/Print.antt =====
-- db/sql/ast/Expression.hpp, Expression.cpp, Function.cpp: `to_string` of an expression, which names
-- the columns of a result, and `contains_aggregate_function`; db/sql/Printing.cpp.
use essa_db.Prelude.{
  Str, codes, Bool, true, false, ◌==◌, ◌||◌, [], ◌∷◌, ◌++◌, if◌then◌else◌, Result, ok, undefined,
  ◌>>=◌,
}
use essa_db.Value.Types.{Platform}
use essa_db.Value.Convert.{to_sql_serialized_string}
use essa_db.Aggregate.{AggregateFunction}
use essa_db.Expression.{
  Expr, Exprs, Cases, Arithmetic, What, absent, literal, identifier, binary, arithmetic, minus,
  between, is_in, is, case_of, proxy, index, function, aggregate, nil, cons, no_case, when,
}

has_space : Str → Bool
has_space [] = false
has_space (c ∷ s) = c == 32 || has_space s

unfoldable pub escape_identifier : Str → Str
unfolding has_space
escape_identifier id = if has_space id then codes "[" ++ (id ++ codes "]") else id

unfoldable pub print_operation : Arithmetic → Str
print_operation Arithmetic.add = codes " + "
print_operation Arithmetic.sub = codes " - "
print_operation Arithmetic.mul = codes " * "
print_operation Arithmetic.div = codes " / "
print_operation Arithmetic.invalid = codes " AO? "

unfoldable pub print_aggregate : AggregateFunction → Str
print_aggregate AggregateFunction.count = codes "COUNT"
print_aggregate AggregateFunction.sum = codes "SUM"
print_aggregate AggregateFunction.min = codes "MIN"
print_aggregate AggregateFunction.max = codes "MAX"
print_aggregate AggregateFunction.avg = codes "AVG"
print_aggregate AggregateFunction.invalid = codes "INVALID"

abbrev print_what : What → Str
print_what What.null = codes "NULL"
print_what What.not_null = codes "NOT NULL"

module _ (p : Platform) where
  open p use {Float}

  -- The end of a CASE, with what its ELSE is printed as.
  abbrev print_otherwise : Expr Float → Result Str → Result Str
  print_otherwise absent otherwise = ok []
  print_otherwise e otherwise = do a ← otherwise; ok (codes "else " ++ a)

  -- A null pointer that is followed is undefined: the right operand of `not_`.
  unfoldable mutual
    pub print : Expr Float → Result Str
    print absent = undefined
    print (literal v) = to_sql_serialized_string p v
    print (identifier id table) = ok (escape_identifier id)
    print (binary l op r) = do
      a ← print l
      b ← print r
      ok (codes "BinaryOperator(" ++ (a ++ (codes "," ++ (b ++ codes ")"))))
    print (arithmetic l op r) = do
      a ← print l
      b ← print r
      ok (codes "(" ++ (a ++ (print_operation op ++ (b ++ codes ")"))))
    print (minus e) = do a ← print e; ok (codes "UnaryOperator(" ++ (a ++ codes ")"))
    print (between e lo hi) = do
      a ← print e
      b ← print lo
      c ← print hi
      ok (
          codes "BetweenExpression("
          ++ (a ++ (codes "," ++ (b ++ (codes "," ++ (c ++ codes ")"))))))
    print (is_in e args) = do a ← print_all args; ok (codes "InExpression(" ++ (a ++ codes ")"))
    print (is e what) = do a ← print e; ok (a ++ (codes " IS " ++ print_what what))
    print (case_of cases otherwise) = do
      a ← print_cases cases
      b ← print_otherwise otherwise (print otherwise)
      ok (codes "CaseExpression: " ++ (10 ∷ (a ++ b)))
    print (proxy e) = print e
    print (index i name) = ok name
    print (function name args) = do a ← print_all args; ok (name ++ (codes "(" ++ (a ++ codes ")")))
    print (aggregate f e) = do
      a ← print e
      ok (print_aggregate f ++ (codes "(" ++ (a ++ codes ")")))

    -- The expressions of a list, with commas between them.
    pub print_all : Exprs Float → Result Str
    print_all nil = ok []
    print_all (cons e nil) = print e
    print_all (cons e (cons e' args)) = do
      a ← print e
      b ← print_all (cons e' args)
      ok (a ++ (codes ", " ++ b))

    pub print_cases : Cases Float → Result Str
    print_cases no_case = ok []
    print_cases (when e v cases) = do
      a ← print v
      b ← print_cases cases
      ok (codes "if expression then " ++ (a ++ (10 ∷ b)))

-- `a || b`, where the second operand is looked at only if it decides.
abbrev or_else : Result Bool → Result Bool → Result Bool
or_else a b = do x ← a; if x then ok true else b

-- Only the conditions of a CASE and its ELSE are looked at, and a missing ELSE is followed. A call of
-- a function is no aggregate, whatever its arguments are.
unfoldable mutual
  pub contains_aggregate_function : {F : Type 0} → Expr F → Result Bool
  contains_aggregate_function absent = undefined
  contains_aggregate_function (literal v) = ok false
  contains_aggregate_function (identifier id table) = ok false
  contains_aggregate_function (binary l op r) =
      or_else (contains_aggregate_function l) (contains_aggregate_function r)
  contains_aggregate_function (arithmetic l op r) =
      or_else (contains_aggregate_function l) (contains_aggregate_function r)
  contains_aggregate_function (minus e) = contains_aggregate_function e
  contains_aggregate_function (between e lo hi) =
      or_else (contains_aggregate_function e)
        (or_else (contains_aggregate_function lo) (contains_aggregate_function hi))
  contains_aggregate_function (is_in e args) =
      or_else (contains_aggregate_function e) (any_aggregate args)
  contains_aggregate_function (is e what) = contains_aggregate_function e
  contains_aggregate_function (case_of cases otherwise) =
      or_else (contains_aggregate_function otherwise) (any_case_aggregate cases)
  contains_aggregate_function (proxy e) = contains_aggregate_function e
  contains_aggregate_function (index i name) = ok false
  contains_aggregate_function (function name args) = ok false
  contains_aggregate_function (aggregate f e) = ok true

  pub any_aggregate : {F : Type 0} → Exprs F → Result Bool
  any_aggregate nil = ok false
  any_aggregate (cons e args) = or_else (contains_aggregate_function e) (any_aggregate args)

  pub any_case_aggregate : {F : Type 0} → Cases F → Result Bool
  any_case_aggregate no_case = ok false
  any_case_aggregate (when e v cases) =
      or_else (contains_aggregate_function e) (any_case_aggregate cases)
