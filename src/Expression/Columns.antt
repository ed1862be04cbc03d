-- ===== src/Expression/Columns.antt =====
-- db/sql/ast/Expression.hpp: `referenced_columns`, which GROUP BY asks of each selected expression.
use essa_db.Prelude.{Str, List, [], ◌∷◌, ◌++◌, Result, ok, undefined, ◌>>=◌}
use essa_db.Expression.{
  Expr, Exprs, Cases, absent, literal, identifier, binary, arithmetic, minus, between, is_in, is,
  case_of, proxy, index, function, aggregate, nil, cons, no_case, when,
}

-- A null pointer that is followed is undefined: the right operand of `not_`, or a missing `ELSE`.
-- A binary operator puts the columns of its right operand first.
unfoldable mutual
  pub referenced_columns : {F : Type 0} → Expr F → Result (List Str)
  referenced_columns absent = undefined
  referenced_columns (literal v) = ok []
  referenced_columns (identifier id table) = ok (id ∷ [])
  referenced_columns (binary l op r) = do
    a ← referenced_columns l
    b ← referenced_columns r
    ok (b ++ a)
  referenced_columns (arithmetic l op r) = do
    a ← referenced_columns l
    b ← referenced_columns r
    ok (a ++ b)
  referenced_columns (minus e) = referenced_columns e
  referenced_columns (between e lo hi) = do
    a ← referenced_columns e
    b ← referenced_columns lo
    c ← referenced_columns hi
    ok (a ++ (b ++ c))
  referenced_columns (is_in e args) = do a ← referenced_columns e; b ← all_columns args; ok (a ++ b)
  referenced_columns (is e what) = referenced_columns e
  referenced_columns (case_of cases otherwise) = do
    a ← referenced_columns otherwise
    b ← case_columns cases
    ok (a ++ b)
  referenced_columns (proxy e) = referenced_columns e
  referenced_columns (index i name) = ok []
  referenced_columns (function name args) = all_columns args
  referenced_columns (aggregate f e) = referenced_columns e

  pub all_columns : {F : Type 0} → Exprs F → Result (List Str)
  all_columns nil = ok []
  all_columns (cons e args) = do a ← referenced_columns e; b ← all_columns args; ok (a ++ b)

  -- For each case the columns of its value, then those of its condition.
  pub case_columns : {F : Type 0} → Cases F → Result (List Str)
  case_columns no_case = ok []
  case_columns (when e v cases) = do
    a ← referenced_columns v
    b ← referenced_columns e
    c ← case_columns cases
    ok (a ++ (b ++ c))
