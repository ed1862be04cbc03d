-- ===== src/Query/Scope.antt =====
-- db/sql/ast/EvaluationContext.hpp, SelectColumns.cpp, Expression.cpp: the one frame of a query, and
-- what its expressions read of it. (Queries inside expressions, which push more, are not modelled.)
use essa_db.Prelude.{
  ℕ, suc, Str, str_eq, Bool, false, ◌||◌, Option, none, some, List, [], ◌∷◌, if◌then◌else◌, Result,
  ok, err, undefined, DbError, ◌>>=◌,
}
use essa_db.Value.Types.{Platform, Value}
use essa_db.Row.{Tuple, Column, value_at, tuple_eq}
use essa_db.Expression.{Context, index}
use essa_db.Expression.Print.{print}
use essa_db.Table.Checks.{Tables}
use essa_db.Query.Table.{SelectColumn, TableExpression, no_table, resolve_identifier}

-- `TupleWithSource`
pub record TupleWithSource (F : Type 0) : Type 0 where
  pub tuple : Tuple F
  pub source : Option (Tuple F)

module _ {F : Type 0} where
  -- What `resolve_identifier` found, in a row.
  value_in : Tuple F → Option ℕ → Result (Value F)
  value_in row none = err DbError.invalid_identifier
  value_in row (some i) = value_at row i

  -- `Identifier::evaluate` in a frame of type `FromTable`.
  unfoldable pub resolve_from_table :
      Tables F → TableExpression F → Tuple F → Str → Option Str → Result (Value F)
  unfolding value_in resolve_identifier
  resolve_from_table db no_table row id t = err DbError.table_required
  resolve_from_table db from row id t = do i ← resolve_identifier db from id t; value_in row i

  -- `SELECT *`: a column for each column of the table.
  unfoldable pub all_columns_from : ℕ → List (Column F) → List (SelectColumn F)
  all_columns_from i [] = []
  all_columns_from i (c ∷ cs) =
      record { alias = none; column = index i c.name } ∷ all_columns_from (suc i) cs

module _ (p : Platform) where
  open p use {Float}

  -- `operator==` of `TupleWithSource`: `source.value()` throws where there are no sources.
  unfoldable pub row_eq : TupleWithSource Float → TupleWithSource Float → Result Bool
  unfolding tuple_eq
  row_eq a b = do
    same ← tuple_eq p a.tuple b.tuple
    if same
        then elim a.source [
          | none ↦ elim b.source [ none ↦ undefined | some t ↦ ok false ]
          | some s ↦ elim b.source [ none ↦ ok false | some t ↦ tuple_eq p s t ]
        ]
        else ok false

  -- What a column of the result is called.
  unfoldable pub column_name : SelectColumn Float → Result Str
  unfolding print
  column_name c = elim c.alias [ none ↦ print p c.column | some a ↦ ok a ]

  -- A name that `SelectColumns` knows a column by: its alias, or the text of its expression.
  names_column : SelectColumn Float → Str → Result Bool
  unfolding print
  names_column c id = do
    text ← print p c.column
    ok (elim c.alias [ none ↦ str_eq text id | some a ↦ str_eq a id || str_eq text id ])

  -- `resolve_alias`: the first column of that name, from index `i` on.
  unfoldable pub resolve_alias : ℕ → List (SelectColumn Float) → Str → Result (Option ℕ)
  unfolding names_column
  resolve_alias i [] id = ok none
  resolve_alias i (c ∷ cs) id = do
    hit ← names_column c id
    if hit then ok (some i) else resolve_alias (suc i) cs id

  -- `SelectColumns::resolve_value` behind the aliases.
  resolve_source :
      Tables Float
      → TableExpression Float
      → TupleWithSource Float
      → Str
      → Option Str
      → Result (Value Float)
  unfolding value_in resolve_identifier
  resolve_source db from row id t = elim row.source [
    | none ↦ err DbError.invalid_column
    | some s ↦ do i ← resolve_identifier db from id t; value_in s i
  ]

  -- `SelectColumns::resolve_value`: identifiers in a frame of type `FromResultSet`.
  unfoldable pub resolve_value :
      List (SelectColumn Float)
      → Tables Float
      → TableExpression Float
      → TupleWithSource Float
      → Str
      → Option Str
      → Result (Value Float)
  unfolding resolve_alias resolve_source
  resolve_value columns db from row id (some t) = resolve_source db from row id (some t)
  resolve_value columns db from row id none = do
    found ← resolve_alias 0 columns id
    elim found [ some i ↦ value_at row.tuple i | none ↦ resolve_source db from row id none ]

  module _ (built_in : Context Float) (db : Tables Float) (from : TableExpression Float) where
    -- The frame at a row of the table, with the group that it has.
    unfoldable pub table_context : Option (List (Tuple Float)) → Tuple Float → Context Float
    unfolding resolve_from_table
    table_context group row = record built_in {
      resolve = resolve_from_table db from row;
      tuple = row;
      row_group = ok group;
      in_row = resolve_from_table db from;
    }

    -- The frame at a row of the result. In ORDER BY the group is a span into a vector that is gone.
    unfoldable pub result_context :
        List (SelectColumn Float)
        → Result (Option (List (Tuple Float)))
        → TupleWithSource Float
        → Context Float
    unfolding resolve_value resolve_from_table
    result_context columns group row = record built_in {
      resolve = resolve_value columns db from row;
      tuple = row.tuple;
      row_group = group;
      in_row = resolve_from_table db from;
    }
