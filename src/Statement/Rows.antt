-- ===== src/Statement/Rows.antt =====
-- db/sql/ast/Statement.cpp: the loops of `DeleteFrom::execute` and `Update::execute` over the rows of
-- a table (`MutableMemoryBackedRelationIteratorImpl` of db/core/Relation.hpp).
use essa_db.Prelude.{
  ℕ, Bool, true, false, Option, none, some, List, [], ◌∷◌, Result, ok, err, undefined, ◌>>=◌,
}
use essa_db.Value.Types.{Platform}
use essa_db.Value.Convert.{to_bool}
use essa_db.Row.{Tuple, Column, set_value}
use essa_db.Expression.{Expr, Context, evaluate}
use essa_db.Table.Checks.{row_context}

-- The second pass of a deletion: the rows that were marked go.
unfoldable pub remove_marked : {F : Type 0} → List Bool → List (Tuple F) → List (Tuple F)
remove_marked marks [] = []
remove_marked [] (row ∷ rows) = row ∷ rows
remove_marked (true ∷ marks) (row ∷ rows) = remove_marked marks rows
remove_marked (false ∷ marks) (row ∷ rows) = row ∷ remove_marked marks rows

module _ (p : Platform) (built_in : Context p.Float) (columns : List (Column p.Float)) where
  open p use {Float}

  -- `should_include_row`: with no condition every row is.
  unfoldable pub should_include_row : Option (Expr Float) → Tuple Float → Result Bool
  should_include_row none row = ok true
  should_include_row (some e) row = do
    v ← evaluate p (row_context p built_in columns row) e
    to_bool p v

  -- The first pass, which decides on every row before any goes.
  unfoldable pub mark_rows : Option (Expr Float) → List (Tuple Float) → Result (List Bool)
  mark_rows cond [] = ok []
  mark_rows cond (row ∷ rows) = do
    b ← should_include_row cond row
    bs ← mark_rows cond rows
    ok (b ∷ bs)

  -- A row with the new value of one column; the column's index is read without a test.
  unfoldable pub update_row :
      Option (ℕ × Column Float) → Expr Float → Tuple Float → Result (Tuple Float)
  update_row none e row = undefined
  update_row (some (i, c)) e row = do
    v ← evaluate p (row_context p built_in columns row) e
    set_value row i v

  -- One pass over the rows. The rows before the one that fails stay written.
  abbrev pub after_row :
      Result (Tuple Float)
      → Tuple Float
      → Result (Unit {0}) × List (Tuple Float)
      → List (Tuple Float)
      → Result (Unit {0}) × List (Tuple Float)
  after_row (ok row') row (r, rest) rows = (r, row' ∷ rest)
  after_row (err e) row later rows = (err e, row ∷ rows)
  after_row undefined row later rows = (undefined, row ∷ rows)

  unfoldable pub update_rows :
      Option (ℕ × Column Float)
      → Expr Float
      → List (Tuple Float)
      → Result (Unit {0}) × List (Tuple Float)
  update_rows column e [] = (ok tt, [])
  update_rows column e (row ∷ rows) =
      after_row (update_row column e row) row (update_rows column e rows) rows
