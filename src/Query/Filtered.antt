-- ===== src/Query/Filtered.antt =====
-- db/sql/Select.cpp: a query that groups nothing is a filter and a map over the rows of its table, in
-- their order.
use essa_db.Prelude.{
  Bool, true, false, none, List, [], ◌∷◌, ◌++◌, ◌≡◌, refl, Result, ok, err, undefined, ◌>>=◌,
  if◌then◌else◌, ap, ◌∙◌, sym, append_nil,
}
use mathlib.Core.List.{append_assoc}
use essa_db.Value.Types.{Platform}
use essa_db.Row.{Tuple, Column, tuple_lt}
use essa_db.Expression.{Expr, Context}
use essa_db.Table.Checks.{Tables}
use essa_db.Query.Join.{Relation}
use essa_db.Query.Table.{SelectColumn, SelectOptions, TableExpression}
use essa_db.Query.Scope.{TupleWithSource, table_context}
use essa_db.Query.Group.{
  Groups, add_to_group, group_key, key_columns, condition, group_rows_of, select_rows,
  select_groups, should_group, any_aggregate_column, collect_rows,
}

module _ (p : Platform) (built_in : Context p.Float) (db : Tables p.Float)
    (from : TableExpression p.Float) where
  open p use {Float}

  -- The rows for which WHERE is true.
  unfoldable pub where_rows : Expr Float → List (Tuple Float) → Result (List (Tuple Float))
  unfolding condition
  where_rows where_ [] = ok []
  where_rows where_ (row ∷ rows) = do
    keep ← condition p built_in db from where_ (table_context p built_in db from none row)
    rest ← where_rows where_ rows
    ok (if keep then row ∷ rest else rest)

  -- The one group of a query without GROUP BY, which is there once it has a row.
  one_group : List (Tuple Float) → Groups Float
  one_group [] = []
  one_group (row ∷ rows) = ([], row ∷ rows) ∷ []

  add-one_group :
      (kept : List (Tuple Float)) (row : Tuple Float)
      → add_to_group p [] row (one_group kept) ≡ one_group (kept ++ (row ∷ []))
  unfolding one_group add_to_group tuple_lt
  add-one_group [] row = refl
  add-one_group (k ∷ kept) row = refl

  -- What the loop over the table collects, behind the rows `kept` that it has.
  collected : List (Tuple Float) → Result (List (Tuple Float)) → Result (Groups Float)
  collected kept rows = rows >>= λ more. ok (one_group (kept ++ more))

  -- A round of both loops, with what WHERE answers and what follows.
  round :
      (keep : Result Bool) (rest : Result (List (Tuple Float))) (kept : List (Tuple Float))
      (row : Tuple Float) (with without : Result (Groups Float))
      → with ≡ collected (kept ++ (row ∷ [])) rest
      → without ≡ collected kept rest
      → (keep >>= λ b. if b then with else without)
        ≡ collected kept (keep >>= λ b. rest >>= λ more. ok (if b then row ∷ more else more))
  unfolding collected
  round undefined rest kept row with without e e' = refl
  round (err _) rest kept row with without e e' = refl
  round (ok false) undefined kept row with without e e' = e'
  round (ok false) (err _) kept row with without e e' = e'
  round (ok false) (ok more) kept row with without e e' = e'
  round (ok true) undefined kept row with without e e' = e
  round (ok true) (err _) kept row with without e e' = e
  round (ok true) (ok more) kept row with without e e' =
      e ∙ ap (λ l. ok (one_group l)) (append_assoc kept (row ∷ []) more)

  group_rows_of-one :
      (columns : List (Column Float)) (where_ : Expr Float) (rows kept : List (Tuple Float))
      → group_rows_of p built_in db from columns where_ none rows (one_group kept)
        ≡ collected kept (where_rows where_ rows)
  unfolding group_rows_of where_rows collected group_key key_columns
  group_rows_of-one columns where_ [] kept = ap (λ l. ok (one_group l)) (sym (append_nil kept))
  group_rows_of-one columns where_ (row ∷ rows) kept =
      round (condition p built_in db from where_ (table_context p built_in db from none row))
        (where_rows where_ rows) kept row _ _
        (rw (add-one_group kept row) (group_rows_of-one columns where_ rows (kept ++ (row ∷ []))))
        (group_rows_of-one columns where_ rows kept)

  group_rows_of-none :
      (columns : List (Column Float)) (where_ : Expr Float) (rows : List (Tuple Float))
      → group_rows_of p built_in db from columns where_ none rows []
        ≡ collected [] (where_rows where_ rows)
  unfolding one_group
  group_rows_of-none columns where_ rows = group_rows_of-one columns where_ rows []

  nil_after : (r : Result (List (TupleWithSource Float))) → (r >>= λ first. ok (first ++ [])) ≡ r
  nil_after undefined = refl
  nil_after (err _) = refl
  nil_after (ok rows) = ap (λ (l : List (TupleWithSource Float)). ok l) (append_nil rows)

  select-one_group :
      (columns : List (SelectColumn Float)) (rows : List (Tuple Float))
      → select_groups p built_in db from columns (one_group rows)
        ≡ select_rows p built_in db from columns rows rows
  unfolding select_groups one_group select_rows
  select-one_group columns [] = refl
  select-one_group columns (row ∷ rows) =
      nil_after (select_rows p built_in db from columns (row ∷ rows) (row ∷ rows))

  select-collected :
      (columns : List (SelectColumn Float)) (kept : Result (List (Tuple Float)))
      → (collected [] kept >>= λ groups. select_groups p built_in db from columns groups)
        ≡ (kept >>= λ rows. select_rows p built_in db from columns rows rows)
  unfolding collected
  select-collected columns undefined = refl
  select-collected columns (err _) = refl
  select-collected columns (ok rows) = select-one_group columns rows

  -- Where a query has no GROUP BY, no selected column is an aggregate and its table has a row,
  -- `collect_rows` gives what it gives to evaluate the columns at each of the rows for which
  -- WHERE is true, in the order of the table, or the first error of one of the two passes.
  pub collect_rows-filter :
      (o : SelectOptions Float) (columns : List (SelectColumn Float)) (table : Relation Float)
      (row : Tuple Float) (rows : List (Tuple Float))
      → table.rows ≡ row ∷ rows
      → o.group_by ≡ none
      → any_aggregate_column columns ≡ ok false
      → collect_rows p built_in db from o columns table ≡ (
          where_rows o.where_ table.rows >>= λ kept.
          select_rows p built_in db from columns kept kept)
  unfolding collect_rows should_group
  collect_rows-filter o columns table row rows full by plain =
      rw (by, plain, group_rows_of-none table.columns o.where_ table.rows, full)
        (select-collected columns (where_rows o.where_ (row ∷ rows)))
