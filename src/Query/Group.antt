-- ===== src/Query/Group.antt =====
-- db/sql/Select.cpp: `collect_rows`, from WHERE to HAVING.
use essa_db.Prelude.{
  ℕ, Str, str_eq, Bool, true, false, not, ◌||◌, Option, none, some, List, [], ◌∷◌, ◌++◌, length,
  replicate, if◌then◌else◌, Result, ok, err, undefined, DbError, ◌>>=◌,
}
use essa_db.Value.Types.{Platform, Value, null}
use essa_db.Value.Convert.{to_bool}
use essa_db.Row.{Tuple, Column, value_at, tuple_lt}
use essa_db.Expression.{Expr, Context, absent, evaluate}
use essa_db.Expression.Columns.{referenced_columns}
use essa_db.Expression.Print.{contains_aggregate_function}
use essa_db.Table.State.{get_column}
use essa_db.Table.Checks.{Tables}
use essa_db.Query.Join.{Relation}
use essa_db.Query.Table.{SelectColumn, SelectOptions, GroupBy, TableExpression, group, partition}
use essa_db.Query.Scope.{TupleWithSource, table_context, result_context}

-- `std::map<Tuple, std::vector<Tuple>>`, by ascending keys.
abbrev pub Groups : Type 0 → Type 0
Groups F = List (Tuple F × List (Tuple F))

abbrev is_partition : Option GroupBy → Bool
is_partition none = false
is_partition (some g) = elim g.kind [ group ↦ false | partition ↦ true ]

unfoldable pub key_columns : Option GroupBy → List Str
key_columns none = []
key_columns (some g) = g.columns

mentions : List Str → Str → Bool
mentions [] name = false
mentions (n ∷ ns) name = str_eq n name || mentions ns name

any_mentioned : List Str → List Str → Bool
unfolding mentions
any_mentioned referenced [] = false
any_mentioned referenced (name ∷ names) = mentions referenced name || any_mentioned referenced names

module _ {F : Type 0} where
  -- The columns of GROUP BY, in a row.
  unfoldable pub group_key : List (Column F) → Tuple F → List Str → Result (Tuple F)
  group_key columns row [] = ok []
  group_key columns row (name ∷ names) = do
    v ← elim (get_column columns name) [
      | none ↦ err DbError.no_such_column
      | some found ↦ value_at row found.0
    ]
    key ← group_key columns row names
    ok (v ∷ key)

  unfoldable pub any_aggregate_column : List (SelectColumn F) → Result Bool
  unfolding contains_aggregate_function
  any_aggregate_column [] = ok false
  any_aggregate_column (c ∷ cs) = do
    found ← contains_aggregate_function c.column
    if found then ok true else any_aggregate_column cs

  -- `should_group`
  unfoldable pub should_group : Option GroupBy → List (SelectColumn F) → Result Bool
  unfolding any_aggregate_column
  should_group none columns = any_aggregate_column columns
  should_group (some g) columns = ok (not (is_partition (some g)))

  -- `is_in_group_by`; with no column in GROUP BY the expression is not looked at.
  unfoldable pub is_in_group_by : Option GroupBy → SelectColumn F → Result Bool
  unfolding key_columns any_mentioned referenced_columns
  is_in_group_by by c = elim (key_columns by) [
    | [] ↦ ok false
    | name ∷ names ↦ do
      referenced ← referenced_columns c.column
      ok (any_mentioned referenced (name ∷ names))
  ]

  -- `group.second[0]`
  first_row : List (Tuple F) → Result (Tuple F)
  first_row [] = undefined
  first_row (row ∷ rows) = ok row

module _ (p : Platform) where
  open p use {Float}

  -- `nonaggregated_row_groups[key].push_back(row)`
  unfoldable pub add_to_group : Tuple Float → Tuple Float → Groups Float → Groups Float
  unfolding tuple_lt
  add_to_group key row [] = (key, row ∷ []) ∷ []
  add_to_group key row ((k, rows) ∷ groups) =
      if tuple_lt p key k
      then (key, row ∷ []) ∷ (k, rows) ∷ groups
      else if tuple_lt p k key
      then (k, rows) ∷ add_to_group key row groups
      else (k, rows ++ (row ∷ [])) ∷ groups

  module _ (built_in : Context Float) (db : Tables Float) (from : TableExpression Float) where
    -- A condition that may be missing.
    unfoldable pub condition : Expr Float → Context Float → Result Bool
    condition absent c = ok true
    condition e c = do v ← evaluate p c e; to_bool p v

    -- The rows that WHERE lets through, by groups.
    unfoldable pub group_rows_of :
        List (Column Float)
        → Expr Float
        → Option GroupBy
        → List (Tuple Float)
        → Groups Float
        → Result (Groups Float)
    unfolding condition table_context group_key key_columns add_to_group
    group_rows_of columns where_ by [] groups = ok groups
    group_rows_of columns where_ by (row ∷ rows) groups = do
      keep ← condition where_ (table_context p built_in db from none row)
      if keep
          then (do
            key ← group_key columns row (key_columns by)
            group_rows_of columns where_ by rows (add_to_group key row groups))
          else group_rows_of columns where_ by rows groups

    -- The columns of a result at one row of the table.
    unfoldable pub evaluate_columns :
        Context Float → List (SelectColumn Float) → Result (Tuple Float)
    unfolding evaluate
    evaluate_columns c [] = ok []
    evaluate_columns c (column ∷ columns) = do
      v ← evaluate p c column.column
      vs ← evaluate_columns c columns
      ok (v ∷ vs)

    -- A column of the result at a group: an aggregate of it, or the same in all of its rows.
    unfoldable pub evaluate_grouped :
        Option GroupBy → List (Tuple Float) → SelectColumn Float → Result (Value Float)
    unfolding contains_aggregate_function is_in_group_by first_row table_context evaluate
    evaluate_grouped by rows c = do
      aggregated ← contains_aggregate_function c.column
      if aggregated
          then evaluate p (table_context p built_in db from (some rows) []) c.column
          else (do
            grouped ← is_in_group_by by c
            if grouped
                then (do
                  row ← first_row rows
                  evaluate p (table_context p built_in db from (some rows) row) c.column)
                else err DbError.not_in_group_by)

    unfoldable pub evaluate_group :
        Option GroupBy → List (Tuple Float) → List (SelectColumn Float) → Result (Tuple Float)
    unfolding evaluate_grouped
    evaluate_group by rows [] = ok []
    evaluate_group by rows (c ∷ cs) = do
      v ← evaluate_grouped by rows c
      vs ← evaluate_group by rows cs
      ok (v ∷ vs)

    -- The loop over the groups, with HAVING.
    unfoldable pub aggregate_groups :
        List (SelectColumn Float)
        → Option GroupBy
        → Expr Float
        → Groups Float
        → Result (List (TupleWithSource Float))
    unfolding evaluate_group condition result_context
    aggregate_groups columns by having [] = ok []
    aggregate_groups columns by having ((key, rows) ∷ groups) = do
      values ← evaluate_group by rows columns
      let row : TupleWithSource Float = record { tuple = values; source = none }
      keep ← condition having (result_context p built_in db from columns (ok (some rows)) row)
      rest ← aggregate_groups columns by having groups
      ok (if keep then row ∷ rest else rest)

    -- The rows of one group, where nothing is aggregated.
    unfoldable pub select_rows :
        List (SelectColumn Float)
        → List (Tuple Float)
        → List (Tuple Float)
        → Result (List (TupleWithSource Float))
    unfolding evaluate_columns table_context
    select_rows columns rows [] = ok []
    select_rows columns rows (row ∷ rest) = do
      values ← evaluate_columns (table_context p built_in db from (some rows) row) columns
      selected ← select_rows columns rows rest
      ok (record { tuple = values; source = some row } ∷ selected)

    unfoldable pub select_groups :
        List (SelectColumn Float) → Groups Float → Result (List (TupleWithSource Float))
    unfolding select_rows
    select_groups columns [] = ok []
    select_groups columns ((key, rows) ∷ groups) = do
      first ← select_rows columns rows rows
      rest ← select_groups columns groups
      ok (first ++ rest)

    -- An empty table: the columns are evaluated on a row of nulls, and where rows are grouped there
    -- is one group with no row.
    unfoldable pub groups_of_empty :
        ℕ → List (SelectColumn Float) → Bool → Groups Float → Result (Groups Float)
    unfolding evaluate_columns table_context
    groups_of_empty width columns grouping groups = do
      let dummy = replicate width null
      checked ←
          evaluate_columns (table_context p built_in db from (some (dummy ∷ [])) dummy) columns
      ok (if grouping then ([], []) ∷ [] else groups)

    -- `collect_rows`; `columns` are those of the frame, which for `SELECT *` are not those of the
    -- options.
    unfoldable pub collect_rows :
        SelectOptions Float
        → List (SelectColumn Float)
        → Relation Float
        → Result (List (TupleWithSource Float))
    unfolding group_rows_of should_group groups_of_empty aggregate_groups select_groups
    collect_rows o columns table = do
      groups ← group_rows_of table.columns o.where_ o.group_by table.rows []
      grouping ← should_group o.group_by columns
      groups' ← elim table.rows [
        | [] ↦ groups_of_empty (length table.columns) o.columns grouping groups
        | row ∷ rows ↦ ok groups
      ]
      if grouping
          then aggregate_groups columns o.group_by o.having groups'
          else select_groups columns groups'
