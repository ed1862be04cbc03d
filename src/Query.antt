-- ===== src/Query.antt =====
-- db/sql/Select.cpp: `Select::execute`; db/sql/ast/TableExpression.cpp, Select.cpp: the evaluation of
-- what a query reads from, SELECT and UNION as statements, and INSERT of the rows of a query.
pub mod Above
pub mod Answer
pub mod Filtered
pub mod Group
pub mod Join
pub mod Joined
pub mod Kept
pub mod Order
pub mod Ordered
pub mod Print
pub mod Scope
pub mod Sorted
pub mod Table
pub mod Unchanged
pub mod Unions
use essa_db.Prelude.{
  ℕ, suc, Str, str_eq, Bool, true, false, not, Option, none, some, List, [], ◌∷◌, ◌++◌, map, length,
  ◌==◌, if◌then◌else◌, Result, ok, err, undefined, DbError,
}
use essa_db.Prelude
use essa_db.Value.Types.{Platform, Value, ValueType, type}
use essa_db.Row.{Tuple, Column, value_at, tuple_eq}
use essa_db.Expression.{Context}
use essa_db.Table.State
use essa_db.Table.Checks.{Tables}
use essa_db.Table.Insert.{insert}
use essa_db.Database.Action.{Action, pure, raise, lift, gets, ◌>>=◌, ◌>>◌}
use essa_db.Database.Tables.{
  ResultSet, new_table, exists, table, drop_table, create_table_from_query, tables_of, insert_into,
  create_tuple_from_values,
}
use essa_db.Query.Join.{Relation, join, cross_join}
use essa_db.Query.Table.{
  SelectColumn, SelectOptions, TableExpression, no_table, simple, table_identifier, join_of,
  cross_join_of, select_table,
}
use essa_db.Query.Scope.{
  TupleWithSource, table_context, result_context, all_columns_from, column_name,
}
use essa_db.Query.Group.{collect_rows, evaluate_columns}
use essa_db.Query.Order.{distinct_rows, order_rows, top_rows}

module _ {F : Type 0} where
  abbrev relation_of : State.Table F → Relation F
  relation_of t = record { columns = t.columns; rows = t.rows }

  abbrev first_of : List (Tuple F) → Option (Tuple F)
  first_of [] = none
  first_of (row ∷ rows) = some row

  abbrev result_column : Str → ValueType → Column F
  result_column name kind = record {
    name = name;
    type = kind;
    auto_increment = false;
    unique = false;
    not_null = false;
    default = none;
  }

module _ (p : Platform) (built_in : Context p.Float) where
  open p use {Float}

  -- The columns that a query selects; of a query without FROM all of them must be named.
  unfoldable pub selected_columns :
      List (SelectColumn Float) → Option (Relation Float) → Result (List (SelectColumn Float))
  unfolding all_columns_from
  selected_columns [] none = err DbError.table_required
  selected_columns [] (some r) = ok (all_columns_from 0 r.columns)
  selected_columns (c ∷ cs) r = ok (c ∷ cs)

  -- The rows before DISTINCT; without FROM one row, which has no source.
  unfoldable pub first_rows :
      Tables Float
      → TableExpression Float
      → SelectOptions Float
      → List (SelectColumn Float)
      → Option (Relation Float)
      → Result (List (TupleWithSource Float))
  unfolding collect_rows evaluate_columns table_context
  first_rows db from o columns (some r) = collect_rows p built_in db from o columns r
  first_rows db from o columns none =
      Prelude.◌>>=◌
        (evaluate_columns p built_in db from (table_context p built_in db from none []) o.columns)
        λ values. ok (record { tuple = values; source = none } ∷ [])

  -- From the rows to those of the result: DISTINCT, ORDER BY, TOP, in this order.
  unfoldable pub finish_rows :
      Tables Float
      → TableExpression Float
      → SelectOptions Float
      → List (SelectColumn Float)
      → List (TupleWithSource Float)
      → Result (List (TupleWithSource Float))
  unfolding distinct_rows order_rows top_rows result_context
  finish_rows db from o columns rows = Prelude.◌>>=◌ (distinct_rows p o.distinct rows) λ kept.
      Prelude.◌>>=◌
        (order_rows p (result_context p built_in db from columns undefined) o.order_by kept)
        λ ordered. top_rows p o.top ordered

  column_names : List (SelectColumn Float) → Result (List Str)
  unfolding column_name
  column_names [] = ok []
  column_names (c ∷ cs) =
      Prelude.◌>>=◌ (column_name p c)
        λ name. Prelude.◌>>=◌ (column_names cs) λ names. ok (name ∷ names)

  -- `SELECT … INTO`: a table of that name is replaced.
  unfoldable pub store_into : Option Str → ResultSet Float → Action Float (Unit {0})
  unfolding drop_table create_table_from_query
  store_into none result = pure tt
  store_into (some name) result = do
    taken ← gets (exists name)
    if taken then drop_table name else pure tt
    create_table_from_query result name

  -- `Select::execute` on the relation that its FROM evaluated to.
  unfoldable pub execute_select :
      SelectOptions Float
      → TableExpression Float
      → Option (Relation Float)
      → Action Float (ResultSet Float)
  unfolding selected_columns first_rows finish_rows column_names store_into
  execute_select o from relation = do
    columns ← lift (selected_columns o.columns relation)
    db ← gets tables_of
    rows ← lift (first_rows db from o columns relation)
    finished ← lift (finish_rows db from o columns rows)
    names ← lift (column_names columns)
    let result : ResultSet Float = record {
      column_names = names;
      rows = map (λ row. row.tuple) finished;
    }
    store_into o.select_into result
    pure result

  -- The columns of a query as a table, typed after the first row.
  result_columns : List Str → Option (Tuple Float) → Result (List (Column Float))
  result_columns [] row = ok []
  result_columns (name ∷ names) none =
      Prelude.◌>>=◌ (result_columns names none) λ cs. ok (result_column name ValueType.null ∷ cs)
  result_columns (name ∷ names) (some []) = undefined
  result_columns (name ∷ names) (some (v ∷ row)) =
      Prelude.◌>>=◌ (result_columns names (some row)) λ cs. ok (result_column name (type v) ∷ cs)

  insert_rows : Tables Float → State.Table Float → List (Tuple Float) → Result (State.Table Float)
  unfolding insert
  insert_rows db t [] = ok t
  insert_rows db t (row ∷ rows) =
      Prelude.◌>>=◌ (insert p built_in (some db) t row) λ t'. insert_rows db t' rows

  -- `SelectTableExpression::evaluate`: the rows are inserted under the checks of a table.
  unfoldable pub result_relation : Tables Float → ResultSet Float → Result (Relation Float)
  unfolding result_columns insert_rows
  result_relation db result =
      Prelude.◌>>=◌ (result_columns result.column_names (first_of result.rows)) λ columns.
        Prelude.◌>>=◌
          (insert_rows db
            (new_table (record { name = Prelude.codes "SelectTableExpression"; columns = columns })
              none)
            result.rows)
          λ t. ok (relation_of t)

  -- `TableExpression::evaluate`
  unfoldable pub evaluate_table : TableExpression Float → Action Float (Relation Float)
  unfolding execute_select result_relation table join cross_join
  evaluate_table no_table = lift undefined
  evaluate_table (simple t) = pure (relation_of t)
  evaluate_table (table_identifier id alias) = do t ← table id; pure (relation_of t)
  evaluate_table (join_of lhs on_lhs kind rhs on_rhs) = do
    l ← evaluate_table lhs
    r ← evaluate_table rhs
    lift (join p kind on_lhs on_rhs l r)
  evaluate_table (cross_join_of lhs rhs) = do
    l ← evaluate_table lhs
    r ← evaluate_table rhs
    pure (cross_join l r)
  evaluate_table (select_table o no_table) = do
    result ← execute_select o no_table none
    db ← gets tables_of
    lift (result_relation db result)
  evaluate_table (select_table o from) = do
    relation ← evaluate_table from
    result ← execute_select o from (some relation)
    db ← gets tables_of
    lift (result_relation db result)

  -- `Select::execute`
  unfoldable pub select :
      SelectOptions Float → TableExpression Float → Action Float (ResultSet Float)
  unfolding evaluate_table execute_select
  select o no_table = execute_select o no_table none
  select o from = do relation ← evaluate_table from; execute_select o from (some relation)

  unfoldable pub same_names : List Str → List Str → Bool
  same_names [] [] = true
  same_names [] (m ∷ ms) = false
  same_names (n ∷ ns) [] = false
  same_names (n ∷ ns) (m ∷ ms) = if str_eq n m then same_names ns ms else false

  unfoldable pub among : Tuple Float → List (Tuple Float) → Result Bool
  unfolding tuple_eq
  among row [] = ok false
  among row (other ∷ rows) =
      Prelude.◌>>=◌ (tuple_eq p row other) λ same. if same then ok true else among row rows

  -- The rows of the right query that a UNION adds to those of the left one.
  unfoldable pub added_rows :
      Bool → List (Tuple Float) → List (Tuple Float) → Result (List (Tuple Float))
  unfolding among
  added_rows distinct lhs [] = ok []
  added_rows distinct lhs (row ∷ rhs) =
      Prelude.◌>>=◌ (if distinct then among row lhs else ok false) λ found.
        Prelude.◌>>=◌ (added_rows distinct lhs rhs) λ rows. ok (if found then rows else row ∷ rows)

  unfoldable pub union_of : Bool → ResultSet Float → ResultSet Float → Result (ResultSet Float)
  unfolding same_names added_rows
  union_of distinct lhs rhs =
      if same_names lhs.column_names rhs.column_names
      then (Prelude.◌>>=◌ (added_rows distinct lhs.rows rhs.rows)
          λ rows. ok (record { column_names = lhs.column_names; rows = lhs.rows ++ rows }))
      else err DbError.column_mismatch

  -- `Union::execute`
  unfoldable pub union :
      Bool
      → Action Float (ResultSet Float)
      → Action Float (ResultSet Float)
      → Action Float (ResultSet Float)
  unfolding union_of
  union distinct lhs rhs = do l ← lhs; r ← rhs; lift (union_of distinct l r)
