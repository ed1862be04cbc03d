-- ===== src/Query/Table.antt =====
-- db/sql/ast/TableExpression.hpp, TableExpression.cpp: what a query reads from, and how identifiers
-- resolve to columns of it; db/sql/Select.hpp: the options of a SELECT.
use essa_db.Prelude.{
  ℕ, ◌+◌, Str, str_eq, Bool, true, ◌||◌, Option, none, some, List, length, if◌then◌else◌, Result,
  ok, err, undefined, DbError, ◌>>=◌,
}
use essa_db.Row.{Column}
use essa_db.Expression.{Expr}
use essa_db.Table.State.{Table, get_column}
use essa_db.Table.Checks.{Tables}
use essa_db.Query.Join.{JoinType}

-- `SelectColumns::Column`
pub record SelectColumn (F : Type 0) : Type 0 where
  pub alias : Option Str
  pub column : Expr F

-- `OrderBy::Order`, `OrderBy::OrderBySet`
pub data Order : Type 0 where
  ascending descending : Order

pub record OrderBySet (F : Type 0) : Type 0 where
  pub expression : Expr F
  pub order : Order

-- `GroupBy`
pub data GroupOrPartition : Type 0 where
  group partition : GroupOrPartition

pub record GroupBy : Type 0 where
  pub kind : GroupOrPartition
  pub columns : List Str

-- `Top`
pub data TopUnit : Type 0 where
  val perc : TopUnit

pub record Top : Type 0 where
  pub unit : TopUnit
  pub value : ℕ

-- `Select::SelectOptions` without `from`; `absent` is a missing WHERE or HAVING.
pub record SelectOptions (F : Type 0) : Type 0 where
  pub columns : List (SelectColumn F)
  pub where_ : Expr F
  pub order_by : Option (List (OrderBySet F))
  pub top : Option Top
  pub group_by : Option GroupBy
  pub having : Expr F
  pub distinct : Bool
  pub select_into : Option Str

-- `no_table` is a null pointer: a SELECT without FROM. A join has the names of its two columns.
pub data TableExpression (F : Type 0) : Type 0 where
  no_table : TableExpression F
  simple : Table F → TableExpression F
  table_identifier : Str → Option Str → TableExpression F
  join_of : TableExpression F → Str → JoinType → TableExpression F → Str → TableExpression F
  cross_join_of : TableExpression F → TableExpression F → TableExpression F
  select_table : SelectOptions F → TableExpression F → TableExpression F

unfoldable pub names_table : Option Str → Str → Option Str → Bool
names_table none id alias = true
names_table (some name) id none = str_eq name id
names_table (some name) id (some a) = str_eq name id || str_eq name a

-- What a join makes of the answers of its sides: the left one is asked first.
unfoldable pub join_index : Result (Option ℕ) → Result (Option ℕ) → Result ℕ → Result (Option ℕ)
join_index lhs rhs width = do
  i ← lhs
  elim i [
    | some n ↦ ok (some n)
    | none ↦ do j ← rhs; elim j [ none ↦ ok none | some n ↦ do w ← width; ok (some (n + w)) ]
  ]

module _ {F : Type 0} where
  unfoldable pub index_of : Option (ℕ × Column F) → Result (Option ℕ)
  index_of none = err DbError.no_such_column
  index_of (some (i, c)) = ok (some i)

  -- A table that is missing resolves nothing.
  unfoldable pub index_in : Option (Table F) → Str → Result (Option ℕ)
  unfolding index_of
  index_in none id = ok none
  index_in (some t) id = index_of (get_column t.columns id)

  unfoldable pub count_of : Option (Table F) → Result ℕ
  count_of none = err DbError.no_such_table
  count_of (some t) = ok (length t.columns)

  unfoldable pub column_count : Tables F → TableExpression F → Result ℕ
  unfolding count_of
  column_count db no_table = undefined
  column_count db (simple t) = ok (length t.columns)
  column_count db (table_identifier id alias) = count_of (db id)
  column_count db (join_of lhs on_lhs kind rhs on_rhs) = do
    a ← column_count db lhs
    b ← column_count db rhs
    ok (a + b)
  column_count db (cross_join_of lhs rhs) = do
    a ← column_count db lhs
    b ← column_count db rhs
    ok (a + b)
  column_count db (select_table o from) = column_count db from

  -- `resolve_identifier(db, id)`, for an identifier and the table that it names, if it names one.
  unfoldable pub resolve_identifier :
      Tables F → TableExpression F → Str → Option Str → Result (Option ℕ)
  unfolding index_in index_of names_table join_index column_count
  resolve_identifier db no_table id t = undefined
  resolve_identifier db (simple table) id t = index_of (get_column table.columns id)
  resolve_identifier db (table_identifier name alias) id t =
      if names_table t name alias then index_in (db name) id else ok none
  resolve_identifier db (join_of lhs on_lhs kind rhs on_rhs) id t =
      join_index (resolve_identifier db lhs id t) (resolve_identifier db rhs id t)
        (column_count db lhs)
  resolve_identifier db (cross_join_of lhs rhs) id t =
      join_index (resolve_identifier db lhs id t) (resolve_identifier db rhs id t)
        (column_count db lhs)
  resolve_identifier db (select_table o from) id t = resolve_identifier db from id t
