-- ===== src/Query/Print.antt =====
-- db/sql/Select.cpp, db/sql/ast/TableExpression.hpp, TableExpression.cpp, Select.hpp: `to_string` of a
-- query and of what it reads from. It leaves WHERE out.
use essa_db.Prelude.{
  Str, codes, Option, none, some, List, [], ◌∷◌, ◌++◌, if◌then◌else◌, Result, ok, undefined, ◌>>=◌,
  pos,
}
use essa_db.Value.Types.{Platform}
use essa_db.Value.Number.{print_int}
use essa_db.Expression.{Expr, absent}
use essa_db.Expression.Print.{print, escape_identifier}
use essa_db.Query.Join.{JoinType}
use essa_db.Query.Table.{
  SelectColumn, Order, OrderBySet, GroupOrPartition, GroupBy, TopUnit, Top, SelectOptions,
  TableExpression, no_table, simple, table_identifier, join_of, cross_join_of, select_table,
}

abbrev print_unit : TopUnit → Str
print_unit TopUnit.val = []
print_unit TopUnit.perc = codes "PERC "

unfoldable pub print_top : Option Top → Str
print_top none = []
print_top (some t) = codes "TOP " ++ (print_int (pos t.value) ++ (codes " " ++ print_unit t.unit))

abbrev print_alias : Option Str → Str
print_alias none = []
print_alias (some a) = codes " AS " ++ escape_identifier a

abbrev print_into : Option Str → Str
print_into none = []
print_into (some name) = codes " INTO " ++ escape_identifier name

-- The names of GROUP BY, with commas between them.
unfoldable pub print_names : List Str → Str
print_names [] = []
print_names (n ∷ []) = escape_identifier n
print_names (n ∷ (m ∷ ms)) = escape_identifier n ++ (codes ", " ++ print_names (m ∷ ms))

abbrev print_group_kind : GroupOrPartition → Str
print_group_kind GroupOrPartition.group = codes " GROUP BY "
print_group_kind GroupOrPartition.partition = codes " PARTITION BY "

unfoldable pub print_group_by : Option GroupBy → Str
unfolding print_names
print_group_by none = []
print_group_by (some g) = print_group_kind g.kind ++ print_names g.columns

unfoldable pub print_join : JoinType → Str
print_join JoinType.inner_join = codes "INNER JOIN "
print_join JoinType.left_join = codes "LEFT JOIN "
print_join JoinType.right_join = codes "RIGHT JOIN "
print_join JoinType.outer_join = codes "OUTER JOIN "
print_join JoinType.invalid = codes "INVALID "

abbrev print_order : Order → Str
print_order Order.ascending = codes "ASC"
print_order Order.descending = codes "DESC"

module _ (p : Platform) where
  open p use {Float}

  abbrev print_column : SelectColumn Float → Result Str
  print_column c = do a ← print p c.column; ok (a ++ print_alias c.alias)

  unfoldable pub print_select_columns : List (SelectColumn Float) → Result Str
  print_select_columns [] = ok (codes "*")
  print_select_columns (c ∷ []) = print_column c
  print_select_columns (c ∷ (d ∷ cs)) = do
    a ← print_column c
    b ← print_select_columns (d ∷ cs)
    ok (a ++ (codes ", " ++ b))

  abbrev print_having : Expr Float → Result Str
  print_having absent = ok []
  print_having e = do a ← print p e; ok (codes " HAVING " ++ a)

  abbrev print_order_by_set : OrderBySet Float → Result Str
  print_order_by_set o = do a ← print p o.expression; ok (a ++ (codes " " ++ print_order o.order))

  unfoldable pub print_orders : List (OrderBySet Float) → Result Str
  print_orders [] = ok []
  print_orders (o ∷ []) = print_order_by_set o
  print_orders (o ∷ (q ∷ os)) = do
    a ← print_order_by_set o
    b ← print_orders (q ∷ os)
    ok (a ++ (codes ", " ++ b))

  abbrev print_order_by : Option (List (OrderBySet Float)) → Result Str
  print_order_by none = ok []
  print_order_by (some os) = do a ← print_orders os; ok (codes " ORDER BY " ++ a)

  -- `Select::to_string`, where `from` is what FROM adds to the text.
  unfoldable pub print_options : SelectOptions Float → Str → Result Str
  unfolding print_top print_select_columns print_group_by print_orders
  print_options o from = do
    columns ← print_select_columns o.columns
    having ← print_having o.having
    order_by ← print_order_by o.order_by
    ok (
        codes "SELECT "
        ++ ((if o.distinct then codes "DISTINCT " else [])
            ++ (print_top o.top
                ++ (columns
                    ++ (print_into o.select_into
                        ++ (from ++ (print_group_by o.group_by ++ (having ++ order_by))))))))

  -- What FROM adds to the text of a SELECT, with the text of what it reads from.
  abbrev print_from : TableExpression Float → Result Str → Result Str
  print_from no_table table = ok []
  print_from from table = do a ← table; ok (codes " FROM " ++ a)

  -- The text of a table expression. A null pointer has none.
  unfoldable pub print_table : TableExpression Float → Result Str
  unfolding print_join print_options
  print_table no_table = undefined
  print_table (simple t) = ok (codes "<SimpleTableExpression>")
  print_table (table_identifier id alias) = ok id
  print_table (join_of lhs on_lhs kind rhs on_rhs) = do
    a ← print_table lhs
    b ← print_table rhs
    ok (
        codes "("
        ++ (a
            ++ (codes " "
                ++ (print_join kind
                    ++ (b
                        ++ (codes " ON "
                            ++ (a
                                ++ (codes "."
                                    ++ (escape_identifier on_lhs
                                        ++ (codes " = "
                                            ++ (b
                                                ++ (codes "."
                                                    ++ (escape_identifier on_rhs
                                                        ++ codes ")")))))))))))))
  print_table (cross_join_of lhs rhs) = ok (codes "JoinExpression(TODO)")
  print_table (select_table o from) = do
    a ← print_from from (print_table from)
    b ← print_options o a
    ok (codes "(" ++ (b ++ codes ")"))

  -- `Select::to_string`
  unfoldable pub print_select : SelectOptions Float → TableExpression Float → Result Str
  unfolding print_table print_options
  print_select o from = do a ← print_from from (print_table from); print_options o a
