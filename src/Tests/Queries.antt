-- ===== src/Tests/Queries.antt =====
-- Queries on small tables.
use mathlib.Core.List.{Mem, Perm}
use essa_db.Prelude.{
  ℕ, ◌≡◌, refl, codes, str_eq, true, false, none, some, List, [], ◌∷◌, ◌++◌, All, ok, pos, ℤ,
  ok-injective, ◌>>=◌,
}
use essa_db.Value.Types.{ValueType, int, varchar}
use essa_db.Value.Compare.{value_eq, value_lt, sorts_before}
use essa_db.Row.{Tuple, Column, tuple_eq, tuple_eq_loop, tuple_lt, lt_round}
use essa_db.Expression.{Context, literal, identifier, binary, index, absent, evaluate, Comparison}
use essa_db.Expression.Print.{contains_aggregate_function, print, escape_identifier}
use essa_db.Table.State.{find_column}
use essa_db.Database.Tables.{ResultSet, tables_of}
use essa_db.Query.{union_of, added_rows, among, same_names}
use essa_db.Query.Join.{
  Relation, create_joined_tuple, inner_join, join_rows, on_index, add_rows, insert_entry, walk_kind,
  walk_contents, walk, decide, decide_inner, last_step,
}
use essa_db.Query.Answer.{compare, compare_rows}
use essa_db.Query.Print.{
  print_select, print_table, print_options, print_select_columns, print_group_by, print_top,
}
use essa_db.Query.Joined.{IsMatch, inner_join-IsMatch}
use essa_db.Query.Table.{
  SelectOptions, SelectColumn, OrderBySet, ascending, TableExpression, simple, table_identifier,
  cross_join_of, column_count, resolve_identifier, index_of, join_index,
}
use essa_db.Query.Scope.{TupleWithSource, row_eq}
use essa_db.Query.Group.{any_aggregate_column, collect_rows, select_rows}
use essa_db.Query.Filtered.{where_rows, collect_rows-filter}
use essa_db.Query.Order.{
  occurs, distinct_loop, distinct_rows, order_values, with_order_values, rows_of, order_rows,
  insert_by, stable_sort, sorts_first, pick,
}
use essa_db.Query.Above.{OfKinds}
use essa_db.Query.Ordered.{InOrder, order_rows-InOrder}
use essa_db.Query.Kept.{IsDistinct, IsKept, distinct_rows_lem}
use essa_db.Query.Unions.{IsNew, IsAdded, union_of-distinct}
use essa_db.Tests.Fixture.{platform, built_in, cities, one_person, database}

abbrev number_row : ℤ → Tuple ℕ
number_row i = int i ∷ []

abbrev row_of : ℤ → TupleWithSource ℕ
row_of i = record { tuple = number_row i; source = some (number_row i) }

-- The rows 2, 1, 2, and the same rows in order.
abbrev unordered : List (TupleWithSource ℕ)
unordered = row_of (pos 2) ∷ row_of (pos 1) ∷ row_of (pos 2) ∷ []

abbrev ordered : List (TupleWithSource ℕ)
ordered = row_of (pos 1) ∷ row_of (pos 2) ∷ row_of (pos 2) ∷ []

abbrev by_number : List (OrderBySet ℕ)
by_number = record { expression = index 0 (codes "n"); order = ascending } ∷ []

abbrev at_row : TupleWithSource ℕ → Context ℕ
at_row row = record built_in { tuple = row.tuple }

order_numbers : order_rows platform at_row (some by_number) unordered ≡ ok ordered
unfolding order_rows with_order_values order_values evaluate stable_sort insert_by sorts_first pick
    tuple_lt lt_round value_eq value_lt rows_of
order_numbers = refl

-- The one value of a row is an integer.
int_at :
    (i : ℤ) (a : Tuple ℕ)
    → order_values platform (at_row (row_of i)) by_number ≡ ok a
    → OfKinds (ValueType.int ∷ []) a
unfolding order_values evaluate
int_at i a e = rw (← ok-injective e) (tt, tt)

order_rows-InOrder_example : Perm ordered unordered × InOrder platform at_row by_number ordered
unfolding order_values evaluate
order_rows-InOrder_example =
    order_rows-InOrder platform at_row by_number (ValueType.int ∷ []) unordered ordered
      (int_at (pos 2), (int_at (pos 1), (int_at (pos 2), tt))) order_numbers

distinct_numbers : distinct_rows platform true unordered ≡ ok (row_of (pos 2) ∷ row_of (pos 1) ∷ [])
unfolding distinct_rows distinct_loop occurs row_eq tuple_eq tuple_eq_loop value_eq
distinct_numbers = refl

distinct_rows_lem_example :
    IsDistinct platform (row_of (pos 2) ∷ row_of (pos 1) ∷ [])
    × All (λ r. Mem r unordered) (row_of (pos 2) ∷ row_of (pos 1) ∷ [])
    × All (λ r. IsKept platform r (row_of (pos 2) ∷ row_of (pos 1) ∷ [])) unordered
distinct_rows_lem_example =
    distinct_rows_lem platform unordered (row_of (pos 2) ∷ row_of (pos 1) ∷ []) distinct_numbers

abbrev numbers : List ℤ → ResultSet ℕ
numbers [] = record { column_names = codes "n" ∷ []; rows = [] }
numbers (i ∷ is') = record {
  column_names = codes "n" ∷ [];
  rows = number_row i ∷ (numbers is').rows;
}

abbrev low : ResultSet ℕ
low = numbers (pos 1 ∷ pos 2 ∷ [])

abbrev high : ResultSet ℕ
high = numbers (pos 2 ∷ pos 3 ∷ [])

unite : union_of platform built_in true low high ≡ ok (numbers (pos 1 ∷ pos 2 ∷ pos 3 ∷ []))
unfolding union_of same_names str_eq added_rows among tuple_eq tuple_eq_loop value_eq
unite = refl

union_of-distinct_example :
    (added : List (Tuple ℕ)) × ((numbers (pos 1 ∷ pos 2 ∷ pos 3 ∷ [])).rows ≡ low.rows ++ added)
    × All (IsNew platform built_in low.rows) added
    × All (IsAdded platform built_in low.rows added) high.rows
union_of-distinct_example =
    union_of-distinct platform built_in low high (numbers (pos 1 ∷ pos 2 ∷ pos 3 ∷ [])) unite

abbrev number_column : Column ℕ
number_column = record {
  name = codes "n";
  type = ValueType.int;
  auto_increment = false;
  unique = false;
  not_null = false;
  default = none;
}

abbrev relation : ResultSet ℕ → Relation ℕ
relation r = record { columns = number_column ∷ []; rows = r.rows }

join_numbers :
    join_rows platform inner_join (codes "n") (codes "n") (relation low) (relation high)
    ≡ ok ((int (pos 2) ∷ int (pos 2) ∷ []) ∷ [])
unfolding join_rows on_index str_eq add_rows insert_entry sorts_before value_lt walk_kind
    walk_contents walk decide decide_inner create_joined_tuple last_step value_eq
join_numbers = refl

inner_join-IsMatch_example :
    All
      (IsMatch platform low.rows high.rows
        (on_index (codes "n") (number_column ∷ []))
        (on_index (codes "n") (number_column ∷ [])))
      ((int (pos 2) ∷ int (pos 2) ∷ []) ∷ [])
inner_join-IsMatch_example =
    inner_join-IsMatch platform (codes "n") (codes "n") (relation low) (relation high)
      ((int (pos 2) ∷ int (pos 2) ∷ []) ∷ []) join_numbers

-- Each person next to each city.
abbrev side_by_side : TableExpression ℕ
side_by_side = cross_join_of (simple one_person) (simple cities)

resolve_city :
    resolve_identifier (tables_of database) side_by_side (codes "city") none ≡ ok (some 1)
unfolding resolve_identifier join_index index_of find_column str_eq
resolve_city = refl

count_columns : column_count (tables_of database) side_by_side ≡ ok 3
unfolding column_count
count_columns = refl

-- `SELECT city FROM cities WHERE city = 'Rome'`
abbrev city : SelectColumn ℕ
city = record { alias = none; column = identifier (codes "city") none }

abbrev select_rome : SelectOptions ℕ
select_rome = record {
  columns = city ∷ [];
  where_ =
      binary (identifier (codes "city") none) Comparison.equal (literal (varchar (codes "Rome")));
  order_by = none;
  top = none;
  group_by = none;
  having = absent;
  distinct = false;
  select_into = none;
}

plain_city : any_aggregate_column (city ∷ []) ≡ ok false
unfolding any_aggregate_column contains_aggregate_function
plain_city = refl

abbrev cities_relation : Relation ℕ
cities_relation = record { columns = cities.columns; rows = cities.rows }

collect_rows-filter_example :
    collect_rows platform built_in
      (tables_of database)
      (simple cities)
      select_rome
      (city ∷ [])
      cities_relation
    ≡ (where_rows platform built_in
          (tables_of database)
          (simple cities)
          select_rome.where_
          cities.rows
        >>= λ kept.
            select_rows platform built_in
              (tables_of database)
              (simple cities)
              (city ∷ [])
              kept
              kept)
collect_rows-filter_example =
    collect_rows-filter platform built_in (tables_of database) (simple cities) select_rome
      (city ∷ []) cities_relation (varchar (codes "Rome") ∷ []) [] refl refl plain_city

-- The rows 1, 2 and the rows 2, 3 are as many, and their first rows differ.
compare_different : compare platform low high ≡ ok true
unfolding compare compare_rows tuple_eq tuple_eq_loop value_eq
compare_different = refl

-- The condition is missing in the text.
print_rome :
    print_select platform select_rome (table_identifier (codes "cities") none)
    ≡ ok (codes "SELECT city FROM cities")
unfolding print_select print_table print_options print_select_columns print_group_by print_top print
    escape_identifier
print_rome = refl
