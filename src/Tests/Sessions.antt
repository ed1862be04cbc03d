-- ===== src/Tests/Sessions.antt =====
-- Statements at work.
use essa_db.Prelude.{◌≡◌, refl, ok, some, none, List, [], ◌∷◌, codes, str_eq, Str}
use essa_db.Value.Types.{varchar}
use essa_db.Expression.{Expr, literal, identifier, binary, Comparison, evaluate, apply_comparison}
use essa_db.Table.State.{find_column}
use essa_db.Table.Checks.{row_context}
use essa_db.Value.Compare.{value_eq}
use essa_db.Statement.Rows.{mark_rows, should_include_row, remove_marked}
use essa_db.Database.Action.{Database, memory, find_table, ◌>>=◌, with_table}
use essa_db.Database.Valid.{AllValid}
use essa_db.Database.Tables.{insert_into, table}
use essa_db.Statement.Manipulate.{delete_from, update}
use essa_db.Statement.Assigned.{Updates, update-Updates}
use essa_db.Statement.Define.{unspecified, primary, no_key}
use essa_db.Statement.Deletion.{Deletes, delete_from-Deletes}
use essa_db.Statement.Insertion.{Inserts, insert_into-Inserts}
use essa_db.Statement.Session.{Statement, run, run-AllValid}
use essa_db.Tests.Fixture.{
  platform, built_in, database, id_column, city_column, cities, people, from_rome,
}

abbrev in_rome : Expr platform.Float
in_rome =
    binary (identifier (codes "city") none) Comparison.equal (literal (varchar (codes "Rome")))

abbrev nothing : Database platform.Float
nothing = record { tables = []; default_engine = memory }

abbrev session : List (Statement platform.Float)
session =
    Statement.create unspecified (codes "people")
      (record { column = id_column; key = primary (codes "id") }
        ∷ record { column = city_column; key = no_key }
        ∷ [])
      none none
    ∷ Statement.insert (codes "people") (codes "city" ∷ []) (literal (varchar (codes "Rome")) ∷ [])
    ∷ Statement.insert (codes "people") (codes "city" ∷ []) (literal (varchar (codes "Oslo")) ∷ [])
    ∷ Statement.delete (codes "people") (some in_rome)
    ∷ []

run-AllValid_example : AllValid platform (run platform built_in session nothing)
run-AllValid_example = run-AllValid platform built_in session nothing tt

find_cities : find_table (codes "cities") database.tables ≡ some cities
unfolding find_table str_eq
find_cities = refl

find_people : find_table (codes "people") database.tables ≡ some people
unfolding find_table str_eq
find_people = refl

delete_from-Deletes_example :
    Deletes platform built_in
      (codes "cities")
      (some in_rome)
      database
      cities
      (delete_from platform built_in (codes "cities") (some in_rome) database)
delete_from-Deletes_example =
    delete_from-Deletes platform built_in (codes "cities") (some in_rome) database cities
      find_cities

abbrev no_cities : Database platform.Float
no_cities = record database {
  tables = (codes "cities", record cities { rows = [] }) ∷ (codes "people", people) ∷ [];
}

delete_cities :
    delete_from platform built_in (codes "cities") (some in_rome) database ≡ (ok tt, no_cities)
unfolding delete_from ◌>>=◌ table str_eq mark_rows should_include_row evaluate apply_comparison
    row_context find_column value_eq with_table remove_marked
delete_cities = refl

insert_into-Inserts_example :
    Inserts platform built_in
      (codes "people")
      from_rome
      database
      people
      (insert_into platform built_in (codes "people") from_rome database)
insert_into-Inserts_example =
    insert_into-Inserts platform built_in (codes "people") from_rome database people find_people

-- `UPDATE cities SET city = 'Oslo'`
abbrev to_oslo : List (Str × Expr platform.Float)
to_oslo = (codes "city", literal (varchar (codes "Oslo"))) ∷ []

update-Updates_example :
    Updates platform built_in
      (codes "cities")
      to_oslo
      database
      cities
      (update platform built_in (codes "cities") to_oslo database)
update-Updates_example =
    update-Updates platform built_in (codes "cities") to_oslo database cities find_cities
