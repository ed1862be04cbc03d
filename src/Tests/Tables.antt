-- ===== src/Tests/Tables.antt =====
-- A table at work: an insertion, and a change to its check.
use essa_db.Prelude.{◌≡◌, refl, ok, some, none, true, [], ◌∷◌, codes, str_eq, ◌+ℤ◌, to_int32}
use essa_db.Value.Types.{bool}
use essa_db.Expression.{literal}
use essa_db.Expression.Check.{Check, find}
use essa_db.Expression.Check.Laws.{Change, change, Changes, change-Changes}
use essa_db.Table.State.{
  next_auto_increment_value, increment, counter, set_counter, insert_unchecked, find_column,
  find_first_matching_tuple, matches,
}
use essa_db.Table.Fill.{fill, fill_cell}
use essa_db.Table.Checks.{
  perform_table_integrity_checks, check_primary_key, check_key_at, no_duplicate, check_values,
  check_value_validity, perform_database_integrity_checks, check_references, check_foreign_keys,
  check_foreign_key, require_column, require_table, require_match, check_rules,
}
use essa_db.Value.Compare.{value_eq}
use essa_db.Value.Operators.{int32}
use essa_db.Database.Action.{find_table}
use essa_db.Table.Valid.{IsValid}
use essa_db.Table.Insert.{insert, insert_filled, increment_all}
use essa_db.Table.Inserted.{insert-IsValid}
use essa_db.Table.Referenced.{Appends, insert-Appends}
use essa_db.Database.Tables.{tables_of}
use essa_db.Database.Valid.{no_rows-ValidRows}
use essa_db.Tests.Fixture.{platform, built_in, people, from_rome, one_person, database}

insert_person :
    insert platform built_in (some (tables_of database)) people from_rome ≡ ok one_person
unfolding insert insert_filled increment_all fill fill_cell next_auto_increment_value increment
    counter set_counter insert_unchecked ◌+ℤ◌ to_int32 int32 perform_table_integrity_checks
    check_primary_key check_key_at no_duplicate find_column str_eq check_values check_value_validity
    perform_database_integrity_checks check_references check_foreign_keys check_foreign_key
    require_column require_table require_match check_rules find_table find_first_matching_tuple
    matches value_eq
insert_person = refl

people-IsValid : IsValid platform people
people-IsValid = no_rows-ValidRows platform people.columns people.primary_key

insert-IsValid_example : IsValid platform one_person
insert-IsValid_example =
    insert-IsValid platform built_in (some (tables_of database)) people from_rome one_person
      people-IsValid insert_person

insert-Appends_example : Appends platform built_in (tables_of database) people from_rome one_person
insert-Appends_example =
    insert-Appends platform built_in (tables_of database) people from_rome one_person insert_person

find_nothing : find {F = platform.Float} (codes "known") [] ≡ none
unfolding find
find_nothing = refl

-- A check with one constraint, and the removal of that.
abbrev named_rule : Check platform.Float
named_rule = record {
  address = 0;
  main_rule = none;
  constraints = (codes "known", literal (bool true)) ∷ [];
}

change-Changes_example :
    Changes Change.drop (codes "known") named_rule (change Change.drop (codes "known") named_rule)
change-Changes_example = change-Changes Change.drop (codes "known") named_rule (find_nothing, tt)
