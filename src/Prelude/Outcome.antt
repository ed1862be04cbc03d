-- ===== src/Prelude/Outcome.antt =====
-- How a call of the program ends: with a value, with an error that the caller sees
-- (db/core/DbError.hpp), or with no defined outcome at all (a failed assertion, an unreachable
-- point, undefined behaviour of C++).
use mathlib.Core.Path.{◌≡◌, refl}
use mathlib.Core.Bool.{Bool, true, false}
use essa_db.Prelude.Strings.{Str}

-- The messages of `DbError` and of `SQLError`, without the names and numbers that they quote. (A
-- `SQLError` is a message with a position in the query; the position is not modelled.) `expected` is what the parser expected, `syntax` another message of it.
pub data DbError : Type 0 where
  cannot_convert : DbError
  invalid_date : DbError
  out_of_range_date : DbError
  timestamp_out_of_range : DbError
  not_convertible : DbError
  no_operator : DbError
  divide_by_zero : DbError
  type_mismatch : DbError
  null_in_not_null : DbError
  not_unique : DbError
  column_count : DbError
  no_such_column : DbError
  null_primary_key : DbError
  primary_key_not_unique : DbError
  foreign_key_missing : DbError
  auto_increment_non_int : DbError
  table_exists : DbError
  no_such_table : DbError
  file_in_memory_database : DbError
  os_error : DbError
  check_failed : DbError
  check_exists : DbError
  no_check : DbError
  constraint_exists : DbError
  no_constraint : DbError
  invalid_identifier : DbError
  index_overflow : DbError
  empty_statement_list : DbError
  missing_argument : DbError
  invalid_argument : DbError
  undefined_function : DbError
  invalid_column : DbError
  table_required : DbError
  not_in_group_by : DbError
  column_mismatch : DbError
  no_columns : DbError
  value_count : DbError
  internal : DbError
  expected : Str → DbError
  syntax : Str → DbError

-- The caller of a call that is `undefined` learns nothing.
pub data Result {κ} (Answer : Type κ) : Type κ where
  undefined : Result Answer
  err : DbError → Result Answer
  ok : Answer → Result Answer

-- `TRY`: what follows a call that may not give an answer.
infixl 5 ◌>>◌ ◌>>=◌
abbrev pub ◌>>=◌ {κ ℓ} : {X : Type κ} {Y : Type ℓ} → Result X → (X → Result Y) → Result Y
undefined >>= next = undefined
err message >>= next = err message
ok x >>= next = next x

abbrev pub ◌>>◌ {κ} : {Y : Type κ} → Result (Unit {0}) → Result Y → Result Y
first >> second = first >>= λ u. second

abbrev pub fail_if : Bool → DbError → Result (Unit {0})
fail_if true e = err e
fail_if false e = ok tt

-- Where the whole gives an answer, so did the first call, and the rest answers from there.
pub >>=-eq-ok {κ ℓ} :
    {X : Type κ} {Y : Type ℓ} (first : Result X) (next : X → Result Y) {y : Y}
    → (first >>= next) ≡ ok y
    → (x : X) × (first ≡ ok x) × (next x ≡ ok y)
>>=-eq-ok undefined next gives = cc
>>=-eq-ok (err message) next gives = cc
>>=-eq-ok (ok x) next gives = (x, refl, gives)

pub fail_if-ok : (b : Bool) (e : DbError) → fail_if b e ≡ ok tt → b ≡ false
fail_if-ok true e h = cc
fail_if-ok false e h = refl

pub ok-injective {ℓ} : {A : Type ℓ} {a b : A} → ok a ≡ ok b → a ≡ b
ok-injective h = cc
