-- ===== src/Function/Arguments.antt =====
-- db/sql/ast/Function.cpp: `ArgumentList`, and the conversions that the functions make of arguments.
use essa_db.Prelude.{ℕ, zero, suc, ℤ, Str, List, [], ◌∷◌, Result, ok, err, DbError, ◌>>=◌}
use essa_db.Value.Types.{Platform, Value, Date}
use essa_db.Value.Convert.{to_int, to_float, to_string, to_time}

module _ {F : Type 0} where
  unfoldable pub get_required : List (Value F) → ℕ → Result (Value F)
  get_required [] i = err DbError.missing_argument
  get_required (v ∷ args) zero = ok v
  get_required (v ∷ args) (suc i) = get_required args i

  unfoldable pub get_optional : List (Value F) → ℕ → Value F → Value F
  get_optional [] i alternative = alternative
  get_optional (v ∷ args) zero alternative = v
  get_optional (v ∷ args) (suc i) alternative = get_optional args i alternative

-- `TRY(TRY(args.get_required(i, …)).to_…())`
module _ (p : Platform) (args : List (Value p.Float)) (i : ℕ) where
  unfoldable pub text_argument : Result Str
  unfolding get_required to_string
  text_argument = do v ← get_required args i; to_string p v

  unfoldable pub int_argument : Result ℤ
  unfolding get_required to_int
  int_argument = do v ← get_required args i; to_int p v

  unfoldable pub float_argument : Result p.Float
  unfolding get_required to_float
  float_argument = do v ← get_required args i; to_float p v

  unfoldable pub time_argument : Result Date
  unfolding get_required to_time
  time_argument = do v ← get_required args i; to_time p v
