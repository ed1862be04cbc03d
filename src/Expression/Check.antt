-- ===== src/Expression/Check.antt =====
-- db/sql/ast/Expression.cpp: the checks of a table (`Check`): one main rule and named constraints.
pub mod Laws
use essa_db.Prelude.{
  ℕ, Str, str_eq, str_lt, Bool, true, false, Option, none, some, List, [], ◌∷◌, if◌then◌else◌,
  Result, ok, err, undefined, DbError,
}
use essa_db.Expression.{Expr}

-- `std::map<std::string, std::shared_ptr<Expression>>`: by ascending names.
abbrev pub Constraints : Type 0 → Type 0
Constraints F = List (Str × Expr F)

-- The program holds a check by a shared pointer: `address` tells one object from another.
pub record Check (F : Type 0) : Type 0 where
  pub address : ℕ
  pub main_rule : Option (Expr F)
  pub constraints : Constraints F

module _ {F : Type 0} where
  unfoldable pub find : Str → Constraints F → Option (Expr F)
  find name [] = none
  find name ((n, e) ∷ m) = if str_eq n name then some e else find name m

  -- `map.insert` of a name that is not there.
  unfoldable pub insert_sorted : Str → Expr F → Constraints F → Constraints F
  insert_sorted name e [] = (name, e) ∷ []
  insert_sorted name e ((n, d) ∷ m) =
      if str_lt name n then (name, e) ∷ (n, d) ∷ m else (n, d) ∷ insert_sorted name e m

  unfoldable pub replace : Str → Expr F → Constraints F → Constraints F
  replace name e [] = []
  replace name e ((n, d) ∷ m) = if str_eq n name then (n, e) ∷ m else (n, d) ∷ replace name e m

  unfoldable pub erase : Str → Constraints F → Constraints F
  erase name [] = []
  erase name ((n, d) ∷ m) = if str_eq n name then m else (n, d) ∷ erase name m

  abbrev is_there : Option (Expr F) → Bool
  is_there none = false
  is_there (some e) = true

  unfoldable pub add_check : Expr F → Check F → Result (Check F)
  add_check e c =
      if is_there c.main_rule
      then err DbError.check_exists
      else ok (record c { main_rule = some e })

  unfoldable pub alter_check : Expr F → Check F → Result (Check F)
  alter_check e c =
      if is_there c.main_rule then ok (record c { main_rule = some e }) else err DbError.no_check

  -- `delete m_main_check.get()` and the assignment behind it free the expression twice.
  unfoldable pub drop_check : Check F → Result (Check F)
  drop_check c = if is_there c.main_rule then undefined else err DbError.no_check

  unfoldable pub add_constraint : Str → Expr F → Check F → Result (Check F)
  unfolding find insert_sorted
  add_constraint name e c =
      if is_there (find name c.constraints)
      then err DbError.constraint_exists
      else ok (record c { constraints = insert_sorted name e c.constraints })

  unfoldable pub alter_constraint : Str → Expr F → Check F → Result (Check F)
  unfolding find replace
  alter_constraint name e c =
      if is_there (find name c.constraints)
      then ok (record c { constraints = replace name e c.constraints })
      else err DbError.no_constraint

  unfoldable pub drop_constraint : Str → Check F → Result (Check F)
  unfolding find erase
  drop_constraint name c =
      if is_there (find name c.constraints)
      then ok (record c { constraints = erase name c.constraints })
      else err DbError.no_constraint
