-- ===== src/Sql/Kept.antt =====
-- What the statements with a query keep, for any predicate on a database that the insertion of one
-- row keeps.
use essa_db.Prelude.{Str, Bool, Option, none, some, List, [], ◌∷◌, ◌≡◌}
use essa_db.Value.Types.{Platform}
use essa_db.Row.{Tuple}
use essa_db.Expression.{Expr, Context}
use essa_db.Query.Table.{SelectOptions, TableExpression}
use essa_db.Sql.{parse_text}
use essa_db.Query.{union}
use essa_db.Query.Unchanged.{StoresNothing, select-Keeps, lift-Keeps, table-reads}
use essa_db.Database.Action.{Database, Action, ◌>>=◌, pure}
use essa_db.Database.Tables.{ResultSet, insert_into}
use essa_db.Database.Valid.{Keeps, Any, Keeps-bind, Keeps-pure, Keeps-lift, Keeps-gets}
use essa_db.Statement.Queries.{
  union_statement, insert_select, insert_result, insert_row_of, show_tables,
}
use essa_db.Parser.Expression.{Select}

-- The tree of the text holds no SELECT within an expression: it does not depend on how one would be
-- represented.
abbrev pub HoldsNoSubquery : Platform → Str → Type 0
HoldsNoSubquery p text =
    (se se' : SelectOptions p.Float → TableExpression p.Float → Expr p.Float)
    → parse_text p se text ≡ parse_text p se' text

abbrev pub Reads : {F : Type 0} → Select F → Type 0
Reads q = (q.0.select_into ≡ none) × StoresNothing q.1

module _ (p : Platform) (built_in : Context p.Float) (P : Database p.Float → Type 0) where
  open p use {Float}

  abbrev nothing : Option (ResultSet Float)
  nothing = none

  pub silent-Keeps :
      (m : Action Float (Unit {0})) → Keeps P Any m → Keeps P Any (m >>= λ u. pure nothing)
  silent-Keeps m k = Keeps-bind Any _ _ k λ u _. Keeps-pure _

  pub shown-Keeps :
      (m : Action Float (ResultSet Float)) → Keeps P Any m → Keeps P Any (m >>= λ r. pure (some r))
  shown-Keeps m k = Keeps-bind Any _ _ k λ r _. Keeps-pure _

  pub show_tables-Keeps : Keeps P Any (show_tables {F = Float})
  unfolding show_tables
  show_tables-Keeps = Keeps-bind Any _ _ (Keeps-gets _) λ tables _. Keeps-pure _

  pub union-Keeps :
      (lhs rhs : Select Float) (distinct : Bool)
      → Reads lhs
      → Reads rhs
      → Keeps P Any (union_statement p built_in distinct lhs.0 lhs.1 rhs.0 rhs.1)
  unfolding union_statement union
  union-Keeps lhs rhs distinct a b =
      Keeps-bind Any _ _ (select-Keeps p built_in P lhs.0 lhs.1 a.0 a.1) λ l _.
        Keeps-bind Any _ _ (select-Keeps p built_in P rhs.0 rhs.1 b.0 b.1)
          λ r _. lift-Keeps p built_in P _

  module _ (name : Str)
      (kept : (row : Tuple Float) → Keeps P Any (insert_into p built_in name row)) where
    insert_row_of-Keeps :
        (columns : List Str) (row : Tuple Float)
        → Keeps P Any (insert_row_of p built_in name columns row)
    unfolding insert_row_of
    insert_row_of-Keeps [] row =
        Keeps-bind Any _ _ (table-reads p built_in P name)
          λ t _. Keeps-bind _ _ _ (Keeps-lift _) λ values _. kept values
    insert_row_of-Keeps (c ∷ cs) row = Keeps-bind Any _ _ (table-reads p built_in P name) λ t _.
        Keeps-bind _ _ _ (Keeps-lift _)
          λ values _. Keeps-bind _ _ _ (Keeps-lift _) λ tuple _. kept tuple

    insert_result-Keeps :
        (columns : List Str) (rows : List (Tuple Float))
        → Keeps P Any (insert_result p built_in name columns rows)
    unfolding insert_result
    insert_result-Keeps columns [] = Keeps-pure tt
    insert_result-Keeps columns (row ∷ rows) =
        Keeps-bind Any _ _ (insert_row_of-Keeps columns row) λ u _. insert_result-Keeps columns rows

    pub insert_select-Keeps :
        (columns : List Str) (q : Select Float)
        → Reads q
        → Keeps P Any (insert_select p built_in name columns q.0 q.1)
    unfolding insert_select
    insert_select-Keeps columns q a = Keeps-bind Any _ _ (table-reads p built_in P name) λ t _.
        Keeps-bind Any _ _ (select-Keeps p built_in P q.0 q.1 a.0 a.1)
          λ result _. insert_result-Keeps columns result.rows
