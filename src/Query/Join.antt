-- ===== src/Query/Join.antt =====
-- db/sql/ast/TableExpression.cpp: how the rows of two relations are joined.
use essa_db.Prelude.{
  ℕ, suc, Str, str_eq, Bool, true, false, not, ◌&&◌, ◌||◌, none, List, [], ◌∷◌, ◌++◌, map, length,
  replicate, leb, if◌then◌else◌, Result, ok, err, undefined, DbError, ◌>>=◌,
}
use essa_db.Value.Types.{Platform, Value, null}
use essa_db.Value.Compare.{value_eq, sorts_before}
use essa_db.Row.{Tuple, Column, value_at}

-- `Relation`, as far as a query looks at it.
pub record Relation (F : Type 0) : Type 0 where
  pub columns : List (Column F)
  pub rows : List (Tuple F)

-- `JoinExpression::Type`
pub data JoinType : Type 0 where
  inner_join left_join right_join outer_join invalid : JoinType

-- An entry of `contents`; `is_left` says which relation the row is of.
pub record Entry (F : Type 0) : Type 0 where
  pub key : Value F
  pub is_left : Bool
  pub row : Tuple F

-- What a walk makes of two neighbours: it joins them and steps over both, or adds a row, or goes on.
pub data Step (F : Type 0) : Type 0 where
  joins : Tuple F → Step F
  adds : Tuple F → Step F
  passes : Step F

module _ {F : Type 0} where
  unfoldable pub create_joined_tuple : Tuple F → Tuple F → Tuple F
  create_joined_tuple lhs rhs = lhs ++ rhs

  -- A column of a joined table keeps its name and type alone.
  unfoldable pub joined_column : Column F → Column F
  joined_column c = record c {
    auto_increment = false;
    unique = false;
    not_null = false;
    default = none;
  }

  unfoldable pub joined_columns : Relation F → Relation F → List (Column F)
  unfolding joined_column
  joined_columns lhs rhs = map joined_column lhs.columns ++ map joined_column rhs.columns

  -- The index of the first column of that name, or the number of columns.
  unfoldable pub on_index : Str → List (Column F) → ℕ
  on_index name [] = 0
  on_index name (c ∷ cs) = if str_eq c.name name then 0 else suc (on_index name cs)

  -- All rows of the left relation with all rows of the right one.
  unfoldable pub cross_rows : List (Tuple F) → List (Tuple F) → List (Tuple F)
  unfolding create_joined_tuple
  cross_rows [] rhs = []
  cross_rows (row ∷ lhs) rhs = map (create_joined_tuple row) rhs ++ cross_rows lhs rhs

  -- `CrossJoinExpression::evaluate`, once its sides are evaluated.
  unfoldable pub cross_join : Relation F → Relation F → Relation F
  unfolding joined_columns cross_rows
  cross_join lhs rhs = record {
    columns = joined_columns lhs rhs;
    rows = cross_rows lhs.rows rhs.rows;
  }

module _ (p : Platform) where
  open p use {Float}

  -- `contents.insert`: behind the keys that are not greater. (Where `ValueSorter` is no strict weak
  -- order on the keys, the container promises nothing.)
  unfoldable pub insert_entry : Entry Float → List (Entry Float) → List (Entry Float)
  insert_entry e [] = e ∷ []
  insert_entry e (f ∷ es) = if sorts_before p e.key f.key then e ∷ f ∷ es else f ∷ insert_entry e es

  -- The rows of one relation enter `contents`.
  unfoldable pub add_rows :
      ℕ → Bool → List (Tuple Float) → List (Entry Float) → Result (List (Entry Float))
  unfolding insert_entry
  add_rows i side [] contents = ok contents
  add_rows i side (row ∷ rows) contents =
      if leb (length row) i then err DbError.invalid_column else do
        v ← value_at row i
        add_rows i side rows (insert_entry (record { key = v; is_left = side; row = row }) contents)

  -- What each walk makes of `last` and `it`, given the number of columns on both sides.
  unfoldable pub decide_inner : Entry Float → Entry Float → Result (Step Float)
  decide_inner last it =
      if last.is_left && not it.is_left
      then (do
        same ← value_eq p it.key last.key
        ok (if same then joins (create_joined_tuple last.row it.row) else passes))
      else ok passes

  decide_left : ℕ → Entry Float → Entry Float → Result (Step Float)
  decide_left width last it =
      if last.is_left
      then (do
        same ← value_eq p it.key last.key
        ok (
            if same
            then joins (create_joined_tuple last.row it.row)
            else adds (create_joined_tuple last.row (replicate width null))))
      else ok passes

  decide_right : ℕ → Entry Float → Entry Float → Result (Step Float)
  decide_right width last it =
      if not last.is_left || not it.is_left
      then (do
        same ← value_eq p it.key last.key
        ok (
            if same
            then joins (create_joined_tuple last.row it.row)
            else adds (create_joined_tuple (replicate width null) it.row)))
      else ok passes

  decide_outer : ℕ → ℕ → Entry Float → Entry Float → Result (Step Float)
  decide_outer left_width right_width last it = do
    same ← if last.is_left && not it.is_left then value_eq p it.key last.key else ok false
    ok (
        if same
        then joins (create_joined_tuple last.row it.row)
        else if last.is_left
        then adds (create_joined_tuple last.row (replicate right_width null))
        else adds (create_joined_tuple (replicate left_width null) it.row))

  unfoldable pub decide : JoinType → ℕ → ℕ → Entry Float → Entry Float → Result (Step Float)
  unfolding decide_inner decide_left decide_right decide_outer create_joined_tuple
  decide inner_join l r last it = decide_inner last it
  decide left_join l r last it = decide_left r last it
  decide right_join l r last it = decide_right l last it
  decide outer_join l r last it = decide_outer l r last it
  decide invalid l r last it = err DbError.internal

  unfoldable pub last_step : Step Float → List (Tuple Float)
  last_step (joins row) = row ∷ []
  last_step (adds row) = row ∷ []
  last_step passes = []

  -- The walk over `contents` with `last` behind `it`.
  unfoldable pub walk :
      (Entry Float → Entry Float → Result (Step Float))
      → Entry Float
      → List (Entry Float)
      → Result (List (Tuple Float))
  unfolding last_step
  walk at last [] = ok []
  walk at last (it ∷ []) = do step ← at last it; ok (last_step step)
  walk at last (it ∷ next ∷ es) = do
    step ← at last it
    elim step [
      | joins row ↦ do rows ← walk at next es; ok (row ∷ rows)
      | adds row ↦ do rows ← walk at it (next ∷ es); ok (row ∷ rows)
      | passes ↦ walk at it (next ∷ es)
    ]

  -- `beg++` on the end of an empty map has no defined behaviour.
  unfoldable pub walk_contents :
      (Entry Float → Entry Float → Result (Step Float))
      → List (Entry Float)
      → Result (List (Tuple Float))
  unfolding walk
  walk_contents at [] = undefined
  walk_contents at (e ∷ es) = walk at e es

  unfoldable pub walk_kind : JoinType → ℕ → ℕ → List (Entry Float) → Result (List (Tuple Float))
  unfolding decide walk_contents
  walk_kind invalid l r (e ∷ es) = err DbError.internal
  walk_kind kind l r contents = walk_contents (decide kind l r) contents

  -- The rows of `JoinExpression::evaluate`, once its sides are evaluated.
  unfoldable pub join_rows :
      JoinType → Str → Str → Relation Float → Relation Float → Result (List (Tuple Float))
  unfolding add_rows on_index walk_kind
  join_rows kind on_lhs on_rhs lhs rhs = do
    left ← add_rows (on_index on_lhs lhs.columns) true lhs.rows []
    contents ← add_rows (on_index on_rhs rhs.columns) false rhs.rows left
    walk_kind kind (length lhs.columns) (length rhs.columns) contents

  unfoldable pub join :
      JoinType → Str → Str → Relation Float → Relation Float → Result (Relation Float)
  unfolding join_rows joined_columns
  join kind on_lhs on_rhs lhs rhs = do
    rows ← join_rows kind on_lhs on_rhs lhs rhs
    ok (record { columns = joined_columns lhs rhs; rows = rows })
