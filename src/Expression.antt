-- ===== src/Expression.antt =====
-- db/sql/ast/Expression.hpp, Expression.cpp: expressions and their evaluation.
pub mod Check
pub mod Columns
pub mod Like
pub mod Liked
pub mod Print
pub mod Typed
use essa_db.Prelude.{
  ℕ, ℤ, pos, ltb, Str, str_eq, Bool, true, false, not, ◌&&◌, ◌||◌, Option, none, some, List, [],
  ◌∷◌, ◌++◌, length, if◌then◌else◌, Result, ok, err, undefined, DbError, ◌>>=◌, ◌>>◌, fail_if, leb,
}
use essa_db.Value.Types.{Platform, Value, int, bool, is_null}
use essa_db.Value.Convert.{to_string, to_bool}
use essa_db.Value.Operators.{value_add, value_sub, value_mul, value_div}
use essa_db.Value.Compare.{value_eq, value_ne, value_gt, value_ge, value_lt, value_le}
use essa_db.Row.{Tuple, value_at}
use essa_db.Aggregate.{AggregateFunction, aggregate_rows}
use essa_db.Expression.Like.{wildcard_parser}

-- `BinaryOperator::Operation`
pub data Comparison : Type 0 where
  equal not_equal greater greater_equal less less_equal like matches and or not_ invalid :
      Comparison

-- `ArithmeticOperator::Operation`
pub data Arithmetic : Type 0 where
  add sub mul div invalid : Arithmetic

-- `IsExpression::What`
pub data What : Type 0 where
  null not_null : What

-- `absent` is a null pointer. `function` is a call of a built-in by its name.
mutual
  pub data Expr (F : Type 0) : Type 0 where
    absent : Expr F
    literal : Value F → Expr F
    identifier : Str → Option Str → Expr F
    binary : Expr F → Comparison → Expr F → Expr F
    arithmetic : Expr F → Arithmetic → Expr F → Expr F
    minus : Expr F → Expr F
    between : Expr F → Expr F → Expr F → Expr F
    is_in : Expr F → Exprs F → Expr F
    is : Expr F → What → Expr F
    case_of : Cases F → Expr F → Expr F
    proxy : Expr F → Expr F
    index : ℕ → Str → Expr F
    function : Str → Exprs F → Expr F
    aggregate : AggregateFunction → Expr F → Expr F

  pub data Exprs (F : Type 0) : Type 0 where
    nil : Exprs F
    cons : Expr F → Exprs F → Exprs F

  pub data Cases (F : Type 0) : Type 0 where
    no_case : Cases F
    when : Expr F → Expr F → Cases F → Cases F

-- What an expression reads of its surroundings: how identifiers resolve, the row of the current
-- frame, the rows of its group (`undefined` where there is no frame), the built-in functions, and `std::regex_match`. `in_row` is how
-- identifiers resolve in a frame pushed for another row of the current frame's table.
pub record Context (F : Type 0) : Type 0 where
  pub resolve : Str → Option Str → Result (Value F)
  pub tuple : Tuple F
  pub row_group : Result (Option (List (Tuple F)))
  pub in_row : Tuple F → Str → Option Str → Result (Value F)
  pub find_function : Str → Option (List (Value F) → Result (Value F))
  pub regex_match : Str → Str → Result Bool

module _ (p : Platform) where
  open p use {Float}

  abbrev truth : Result Bool → Result (Value Float)
  truth r = do b ← r; ok (bool b)

  unfoldable pub apply_arithmetic : Arithmetic → Value Float → Value Float → Result (Value Float)
  apply_arithmetic Arithmetic.add a b = value_add p a b
  apply_arithmetic Arithmetic.sub a b = value_sub p a b
  apply_arithmetic Arithmetic.mul a b = value_mul p a b
  apply_arithmetic Arithmetic.div a b = value_div p a b
  apply_arithmetic Arithmetic.invalid a b = undefined

  -- `Function::evaluate`: the arguments are evaluated where there is such a function.
  unfoldable pub call_function :
      Option (List (Value Float) → Result (Value Float))
      → Result (List (Value Float))
      → Result (Value Float)
  call_function none args = err DbError.undefined_function
  call_function (some f) args = do values ← args; f values

  -- The rows of `AggregateFunction::evaluate`: with no group, one row of one null.
  unfoldable pub group_rows : Option (List (Tuple Float)) → List (Tuple Float)
  group_rows none = (Value.null ∷ []) ∷ []
  group_rows (some rows) = rows

  -- The frame that `AggregateFunction::aggregate` pushes, at one of its rows.
  unfoldable pub pushed : Context Float → Tuple Float → Context Float
  pushed c row = record c { resolve = c.in_row row; tuple = row; row_group = ok none }

  module _ (c : Context Float) where
    -- `BinaryOperator::is_true`, on what the operands evaluate to: the right one is evaluated by
    -- `and` and `or` only where it decides, and by `not_` never.
    unfoldable pub apply_comparison :
        Comparison → Result (Value Float) → Result (Value Float) → Result Bool
    apply_comparison Comparison.equal l r = do a ← l; b ← r; value_eq p a b
    apply_comparison Comparison.not_equal l r = do a ← l; b ← r; value_ne p a b
    apply_comparison Comparison.greater l r = do a ← l; b ← r; value_gt p a b
    apply_comparison Comparison.greater_equal l r = do a ← l; b ← r; value_ge p a b
    apply_comparison Comparison.less l r = do a ← l; b ← r; value_lt p a b
    apply_comparison Comparison.less_equal l r = do a ← l; b ← r; value_le p a b
    apply_comparison Comparison.and l r = do
      a ← l
      x ← to_bool p a
      if x then (do b ← r; to_bool p b) else ok false
    apply_comparison Comparison.or l r = do
      a ← l
      x ← to_bool p a
      if x then ok true else (do b ← r; to_bool p b)
    apply_comparison Comparison.not_ l r = do a ← l; to_bool p a
    apply_comparison Comparison.like l r = do
      a ← l
      s ← to_string p a
      b ← r
      t ← to_string p b
      wildcard_parser s t
    apply_comparison Comparison.matches l r = do
      a ← l
      s ← to_string p a
      b ← r
      t ← to_string p b
      c.regex_match s t
    apply_comparison Comparison.invalid l r = undefined

  -- `value >= min && value <= max`
  unfoldable pub is_between : Value Float → Value Float → Value Float → Result Bool
  is_between v lo hi = do above ← value_ge p v lo; if above then value_le p v hi else ok false

  unfoldable mutual
    pub evaluate : Context Float → Expr Float → Result (Value Float)
    evaluate c absent = undefined
    evaluate c (literal v) = ok v
    evaluate c (identifier id table) = c.resolve id table
    evaluate c (binary l op r) = truth (apply_comparison c op (evaluate c l) (evaluate c r))
    evaluate c (arithmetic l op r) = do a ← evaluate c l; b ← evaluate c r; apply_arithmetic op a b
    evaluate c (minus e) = do v ← evaluate c e; value_sub p (int (pos 0)) v
    evaluate c (between e lo hi) = do
      v ← evaluate c e
      a ← evaluate c lo
      b ← evaluate c hi
      truth (is_between v a b)
    evaluate c (is_in e args) = do v ← evaluate c e; s ← to_string p v; truth (is_among c s args)
    evaluate c (is e What.null) = do v ← evaluate c e; ok (bool (is_null v))
    evaluate c (is e What.not_null) = do v ← evaluate c e; ok (bool (not (is_null v)))
    evaluate c (case_of cases otherwise) = first_case c cases otherwise (evaluate c otherwise)
    evaluate c (proxy e) = evaluate c e
    evaluate c (index i name) =
        if leb (length c.tuple) i then err DbError.index_overflow else value_at c.tuple i
    evaluate c (function name args) = call_function (c.find_function name) (evaluate_all c args)
    evaluate c (aggregate f e) = do
      group ← c.row_group
      aggregate_rows p f (λ row. evaluate (pushed c row) e) (group_rows group)

    -- The loop of `InExpression`: arguments behind a match are not evaluated.
    pub is_among : Context Float → Str → Exprs Float → Result Bool
    is_among c s nil = ok false
    is_among c s (cons e args) = do
      v ← evaluate c e
      t ← to_string p v
      if str_eq s t then ok true else is_among c s args

    -- The loop of `CaseExpression`, with what its `ELSE` evaluates to; null where there is none.
    pub first_case :
        Context Float → Cases Float → Expr Float → Result (Value Float) → Result (Value Float)
    first_case c no_case absent otherwise = ok Value.null
    first_case c no_case e otherwise = otherwise
    first_case c (when e v cases) e' otherwise = do
      b ← evaluate c e
      x ← to_bool p b
      if x then evaluate c v else first_case c cases e' otherwise

    pub evaluate_all : Context Float → Exprs Float → Result (List (Value Float))
    evaluate_all c nil = ok []
    evaluate_all c (cons e args) = do v ← evaluate c e; vs ← evaluate_all c args; ok (v ∷ vs)
