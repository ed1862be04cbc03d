-- ===== src/Expression/Typed.antt =====
-- What arithmetic on values gives, whatever the types of the operands.
use essa_db.Prelude.{◌≡◌, ok}
use essa_db.Value.Types.{Platform, Value}
use essa_db.Value.Arithmetic.{Typed, add-Typed, sub-Typed, mul-Typed, div-Typed}
use essa_db.Expression.{Arithmetic, apply_arithmetic}

module _ (p : Platform) where
  -- If an arithmetic operator on two values succeeds with c, then c is null just where an operand
  -- is null; else it has the type of the left operand; and an integer c fits in 32 bits.
  pub apply_arithmetic-Typed :
      (op : Arithmetic) (a b c : Value p.Float) → apply_arithmetic p op a b ≡ ok c → Typed a b c
  unfolding apply_arithmetic
  apply_arithmetic-Typed Arithmetic.add a b c h = add-Typed p a b h
  apply_arithmetic-Typed Arithmetic.sub a b c h = sub-Typed p a b h
  apply_arithmetic-Typed Arithmetic.mul a b c h = mul-Typed p a b h
  apply_arithmetic-Typed Arithmetic.div a b c h = div-Typed p a b h
  apply_arithmetic-Typed Arithmetic.invalid a b c h = cc
