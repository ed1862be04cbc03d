-- ===== src/Tests/Values.antt =====
-- Values at work.
use essa_db.Prelude.{pos, negsuc, codes, ◌≡◌, refl, ok, some, ◌>>=◌, arith}
use essa_db.Value.Types.{int, varchar, type}
use essa_db.Value.Number.{stoi, print_int, stoi-print_int}
use essa_db.Value.Convert.{from_string, to_string}
use essa_db.Value.RoundTrip.{from_string-to_string}
use essa_db.Value.Operators.{value_sub, int32}
use essa_db.Value.Order.{Compares, SameKind-Compares, less, same}
use essa_db.Value.Arithmetic.{Typed}
use essa_db.Expression.{Arithmetic, apply_arithmetic}
use essa_db.Expression.Typed.{apply_arithmetic-Typed}
use essa_db.Tests.Fixture.{platform}

stoi-print_int_example : stoi (print_int (negsuc 41)) ≡ some (negsuc 41)
stoi-print_int_example = stoi-print_int (negsuc 41) (ground arith)

from_string-to_string_example :
    (do
      s ← to_string platform (int (negsuc 6))
      from_string platform (type {F = platform.Float} (int (negsuc 6))) s)
    ≡ ok (int (negsuc 6))
from_string-to_string_example = from_string-to_string platform (int (negsuc 6)) (ground arith)

SameKind-Compares_example :
    Compares platform
      (varchar (codes "ab"))
      (varchar (codes "b"))
      (less platform (varchar (codes "ab")) (varchar (codes "b")))
      (same platform (varchar (codes "ab")) (varchar (codes "b")))
      (less platform (varchar (codes "b")) (varchar (codes "ab")))
SameKind-Compares_example =
    SameKind-Compares platform (varchar (codes "ab")) (varchar (codes "b")) tt

three_less_five :
    apply_arithmetic platform Arithmetic.sub (int (pos 3)) (int (pos 5)) ≡ ok (int (negsuc 1))
unfolding apply_arithmetic value_sub int32
three_less_five = refl

apply_arithmetic-Typed_example :
    Typed {F = platform.Float} (int (pos 3)) (int (pos 5)) (int (negsuc 1))
apply_arithmetic-Typed_example =
    apply_arithmetic-Typed platform Arithmetic.sub (int (pos 3)) (int (pos 5)) (int (negsuc 1))
      three_less_five
