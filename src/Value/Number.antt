-- ===== src/Value/Number.antt =====
-- How C++ prints and reads an `int`: `std::to_string`, the zero-padded `{:0w}` of the format
-- library, and `std::stoi`.
use native.Mathlib.Decide.{dec_lt}
use native.Mathlib.Nat.{pow-suc}
use essa_db.Prelude.{
  ℕ, zero, suc, ◌+◌, ◌-◌, ◌*◌, ◌/◌, ◌%◌, ◌^◌, ◌<◌, ◌≤◌, ◌≡◌, refl, ℤ, pos, negsuc, sub_ℕ, Str, Bool,
  true, false, Option, none, some, [], ◌∷◌, ◌++◌, ltb, leb, ◌==◌, ◌&&◌, ◌||◌, if◌then◌else◌, length,
  replicate, is_int32, IsInt32, arith, lt→ltb, le→leb, ap, ◌∙◌,
}

abbrev pub is_digit : ℕ → Bool
is_digit c = leb b'0' c && leb c b'9'

abbrev pub is_space : ℕ → Bool
is_space c = c == 32 || (leb 9 c && leb c 13)

-- The digits of `n` in front of `acc`; an `int` has ten digits at most.
unfoldable pub print_digits : ℕ → ℕ → Str → Str
print_digits zero n acc = acc
print_digits (suc fuel) n acc =
    let rest = print_digits fuel (n / 10) ((b'0' + n % 10) ∷ acc) in
    if ltb n 10 then (b'0' + n) ∷ acc else rest

abbrev pub print_nat : ℕ → Str
print_nat n = print_digits 10 n []

-- `std::to_string(int)`
unfoldable pub print_int : ℤ → Str
print_int (pos n) = print_nat n
print_int (negsuc n) = b'-' ∷ print_nat (n + 1)

-- `{:0w}`: zeros between the sign and the digits, up to a width of `w`.
unfoldable pub pad : ℕ → ℤ → Str
pad w (pos n) = let s = print_nat n in replicate (w - length s) b'0' ++ s
pad w (negsuc n) = let s = print_nat (n + 1) in b'-' ∷ replicate (w - 1 - length s) b'0' ++ s

unfoldable pub skip_space : Str → Str
skip_space [] = []
skip_space (c ∷ s) = if is_space c then skip_space s else c ∷ s

-- The value of the digits that `s` begins with, after those of `v`.
unfoldable pub read_digits : ℕ → Str → ℕ
read_digits v [] = v
read_digits v (c ∷ s) = if is_digit c then read_digits (v * 10 + (c - b'0')) s else v

abbrev starts_digit : Str → Bool
starts_digit [] = false
starts_digit (c ∷ s) = is_digit c

abbrev signed : Bool → ℕ → ℤ
signed negative n = if negative then sub_ℕ 0 n else pos n

-- After the sign: at least one digit, and a value that fits.
unfoldable pub read_magnitude : Bool → Str → Option ℤ
read_magnitude negative s =
    let z = signed negative (read_digits 0 s) in
    if starts_digit s then (if is_int32 z then some z else none) else none

unfoldable pub read_sign : Str → Option ℤ
unfolding read_magnitude
read_sign [] = none
read_sign (c ∷ s) =
    if c == b'-'
    then read_magnitude true s
    else if c == b'+'
    then read_magnitude false s
    else read_magnitude false (c ∷ s)

-- `std::stoi(s)`: `none` is an exception, of either kind. What follows the digits is ignored.
unfoldable pub stoi : Str → Option ℤ
unfolding skip_space read_sign
stoi s = read_sign (skip_space s)

-- The two steps of `print_digits`.
print_last : (fuel n : ℕ) (acc : Str) → n < 10 → print_digits (suc fuel) n acc ≡ (b'0' + n) ∷ acc
unfolding print_digits
print_last fuel n acc h = rw (lt→ltb n 10 h)

print_more :
    (fuel n : ℕ) (acc : Str)
    → 10 ≤ n
    → print_digits (suc fuel) n acc ≡ print_digits fuel (n / 10) ((b'0' + n % 10) ∷ acc)
unfolding print_digits
print_more fuel n acc h = ground arith

read_digit :
    (v d : ℕ) (s : Str) → d < 10 → read_digits v ((b'0' + d) ∷ s) ≡ read_digits (v * 10 + d) s
unfolding read_digits
read_digit v d s h =
    let same : v * 10 + (b'0' + d - b'0') ≡ v * 10 + d = omega arith in
    rw (le→leb b'0' (b'0' + d) (omega arith), le→leb (b'0' + d) b'9' (omega arith), same)

-- Reading what was printed goes on with what stands behind it.
read-print :
    (fuel n : ℕ) (acc : Str)
    → n < 10 ^ suc fuel
    → read_digits 0 (print_digits (suc fuel) n acc) ≡ read_digits n acc
read-print zero n acc h =
    rw print_last (rw read_digit (ap (λ (v : ℕ). read_digits v acc) (omega arith)))
read-print (suc fuel) n acc h = elim (dec_lt n 10) [
  | yes small ↦ rw print_last (rw read_digit (ap (λ (v : ℕ). read_digits v acc) (omega arith)))
  | no large ↦ rw (print_more (suc fuel) n acc (omega arith)) (
      rw (read-print fuel (n / 10) ((b'0' + n % 10) ∷ acc) (omega (arith, pow-suc 10 (suc fuel)))) (
        rw (read_digit (n / 10) (n % 10) acc (omega arith))
          (ap (λ (v : ℕ). read_digits v acc) (omega arith))))
]

-- The number that is read is the number that was printed.
read-print_nat : (n : ℕ) → n < 10 ^ 10 → read_digits 0 (print_nat n) ≡ n
unfolding read_digits
read-print_nat n h = read-print 9 n [] h

-- What is printed begins with a digit.
print-starts_digit :
    (fuel n : ℕ) (acc : Str)
    → (d : ℕ) × (rest : Str) × (d < 10) × (print_digits (suc fuel) n acc ≡ (b'0' + d) ∷ rest)
print-starts_digit zero n acc = elim (dec_lt n 10) [
  | yes small ↦ (n, acc, small, print_last 0 n acc small)
  | no large ↦
      (n % 10, acc, omega arith, print_more 0 n acc (omega arith) ∙ (unfold print_digits in refl))
]
print-starts_digit (suc fuel) n acc = elim (dec_lt n 10) [
  | yes small ↦ (n, acc, small, print_last (suc fuel) n acc small)
  | no large ↦
      let (d, rest, h, e) = print-starts_digit fuel (n / 10) ((b'0' + n % 10) ∷ acc) in
      (d, rest, h, print_more (suc fuel) n acc (omega arith) ∙ e)
]

-- A printed magnitude is read back under its sign.
read_magnitude-print :
    (negative : Bool) (n : ℕ)
    → n < 10 ^ 10
    → is_int32 (signed negative n) ≡ true
    → read_magnitude negative (print_nat n) ≡ some (signed negative n)
unfolding read_magnitude
read_magnitude-print negative n h k =
    let (d, rest, small, e) = print-starts_digit 9 n [] in
    let digit : starts_digit (print_nat n) ≡ true = rw e (ground arith) in
    rw (digit, read-print_nat n h, k)

stoi-digit :
    (d : ℕ) (rest : Str)
    → d < 10
    → stoi ((b'0' + d) ∷ rest) ≡ read_magnitude false ((b'0' + d) ∷ rest)
unfolding stoi
stoi-digit d rest h = ground arith

-- Every `int` is read back by `std::stoi` from what `std::to_string` makes of it.
pub stoi-print_int : (z : ℤ) → IsInt32 z → stoi (print_int z) ≡ some z
unfolding print_int
stoi-print_int (pos n) h =
    let (d, rest, small, e) = print-starts_digit 9 n [] in
    rw e (
      rw (stoi-digit d rest small)
        (rw (← e) (read_magnitude-print false n (omega arith) (ground arith))))
stoi-print_int (negsuc n) h =
    let same : signed true (n + 1) ≡ negsuc n = ground arith in
    unfold stoi in (read_magnitude-print true (n + 1) (omega arith) (ground arith) ∙ rw same)
