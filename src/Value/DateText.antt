-- ===== src/Value/DateText.antt =====
-- db/core/Value.cpp: `Date::from_iso8601_string`, and the format in which `Value::to_string` writes
-- a date. The regular expression of the source is read here as the parser that it describes.
pub mod ReadBack
use essa_db.Prelude.{
  ℕ, zero, suc, ◌+◌, ◌-◌, ◌*◌, ◌/◌, ◌%◌, ◌<◌, ◌≤◌, ◌≡◌, refl, pos, Str, codes, Bool, Option, none,
  some, List, [], ◌∷◌, ◌++◌, ltb, leb, ◌==◌, ◌||◌, if◌then◌else◌, length, Result, ok, err, DbError,
  ◌>>=◌, ◌>>◌, fail_if, arith,
}
use essa_db.Value.Types.{Date}
use essa_db.Value.Number.{is_digit, pad}

-- A match of a part of the expression: what it captured, and the text behind it.
abbrev Match : Type 0 → Type 0
Match A = Option (A × Str)

-- `(\d{n})`, as a number that goes on from `v`.
digits : ℕ → ℕ → Str → Match ℕ
digits zero v s = some (v, s)
digits (suc n) v [] = none
digits (suc n) v (c ∷ s) =
    let rest = digits n (v * 10 + (c - b'0')) s in if is_digit c then rest else none

-- `(\d{1,2})`, which takes a second digit where there is one.
one_or_two_digits : Str → Match ℕ
unfolding digits
one_or_two_digits [] = none
one_or_two_digits (c ∷ []) = digits 1 0 (c ∷ [])
one_or_two_digits (c ∷ d ∷ s) =
    if is_digit d then digits 2 0 (c ∷ d ∷ s) else digits 1 0 (c ∷ d ∷ s)

-- One character that stands for itself.
literal : ℕ → Str → Option Str
literal c [] = none
literal c (x ∷ s) = if x == c then some s else none

abbrev and_then {ℓ κ} : {A : Type ℓ} {B : Type κ} → Option A → (A → Option B) → Option B
and_then none f = none
and_then (some a) f = f a

pub record Fields : Type 0 where
  pub year : ℕ
  pub month : ℕ
  pub day : ℕ
  pub hour : ℕ
  pub min : ℕ
  pub sec : ℕ

at_end : Fields → Str → Option Fields
at_end d [] = some d
at_end d (c ∷ s) = none

-- `^(\d{4})-(\d{2})-(\d{2}) (\d{1,2}):(\d{2}):(\d{2})$`
match_date : Str → Option Fields
match_date s0 = and_then (digits 4 0 s0) λ (year, s1). and_then (literal b'-' s1) λ s2.
    and_then (digits 2 0 s2) λ (month, s3). and_then (literal b'-' s3) λ s4.
      and_then (digits 2 0 s4) λ (day, s5). and_then (literal 32 s5) λ s6.
        and_then (one_or_two_digits s6) λ (hour, s7). and_then (literal b':' s7) λ s8.
          and_then (digits 2 0 s8) λ (min, s9). and_then (literal b':' s9) λ s10.
            and_then (digits 2 0 s10) λ (sec, s11).
              at_end
                (record {
                  year = year;
                  month = month;
                  day = day;
                  hour = hour;
                  min = min;
                  sec = sec;
                })
                s11

check_fields : Fields → Result Date
check_fields d = do
  fail_if (ltb d.month 1 || ltb 12 d.month) DbError.out_of_range_date
  fail_if (ltb d.day 1 || ltb 31 d.day) DbError.out_of_range_date
  fail_if (ltb 23 d.hour) DbError.out_of_range_date
  fail_if (ltb 59 d.min) DbError.out_of_range_date
  fail_if (ltb 59 d.sec) DbError.out_of_range_date
  ok (record {
    year = pos d.year;
    month = pos d.month;
    day = pos d.day;
    hour = pos d.hour;
    min = pos d.min;
    sec = pos d.sec;
  })

check_match : Option Fields → Result Date
check_match none = err DbError.invalid_date
check_match (some d) = check_fields d

-- A text of ten characters is a date at midnight.
with_time : Str → Str
with_time s = s ++ (if length s == 10 then codes " 00:00:00" else [])

unfoldable pub from_iso8601_string : Str → Result Date
unfolding with_time match_date check_match digits one_or_two_digits literal at_end check_fields
from_iso8601_string s = check_match (match_date (with_time s))

-- `{:04}-{:02}-{:02} {:02}:{:02}:{:02}`
unfoldable pub format_date : Date → Str
format_date d =
    pad 4 d.year
    ++ (b'-'
        ∷ (pad 2 d.month
            ++ (b'-'
                ∷ (pad 2 d.day
                    ++ (32 ∷ (pad 2 d.hour ++ (b':' ∷ (pad 2 d.min ++ (b':' ∷ pad 2 d.sec)))))))))
