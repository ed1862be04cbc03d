-- ===== src/Value/DateText/ReadBack.antt =====
-- A date that was written by `Value::to_string` is read back by `Date::from_iso8601_string`.
use essa_db.Prelude.{
  ℕ, ◌+◌, ◌/◌, ◌%◌, ◌<◌, ◌≤◌, ◌≡◌, refl, pos, Str, some, [], ◌∷◌, ◌++◌, ok, arith,
}
use essa_db.Value.Types.{Date}
use essa_db.Value.Number.{pad, print_digits}
use essa_db.Value.DateText.{
  digits, one_or_two_digits, literal, at_end, match_date, check_match, check_fields, with_time,
  Fields, from_iso8601_string, format_date,
}

pad2 : (n : ℕ) → n < 100 → pad 2 (pos n) ≡ (b'0' + n / 10) ∷ (b'0' + n % 10) ∷ []
unfolding pad print_digits
pad2 n h = ground arith

pad4 :
    (n : ℕ)
    → n < 10000
    → pad 4 (pos n)
      ≡ (b'0' + n / 1000) ∷ (b'0' + n / 100 % 10) ∷ (b'0' + n / 10 % 10) ∷ (b'0' + n % 10) ∷ []
unfolding pad print_digits
pad4 n h = ground arith

digits2 : (n : ℕ) (s : Str) → n < 100 → digits 2 0 (pad 2 (pos n) ++ s) ≡ some (n, s)
unfolding digits
digits2 n s h = rw (pad2 n h) (ground arith)

digits4 : (n : ℕ) (s : Str) → n < 10000 → digits 4 0 (pad 4 (pos n) ++ s) ≡ some (n, s)
unfolding digits
digits4 n s h = rw (pad4 n h) (ground arith)

digits2_end : (n : ℕ) → n < 100 → digits 2 0 (pad 2 (pos n)) ≡ some (n, [])
unfolding digits
digits2_end n h = rw (pad2 n h) (ground arith)

hour_digits : (n : ℕ) (s : Str) → n < 100 → one_or_two_digits (pad 2 (pos n) ++ s) ≡ some (n, s)
unfolding one_or_two_digits
hour_digits n s h = rw (pad2 n h) (ground arith)

literal_self : (c : ℕ) (s : Str) → literal c (c ∷ s) ≡ some s
unfolding literal
literal_self c s = ground arith

-- What a date must satisfy to be read at all, and a year of four digits.
pub record IsTextDate (d : Fields) : Type 0 where
  pub year : d.year < 10000
  pub month : (1 ≤ d.month) × (d.month ≤ 12)
  pub day : (1 ≤ d.day) × (d.day ≤ 31)
  pub hour : d.hour ≤ 23
  pub min : d.min ≤ 59
  pub sec : d.sec ≤ 59

abbrev pub to_date : Fields → Date
to_date d = record {
  year = pos d.year;
  month = pos d.month;
  day = pos d.day;
  hour = pos d.hour;
  min = pos d.min;
  sec = pos d.sec;
}

match-format : (d : Fields) → IsTextDate d → match_date (format_date (to_date d)) ≡ some d
unfolding match_date format_date
match-format d h = rw (digits4 d.year _ h.year) (
    rw literal_self (
      rw (digits2 d.month _ (omega arith)) (
        rw literal_self (
          rw (digits2 d.day _ (omega arith)) (
            rw literal_self (
              rw (hour_digits d.hour _ (omega arith)) (
                rw literal_self (
                  rw (digits2 d.min _ (omega arith)) (
                    rw literal_self
                      (rw (digits2_end d.sec (omega arith)) (unfold at_end in refl)))))))))))

check-text_date : (d : Fields) → IsTextDate d → check_match (some d) ≡ ok (to_date d)
unfolding check_match check_fields
check-text_date d h = ground arith

-- A written date is longer than ten characters, so no time of day is put behind it.
with_time-format :
    (d : Fields) → IsTextDate d → with_time (format_date (to_date d)) ≡ format_date (to_date d)
unfolding with_time format_date
with_time-format d h =
    rw
      (
        pad4 d.year h.year,
        pad2 d.month (omega arith),
        pad2 d.day (omega arith),
        pad2 d.hour (omega arith),
        pad2 d.min (omega arith),
        pad2 d.sec (omega arith),
      )
      refl

from_iso8601_lem : (s : Str) → from_iso8601_string s ≡ check_match (match_date (with_time s))
unfolding from_iso8601_string
from_iso8601_lem s = refl

-- The text that is made of a date is read back as that date, where the year has at most four
-- digits, the month is 1 to 12, the day 1 to 31, the hour at most 23, and the minute and the
-- second at most 59.
pub from_iso8601-format :
    (d : Fields) → IsTextDate d → from_iso8601_string (format_date (to_date d)) ≡ ok (to_date d)
from_iso8601-format d h =
    rw (from_iso8601_lem, with_time-format d h, match-format d h) (check-text_date d h)
