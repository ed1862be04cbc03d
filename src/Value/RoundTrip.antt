-- ===== src/Value/RoundTrip.antt =====
-- Text made by `Value::to_string` and read back by `Value::from_string`, as an export to a CSV file
-- and an import of it do.
use essa_db.Prelude.{IsInt32, ◌≡◌, refl, ok, true, false, ◌>>=◌, str_eq}
use essa_db.Value.Types.{Platform, Value, null, int, float, varchar, bool, time, type}
use essa_db.Value.Number.{stoi-print_int}
use essa_db.Value.DateText.{Fields}
use essa_db.Value.DateText.ReadBack.{IsTextDate, to_date, from_iso8601-format}
use essa_db.Value.Convert.{from_string, to_string}

-- The values whose text determines them: all but null, floats, and dates that no text can state.
abbrev pub HasText : {F : Type 0} → Value F → Type 0
HasText null = ⊥
HasText (int i) = IsInt32 i
HasText (float f) = ⊥
HasText (varchar s) = Unit {0}
HasText (bool b) = Unit {0}
HasText (time d) = (t : Fields) × IsTextDate t × (d ≡ to_date t)

module _ (p : Platform) where
  -- Every 32-bit integer, text, Boolean, and date that a text can state (a year of at most four
  -- digits, the other fields in the ranges that are checked) is read back by `from_string`, for
  -- its own type, from what `to_string` makes of it.
  pub from_string-to_string :
      (v : Value p.Float) → HasText v → (do s ← to_string p v; from_string p (type v) s) ≡ ok v
  unfolding from_string to_string
  from_string-to_string null h = absurd h
  from_string-to_string (int i) h = rw (stoi-print_int i h)
  from_string-to_string (float f) h = absurd h
  from_string-to_string (varchar s) h = refl
  from_string-to_string (bool true) h = unfold str_eq in refl
  from_string-to_string (bool false) h = unfold str_eq in refl
  from_string-to_string (time d) (t, inside, e) = rw e (rw (from_iso8601-format t inside))
