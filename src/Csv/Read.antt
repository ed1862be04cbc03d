-- ===== src/Csv/Read.antt =====
-- db/storage/CSVFile.cpp: `read_line`. A stream is the bytes that are left of it. A byte 255 is taken
-- for its end, since `peek` is cut to a `char`.
use essa_db.Prelude.{
  ℕ, zero, suc, Str, Bool, ◌==◌, ◌||◌, Option, none, some, List, [], ◌∷◌, length, if◌then◌else◌,
}
use essa_db.Value.Number.{skip_space}

abbrev pub is_quote : ℕ → Bool
is_quote c = c == b'\'' || c == b'"'

abbrev pub is_separator : ℕ → Bool
is_separator c = c == b',' || c == b';'

-- What ends a value: its quote, or a separator where there is none.
abbrev pub ends_value : Option ℕ → ℕ → Bool
ends_value none c = is_separator c
ends_value (some quote) c = c == quote

-- The bytes of a value, and what is left.
unfoldable pub take_value : Option ℕ → Str → Str × Str
take_value quote [] = ([], [])
take_value quote (c ∷ s) =
    let (value, rest) = take_value quote s in
    if ends_value quote c || c == 255 then ([], c ∷ s) else (c ∷ value, rest)

unfoldable pub drop_quote : Str → Str
drop_quote [] = []
drop_quote (c ∷ s) = if is_quote c then s else c ∷ s

unfoldable pub drop_separator : Str → Str
drop_separator [] = []
drop_separator (c ∷ s) = if is_separator c then s else c ∷ s

-- A value is behind us: what is left after its quote, white space and a separator.
unfoldable pub after_value : Str → Str
after_value s = drop_separator (skip_space (drop_quote s))

-- One value of a line that goes on with `c`.
unfoldable pub read_value : ℕ → Str → Str × Str
read_value c s =
    let (value, rest) = if is_quote c then take_value (some c) s else take_value none (c ∷ s) in
    (value, after_value rest)

-- The loop of `read_line`; `none` is a loop that needs more fuel.
unfoldable pub read_values : ℕ → Str → Option (List Str)
read_values zero s = none
read_values (suc fuel) s = elim (skip_space s) [
  | [] ↦ some []
  | c ∷ t ↦
      let (value, rest) = read_value c t in
      let more = read_values fuel rest in
      if c == 255 then some [] else elim more [ none ↦ none | some values ↦ some (value ∷ values) ]
]

-- A round for each byte and one more is enough.
unfoldable pub read_line : Str → Option (List Str)
read_line line = read_values (suc (length line)) line

unfoldable pub push : ℕ → List Str → List Str
push c [] = (c ∷ []) ∷ []
push c (line ∷ lines) = (c ∷ line) ∷ lines

-- What `std::getline` gives, one call after the other.
unfoldable pub lines_of : Str → List Str
unfolding push
lines_of [] = []
lines_of (c ∷ s) = let lines = lines_of s in if c == 10 then [] ∷ lines else push c lines
