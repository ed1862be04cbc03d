-- ===== src/Expression/Like.antt =====
-- db/sql/ast/Expression.cpp: the matcher of LIKE. An iterator is what is left from it on; the byte at
-- the end of a `std::string` is 0, and behind that nothing is defined.
use essa_db.Prelude.{
  ℕ, zero, suc, ◌+◌, ◌%◌, Str, Bool, true, false, not, ◌==◌, ◌||◌, ◌&&◌, leb, ltb, Option, none,
  some, [], ◌∷◌, take, drop, if◌then◌else◌, Result, ok, undefined, ◌>>=◌,
}
use essa_db.Value.Number.{is_digit}

-- `<=` of two `char`s, which are signed.
unfoldable pub char_leb : ℕ → ℕ → Bool
char_leb a b = leb ((a + 128) % 256) ((b + 128) % 256)

-- The characters in front of the next `]`, and what is behind it. Without one nothing is defined.
unfoldable pub allowed_chars : Str → Option (Str × Str)
allowed_chars [] = none
allowed_chars (c ∷ p) =
    let rest = allowed_chars p in
    if c == b']' then some ([], p) else elim rest [ none ↦ none | some (cs, q) ↦ some (c ∷ cs, q) ]

unfoldable pub contains : ℕ → Str → Bool
contains c [] = false
contains c (d ∷ s) = d == c || contains c s

-- A range is three characters, the second of which is `-`.
unfoldable pub is_allowed : ℕ → Str → Bool
unfolding char_leb contains
is_allowed c (lo ∷ dash ∷ hi ∷ []) =
    if dash == b'-' then char_leb lo c && char_leb c hi else contains c (lo ∷ dash ∷ hi ∷ [])
is_allowed c cs = contains c cs

-- The characters between brackets allow `c`, and the pattern from where it is read on: the `++` of the
-- loop steps over one character more.
unfoldable pub bracket : ℕ → Bool → Option (Str × Str) → Result (Bool × Option Str)
unfolding is_allowed
bracket c negate none = undefined
bracket c negate (some (cs, [])) =
    ok ((if negate then not (is_allowed c cs) else is_allowed c cs), none)
bracket c negate (some (cs, q ∷ p)) =
    ok ((if negate then not (is_allowed c cs) else is_allowed c cs), some p)

unfoldable pub read_bracket : ℕ → Str → Result (Bool × Option Str)
unfolding bracket allowed_chars
read_bracket c [] = undefined
read_bracket c (d ∷ p) =
    if d == b'!' then bracket c true (allowed_chars p) else bracket c false (allowed_chars (d ∷ p))

-- The characters that the C library does not define `isdigit` for.
abbrev is_wide : ℕ → Bool
is_wide c = leb 128 c && ltb c 255

-- The needle is one step behind its end.
unfoldable pub behind_end : Str → Result Bool
behind_end [] = ok true
behind_end (q ∷ p) = if q == b'?' || q == b'[' then ok false else undefined

-- The needle is at its end.
unfoldable pub at_needle_end : Str → Result Bool
unfolding behind_end
at_needle_end [] = ok true
at_needle_end (q ∷ p) = if q == 0 then behind_end p else ok false

-- `is_string_valid`; `none` is a pattern one step behind its end.
unfoldable pub is_string_valid : Str → Option Str → Result Bool
unfolding at_needle_end read_bracket
is_string_valid [] none = ok true
is_string_valid [] (some p) = at_needle_end p
is_string_valid (c ∷ s) none = undefined
is_string_valid (c ∷ s) (some []) =
    let rest = is_string_valid s none in if c == 0 then rest else ok false
is_string_valid (c ∷ s) (some (q ∷ p)) =
    let rest = is_string_valid s (some p) in
    let behind = read_bracket c p >>= λ b. if b.0 then is_string_valid s b.1 else ok false in
    if q == b'?'
    then rest
    else if q == b'#'
    then (if is_wide c then undefined else if is_digit c then rest else ok false)
    else if q == b'['
    then behind
    else if q == c
    then rest
    else ok false

-- `dist_to_next_asterisk` and `substr_len`. Once a bracket was open, only `]` counts.
unfoldable pub next_asterisk : Bool → Str → ℕ × ℕ
next_asterisk brackets [] = (0, 0)
next_asterisk brackets (c ∷ p) =
    let later = next_asterisk (brackets || c == b'[') p in
    if c == b'*'
    then (0, 0)
    else (suc later.0, if brackets && not (c == b']') then later.1 else suc later.1)

unfoldable pub skip_asterisk : Str → Str
skip_asterisk [] = []
skip_asterisk (c ∷ p) = if c == b'*' then p else c ∷ p

-- The loop over the needle, the first `skip` characters of which were matched.
unfoldable pub match_loop : Str → ℕ → Str → Bool → Result (Str × Bool)
unfolding is_string_valid next_asterisk skip_asterisk
match_loop [] skip p result = ok (p, result)
match_loop (c ∷ s) (suc skip) p result = match_loop s skip p result
match_loop (c ∷ s) zero p result = do
  let q = skip_asterisk p
  let (dist, len) = next_asterisk false q
  valid ← is_string_valid (take len (c ∷ s)) (some (take dist q))
  match_loop s (if valid then len else 0) (if valid then drop dist q else q) (valid || result)

unfoldable pub ends_in_asterisk : Str → Bool
ends_in_asterisk [] = false
ends_in_asterisk (c ∷ []) = c == b'*'
ends_in_asterisk (c ∷ (d ∷ p)) = ends_in_asterisk (d ∷ p)

abbrev is_empty : Str → Bool
is_empty [] = true
is_empty (c ∷ p) = false

unfoldable pub wildcard_parser : Str → Str → Result Bool
unfolding match_loop ends_in_asterisk
wildcard_parser needle pattern = do
  (rest, result) ← match_loop needle 0 pattern false
  if not (is_empty rest) && not (ends_in_asterisk pattern) then ok false else ok result
