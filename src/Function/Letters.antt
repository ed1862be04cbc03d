-- ===== src/Function/Letters.antt =====
-- db/sql/ast/Function.cpp: the functions that look at one byte after the other: ASCII, CHAR, LOWER,
-- UPPER, LTRIM, RTRIM, TRIM. Letters and white space are those of the C locale.
use essa_db.Prelude.{
  ℕ, ◌+◌, ◌-◌, ◌%◌, ◌||◌, ◌&&◌, ℤ, pos, negsuc, Str, Bool, false, not, [], ◌∷◌, ◌++◌, map, ltb, leb,
  if◌then◌else◌,
}
use essa_db.Value.Number.{is_space}

-- `static_cast<int>` of a signed `char`, and back.
unfoldable pub code_of : ℕ → ℤ
code_of c = if ltb c 128 then pos c else negsuc (255 - c)

unfoldable pub char_of : ℤ → ℕ
char_of (pos n) = n % 256
char_of (negsuc n) = 255 - n % 256

unfoldable pub to_upper : ℕ → ℕ
to_upper c = if leb b'a' c && leb c b'z' then c - 32 else c

unfoldable pub to_lower : ℕ → ℕ
to_lower c = if leb b'A' c && leb c b'Z' then c + 32 else c

unfoldable pub upper : Str → Str
unfolding to_upper
upper s = map to_upper s

unfoldable pub lower : Str → Str
unfolding to_lower
lower s = map to_lower s

-- The loop of LTRIM; `con` says that a byte which is no white space was seen.
unfoldable pub ltrim_loop : Bool → Str → Str
ltrim_loop con [] = []
ltrim_loop con (c ∷ s) =
    let con' = con || not (is_space c) in
    let rest = ltrim_loop con' s in if con' then c ∷ rest else rest

unfoldable pub ltrim : Str → Str
unfolding ltrim_loop
ltrim s = ltrim_loop false s

-- The loop of RTRIM, with `result` and `temp`.
unfoldable pub rtrim_loop : Str → Str → Str → Str
rtrim_loop result temp [] = result
rtrim_loop result temp (c ∷ s) =
    let temp' = temp ++ (c ∷ []) in
    rtrim_loop (if is_space c then result else result ++ temp') (if is_space c then temp' else []) s

unfoldable pub rtrim : Str → Str
unfolding rtrim_loop
rtrim s = rtrim_loop [] [] s

-- The loop of TRIM, with `con`, `result` and `temp`: the first byte that is no white space is added
-- by itself.
unfoldable pub trim_loop : Bool → Str → Str → Str → Str
trim_loop con result temp [] = result
trim_loop con result temp (c ∷ s) =
    let temp' = if con then temp ++ (c ∷ []) else temp in
    let first = if con then [] else c ∷ [] in
    trim_loop (con || not (is_space c)) (if is_space c then result else result ++ (temp' ++ first))
      (if is_space c then temp' else []) s

unfoldable pub trim : Str → Str
unfolding trim_loop
trim s = trim_loop false [] [] s
