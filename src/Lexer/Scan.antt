-- ===== src/Lexer/Scan.antt =====
-- db/sql/Lexer.cpp: `Lexer::lex`, on a `std::istream` over the text.
use essa_db.Prelude.{
  ℕ, zero, suc, ◌+◌, ◌-◌, Str, codes, ltb, leb, ◌==◌, Bool, true, false, ◌&&◌, ◌||◌, Option, none,
  some, List, [], ◌∷◌, if◌then◌else◌, length, Result, ok, err, undefined, ◌>>=◌,
}
use essa_db.Value.Number.{is_digit, is_space, skip_space}
use essa_db.Lexer.Token.{TokenType, Token, keywords}

-- What is left of the text, its offset, and `eofbit`, which a look past the end sets.
pub record Stream : Type 0 where
  pub rest : Str
  pub pos : ℕ
  pub eof : Bool

-- `tell`
abbrev pub tell : Stream → ℕ
tell s = if s.eof then 0 else s.pos

-- The stream once it has come to `rest`.
abbrev pub advance : Stream → Str → Bool → Stream
advance s rest eof = record { rest = rest; pos = s.pos + (length s.rest - length rest); eof = eof }

-- One round of the loop: the token that it pushes, if any, and the stream behind it.
pub record Scanned : Type 0 where
  pub emitted : Option Token
  pub stream : Stream

abbrev pub emit : Stream → TokenType → Str → Str → Bool → Scanned
emit s type value rest eof = record {
  emitted =
      some (record { type = type; value = value; start = s.pos; end = tell (advance s rest eof) });
  stream = advance s rest eof;
}

abbrev is_nil : Str → Bool
is_nil [] = true
is_nil (c ∷ s) = false

-- <cctype> in the "C" locale. A `char` below 0 other than EOF is outside the domain of these functions.
abbrev is_lower : ℕ → Bool
is_lower c = leb b'a' c && leb c b'z'

abbrev pub is_alpha : ℕ → Bool
is_alpha c = is_lower c || (leb b'A' c && leb c b'Z')

abbrev pub is_wide : ℕ → Bool
is_wide c = leb 128 c && ltb c 255

unfoldable pub to_upper : ℕ → ℕ
to_upper c = if is_lower c then c - 32 else c

-- `Parser::compare_case_insensitive`
unfoldable pub compare_case_insensitive : Str → Str → Bool
unfolding to_upper
compare_case_insensitive [] [] = true
compare_case_insensitive [] (d ∷ t) = false
compare_case_insensitive (c ∷ s) [] = false
compare_case_insensitive (c ∷ s) (d ∷ t) = to_upper c == to_upper d && compare_case_insensitive s t

-- The characters of `consume_identifier`, and what stands behind them.
unfoldable pub word : Str → Str × Str
word [] = ([], [])
word (c ∷ s) =
    let (w, rest) = word s in
    if is_alpha c || is_digit c || c == b'_' then (c ∷ w, rest) else ([], c ∷ s)

-- `consume_number`: a second point is consumed and dropped. Last, whether it looked past the end.
unfoldable pub number : Bool → Str → Str × Str × Bool
number has_decimal [] = ([], [], true)
number has_decimal (c ∷ s) =
    let (n, rest, eof) = number (has_decimal || c == b'.') s in
    if c == b'.' && has_decimal
    then ([], s, false)
    else if is_digit c || c == b'.'
    then (c ∷ n, rest, eof)
    else ([], c ∷ s, false)

-- Up to the closing character, which is consumed. Where there is none, `get` appends EOF as a `char`.
unfoldable pub quoted : ℕ → Str → Str × Str × Bool
quoted q [] = (255 ∷ [], [], true)
quoted q (c ∷ s) =
    let (id, rest, eof) = quoted q s in if c == q then ([], s, false) else (c ∷ id, rest, eof)

-- The same behind `std::ws`, which sets `eofbit` itself at the end.
unfoldable pub quoted_behind_space : ℕ → Str → Str × Str × Bool
unfolding quoted
quoted_behind_space q s = if is_nil (skip_space s) then ([], [], true) else quoted q (skip_space s)

-- `ignore` up to the end of the line.
unfoldable pub drop_line : Str → Str × Bool
drop_line [] = ([], true)
drop_line (c ∷ s) = if c == 10 then (s, false) else drop_line s

unfoldable pub find_keyword : Str → List (Str × TokenType) → Option (Str × TokenType)
unfolding compare_case_insensitive
find_keyword id [] = none
find_keyword id ((k, type) ∷ ks) =
    if compare_case_insensitive k id then some (k, type) else find_keyword id ks

-- What a word that is no keyword is.
unfoldable pub plain_word : Str → Str × TokenType
unfolding compare_case_insensitive
plain_word id =
    if compare_case_insensitive id (codes "TRUE")
    then (codes "TRUE", TokenType.bool)
    else if compare_case_insensitive id (codes "FALSE")
    then (codes "FALSE", TokenType.bool)
    else if compare_case_insensitive id (codes "ASC") || compare_case_insensitive id (codes "DESC")
    then (id, TokenType.order_by_param)
    else (id, TokenType.identifier)

unfoldable pub classify : Str → Str × TokenType
unfolding find_keyword plain_word
classify id = elim (find_keyword id keywords) [ some k ↦ k | none ↦ plain_word id ]

unfoldable pub has_point : Str → Bool
has_point [] = false
has_point (c ∷ s) = c == b'.' || has_point s

unfoldable pub number_type : Str → TokenType
unfolding has_point
number_type n =
    if has_point n
    then (if length n == 1 then TokenType.period else TokenType.float)
    else TokenType.int

-- The loop that strips trailing spaces, on the reversed text; `back` of an empty text is undefined.
unfoldable pub strip : Str → Result Str
strip [] = undefined
strip (c ∷ s) = if is_wide c then undefined else if is_space c then strip s else ok (c ∷ s)

reverse_onto : Str → Str → Str
reverse_onto [] acc = acc
reverse_onto (c ∷ s) acc = reverse_onto s (c ∷ acc)

unfoldable pub strip_trailing : Str → Result Str
unfolding strip reverse_onto
strip_trailing id = do kept ← strip (reverse_onto id []); ok (reverse_onto kept [])

-- The characters that are tokens by themselves; the second tests of `-` and `*` are never reached.
unfoldable pub symbol : ℕ → Option TokenType
symbol c =
    if c == b'*'
    then some TokenType.asterisk
    else if c == b','
    then some TokenType.comma
    else if c == b'('
    then some TokenType.paren_open
    else if c == b')'
    then some TokenType.paren_close
    else if c == b';'
    then some TokenType.semicolon
    else if c == b'+'
    then some TokenType.op_add
    else if c == b'/'
    then some TokenType.op_div
    else if c == b'='
    then some TokenType.op_equal
    else if c == b'<'
    then some TokenType.op_less
    else if c == b'>'
    then some TokenType.op_greater
    else none

unfoldable pub scan_word : Stream → Scanned
unfolding word classify
scan_word s =
    let (id, rest) = word s.rest in
    let (value, type) = classify id in emit s type value rest (is_nil rest)

unfoldable pub scan_space : Stream → Scanned
scan_space s = record {
  emitted = none;
  stream = advance s (skip_space s.rest) (is_nil (skip_space s.rest));
}

unfoldable pub scan_number : Stream → Scanned
unfolding number number_type
scan_number s = let (n, rest, eof) = number false s.rest in emit s (number_type n) n rest eof

-- What is behind `- `, which makes a comment of the first `-`.
unfoldable pub comment : Str → Option Str
comment [] = none
comment (c ∷ []) = none
comment (c ∷ d ∷ r) = if c == b'-' && d == 32 then some r else none

-- Behind the first `-`: a comment, or an operator after which the stream is set back.
unfoldable pub scan_dash : Stream → Str → Option Str → Scanned
unfolding drop_line
scan_dash s r (some behind) =
    let (rest, eof) = drop_line behind in record { emitted = none; stream = advance s rest eof }
scan_dash s r none = emit s TokenType.op_sub (codes "-") r false

unfoldable pub scan_bracket : Stream → Str → Result Scanned
unfolding quoted_behind_space strip_trailing
scan_bracket s r = do
  let q = quoted_behind_space b']' r
  id ← strip_trailing q.0
  ok (emit s TokenType.identifier id q.1 q.2)

-- The token ends where the stream stands before the `=` is taken.
unfoldable pub scan_bang : Stream → Str → Scanned
scan_bang s [] = emit s TokenType.exclamation (codes "!") [] true
scan_bang s (c ∷ r) =
    if c == b'='
    then record {
      emitted = some (record {
        type = TokenType.op_not_equal;
        value = codes "!=";
        start = s.pos;
        end = s.pos + 1;
      });
      stream = advance s r false;
    }
    else emit s TokenType.exclamation (codes "!") (c ∷ r) false

unfoldable pub scan_quote : Stream → Str → Scanned
unfolding quoted
scan_quote s r = let (id, rest, eof) = quoted 39 r in emit s TokenType.string id rest eof

unfoldable pub scan_date : Stream → Str → Scanned
unfolding quoted_behind_space
scan_date s r =
    let (id, rest, eof) = quoted_behind_space b'#' r in emit s TokenType.date id rest eof

unfoldable pub scan_symbol : Stream → ℕ → Str → Option TokenType → Scanned
scan_symbol s c r (some type) = emit s type (c ∷ []) r false
scan_symbol s c r none = emit s TokenType.garbage (c ∷ []) r false

-- One round of the loop at the character `c`, with `r` behind it.
unfoldable pub scan : Stream → ℕ → Str → Result Scanned
unfolding scan_word scan_space scan_number scan_dash comment scan_bracket scan_bang scan_quote
    scan_date scan_symbol symbol
scan s c r =
    if is_wide c
    then undefined
    else if is_alpha c || c == b'_'
    then ok (scan_word s)
    else if is_space c
    then ok (scan_space s)
    else if is_digit c || c == b'.'
    then ok (scan_number s)
    else if c == b'-'
    then ok (scan_dash s r (comment r))
    else if c == b'['
    then scan_bracket s r
    else if c == b'!'
    then ok (scan_bang s r)
    else if c == 39
    then ok (scan_quote s r)
    else if c == b'#'
    then ok (scan_date s r)
    else ok (scan_symbol s c r (symbol c))

abbrev pub push : Option Token → List Token → List Token
push none ts = ts
push (some t) ts = t ∷ ts

abbrev pub eof_token : ℕ → Token
eof_token pos = record { type = TokenType.eof; value = codes "EOF"; start = pos; end = pos }

abbrev pub push_all : Option Token → Option (Result (List Token)) → Option (Result (List Token))
push_all t none = none
push_all t (some (ok ts)) = some (ok (push t ts))
push_all t (some (err e)) = some (err e)
push_all t (some undefined) = some undefined

abbrev pub behind :
    Result Scanned → (Stream → Option (Result (List Token))) → Option (Result (List Token))
behind undefined next = some undefined
behind (err e) next = some (err e)
behind (ok sc) next = push_all sc.emitted (next sc.stream)

-- The loop of `Lexer::lex`; `none` means that the fuel ran out. A byte 255 is taken for EOF, as a `char`.
unfoldable pub lex_loop : ℕ → ℕ → Str → Bool → Option (Result (List Token))
lex_loop zero pos rest eof = none
lex_loop (suc fuel) pos [] eof = some (ok (eof_token pos ∷ []))
lex_loop (suc fuel) pos (c ∷ r) eof =
    let later =
      behind (scan (record { rest = c ∷ r; pos = pos; eof = eof }) c r)
        (λ s. lex_loop fuel s.pos s.rest s.eof) in
    if c == 255 then some (ok (eof_token pos ∷ [])) else later

-- `Lexer::lex`: each round takes a character at least, so this fuel is enough.
unfoldable pub lex : Str → Option (Result (List Token))
lex text = lex_loop (suc (length text)) 0 text false
