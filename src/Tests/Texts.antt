-- ===== src/Tests/Texts.antt =====
-- The lexer at work.
use essa_db.Prelude.{false, str_eq, codes, ◌≡◌, refl, some, ok, [], ◌∷◌, true}
use essa_db.Lexer.Token.{TokenType}
use essa_db.Lexer.Scan.{lex, lex_loop, scan, classify}
use essa_db.Lexer.Tiled.{Tiled, lex-Tiled}
use essa_db.Function.Search.{is_prefix}
use essa_db.Expression.Like.{
  wildcard_parser, match_loop, is_string_valid, next_asterisk, skip_asterisk, read_bracket,
  allowed_chars, bracket, is_allowed, char_leb,
}
use essa_db.Expression.Liked.{wildcard_parser-plain}
use essa_db.Lexer.Words.{spelled, classify-spelled}

lex-Tiled_example : Tiled 0 (codes "SELECT [a b],12 -- x") (lex (codes "SELECT [a b],12 -- x"))
lex-Tiled_example = lex-Tiled (codes "SELECT [a b],12 -- x")

classify-spelled_example : (classify (codes "SeLeCT")).1 ≡ TokenType.keyword_select
unfolding spelled str_eq
classify-spelled_example = classify-spelled (codes "SeLeCT")

-- The offset behind a token that a look past the end of the text ended is 0.
lex_sum :
    lex (codes "a+1")
    ≡ some (
        ok (
          record { type = TokenType.identifier; value = codes "a"; start = 0; end = 1 }
          ∷ record { type = TokenType.op_add; value = codes "+"; start = 1; end = 2 }
          ∷ record { type = TokenType.int; value = codes "1"; start = 2; end = 0 }
          ∷ record { type = TokenType.eof; value = codes "EOF"; start = 3; end = 3 }
          ∷ []))
unfolding lex lex_loop scan
lex_sum = refl

-- A pattern without special characters is found anywhere.
wildcard_parser-plain_example : wildcard_parser (codes "xaby") (codes "ab") ≡ ok true
unfolding is_prefix
wildcard_parser-plain_example =
    wildcard_parser-plain 97 (codes "b") (codes "xaby")
      ((refl, refl, refl, refl, refl), ((refl, refl, refl, refl, refl), tt))

like_range : wildcard_parser (codes "b7") (codes "[a-c]#") ≡ ok false
unfolding wildcard_parser match_loop is_string_valid next_asterisk skip_asterisk read_bracket
    allowed_chars bracket is_allowed char_leb
like_range = refl
