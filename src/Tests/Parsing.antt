-- ===== src/Tests/Parsing.antt =====
-- The parser at work.
use essa_db.Prelude.{
  ℕ, Str, codes, ◌≡◌, ◌≢◌, refl, ok, str_eq, none, some, [], ◌∷◌, pos, Result, false,
}
use essa_db.Value.Types.{int}
use essa_db.Expression.{Expr, literal, binary, arithmetic, absent, Comparison, Arithmetic}
use essa_db.Query.Table.{SelectOptions, TableExpression, table_identifier}
use essa_db.Parser.Statement.{AstStatement, select_statement, drop_table, parse_statement}
use essa_db.Statement.Define.{unspecified}
use essa_db.Lexer.Token.{Token, TokenType}
use essa_db.Database.Action.{Database, memory, find_table}
use essa_db.Database.Valid.{AllValid}
use essa_db.Sql.Others.{AnswersElsewhere, run_query-others}
use essa_db.Sql.Kept.{HoldsNoSubquery}
use essa_db.Sql.Unchanged.{IsQueryAnswer, run_query-unchanged}
use essa_db.Sql.Valid.{IsCheckedAnswer, run_query-AllValid}
use essa_db.Table.State.{Table}
use essa_db.Parser.Reply.{read, out_of_fuel}
use essa_db.Parser.Safe.Statements.{parse_statement-ends}
use essa_db.Parser.Simple.{literal_value}
use essa_db.Parser.Levels.{IsInfix, level}
use essa_db.Parser.Precedence.{Stands, IsLast, parse_expression-precedence}
use essa_db.Lexer.Scan.{lex_loop, scan}
use essa_db.Sql.{parse_text, run_query}
use essa_db.Parser.Query.{parse_select, parse_columns, parse_table_expression, calls}
use essa_db.Parser.Expression.{parse_expression, combine}
use essa_db.Parser.Operator.{
  is_literal, is_binary_operator, is_arithmetic_operator, token_type_to_arithmetic_operation,
  token_type_to_binary_operation,
}
use essa_db.Value.Number.{read_digits, stoi}
use essa_db.Tests.Fixture.{platform, built_in, people, database}

abbrev no_subquery : SelectOptions ℕ → TableExpression ℕ → Expr ℕ
no_subquery o from = absent

abbrev parse : Str → Result (AstStatement ℕ)
parse text = parse_text platform no_subquery text

drop : parse (codes "DROP TABLE t;") ≡ ok (drop_table unspecified (codes "t"))
unfolding parse_text lex_loop scan
drop = refl

sum_of_comparison :
    parse (codes "SELECT 1+2=3 FROM t")
    ≡ ok (
        select_statement (
          record {
            columns =
                record {
                  alias = none;
                  column =
                      arithmetic
                        (literal (int (pos 1)))
                        Arithmetic.add
                        (binary (literal (int (pos 2))) Comparison.equal (literal (int (pos 3))));
                }
                ∷ [];
            where_ = absent;
            order_by = none;
            top = none;
            group_by = none;
            having = absent;
            distinct = false;
            select_into = none;
          },
          table_identifier (codes "t") none,
        ))
unfolding parse_text lex_loop scan parse_select parse_columns parse_expression read_digits
    parse_table_expression token_type_to_arithmetic_operation token_type_to_binary_operation
sum_of_comparison = refl

-- `CREATE TABLE t (id INT UNIQUE)` on a database with no table.
abbrev create_text : Str
create_text = codes "CREATE TABLE t (id INT UNIQUE)"

created : IsCheckedAnswer (parse create_text)
unfolding parse_text lex_loop scan str_eq
created = tt

created_alone : HoldsNoSubquery platform create_text
unfolding parse_text lex_loop scan str_eq
created_alone se se' = refl

abbrev nothing : Database ℕ
nothing = record { tables = []; default_engine = memory }

abbrev no_files : Str → Result Str
no_files name = Result.undefined

run_query-AllValid_example :
    AllValid platform
      (run_query platform built_in no_files (codes "") no_subquery create_text nothing).1
run_query-AllValid_example =
    run_query-AllValid platform built_in no_files (codes "") no_subquery create_text nothing
      created_alone created tt

-- `cities` and `people` are there.
abbrev truncate_text : Str
truncate_text = codes "TRUNCATE TABLE people"

truncated : AnswersElsewhere (codes "") (codes "cities") database (parse truncate_text)
unfolding parse_text lex_loop scan str_eq find_table
truncated = (refl, λ t e. rw (← named t e) refl)
  where
    named : (t : Table ℕ) → some people ≡ some t → people ≡ t
    named t e = cc

truncated_alone : HoldsNoSubquery platform truncate_text
unfolding parse_text lex_loop scan str_eq
truncated_alone se se' = refl

run_query-others_example :
    find_table
      (codes "cities")
      (run_query platform built_in no_files (codes "") no_subquery truncate_text database).1.tables
    ≡ find_table (codes "cities") database.tables
run_query-others_example =
    run_query-others platform built_in no_files (codes "") no_subquery truncate_text
      (codes "cities") database truncated_alone truncated

abbrev select_text : Str
select_text = codes "SELECT 1+2=3 FROM people"

selected_alone : HoldsNoSubquery platform select_text
unfolding parse_text lex_loop scan parse_select parse_columns parse_expression read_digits
    parse_table_expression token_type_to_arithmetic_operation token_type_to_binary_operation
selected_alone se se' = refl

selected : IsQueryAnswer (parse select_text)
unfolding parse_text lex_loop scan parse_select parse_columns parse_expression read_digits
    parse_table_expression token_type_to_arithmetic_operation token_type_to_binary_operation
selected = (refl, tt)

run_query-unchanged_example :
    (run_query platform built_in no_files (codes "") no_subquery select_text database).1 ≡ database
run_query-unchanged_example =
    run_query-unchanged platform built_in no_files (codes "") no_subquery select_text database
      selected_alone selected

abbrev token : TokenType → Str → Token
token type value = record { type = type; value = value; start = 0; end = 0 }

abbrev eof_token : Token
eof_token = token TokenType.eof (codes "EOF")

abbrev number_token : Str → Token
number_token value = token TokenType.int value

parse_statement-ends_example :
    parse_statement platform no_subquery (token TokenType.keyword_print (codes "PRINT") ∷ [])
    ≢ out_of_fuel
parse_statement-ends_example =
    parse_statement-ends platform no_subquery (token TokenType.keyword_print (codes "PRINT") ∷ [])

one : Stands platform no_subquery (number_token (codes "1")) (int (pos 1))
unfolding is_literal literal_value read_digits stoi
one = (refl, refl)

two : Stands platform no_subquery (number_token (codes "2")) (int (pos 2))
unfolding is_literal literal_value read_digits stoi
two = (refl, refl)

three : Stands platform no_subquery (number_token (codes "3")) (int (pos 3))
unfolding is_literal literal_value read_digits stoi
three = (refl, refl)

plus : IsInfix TokenType.op_add
unfolding is_binary_operator is_arithmetic_operator
plus = (refl, refl, refl, refl)

equals : IsInfix TokenType.op_equal
unfolding is_binary_operator is_arithmetic_operator
equals = (refl, refl, refl, refl)

ended : IsLast platform no_subquery eof_token
unfolding is_binary_operator is_arithmetic_operator
ended = refl

-- The sum of 1 and whether 2 is 3.
parse_expression-precedence_example :
    parse_expression platform no_subquery (calls platform no_subquery 2) 0 (
      number_token (codes "1")
      ∷ token TokenType.op_add (codes "+")
      ∷ number_token (codes "2")
      ∷ token TokenType.op_equal (codes "=")
      ∷ number_token (codes "3")
      ∷ eof_token
      ∷ [])
    ≡ read
        (arithmetic
          (literal (int (pos 1)))
          Arithmetic.add
          (binary (literal (int (pos 2))) Comparison.equal (literal (int (pos 3)))))
        (eof_token ∷ [])
unfolding level combine is_binary_operator token_type_to_arithmetic_operation
    token_type_to_binary_operation
parse_expression-precedence_example =
    parse_expression-precedence platform no_subquery 0 (number_token (codes "1"))
      (number_token (codes "2")) (number_token (codes "3")) (token TokenType.op_add (codes "+"))
      (token TokenType.op_equal (codes "=")) eof_token (int (pos 1)) (int (pos 2)) (int (pos 3)) []
      one two three plus equals ended
