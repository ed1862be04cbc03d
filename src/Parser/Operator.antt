-- ===== src/Parser/Operator.antt =====
-- db/sql/Parser.cpp: the tables of operators, joins and aggregates.
use essa_db.Prelude.{ℕ, Str, codes, Bool, true, false, ◌||◌, ◌&&◌, if◌then◌else◌}
use essa_db.Lexer.Token.{Token, TokenType, is}
use essa_db.Lexer.Scan.{compare_case_insensitive}
use essa_db.Aggregate.{AggregateFunction}
use essa_db.Expression.{Comparison, Arithmetic}
use essa_db.Query.Join.{JoinType}

unfoldable pub is_literal : TokenType → Bool
is_literal TokenType.int = true
is_literal TokenType.float = true
is_literal TokenType.string = true
is_literal TokenType.bool = true
is_literal TokenType.date = true
is_literal TokenType.keyword_null = true
is_literal _ = false

unfoldable pub operator_precedence : TokenType → ℕ
operator_precedence TokenType.keyword_is = 500
operator_precedence TokenType.keyword_like = 500
operator_precedence TokenType.keyword_match = 500
operator_precedence TokenType.op_equal = 500
operator_precedence TokenType.op_not_equal = 500
operator_precedence TokenType.op_greater = 500
operator_precedence TokenType.op_less = 500
operator_precedence TokenType.keyword_between = 200
operator_precedence TokenType.keyword_in = 200
operator_precedence TokenType.keyword_and = 150
operator_precedence TokenType.keyword_or = 100
operator_precedence TokenType.op_mul = 15
operator_precedence TokenType.op_div = 15
operator_precedence TokenType.op_add = 10
operator_precedence TokenType.op_sub = 10
operator_precedence _ = 100000

unfoldable pub is_binary_operator : TokenType → Bool
is_binary_operator TokenType.keyword_and = true
is_binary_operator TokenType.keyword_or = true
is_binary_operator TokenType.keyword_between = true
is_binary_operator TokenType.keyword_in = true
is_binary_operator TokenType.keyword_is = true
is_binary_operator TokenType.keyword_like = true
is_binary_operator TokenType.keyword_match = true
is_binary_operator TokenType.op_equal = true
is_binary_operator TokenType.op_not_equal = true
is_binary_operator TokenType.op_greater = true
is_binary_operator TokenType.op_less = true
is_binary_operator _ = false

unfoldable pub is_arithmetic_operator : TokenType → Bool
is_arithmetic_operator TokenType.op_add = true
is_arithmetic_operator TokenType.op_sub = true
is_arithmetic_operator TokenType.asterisk = true
is_arithmetic_operator TokenType.op_mul = true
is_arithmetic_operator TokenType.op_div = true
is_arithmetic_operator _ = false

-- The words LEFT and RIGHT are identifiers to the lexer.
unfoldable pub is_word : Token → Str → Bool
unfolding compare_case_insensitive
is_word t word = is t.type TokenType.identifier && compare_case_insensitive t.value word

unfoldable pub is_join_expression : Token → Bool
unfolding is_word
is_join_expression t =
    is_word t (codes "LEFT")
    || is_word t (codes "RIGHT")
    || is t.type TokenType.keyword_inner
    || is t.type TokenType.keyword_outer
    || is t.type TokenType.keyword_full
    || is t.type TokenType.comma

unfoldable pub token_type_to_binary_operation : TokenType → Comparison
token_type_to_binary_operation TokenType.op_equal = Comparison.equal
token_type_to_binary_operation TokenType.op_less = Comparison.less
token_type_to_binary_operation TokenType.op_greater = Comparison.greater
token_type_to_binary_operation TokenType.op_not_equal = Comparison.not_equal
token_type_to_binary_operation TokenType.keyword_like = Comparison.like
token_type_to_binary_operation TokenType.keyword_match = Comparison.matches
token_type_to_binary_operation TokenType.keyword_and = Comparison.and
token_type_to_binary_operation TokenType.keyword_or = Comparison.or
token_type_to_binary_operation _ = Comparison.invalid

unfoldable pub token_type_to_arithmetic_operation : TokenType → Arithmetic
token_type_to_arithmetic_operation TokenType.op_add = Arithmetic.add
token_type_to_arithmetic_operation TokenType.op_sub = Arithmetic.sub
token_type_to_arithmetic_operation TokenType.op_mul = Arithmetic.mul
token_type_to_arithmetic_operation TokenType.asterisk = Arithmetic.mul
token_type_to_arithmetic_operation TokenType.op_div = Arithmetic.div
token_type_to_arithmetic_operation _ = Arithmetic.invalid

unfoldable pub token_to_join_operation : Token → JoinType
unfolding is_word
token_to_join_operation t =
    if is_word t (codes "LEFT")
    then JoinType.left_join
    else if is_word t (codes "RIGHT")
    then JoinType.right_join
    else if is t.type TokenType.keyword_inner
    then JoinType.inner_join
    else if is t.type TokenType.keyword_outer
    then JoinType.outer_join
    else JoinType.invalid

unfoldable pub to_aggregate_function : Str → AggregateFunction
unfolding compare_case_insensitive
to_aggregate_function name =
    if compare_case_insensitive name (codes "COUNT")
    then AggregateFunction.count
    else if compare_case_insensitive name (codes "SUM")
    then AggregateFunction.sum
    else if compare_case_insensitive name (codes "MIN")
    then AggregateFunction.min
    else if compare_case_insensitive name (codes "MAX")
    then AggregateFunction.max
    else if compare_case_insensitive name (codes "AVG")
    then AggregateFunction.avg
    else AggregateFunction.invalid
