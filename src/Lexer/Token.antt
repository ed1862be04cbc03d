-- ===== src/Lexer/Token.antt =====
-- db/sql/Lexer.hpp: tokens; and the table of keywords of db/sql/Lexer.cpp.
use essa_db.Prelude.{ℕ, Str, codes, List, [], ◌∷◌, Bool, ◌==◌}

-- `Token::Type`
pub data TokenType : Type 0 where
  keyword_add keyword_all keyword_alter keyword_and : TokenType
  keyword_as keyword_between keyword_by keyword_case : TokenType
  keyword_check keyword_column keyword_constraint keyword_create : TokenType
  keyword_default keyword_delete keyword_distinct keyword_drop : TokenType
  keyword_else keyword_end keyword_engine keyword_exists : TokenType
  keyword_from keyword_foreign keyword_full keyword_group : TokenType
  keyword_having keyword_import keyword_if keyword_in : TokenType
  keyword_inner keyword_insert keyword_into keyword_is : TokenType
  keyword_join keyword_key keyword_like keyword_match : TokenType
  keyword_not keyword_null keyword_on keyword_or : TokenType
  keyword_order keyword_outer keyword_over keyword_partition : TokenType
  keyword_primary keyword_print keyword_references keyword_select : TokenType
  keyword_set keyword_show keyword_table keyword_tables : TokenType
  keyword_then keyword_top keyword_truncate keyword_union : TokenType
  keyword_unique keyword_update keyword_values keyword_when : TokenType
  keyword_where : TokenType
  asterisk bool comma date exclamation float : TokenType
  identifier int order_by_param paren_close paren_open period : TokenType
  semicolon string op_equal op_greater op_less op_not_equal : TokenType
  op_add op_sub op_mul op_div eof garbage : TokenType

-- The values of the enumeration, and its `operator==`.
abbrev pub number : TokenType → ℕ
number keyword_add = 0
number keyword_all = 1
number keyword_alter = 2
number keyword_and = 3
number keyword_as = 4
number keyword_between = 5
number keyword_by = 6
number keyword_case = 7
number keyword_check = 8
number keyword_column = 9
number keyword_constraint = 10
number keyword_create = 11
number keyword_default = 12
number keyword_delete = 13
number keyword_distinct = 14
number keyword_drop = 15
number keyword_else = 16
number keyword_end = 17
number keyword_engine = 18
number keyword_exists = 19
number keyword_from = 20
number keyword_foreign = 21
number keyword_full = 22
number keyword_group = 23
number keyword_having = 24
number keyword_import = 25
number keyword_if = 26
number keyword_in = 27
number keyword_inner = 28
number keyword_insert = 29
number keyword_into = 30
number keyword_is = 31
number keyword_join = 32
number keyword_key = 33
number keyword_like = 34
number keyword_match = 35
number keyword_not = 36
number keyword_null = 37
number keyword_on = 38
number keyword_or = 39
number keyword_order = 40
number keyword_outer = 41
number keyword_over = 42
number keyword_partition = 43
number keyword_primary = 44
number keyword_print = 45
number keyword_references = 46
number keyword_select = 47
number keyword_set = 48
number keyword_show = 49
number keyword_table = 50
number keyword_tables = 51
number keyword_then = 52
number keyword_top = 53
number keyword_truncate = 54
number keyword_union = 55
number keyword_unique = 56
number keyword_update = 57
number keyword_values = 58
number keyword_when = 59
number keyword_where = 60
number asterisk = 61
number bool = 62
number comma = 63
number date = 64
number exclamation = 65
number float = 66
number identifier = 67
number int = 68
number order_by_param = 69
number paren_close = 70
number paren_open = 71
number period = 72
number semicolon = 73
number string = 74
number op_equal = 75
number op_greater = 76
number op_less = 77
number op_not_equal = 78
number op_add = 79
number op_sub = 80
number op_mul = 81
number op_div = 82
number eof = 83
number garbage = 84

abbrev pub is : TokenType → TokenType → Bool
is t u = number t == number u

pub record Token : Type 0 where
  pub type : TokenType
  pub value : Str
  pub start : ℕ
  pub end : ℕ

-- `keyword_to_token_type`
abbrev pub keywords : List (Str × TokenType)
keywords =
    (codes "ADD", keyword_add)
    ∷ (codes "ALL", keyword_all)
    ∷ (codes "ALTER", keyword_alter)
    ∷ (codes "AND", keyword_and)
    ∷ (codes "AS", keyword_as)
    ∷ (codes "BETWEEN", keyword_between)
    ∷ (codes "BY", keyword_by)
    ∷ (codes "CASE", keyword_case)
    ∷ (codes "CHECK", keyword_check)
    ∷ (codes "COLUMN", keyword_column)
    ∷ (codes "CONSTRAINT", keyword_constraint)
    ∷ (codes "CREATE", keyword_create)
    ∷ (codes "DEFAULT", keyword_default)
    ∷ (codes "DELETE", keyword_delete)
    ∷ (codes "DISTINCT", keyword_distinct)
    ∷ (codes "DROP", keyword_drop)
    ∷ (codes "ELSE", keyword_else)
    ∷ (codes "END", keyword_end)
    ∷ (codes "ENGINE", keyword_engine)
    ∷ (codes "EXISTS", keyword_exists)
    ∷ (codes "FROM", keyword_from)
    ∷ (codes "FOREIGN", keyword_foreign)
    ∷ (codes "FULL", keyword_full)
    ∷ (codes "GROUP", keyword_group)
    ∷ (codes "HAVING", keyword_having)
    ∷ (codes "IMPORT", keyword_import)
    ∷ (codes "IF", keyword_if)
    ∷ (codes "IN", keyword_in)
    ∷ (codes "INNER", keyword_inner)
    ∷ (codes "INSERT", keyword_insert)
    ∷ (codes "INTO", keyword_into)
    ∷ (codes "IS", keyword_is)
    ∷ (codes "JOIN", keyword_join)
    ∷ (codes "KEY", keyword_key)
    ∷ (codes "LIKE", keyword_like)
    ∷ (codes "MATCH", keyword_match)
    ∷ (codes "NOT", keyword_not)
    ∷ (codes "NULL", keyword_null)
    ∷ (codes "ON", keyword_on)
    ∷ (codes "OR", keyword_or)
    ∷ (codes "ORDER", keyword_order)
    ∷ (codes "OUTER", keyword_outer)
    ∷ (codes "OVER", keyword_over)
    ∷ (codes "PARTITION", keyword_partition)
    ∷ (codes "PRIMARY", keyword_primary)
    ∷ (codes "PRINT", keyword_print)
    ∷ (codes "REFERENCES", keyword_references)
    ∷ (codes "SELECT", keyword_select)
    ∷ (codes "SET", keyword_set)
    ∷ (codes "SHOW", keyword_show)
    ∷ (codes "TABLE", keyword_table)
    ∷ (codes "TABLES", keyword_tables)
    ∷ (codes "THEN", keyword_then)
    ∷ (codes "TOP", keyword_top)
    ∷ (codes "TRUNCATE", keyword_truncate)
    ∷ (codes "UNION", keyword_union)
    ∷ (codes "UNIQUE", keyword_unique)
    ∷ (codes "UPDATE", keyword_update)
    ∷ (codes "VALUES", keyword_values)
    ∷ (codes "WHEN", keyword_when)
    ∷ (codes "WHERE", keyword_where)
    ∷ []
