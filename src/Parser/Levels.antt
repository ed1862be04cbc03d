-- ===== src/Parser/Levels.antt =====
-- db/sql/Parser.cpp: the operators between two expressions, by how tight they bind.
use essa_db.Prelude.{
  ℕ, suc, arith, [], Bool, true, false, leb, ◌||◌, List, ◌∷◌, if◌then◌else◌, refl, ◌≡◌, ◌⊎◌, inl,
  inr,
}
use essa_db.Lexer.Token.{TokenType, is}
use essa_db.Parser.Operator.{operator_precedence, is_binary_operator, is_arithmetic_operator}

-- An operator between two expressions: not BETWEEN, IN or IS.
abbrev pub IsInfix : TokenType → Type 0
IsInfix op =
    (is_binary_operator op || is_arithmetic_operator op ≡ true)
    × (is op TokenType.keyword_between ≡ false)
    × (is op TokenType.keyword_in ≡ false)
    × (is op TokenType.keyword_is ≡ false)

-- The operators between two expressions by how tight they bind, the tightest first.
abbrev pub levels : List (List TokenType)
levels =
    (TokenType.asterisk ∷ [])
    ∷ (TokenType.keyword_like ∷ TokenType.keyword_match ∷ TokenType.op_equal
        ∷ TokenType.op_not_equal ∷ TokenType.op_greater ∷ TokenType.op_less ∷ [])
    ∷ (TokenType.keyword_and ∷ [])
    ∷ (TokenType.keyword_or ∷ [])
    ∷ (TokenType.op_mul ∷ TokenType.op_div ∷ [])
    ∷ (TokenType.op_add ∷ TokenType.op_sub ∷ [])
    ∷ []

one_of : TokenType → List TokenType → Bool
one_of op [] = false
one_of op (o ∷ os) = is op o || one_of op os

-- The place of the level that holds an operator.
level_in : TokenType → List (List TokenType) → ℕ
unfolding one_of
level_in op [] = 0
level_in op (l ∷ ls) = if one_of op l then 0 else suc (level_in op ls)

unfoldable pub level : TokenType → ℕ
unfolding level_in
level op = level_in op levels

-- The number of each level in `Parser::operator_precedence`.
abbrev Numbered : TokenType → Type 0
Numbered op =
    ((level op ≡ 0) × (operator_precedence op ≡ 100000))
    ⊎ ((level op ≡ 1) × (operator_precedence op ≡ 500))
    ⊎ ((level op ≡ 2) × (operator_precedence op ≡ 150))
    ⊎ ((level op ≡ 3) × (operator_precedence op ≡ 100))
    ⊎ ((level op ≡ 4) × (operator_precedence op ≡ 15))
    ⊎ ((level op ≡ 5) × (operator_precedence op ≡ 10))

infix-Numbered : (op : TokenType) → IsInfix op → Numbered op
unfolding level operator_precedence is_binary_operator is_arithmetic_operator
infix-Numbered TokenType.asterisk h = inl (refl, refl)
infix-Numbered TokenType.keyword_like h = inr (inl (refl, refl))
infix-Numbered TokenType.keyword_match h = inr (inl (refl, refl))
infix-Numbered TokenType.op_equal h = inr (inl (refl, refl))
infix-Numbered TokenType.op_not_equal h = inr (inl (refl, refl))
infix-Numbered TokenType.op_greater h = inr (inl (refl, refl))
infix-Numbered TokenType.op_less h = inr (inl (refl, refl))
infix-Numbered TokenType.keyword_and h = inr (inr (inl (refl, refl)))
infix-Numbered TokenType.keyword_or h = inr (inr (inr (inl (refl, refl))))
infix-Numbered TokenType.op_mul h = inr (inr (inr (inr (inl (refl, refl)))))
infix-Numbered TokenType.op_div h = inr (inr (inr (inr (inl (refl, refl)))))
infix-Numbered TokenType.op_add h = inr (inr (inr (inr (inr (refl, refl)))))
infix-Numbered TokenType.op_sub h = inr (inr (inr (inr (inr (refl, refl)))))
infix-Numbered TokenType.keyword_between h = cc (h.1)
infix-Numbered TokenType.keyword_in h = cc (h.2)
infix-Numbered TokenType.keyword_is h = cc (h.3)
infix-Numbered _ h = cc (h.0)

pub precedence-level :
    (o1 o2 : TokenType)
    → IsInfix o1
    → IsInfix o2
    → leb (operator_precedence o2) (operator_precedence o1) ≡ leb (level o1) (level o2)
precedence-level o1 o2 h k =
    let a = infix-Numbered o1 h in let b = infix-Numbered o2 k in ground arith
