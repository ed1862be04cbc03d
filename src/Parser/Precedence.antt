-- ===== src/Parser/Precedence.antt =====
-- db/sql/Parser.cpp: which of two operators binds tighter.
use essa_db.Prelude.{
  ℕ, suc, Bool, true, false, not, leb, ◌||◌, List, ◌∷◌, if◌then◌else◌, ok, refl, ◌≡◌, ◌∙◌,
  Bool-cases, inl, inr,
}
use essa_db.Value.Types.{Platform, Value}
use essa_db.Lexer.Token.{Token, TokenType, is}
use essa_db.Expression.{Expr, literal}
use essa_db.Query.Table.{SelectOptions, TableExpression}
use essa_db.Parser.Reply.{read, pure, lift, next, peek, ◌>>=◌}
use essa_db.Parser.Operator.{
  is_literal, operator_precedence, is_binary_operator, is_arithmetic_operator,
}
use essa_db.Parser.Simple.{literal_value, parse_literal}
use essa_db.Parser.Expression.{
  Calls, combine, parse_rhs, merge, merge_operand, parse_operand, parse_primary, parse_expression,
}
use essa_db.Parser.Levels.{IsInfix, level, precedence-level}
use essa_db.Parser.Query.{calls}

module _ (p : Platform) (se : SelectOptions p.Float → TableExpression p.Float → Expr p.Float) where
  open p use {Float}

  -- The token is a literal with that value.
  abbrev pub Stands : Token → Value Float → Type 0
  Stands t v = (is_literal t.type ≡ true) × (literal_value p t.type t.value ≡ ok v)

  type_of_literal :
      (type : TokenType)
      → is_literal type ≡ true
      → (is type TokenType.identifier ≡ false)
        × (is type TokenType.op_sub ≡ false)
        × (is type TokenType.paren_open ≡ false)
        × (is type TokenType.keyword_case ≡ false)
  unfolding is_literal
  type_of_literal TokenType.int h = (refl, refl, refl, refl)
  type_of_literal TokenType.float h = (refl, refl, refl, refl)
  type_of_literal TokenType.string h = (refl, refl, refl, refl)
  type_of_literal TokenType.bool h = (refl, refl, refl, refl)
  type_of_literal TokenType.date h = (refl, refl, refl, refl)
  type_of_literal TokenType.keyword_null h = (refl, refl, refl, refl)
  type_of_literal _ h = cc

  or-right : (x y : Bool) → y ≡ true → x || y ≡ true
  or-right true y h = refl
  or-right false y h = h

  module _ (rec : Calls Float) where
    primary-literal :
        (t : Token) (v : Value Float) (ts : List Token)
        → Stands t v
        → parse_primary p se rec (t ∷ ts) ≡ read (literal v) ts
    unfolding parse_primary parse_literal ◌>>=◌ peek next lift pure
    primary-literal t v ts (l, e) =
        let (a, b, c, d) = type_of_literal t.type l in simp (a, b, c, d, l, e)

    operand-stops :
        (lhs : Expr Float) (k : ℕ) (t : Token) (ts : List Token)
        → not (is_binary_operator t.type || is_arithmetic_operator t.type)
            || leb (operator_precedence t.type) k
          ≡ true
        → parse_operand p se rec lhs k (t ∷ ts) ≡ read lhs (t ∷ ts)
    unfolding parse_operand ◌>>=◌ peek pure
    operand-stops lhs k t ts h = rw h refl

    expression-literal :
        (k : ℕ) (t : Token) (v : Value Float) (ts : List Token)
        → Stands t v
        → parse_expression p se rec k (t ∷ ts) ≡ parse_operand p se rec (literal v) k ts
    unfolding parse_expression ◌>>=◌
    expression-literal k t v ts s = rw (primary-literal t v ts s) refl

    merge-same :
        (tight : Bool) (e : Expr Float) (ts : List Token)
        → (tight ≡ false → rec.operand e 0 ts ≡ read e ts)
        → merge p se rec tight e ts ≡ read e ts
    unfolding merge pure
    merge-same true e ts h = refl
    merge-same false e ts h = h refl

    operand-step :
        (lhs rhs : Expr Float) (k : ℕ) (o u : Token) (ts rest : List Token)
        → IsInfix o.type
        → leb (operator_precedence o.type) k ≡ false
        → rec.expression (operator_precedence o.type) ts ≡ read rhs (u ∷ rest)
        → merge p se rec
            (leb (operator_precedence u.type) (operator_precedence o.type))
            rhs
            (u ∷ rest)
          ≡ read rhs (u ∷ rest)
        → parse_operand p se rec lhs k (o ∷ ts) ≡ rec.operand (combine o.type lhs rhs) k (u ∷ rest)
    unfolding parse_operand parse_rhs merge_operand ◌>>=◌ peek next pure
    operand-step lhs rhs k o u ts rest (a, b, c, d) low e m = simp (a, b, c, d, low, e, m)

  precedence-pos : (op : TokenType) → leb (operator_precedence op) 0 ≡ false
  unfolding operator_precedence
  precedence-pos TokenType.keyword_is = refl
  precedence-pos _ = refl

  abbrev pub IsLast : Token → Type 0
  IsLast t = is_binary_operator t.type || is_arithmetic_operator t.type ≡ false

  module _ (n : ℕ) (a b c o1 o2 last : Token) (va vb vc : Value Float) (rest : List Token)
      (sa : Stands a va) (sb : Stands b vb) (sc : Stands c vc) (i1 : IsInfix o1.type)
      (i2 : IsInfix o2.type) (end : IsLast last) where
    stops-last :
        (rec : Calls Float) (e : Expr Float) (k : ℕ)
        → parse_operand p se rec e k (last ∷ rest) ≡ read e (last ∷ rest)
    stops-last rec e k = operand-stops rec e k last rest (rw end refl)

    last_operand :
        (rec : Calls Float) (k : ℕ)
        → parse_expression p se rec k (c ∷ last ∷ rest) ≡ read (literal vc) (last ∷ rest)
    last_operand rec k =
        expression-literal rec k c vc (last ∷ rest) sc ∙ stops-last rec (literal vc) k

    -- The second operator, behind an operand at whose place it may be read.
    second_step :
        (lhs : Expr Float) (k m : ℕ)
        → leb (operator_precedence o2.type) k ≡ false
        → parse_operand p se (calls p se (suc m)) lhs k (o2 ∷ c ∷ last ∷ rest)
          ≡ read (combine o2.type lhs (literal vc)) (last ∷ rest)
    unfolding calls
    second_step lhs k m low =
        operand-step (calls p se (suc m)) lhs (literal vc) k o2 last (c ∷ last ∷ rest) rest i2 low
          (last_operand (calls p se m) _)
          (merge-same (calls p se (suc m)) _ (literal vc) (last ∷ rest)
            λ h. stops-last (calls p se m) (literal vc) 0)
        ∙ stops-last (calls p se m) (combine o2.type lhs (literal vc)) k

    by_precedence :
        parse_expression p se (calls p se (suc (suc n))) 0 (a ∷ o1 ∷ b ∷ o2 ∷ c ∷ last ∷ rest)
        ≡ read
            (if leb (operator_precedence o2.type) (operator_precedence o1.type)
              then combine o2.type (combine o1.type (literal va) (literal vb)) (literal vc)
              else combine o1.type (literal va) (combine o2.type (literal vb) (literal vc)))
            (last ∷ rest)
    unfolding calls
    by_precedence =
        expression-literal (calls p se (suc (suc n))) 0 a va (o1 ∷ b ∷ o2 ∷ c ∷ last ∷ rest) sa
        ∙ elim (Bool-cases (leb (operator_precedence o2.type) (operator_precedence o1.type))) [
          | inl loose ↦ rw loose (
              operand-step (calls p se (suc (suc n))) (literal va) (literal vb) 0 o1 o2
                (b ∷ o2 ∷ c ∷ last ∷ rest) (c ∷ last ∷ rest) i1 (precedence-pos o1.type)
                (expression-literal (calls p se (suc n)) _ b vb (o2 ∷ c ∷ last ∷ rest) sb
                  ∙ operand-stops (calls p se (suc n)) (literal vb) _ o2 (c ∷ last ∷ rest)
                      (or-right _ _ loose))
                (merge-same (calls p se (suc (suc n))) _ (literal vb) (o2 ∷ c ∷ last ∷ rest)
                  λ h. cc)
              ∙ second_step (combine o1.type (literal va) (literal vb)) 0 n
                  (precedence-pos o2.type))
          | inr tight ↦ rw tight (
              operand-step (calls p se (suc (suc n))) (literal va)
                (combine o2.type (literal vb) (literal vc)) 0 o1 last (b ∷ o2 ∷ c ∷ last ∷ rest)
                rest i1 (precedence-pos o1.type)
                (expression-literal (calls p se (suc n)) _ b vb (o2 ∷ c ∷ last ∷ rest) sb
                  ∙ second_step (literal vb) (operator_precedence o1.type) n tight)
                (merge-same (calls p se (suc (suc n))) _ _ (last ∷ rest)
                  λ h. stops-last (calls p se (suc n)) _ 0)
              ∙ stops-last (calls p se (suc n)) _ 0)
        ]

    -- For three literals with two operators between them, neither of which is BETWEEN, IN or IS,
    -- and behind them a token that is no operator, `parse_expression` reads up to that token, and
    -- the second operator takes the middle literal just where it is of a tighter level than the
    -- first. The levels are, the tightest first: the asterisk; LIKE, MATCH, =, !=, > and <; AND;
    -- OR; `op_mul` and `op_div`; + and -.
    pub parse_expression-precedence :
        parse_expression p se (calls p se (suc (suc n))) 0 (a ∷ o1 ∷ b ∷ o2 ∷ c ∷ last ∷ rest)
        ≡ read
            (if leb (level o1.type) (level o2.type)
              then combine o2.type (combine o1.type (literal va) (literal vb)) (literal vc)
              else combine o1.type (literal va) (combine o2.type (literal vb) (literal vc)))
            (last ∷ rest)
    parse_expression-precedence = rw (← precedence-level o1.type o2.type i1 i2) by_precedence
