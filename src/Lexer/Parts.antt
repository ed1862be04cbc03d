-- ===== src/Lexer/Parts.antt =====
-- db/sql/Lexer.cpp: what a round of the lexer takes off the text, and what it makes of that.
use essa_db.Prelude.{
  ℕ, ◌==◌, ◌&&◌, ◌||◌, Str, codes, str_eq_iff, Bool, true, false, Option, none, some, List, [], ◌∷◌,
  ◌++◌, All, Result, ok, ◌≡◌, refl, arith, ap, sym, ◌∙◌, map, ◌⊎◌, inl, inr, Bool-cases,
}
use essa_db.Value.Number.{is_digit, is_space, skip_space}
use essa_db.Lexer.Token.{TokenType, Token, keywords}
use essa_db.Lexer.Scan.{
  Stream, Scanned, is_alpha, word, number, quoted, quoted_behind_space, drop_line, scan_word,
  scan_space, scan_number, comment, classify, find_keyword, plain_word, compare_case_insensitive,
}
use essa_db.Lexer.Words.{
  capital, compare-spelling, compare-right, all_capitals, keywords-capitals, capitals-first,
  or_plain, classify_lem, plain_type,
}

abbrev IsSpace : ℕ → Type 0
IsSpace c = is_space c ≡ true

-- A line end, 10, stands at the end at most.
abbrev pub IsLine : Str → Type 0
IsLine [] = Unit
IsLine (c ∷ []) = Unit
IsLine (c ∷ d ∷ r) = (c == 10 ≡ false) × IsLine (d ∷ r)

-- White space, or a comment up to the end of its line.
abbrev pub IsGap : Str → Type 0
IsGap g = All IsSpace g ⊎ ((r : Str) × (g ≡ b'-' ∷ b'-' ∷ 32 ∷ r) × IsLine r)

-- Begins with the character that opens a text, a name or a date.
abbrev pub Opens : TokenType → Str → Type 0
Opens type [] = ⊥
Opens type (c ∷ r) =
    ((type ≡ TokenType.string) × (c ≡ 39))
    ⊎ ((type ≡ TokenType.identifier) × (c ≡ b'['))
    ⊎ ((type ≡ TokenType.date) × (c ≡ b'#'))

-- The token has the part of the text as its value; or, a keyword, its capitals; or, a number, all but a
-- second point; or it is what is between quotes.
abbrev pub IsPart : Token → Str → Type 0
IsPart t part =
    (part ≡ t.value)
    ⊎ (map capital part ≡ t.value)
    ⊎ (part ≡ t.value ++ (b'.' ∷ []))
    ⊎ Opens t.type part

pub word-parts : (s : Str) → s ≡ (word s).0 ++ (word s).1
unfolding word
word-parts [] = refl
word-parts (c ∷ s) = elim (Bool-cases (is_alpha c || is_digit c || c == b'_')) [
  | inl e ↦ rw e (ap (λ r. c ∷ r) (word-parts s))
  | inr e ↦ rw e refl
]

number-parts :
    (b : Bool) (s : Str)
    → (s ≡ (number b s).0 ++ (number b s).1) ⊎ (s ≡ (number b s).0 ++ (b'.' ∷ (number b s).1))
unfolding number
number-parts b [] = inl refl
number-parts b (c ∷ s) = elim (Bool-cases (c == b'.' && b)) [
  | inl e ↦ rw e (inr (let same : c ≡ b'.' = ground arith in rw same refl))
  | inr e ↦ rw e (elim (Bool-cases (is_digit c || c == b'.')) [
    | inr f ↦ rw f (inl refl)
    | inl f ↦ rw f (elim (number-parts (b || c == b'.') s) [
      | inl g ↦ inl (ap (λ r. c ∷ r) g)
      | inr g ↦ inr (ap (λ r. c ∷ r) g)
    ])
  ])
]

pub quoted-parts : (q : ℕ) (s : Str) → (p : Str) × (s ≡ p ++ (quoted q s).1)
unfolding quoted
quoted-parts q [] = ([], refl)
quoted-parts q (c ∷ s) = elim (Bool-cases (c == q)) [
  | inl e ↦ rw e (c ∷ [], refl)
  | inr e ↦ rw e (let (p, f) = quoted-parts q s in (c ∷ p, ap (λ r. c ∷ r) f))
]

skip_space-parts : (s : Str) → (g : Str) × (s ≡ g ++ skip_space s) × All IsSpace g
unfolding skip_space
skip_space-parts [] = ([], refl, tt)
skip_space-parts (c ∷ s) = elim (Bool-cases (is_space c)) [
  | inl e ↦ rw e (let (g, f, all) = skip_space-parts s in (c ∷ g, ap (λ r. c ∷ r) f, (e, all)))
  | inr e ↦ rw e ([], refl, tt)
]

pub drop_line-parts : (s : Str) → (g : Str) × (s ≡ g ++ (drop_line s).0) × IsLine g
unfolding drop_line
drop_line-parts [] = ([], refl, tt)
drop_line-parts (c ∷ s) = elim (Bool-cases (c == 10)) [
  | inl e ↦ rw e (c ∷ [], refl, tt)
  | inr e ↦
      rw e (let (g, f, line) = drop_line-parts s in (c ∷ g, ap (λ r. c ∷ r) f, longer g e line))
]
  where
    longer : (g : Str) → c == 10 ≡ false → IsLine g → IsLine (c ∷ g)
    longer [] e l = tt
    longer (d ∷ g) e l = (e, l)

-- What a round of the lexer that stands at `s.rest` takes off it.
abbrev pub Takes : Str → Option Token → Str → Type 0
Takes text none rest = (g : Str) × (text ≡ g ++ rest) × IsGap g
Takes text (some t) rest = (part : Str) × (text ≡ part ++ rest) × IsPart t part

abbrev pub TakesFrom : Str → Result Scanned → Type 0
TakesFrom text (ok sc) = Takes text sc.emitted sc.stream.rest
TakesFrom text _ = Unit {0}

-- The value of a word is the word, or its capitals.
IsWord : Str → Str → Type 0
IsWord id value = (id ≡ value) ⊎ (map capital id ≡ value)

spelled_right :
    (w id : Str) → map capital w ≡ w → compare_case_insensitive id w ≡ true → map capital id ≡ w
spelled_right w id h e = sym ((str_eq_iff w (map capital id)).0 (sym (compare-right w id h) ∙ e))

plain_type-IsWord :
    (a b c d : Bool) (id : Str)
    → (a ≡ true → map capital id ≡ codes "TRUE")
    → (b ≡ true → map capital id ≡ codes "FALSE")
    → IsWord id (plain_type a b c d id).0
unfolding IsWord
plain_type-IsWord true b c d id h k = inr (h refl)
plain_type-IsWord false true c d id h k = inr (k refl)
plain_type-IsWord false false true d id h k = inl refl
plain_type-IsWord false false false true id h k = inl refl
plain_type-IsWord false false false false id h k = inl refl

plain_word-IsWord : (id : Str) → IsWord id (plain_word id).0
unfolding plain_word
plain_word-IsWord id =
    plain_type-IsWord (compare_case_insensitive id (codes "TRUE"))
      (compare_case_insensitive id (codes "FALSE")) (compare_case_insensitive id (codes "ASC"))
      (compare_case_insensitive id (codes "DESC")) id (spelled_right (codes "TRUE") id refl)
      (spelled_right (codes "FALSE") id refl)

find_keyword-IsWord :
    (id : Str) (ks : List (Str × TokenType))
    → all_capitals ks ≡ true
    → (plain : Str × TokenType) → IsWord id plain.0
    → IsWord id (or_plain (find_keyword id ks) plain).0
unfolding find_keyword
find_keyword-IsWord id [] h plain p = p
find_keyword-IsWord id ((w, type) ∷ ws) h plain p =
    let (whole, rest) = capitals-first w type ws h in
    elim (Bool-cases (compare_case_insensitive w id)) [
      | inl e ↦ rw e (
          unfold IsWord in
          inr (sym ((str_eq_iff w (map capital id)).0 (sym (compare-spelling w id whole) ∙ e))))
      | inr e ↦ rw e (find_keyword-IsWord id ws rest plain p)
    ]

classify-IsWord : (id : Str) → IsWord id (classify id).0
classify-IsWord id =
    rw (classify_lem id)
      (find_keyword-IsWord id keywords keywords-capitals (plain_word id) (plain_word-IsWord id))

behind_point : (a b : Str) → a ++ (b'.' ∷ b) ≡ (a ++ (b'.' ∷ [])) ++ b
behind_point [] b = refl
behind_point (c ∷ a) b = ap (λ r. c ∷ r) (behind_point a b)

module _ (s : Stream) where
  pub scan_word-Takes : TakesFrom s.rest (ok (scan_word s))
  unfolding scan_word IsWord
  scan_word-Takes = (
    (word s.rest).0,
    word-parts s.rest,
    elim (classify-IsWord (word s.rest).0) [ inl e ↦ inl e | inr e ↦ inr (inl e) ],
  )

  pub scan_space-Takes : TakesFrom s.rest (ok (scan_space s))
  unfolding scan_space
  scan_space-Takes = let (g, e, all) = skip_space-parts s.rest in (g, e, inl all)

  pub scan_number-Takes : TakesFrom s.rest (ok (scan_number s))
  unfolding scan_number
  scan_number-Takes = elim (number-parts false s.rest) [
    | inl e ↦ ((number false s.rest).0, e, inl refl)
    | inr e ↦ (
      (number false s.rest).0 ++ (b'.' ∷ []),
      e ∙ behind_point (number false s.rest).0 (number false s.rest).1,
      inr (inr (inl refl)),
    )
  ]

append_assoc : (a b c : Str) → a ++ (b ++ c) ≡ (a ++ b) ++ c
append_assoc [] b c = refl
append_assoc (x ∷ a) b c = ap (λ r. x ∷ r) (append_assoc a b c)

pub quoted_behind_space-parts :
    (q : ℕ) (s : Str) → (p : Str) × (s ≡ p ++ (quoted_behind_space q s).1)
unfolding quoted_behind_space
quoted_behind_space-parts q s =
    let (g, e, all) = skip_space-parts s in behind (skip_space s) refl g e
  where
    behind :
        (u : Str)
        → skip_space s ≡ u
        → (g : Str) → s ≡ g ++ skip_space s
        → (p : Str) × (s ≡ p ++ (quoted_behind_space q s).1)
    behind [] e g f = rw e (g, f ∙ ap (λ r. g ++ r) e)
    behind (c ∷ u) e g f =
        let (p, h) = quoted-parts q (c ∷ u) in
        rw e (g ++ p, f ∙ ap (λ r. g ++ r) (e ∙ h) ∙ append_assoc g p (quoted q (c ∷ u)).1)

pub comment-parts : (r : Str) {behind : Str} → comment r ≡ some behind → r ≡ b'-' ∷ 32 ∷ behind
unfolding comment
comment-parts [] e = cc
comment-parts (c ∷ []) e = cc
comment-parts (c ∷ d ∷ r) e = elim (Bool-cases (c == b'-' && d == 32)) [
  | inl f ↦
      let both : (c ≡ b'-') × (d ≡ 32) = ground arith in
      let e' : some r ≡ some _ = rw f at e in
      rw (both.0, both.1) (ap (λ u. b'-' ∷ 32 ∷ u) (some-same e'))
  | inr f ↦ let e' : Path (Option Str) none (some _) = rw f at e in cc
]
  where
    some-same : {u v : Str} → Path (Option Str) (some u) (some v) → u ≡ v
    some-same e = cc
