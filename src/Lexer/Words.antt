-- ===== src/Lexer/Words.antt =====
-- The type of a word: that of its spelling in capitals.
use essa_db.Prelude.{
  ℕ, ◌-◌, leb, ◌&&◌, ◌||◌, Str, codes, str_eq, str_eq_iff, Bool, true, false, Option, none, some,
  List, [], ◌∷◌, ◌++◌, if◌then◌else◌, ◌≡◌, refl, arith, ap, ◌∙◌, map,
}
use essa_db.Lexer.Token.{TokenType, keywords}
use essa_db.Lexer.Scan.{compare_case_insensitive, find_keyword, plain_word, classify, to_upper}

-- The capital of one of the letters from a, 97, to z, 122.
abbrev pub capital : ℕ → ℕ
capital c = if leb 97 c && leb c 122 then c - 32 else c

-- The words that are neither keywords nor identifiers, in capitals.
abbrev pub others : List (Str × TokenType)
others =
    (codes "TRUE", TokenType.bool)
    ∷ (codes "FALSE", TokenType.bool)
    ∷ (codes "ASC", TokenType.order_by_param)
    ∷ (codes "DESC", TokenType.order_by_param)
    ∷ []

abbrev pub words : List (Str × TokenType)
words = keywords ++ others

-- The type of the first of some words that is spelled just like `id`.
unfoldable pub spelled : Str → List (Str × TokenType) → TokenType
spelled id [] = TokenType.identifier
spelled id ((w, type) ∷ ws) = let rest = spelled id ws in if str_eq w id then type else rest

compare-capital :
    (a b : Str) → compare_case_insensitive a b ≡ str_eq (map capital a) (map capital b)
unfolding compare_case_insensitive to_upper str_eq
compare-capital [] [] = refl
compare-capital [] (d ∷ b) = refl
compare-capital (c ∷ a) [] = refl
compare-capital (c ∷ a) (d ∷ b) = rw (compare-capital a b) refl

str_eq-swap : (a b : Str) → str_eq a b ≡ str_eq b a
str_eq-swap a b = ground (arith, str_eq_iff a b, str_eq_iff b a)

abbrev pub all_capitals : List (Str × TokenType) → Bool
all_capitals [] = true
all_capitals ((w, type) ∷ ws) = str_eq (map capital w) w && all_capitals ws

pub keywords-capitals : all_capitals keywords ≡ true
unfolding str_eq
keywords-capitals = refl

pub capitals-first :
    (w : Str) (type : TokenType) (ws : List (Str × TokenType))
    → all_capitals ((w, type) ∷ ws) ≡ true
    → (map capital w ≡ w) × (all_capitals ws ≡ true)
capitals-first w type ws h =
    let whole : str_eq (map capital w) w ≡ true = ground arith in
    ((str_eq_iff (map capital w) w).0 whole, ground arith)

pub compare-spelling :
    (w id : Str) → map capital w ≡ w → compare_case_insensitive w id ≡ str_eq w (map capital id)
compare-spelling w id h = compare-capital w id ∙ ap (λ v. str_eq v (map capital id)) h

abbrev pub or_plain : Option (Str × TokenType) → Str × TokenType → Str × TokenType
or_plain o plain = elim o [ some k ↦ k | none ↦ plain ]

pub classify_lem : (a : Str) → classify a ≡ or_plain (find_keyword a keywords) (plain_word a)
unfolding classify
classify_lem a = refl

pub compare-right :
    (w id : Str) → map capital w ≡ w → compare_case_insensitive id w ≡ str_eq w (map capital id)
compare-right w id h =
    compare-capital id w ∙ ap (λ v. str_eq (map capital id) v) h ∙ str_eq-swap (map capital id) w

abbrev pub plain_type : Bool → Bool → Bool → Bool → Str → Str × TokenType
plain_type a b c d id =
    if a
    then (codes "TRUE", TokenType.bool)
    else if b
    then (codes "FALSE", TokenType.bool)
    else if c || d
    then (id, TokenType.order_by_param)
    else (id, TokenType.identifier)

pick_others :
    (a b c d : Bool) (id : Str)
    → (plain_type a b c d id).1 ≡ (
        if a
        then TokenType.bool
        else if b
        then TokenType.bool
        else if c
        then TokenType.order_by_param
        else if d
        then TokenType.order_by_param
        else TokenType.identifier)
pick_others true b c d id = refl
pick_others false true c d id = refl
pick_others false false true d id = refl
pick_others false false false true id = refl
pick_others false false false false id = refl

plain_word-others : (id : Str) → (plain_word id).1 ≡ spelled (map capital id) others
unfolding plain_word spelled
plain_word-others id =
    rw
      (
        compare-right (codes "TRUE") id refl,
        compare-right (codes "FALSE") id refl,
        compare-right (codes "ASC") id refl,
        compare-right (codes "DESC") id refl,
      )
      (pick_others (str_eq (codes "TRUE") (map capital id))
        (str_eq (codes "FALSE") (map capital id)) (str_eq (codes "ASC") (map capital id))
        (str_eq (codes "DESC") (map capital id)) id)

find_keyword-spelled :
    (id : Str) (ks : List (Str × TokenType))
    → all_capitals ks ≡ true
    → (or_plain (find_keyword id ks) (plain_word id)).1 ≡ spelled (map capital id) (ks ++ others)
unfolding find_keyword spelled
find_keyword-spelled id [] h = plain_word-others id
find_keyword-spelled id ((w, type) ∷ ws) h =
    let (whole, rest) = capitals-first w type ws h in
    let later = find_keyword-spelled id ws rest in
    rw (compare-spelling w id whole)
      (by_test (str_eq w (map capital id)) (find_keyword id ws) (plain_word id) later)
  where
    by_test :
        (b : Bool) (o : Option (Str × TokenType)) (plain : Str × TokenType) {later : TokenType}
        → (or_plain o plain).1 ≡ later
        → (or_plain (if b then some (w, type) else o) plain).1 ≡ (if b then type else later)
    by_test true o plain e = refl
    by_test false o plain e = e

-- The type of the token of a word is, once its letters from a to z are replaced by their
-- capitals, that of the first entry of the table of keywords, or else of TRUE, FALSE, ASC and
-- DESC, that is spelled just so, and else that of an identifier.
pub classify-spelled : (id : Str) → (classify id).1 ≡ spelled (map capital id) words
classify-spelled id =
    ap (λ (k : Str × TokenType). k.1) (classify_lem id)
    ∙ find_keyword-spelled id keywords keywords-capitals
