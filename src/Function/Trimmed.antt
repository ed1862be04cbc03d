-- ===== src/Function/Trimmed.antt =====
-- db/sql/ast/Function.cpp: what LTRIM, RTRIM and TRIM take away.
use mathlib.Core.List.{append_assoc}
use essa_db.Prelude.{
  ℕ, ◌≡◌, refl, sym, Str, true, false, [], ◌∷◌, ◌++◌, reverse, All, All-append, append_nil, ap, ◌∙◌,
  Bool-cases, inl, inr,
}
use essa_db.Value.Number.{is_space}
use essa_db.Function.Letters.{ltrim_loop, ltrim, rtrim_loop, rtrim, trim_loop, trim}

-- White space all through; no white space at the front.
abbrev pub IsBlank : Str → Type 0
IsBlank s = All (λ c. is_space c ≡ true) s

abbrev pub StartsClean : Str → Type 0
StartsClean [] = Unit
StartsClean (c ∷ s) = is_space c ≡ false

reverse-snoc : (s : Str) (c : ℕ) → reverse (s ++ (c ∷ [])) ≡ c ∷ reverse s
reverse-snoc [] c = refl
reverse-snoc (b ∷ s) c = ap (λ u. u ++ (b ∷ [])) (reverse-snoc s c)

-- Once a byte that is no white space was seen, LTRIM keeps everything.
ltrim_loop-keeps : (s : Str) → ltrim_loop true s ≡ s
unfolding ltrim_loop
ltrim_loop-keeps [] = refl
ltrim_loop-keeps (c ∷ s) = ap (λ u. c ∷ u) (ltrim_loop-keeps s)

ltrim-space : (c : ℕ) (s : Str) → is_space c ≡ true → ltrim (c ∷ s) ≡ ltrim s
unfolding ltrim ltrim_loop
ltrim-space c s h = rw h

ltrim-other : (c : ℕ) (s : Str) → is_space c ≡ false → ltrim (c ∷ s) ≡ c ∷ s
unfolding ltrim ltrim_loop
ltrim-other c s h = rw h (ap (λ u. c ∷ u) (ltrim_loop-keeps s))

-- LTRIM takes white space away, and leaves none at the front.
pub ltrim_lem :
    (s : Str) → (front : Str) × IsBlank front × (s ≡ front ++ ltrim s) × StartsClean (ltrim s)
ltrim_lem [] = ([], tt, unfold ltrim in refl, unfold ltrim in tt)
ltrim_lem (c ∷ s) = elim (Bool-cases (is_space c)) [
  | inl space ↦
      let (front, blank, e, clean) = ltrim_lem s in
      let step = ltrim-space c s space in
      (c ∷ front, (space, blank), rw step (ap (λ u. c ∷ u) e), rw step clean)
  | inr other ↦ let step = ltrim-other c s other in ([], tt, sym step, rw step other)
]

-- A round of RTRIM.
rtrim-space :
    (result temp : Str) (c : ℕ) (s : Str)
    → is_space c ≡ true
    → rtrim_loop result temp (c ∷ s) ≡ rtrim_loop result (temp ++ (c ∷ [])) s
unfolding rtrim_loop
rtrim-space result temp c s h = rw h

rtrim-other :
    (result temp : Str) (c : ℕ) (s : Str)
    → is_space c ≡ false
    → rtrim_loop result temp (c ∷ s) ≡ rtrim_loop (result ++ (temp ++ (c ∷ []))) [] s
unfolding rtrim_loop
rtrim-other result temp c s h = rw h

append_snoc :
    (result temp : Str) (c : ℕ) (s : Str)
    → result ++ (temp ++ (c ∷ s)) ≡ (result ++ (temp ++ (c ∷ []))) ++ s
append_snoc result temp c s =
    ap (λ u. result ++ u) (sym (append_assoc temp (c ∷ []) s))
    ∙ sym (append_assoc result (temp ++ (c ∷ [])) s)

reverse-clean :
    (result temp : Str) (c : ℕ)
    → is_space c ≡ false
    → StartsClean (reverse (result ++ (temp ++ (c ∷ []))))
reverse-clean result temp c other =
    rw (← append_assoc result temp (c ∷ [])) (rw (reverse-snoc (result ++ temp) c) other)

-- What the loop of RTRIM takes away is white space, and it leaves none at the end.
rtrim_loop_lem :
    (result temp s : Str)
    → IsBlank temp
    → StartsClean (reverse result)
    → (back : Str) × IsBlank back
      × (result ++ (temp ++ s) ≡ rtrim_loop result temp s ++ back)
      × StartsClean (reverse (rtrim_loop result temp s))
rtrim_loop_lem result temp [] blank clean =
    unfold rtrim_loop in (temp, blank, ap (λ u. result ++ u) (append_nil temp), clean)
rtrim_loop_lem result temp (c ∷ s) blank clean = elim (Bool-cases (is_space c)) [
  | inl space ↦
      let step = rtrim-space result temp c s space in
      let (back, q, e, k) =
        rtrim_loop_lem result (temp ++ (c ∷ [])) s
          (All-append (λ b. is_space b ≡ true) temp (c ∷ []) blank (space, tt)) clean in
      (back, q, rw step (ap (λ u. result ++ u) (sym (append_assoc temp (c ∷ []) s)) ∙ e), rw step k)
  | inr other ↦
      let step = rtrim-other result temp c s other in
      let (back, q, e, k) =
        rtrim_loop_lem (result ++ (temp ++ (c ∷ []))) [] s tt (reverse-clean result temp c other) in
      (back, q, rw step (append_snoc result temp c s ∙ e), rw step k)
]

pub rtrim_lem :
    (s : Str)
    → (back : Str) × IsBlank back × (s ≡ rtrim s ++ back) × StartsClean (reverse (rtrim s))
unfolding rtrim
rtrim_lem s = rtrim_loop_lem [] [] s tt tt

-- The loop of RTRIM only ever adds to its result.
rtrim_loop-starts :
    (c : ℕ) (result temp s : Str) → (rest : Str) × (rtrim_loop (c ∷ result) temp s ≡ c ∷ rest)
rtrim_loop-starts c result temp [] = (result, unfold rtrim_loop in refl)
rtrim_loop-starts c result temp (b ∷ s) = elim (Bool-cases (is_space b)) [
  | inl space ↦
      let (rest, e) = rtrim_loop-starts c result (temp ++ (b ∷ [])) s in
      (rest, rtrim-space (c ∷ result) temp b s space ∙ e)
  | inr other ↦
      let (rest, e) = rtrim_loop-starts c (result ++ (temp ++ (b ∷ []))) [] s in
      (rest, rtrim-other (c ∷ result) temp b s other ∙ e)
]

-- Where a text starts with no white space, so it does after RTRIM.
rtrim-StartsClean : (s : Str) → StartsClean s → StartsClean (rtrim s)
rtrim-StartsClean [] h = unfold rtrim rtrim_loop in tt
rtrim-StartsClean (c ∷ s) h =
    let (rest, e) = rtrim_loop-starts c [] [] s in
    unfold rtrim in rw (rtrim-other [] [] c s h ∙ e) h

-- Once TRIM has seen the first byte that is no white space, it does what RTRIM does.
trim_loop-rtrim : (result temp s : Str) → trim_loop true result temp s ≡ rtrim_loop result temp s
unfolding trim_loop rtrim_loop
trim_loop-rtrim result temp [] = refl
trim_loop-rtrim result temp (c ∷ s) = elim (Bool-cases (is_space c)) [
  | inl space ↦ rw space (trim_loop-rtrim result (temp ++ (c ∷ [])) s)
  | inr other ↦
      rw (other, append_nil (temp ++ (c ∷ [])))
        (trim_loop-rtrim (result ++ (temp ++ (c ∷ []))) [] s)
]

-- TRIM is RTRIM after LTRIM.
pub trim-rtrim : (s : Str) → trim s ≡ rtrim (ltrim s)
unfolding trim rtrim trim_loop
trim-rtrim [] = unfold ltrim ltrim_loop rtrim_loop in refl
trim-rtrim (c ∷ s) = elim (Bool-cases (is_space c)) [
  | inl space ↦ rw (space, ltrim-space c s space) (trim-rtrim s)
  | inr other ↦
      rw (other, ltrim-other c s other)
        (trim_loop-rtrim (c ∷ []) [] s ∙ sym (rtrim-other [] [] c s other))
]

-- Every text is what TRIM leaves of it, with white space alone before and behind it; and what
-- TRIM leaves neither begins nor ends with white space.
pub trim_lem :
    (s : Str)
    → (front back : Str) × IsBlank front
      × IsBlank back
      × (s ≡ front ++ (trim s ++ back))
      × StartsClean (trim s)
      × StartsClean (reverse (trim s))
trim_lem s =
    let (front, blank, e, clean) = ltrim_lem s in
    let (back, blank', e', clean') = rtrim_lem (ltrim s) in
    (
      front,
      back,
      blank,
      blank',
      rw (trim-rtrim s) (e ∙ ap (λ u. front ++ u) e'),
      rw (trim-rtrim s) (rtrim-StartsClean (ltrim s) clean),
      rw (trim-rtrim s) clean',
    )
