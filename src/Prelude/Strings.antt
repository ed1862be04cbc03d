-- ===== src/Prelude/Strings.antt =====
-- Byte strings: `std::string` as the list of its bytes.
use Prim.Native.Nat.{ℕ}
use Prim.Native.Char.{code}
use Prim.Native.String.{String}
use mathlib.Core.Path.{◌≡◌, refl, subst}
use mathlib.Core.Logic.{◌↔◌}
use mathlib.Core.Bool.{Bool, true, false, ◌&&◌}
use mathlib.Core.List.{List, [], ◌∷◌}
use native.Mathlib.Omega.{arith}
use essa_db.Prelude.Tests.{ltb, ◌==◌, if◌then◌else◌}

abbrev pub Str : Type 0
Str = List ℕ

-- The bytes of an ASCII literal.
abbrev pub codes : String → Str
codes String.[] = []
codes (String.◌∷◌ c s) = code c ∷ codes s

-- `operator==` of `std::string`.
unfoldable pub str_eq : Str → Str → Bool
str_eq [] [] = true
str_eq [] (b ∷ bs) = false
str_eq (a ∷ as') [] = false
str_eq (a ∷ as') (b ∷ bs) = a == b && str_eq as' bs

-- `operator<` of `std::string`: bytes compare unsigned, a proper prefix comes first.
unfoldable pub str_lt : Str → Str → Bool
str_lt [] [] = false
str_lt [] (b ∷ bs) = true
str_lt (a ∷ as') [] = false
str_lt (a ∷ as') (b ∷ bs) = if a == b then str_lt as' bs else ltb a b

pub str_eq_refl : (s : Str) → str_eq s s ≡ true
unfolding str_eq
str_eq_refl [] = refl
str_eq_refl (a ∷ s) = ground (arith, str_eq_refl s)

pub str_eq→≡ : (s t : Str) → str_eq s t ≡ true → s ≡ t
unfolding str_eq
str_eq→≡ [] [] h = refl
str_eq→≡ [] (b ∷ t) h = ground arith
str_eq→≡ (a ∷ s) [] h = ground arith
str_eq→≡ (a ∷ s) (b ∷ t) h = ground (arith, str_eq→≡ s t)

pub str_eq_iff : (s t : Str) → (str_eq s t ≡ true) ↔ (s ≡ t)
str_eq_iff s t = (str_eq→≡ s t, λ e. subst (λ u. str_eq s u ≡ true) e (str_eq_refl s))

-- Exactly one of equal, less, greater.
pub str_lt_total :
    (s t : Str) → str_lt t s ≡ (if str_eq s t then false else if str_lt s t then false else true)
unfolding str_eq str_lt
str_lt_total [] [] = refl
str_lt_total [] (b ∷ t) = refl
str_lt_total (a ∷ s) [] = refl
str_lt_total (a ∷ s) (b ∷ t) = ground (arith, str_lt_total s t)

pub str_lt_of_eq : (s t : Str) → str_eq s t ≡ true → str_lt s t ≡ false
unfolding str_eq str_lt
str_lt_of_eq [] [] h = refl
str_lt_of_eq [] (b ∷ t) h = ground arith
str_lt_of_eq (a ∷ s) [] h = refl
str_lt_of_eq (a ∷ s) (b ∷ t) h = ground (arith, str_lt_of_eq s t)
