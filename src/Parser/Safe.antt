-- ===== src/Parser/Safe.antt =====
-- db/sql/Parser.cpp: how the steps of the parser move, counted in the tokens that are left.
pub mod Expressions
pub mod Queries
pub mod Statements
pub mod Tables
use essa_db.Prelude.{
  ℕ, suc, ◌<◌, ◌≤◌, String, Bool, true, false, Option, none, some, List, [], ◌∷◌, length,
  if◌then◌else◌, Result, DbError, arith, ◌≡◌, refl, ◌≢◌, Bool-cases, inl, inr,
}
use essa_db.Prelude
use essa_db.Lexer.Token.{Token, TokenType, is}
use essa_db.Parser.Reply.{
  Reply, read, failed, undefined, out_of_fuel, Parser, pure, fail, lift, next, peek, peek_second,
  skip, expect, expect_quoting_next, require, accept, ◌>>=◌, ◌>>◌, continue,
}

-- The parser kept within its fuel, and leaves `n` tokens at most if it reads something.
pub data Within {A : Type 0} (n : ℕ) : Reply A → Type 0 where
  reads : {a : A} {rest : List Token} → length rest ≤ n → Within n (read a rest)
  fails : {e : DbError} → Within n (failed e)
  stops : Within n undefined

-- So it does on every list of fewer than `n` tokens, and it never gives a token back.
unfoldable pub Safe : {A : Type 0} → ℕ → Parser A → Type 0
Safe n m = (ts : List Token) → length ts < n → Within (length ts) (m ts)

module _ {A : Type 0} where
  pub Within-out_of_fuel : {n : ℕ} {r : Reply A} → Within n r → r ≢ out_of_fuel
  Within-out_of_fuel (reads h) = cc
  Within-out_of_fuel fails = cc
  Within-out_of_fuel stops = cc

  pub Within-le : {k n : ℕ} {r : Reply A} → k ≤ n → Within k r → Within n r
  Within-le l (reads h) = reads (omega arith)
  Within-le l fails = fails
  Within-le l stops = stops

  pub Safe-le : {k n : ℕ} (m : Parser A) → k ≤ n → Safe n m → Safe k m
  unfolding Safe
  Safe-le m l hm ts h = hm ts (omega arith)

  pub pure-Safe : (n : ℕ) (a : A) → Safe n (pure a)
  unfolding Safe pure
  pure-Safe n a ts h = reads (omega arith)

  pub lift-Safe : (n : ℕ) (r : Result A) → Safe n (lift r)
  unfolding Safe lift
  lift-Safe n (Prelude.ok a) ts h = reads (omega arith)
  lift-Safe n (Prelude.err e) ts h = fails
  lift-Safe n Prelude.undefined ts h = stops

  pub if-Safe :
      (n : ℕ) (b : Bool) (l r : Parser A) → Safe n l → Safe n r → Safe n (if b then l else r)
  if-Safe n true l r hl hr = hl
  if-Safe n false l r hl hr = hr

pub fail-Safe : (A : Type 0) (n : ℕ) (e : DbError) → Safe n (fail {A = A} e)
unfolding Safe fail
fail-Safe A n e ts h = fails

module _ {A B : Type 0} where
  pub bind-Safe :
      (n : ℕ) (m : Parser A) (f : A → Parser B)
      → Safe n m
      → ((a : A) → Safe n (f a))
      → Safe n (m >>= f)
  unfolding Safe ◌>>=◌
  bind-Safe n m f hm hf ts h = continues (m ts) (hm ts h)
    where
      continues : (r : Reply A) → Within (length ts) r → Within (length ts) (continue r f)
      continues (read a rest) (reads k) = Within-le k (hf a rest (omega arith))
      continues (failed e) fails = fails
      continues undefined stops = stops
      continues out_of_fuel k = elim k [ ]

module _ {B : Type 0} (n : ℕ) where
  -- Behind a token the bound is one lower.
  pub next-Safe : (f : Token → Parser B) → ((t : Token) → Safe n (f t)) → Safe (suc n) (next >>= f)
  unfolding Safe ◌>>=◌ next
  next-Safe f hf [] h = stops
  next-Safe f hf (t ∷ ts) h = Within-le (omega arith) (hf t ts (omega arith))

  pub skip-Safe :
      (f : Unit {0} → Parser B) → ((u : Unit {0}) → Safe n (f u)) → Safe (suc n) (skip >>= f)
  unfolding Safe ◌>>=◌ next pure
  skip-Safe f hf [] h = stops
  skip-Safe f hf (t ∷ ts) h = Within-le (omega arith) (hf tt ts (omega arith))

  pub expects-Safe :
      (type : TokenType) (what : String) (f : Token → Parser B)
      → ((t : Token) → Safe n (f t))
      → Safe (suc n) (expect type what >>= f)
  unfolding Safe ◌>>=◌ expect next pure fail
  expects-Safe type what f hf [] h = stops
  expects-Safe type what f hf (t ∷ ts) h = elim (Bool-cases (is t.type type)) [
    | inl same ↦ rw same (Within-le (omega arith) (hf t ts (omega arith)))
    | inr other ↦ rw other fails
  ]

  pub accept-Safe :
      (type : TokenType) (f : Bool → Parser B)
      → Safe n (f true)
      → Safe (suc n) (f false)
      → Safe (suc n) (accept type >>= f)
  unfolding Safe ◌>>=◌ accept peek next pure
  accept-Safe type f ht hf [] h = stops
  accept-Safe type f ht hf (t ∷ ts) h = elim (Bool-cases (is t.type type)) [
    | inl same ↦ rw same (Within-le (omega arith) (ht ts (omega arith)))
    | inr other ↦ rw other (hf (t ∷ ts) h)
  ]

pub token-Safe : (n : ℕ) → Safe n next
unfolding Safe next
token-Safe n [] h = stops
token-Safe n (t ∷ ts) h = reads (omega arith)

pub peek-Safe : (n : ℕ) → Safe n peek
unfolding Safe peek
peek-Safe n [] h = stops
peek-Safe n (t ∷ ts) h = reads (omega arith)

pub peek_second-Safe : (n : ℕ) → Safe n peek_second
unfolding Safe peek_second
peek_second-Safe n [] h = stops
peek_second-Safe n (t ∷ []) h = stops
peek_second-Safe n (t ∷ u ∷ ts) h = reads (omega arith)

pub ruleset steps =
    (if-Safe, bind-Safe, pure-Safe, fail-Safe, lift-Safe, token-Safe, peek-Safe, peek_second-Safe)

pub expect-Safe : (n : ℕ) (type : TokenType) (what : String) → Safe n (expect type what)
unfolding expect
expect-Safe n type what = search steps

pub expect_quoting_next-Safe :
    (n : ℕ) (type : TokenType) (what : String) → Safe n (expect_quoting_next type what)
unfolding expect_quoting_next
expect_quoting_next-Safe n type what = search steps

pub accepts-Safe : (n : ℕ) (type : TokenType) → Safe n (accept type)
unfolding accept
accepts-Safe n type = search steps

pub require-Safe : (n : ℕ) (type : TokenType) (what : String) → Safe n (require type what)
unfolding require
require-Safe n type what = search steps

pub ruleset words = (steps, expect-Safe, expect_quoting_next-Safe, accepts-Safe, require-Safe)
