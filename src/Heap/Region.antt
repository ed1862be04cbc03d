-- ===== src/Heap/Region.antt =====
-- The region that an allocation gives out: inside the block, apart from every cell that is in use,
-- and a cell in use itself until it is freed.
use essa_db.Prelude.{
  ℕ, ◌+◌, ◌<◌, ◌≤◌, none, some, List, [], ◌∷◌, ok, ◌≡◌, refl, inl, inr, arith, ◌∙◌, subst,
  Bool-cases, ap,
}
use essa_db.Heap.Memory.{Memory}
use essa_db.Heap.Block.{header_size, alloc, free, init}
use essa_db.Heap.Chain.{Cell, Chain, Chain-le, fits, first_fit, take_first_fit}
use essa_db.Heap.Alloc.{Taken, Taken-le, alloc-Allocates, fits-room, available-not_taken}
use essa_db.Heap.Free.{InUse, give_back, free-Chain, fresh, init-Chain}

-- What holds of the payload at `p` that first fit chose in the cells `cs` from `q` on.
abbrev pub Apart : ℕ → ℕ → ℕ → ℕ → List Cell → Type 0
Apart n size p q cs =
    (q + header_size ≤ p)
    × (p + size + header_size ≤ n)
    × ((x : ℕ) → p ≤ x → x < p + size → ¬ Taken q cs x)
    × InUse p q (take_first_fit size cs)

pub first_fit-Apart :
    (m : Memory) (n size p q : ℕ) (cs : List Cell)
    → Chain m n q cs
    → first_fit size q cs ≡ some p
    → Apart n size p q cs
unfolding first_fit take_first_fit
first_fit-Apart m n size p q [] h e = cc
first_fit-Apart m n size p q (c ∷ cs) h e = elim (Bool-cases (fits size c)) [
  | inl f ↦
      let (free, room, le) = fits-room size c f in
      let here : p ≡ q + header_size = (let e' = rw (f) at e in cc) in
      let end = Chain-le m n (q + c.size + header_size) cs h.3 in
      (
        omega arith,
        omega arith,
        λ x lo hi t. elim t [
          | inl in_use ↦ available-not_taken c.status free in_use.0
          | inr later ↦ (let bound = Taken-le (q + c.size + header_size) cs x later in omega arith)
        ],
        rw (f) (inl (refl, here)),
      )
  | inr f ↦
      let (lo', end, apart, in_use) =
        first_fit-Apart m n size p (q + c.size + header_size) cs h.3 (rw (f) at e) in
      (
        omega arith,
        end,
        λ x lo hi t. elim t [ inl here ↦ omega arith | inr later ↦ apart x lo hi later ],
        rw (f) (inr in_use),
      )
]

-- If the n bytes of a block are a chain of the cells cs and `alloc` of `size` bytes, of less than
-- 2^64 - 16, gives the payload at p, then p is behind a header, `size` bytes from p on and
-- another header behind them lie in the block, and none of these `size` bytes belongs to the
-- payload of a cell of cs that is in use.
pub alloc-Apart :
    (n size p : ℕ) (cs : List Cell) (m m' : Memory)
    → size + 16 < 18446744073709551616
    → Chain m n 0 cs
    → alloc n size m ≡ some (ok (some p), m')
    → (header_size ≤ p)
      × (p + size + header_size ≤ n)
      × ((x : ℕ) → p ≤ x → x < p + size → ¬ Taken 0 cs x)
alloc-Apart n size p cs m m' fine h e =
    let (m'', out, chain, kept) = alloc-Allocates n size cs m fine h in
    let answer : first_fit size 0 cs ≡ some p = cc in
    let (lo, end, apart, in_use) = first_fit-Apart m n size p 0 cs h answer in (lo, end, apart)

-- If the n bytes of a block are a chain of the cells cs and `alloc` of less than 2^64 - 16 bytes
-- gives the payload at p with the memory m', then after `free` of p in m' the bytes are a chain
-- again: of the cells of first fit with the one at p given back.
pub alloc-free :
    (n size p : ℕ) (cs : List Cell) (m m' : Memory)
    → size + 16 < 18446744073709551616
    → Chain m n 0 cs
    → alloc n size m ≡ some (ok (some p), m')
    → Chain (free p m') n 0 (give_back p 0 (take_first_fit size cs))
alloc-free n size p cs m m' fine h e =
    let (m'', out, chain, kept) = alloc-Allocates n size cs m fine h in
    let answer : first_fit size 0 cs ≡ some p = cc in
    let (lo, end, apart, in_use) = first_fit-Apart m n size p 0 cs h answer in
    let same : m'' ≡ m' = cc in
    free-Chain m' n p 0 (take_first_fit size cs)
      (subst (λ a. Chain a n 0 (take_first_fit size cs)) same chain) in_use

-- In a block of n bytes, 16 <= n < 2^32, that `init` has made, `alloc` of more than n - 32 and
-- less than 2^64 - 16 bytes gives no payload.
pub init-alloc-none :
    (n size : ℕ) (m : Memory)
    → 16 ≤ n
    → n < 4294967296
    → n < size + 32
    → size + 16 < 18446744073709551616
    → (m' : Memory) × (alloc n size (init n m) ≡ some (ok none, m'))
init-alloc-none n size m low high big fine =
    let (m', out, chain, kept) =
      alloc-Allocates n size (fresh n) (init n m) fine (init-Chain n m low high) in
    let full : first_fit size 0 (fresh n) ≡ none = (unfold first_fit in ground arith) in
    (m', out ∙ ap (λ a. some (ok a, m')) full)
