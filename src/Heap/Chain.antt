-- ===== src/Heap/Chain.antt =====
-- What the bytes of a heap block mean: a chain of headers, from the first byte to the end edge, each
-- in front of its payload. The abstract view of a block is the list of its cells.
use essa_db.Prelude.{
  ℕ, ◌+◌, ◌-◌, ◌<◌, ◌≤◌, ltb, Bool, true, false, not, ◌&&◌, Option, none, some, List, [], ◌∷◌,
  if◌then◌else◌, ◌≡◌, arith, length, ◌∙◌,
}
use essa_db.Heap.Memory.{Memory, read32, read32-agree}
use essa_db.Heap.Block.{used, empty, freed, end_edge, header_size}

pub data Status : Type 0 where
  never_used taken given_back : Status

pub record Cell : Type 0 where
  pub status : Status
  pub size : ℕ

abbrev pub signature : Status → ℕ
signature never_used = empty
signature taken = used
signature given_back = freed

abbrev pub is_free : Status → Bool
is_free never_used = true
is_free taken = false
is_free given_back = true

-- The cells from the header at `q` on, in a block with `n` bytes of data.
abbrev pub Chain : Memory → ℕ → ℕ → List Cell → Type 0
Chain m n q [] = (read32 m q ≡ end_edge) × (q + header_size ≡ n)
Chain m n q (c ∷ cs) =
    (read32 m q ≡ signature c.status)
    × (read32 m (q + 4) ≡ c.size)
    × (c.size < 4294967296)
    × Chain m n (q + c.size + header_size) cs

-- The chain stays inside the block.
pub Chain-le : (m : Memory) (n q : ℕ) (cs : List Cell) → Chain m n q cs → q + header_size ≤ n
Chain-le m n q [] h = omega arith
Chain-le m n q (c ∷ cs) h = let rest = Chain-le m n (q + c.size + header_size) cs h.3 in omega arith

-- A chain has no more cells than its block has room for headers.
pub length-Chain-le :
    (m : Memory) (n q : ℕ) (cs : List Cell) → Chain m n q cs → q + length cs + 1 ≤ n
length-Chain-le m n q [] h = omega arith
length-Chain-le m n q (c ∷ cs) h =
    let rest = length-Chain-le m n (q + c.size + header_size) cs h.3 in omega arith

-- Only the bytes from `q` on matter to the chain at `q`.
pub Chain-agree :
    (m m' : Memory) (n q : ℕ) (cs : List Cell)
    → ((x : ℕ) → q ≤ x → m' x ≡ m x)
    → Chain m n q cs
    → Chain m' n q cs
Chain-agree m m' n q [] same h = (read32-agree m m' q (λ x lo hi. same x lo) ∙ h.0, h.1)
Chain-agree m m' n q (c ∷ cs) same h = (
  read32-agree m m' q (λ x lo hi. same x lo) ∙ h.0,
  read32-agree m m' (q + 4) (λ x lo hi. same x (omega arith)) ∙ h.1,
  h.2,
  Chain-agree m m' n (q + c.size + header_size) cs (λ x lo. same x (omega arith)) h.3,
)

-- First fit: the payload of the first free cell that holds `size` bytes and another header behind
-- them, with eight bytes to spare.
abbrev pub fits : ℕ → Cell → Bool
fits size c = is_free c.status && not (ltb c.size (size + header_size + header_size))

unfoldable pub first_fit : ℕ → ℕ → List Cell → Option ℕ
first_fit size q [] = none
first_fit size q (c ∷ cs) =
    if fits size c then some (q + header_size) else first_fit size (q + c.size + header_size) cs

-- The cells once that cell is taken and its rest is a free cell of its own.
unfoldable pub take_first_fit : ℕ → List Cell → List Cell
take_first_fit size [] = []
take_first_fit size (c ∷ cs) =
    if fits size c
    then record { status = taken; size = size }
      ∷ record { status = never_used; size = c.size - size - header_size }
      ∷ cs
    else c ∷ take_first_fit size cs
