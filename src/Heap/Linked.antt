-- ===== src/Heap/Linked.antt =====
-- What the heap blocks of a file mean: a list of blocks with rising indices, each a chain of cells.
use essa_db.Prelude.{
  ℕ, ◌+◌, ◌<◌, ◌≤◌, ◌≡◌, ◌≢◌, ◌⊎◌, refl, inl, inr, true, Option, none, some, List, [], ◌∷◌, ◌++◌,
  arith, length, Bool-cases,
}
use essa_db.Heap.Block.{data_size}
use essa_db.Heap.Chain.{Cell, Chain, fits, first_fit, take_first_fit}
use essa_db.Heap.Alloc.{Taken}
use essa_db.Heap.File.{Block, EdbFile, HeapPtr, block_header_size}
use essa_db.Heap.Blocks.{is_heap}

-- The heap blocks by their indices, with their cells.
abbrev pub HeapBlocks : Type 0
HeapBlocks = List (ℕ × List Cell)

abbrev pub IsHeapBlock : EdbFile → Block → List Cell → Type 0
IsHeapBlock f block cs =
    (is_heap block.type ≡ true) × Chain block.bytes (data_size f.block_size) 0 cs

-- The list from block `q` on, of blocks behind `lo`.
abbrev pub Linked : EdbFile → ℕ → ℕ → HeapBlocks → Type 0
Linked f lo q [] = q ≡ 0
Linked f lo q ((b, cs) ∷ ls) =
    (q ≡ b)
    × (lo < b)
    × (b < f.block_count)
    × IsHeapBlock f (f.blocks b) cs
    × Linked f b (f.blocks b).next_block ls

-- A byte of a payload that is in use, by its block and its place in it.
abbrev pub TakenIn : HeapBlocks → ℕ → ℕ → Type 0
TakenIn [] b x = ⊥
TakenIn ((b', cs) ∷ ls) b x = ((b ≡ b') × Taken 0 cs x) ⊎ TakenIn ls b x

-- First fit in the first block that has a cell that fits.
unfoldable pub first_fit_block : ℕ → HeapBlocks → Option HeapPtr
first_fit_block size [] = none
first_fit_block size ((b, cs) ∷ ls) = elim (first_fit size 0 cs) [
  | some p ↦ some (record { block = b; offset = p + block_header_size })
  | none ↦ first_fit_block size ls
]

unfoldable pub take_first_fit_block : ℕ → HeapBlocks → HeapBlocks
take_first_fit_block size [] = []
take_first_fit_block size ((b, cs) ∷ ls) = elim (first_fit size 0 cs) [
  | some p ↦ (b, take_first_fit size cs) ∷ ls
  | none ↦ (b, cs) ∷ take_first_fit_block size ls
]

pub take-none :
    (size q : ℕ) (cs : List Cell) → first_fit size q cs ≡ none → take_first_fit size cs ≡ cs
unfolding first_fit take_first_fit
take-none size q [] e = refl
take-none size q (c ∷ cs) e = elim (Bool-cases (fits size c)) [
  | inl f ↦ (let e' = rw (f) at e in cc)
  | inr f ↦ rw (f, take-none size (q + c.size + 8) cs (rw (f) at e)) refl
]

module _ (size b : ℕ) (cs : List Cell) (ls : HeapBlocks) where
  pub first_block-fits :
      (p : ℕ)
      → first_fit size 0 cs ≡ some p
      → (first_fit_block size ((b, cs) ∷ ls)
          ≡ some (record { block = b; offset = p + block_header_size }))
        × (take_first_fit_block size ((b, cs) ∷ ls) ≡ (b, take_first_fit size cs) ∷ ls)
  unfolding first_fit_block take_first_fit_block
  first_block-fits p e = (rw (e, first_fit_block) refl, rw (e, take_first_fit_block) refl)

  pub first_block-full :
      first_fit size 0 cs ≡ none
      → (first_fit_block size ((b, cs) ∷ ls) ≡ first_fit_block size ls)
        × (take_first_fit_block size ((b, cs) ∷ ls)
            ≡ (b, take_first_fit size cs) ∷ take_first_fit_block size ls)
  unfolding first_fit_block take_first_fit_block
  first_block-full e =
      (rw (e, first_fit_block) refl, rw (e, take_first_fit_block) (rw (take-none size 0 cs e) refl))

pub take_block-none :
    (size : ℕ) (ls : HeapBlocks)
    → first_fit_block size ls ≡ none
    → take_first_fit_block size ls ≡ ls
unfolding first_fit_block take_first_fit_block
take_block-none size [] e = refl
take_block-none size ((b, cs) ∷ ls) e = by_fit (first_fit size 0 cs) (take_block-none size ls) e
  where
    by_fit :
        (o : Option ℕ)
        → (first_fit_block size ls ≡ none → take_first_fit_block size ls ≡ ls)
        → elim o [
          | some p ↦ some (record { block = b; offset = p + block_header_size })
          | none ↦ first_fit_block size ls
        ]
          ≡ none
        → elim o [
          | some p ↦ (b, take_first_fit size cs) ∷ ls
          | none ↦ (b, cs) ∷ take_first_fit_block size ls
        ]
          ≡ (b, cs) ∷ ls
    by_fit none rest e = rw (rest e) refl
    by_fit (some p) rest e = cc

-- The last block of the list, and `lo` where it is empty.
abbrev pub last_block : ℕ → HeapBlocks → ℕ
last_block lo [] = lo
last_block lo ((b, cs) ∷ ls) = last_block b ls

pub last-take :
    (size lo : ℕ) (ls : HeapBlocks)
    → last_block lo (take_first_fit_block size ls) ≡ last_block lo ls
unfolding take_first_fit_block
last-take size lo [] = refl
last-take size lo ((b, cs) ∷ ls) = by_fit (first_fit size 0 cs) (last-take size b ls)
  where
    by_fit :
        (o : Option ℕ)
        → last_block b (take_first_fit_block size ls) ≡ last_block b ls
        → last_block lo (elim o [
          | some p ↦ (b, take_first_fit size cs) ∷ ls
          | none ↦ (b, cs) ∷ take_first_fit_block size ls
        ])
          ≡ last_block b ls
    by_fit none rest = rest
    by_fit (some p) rest = refl

pub last-Linked :
    (f : EdbFile) (lo q : ℕ) (ls : HeapBlocks) → Linked f lo q ls → lo ≤ last_block lo ls
last-Linked f lo q [] h = omega arith
last-Linked f lo q ((b, cs) ∷ ls) h =
    let rest = last-Linked f b (f.blocks b).next_block ls h.4 in omega (arith, h.1)

-- The list has fewer blocks than the file.
pub length-Linked :
    (f : EdbFile) (lo q : ℕ) (ls : HeapBlocks)
    → Linked f lo q ls
    → lo < f.block_count
    → lo + length ls < f.block_count
length-Linked f lo q [] h k = omega arith
length-Linked f lo q ((b, cs) ∷ ls) h k =
    let rest = length-Linked f b (f.blocks b).next_block ls h.4 h.2 in omega (arith, h.1)

-- Only the blocks behind `lo` matter to the list.
pub Linked-agree :
    (f g : EdbFile) (lo q : ℕ) (ls : HeapBlocks)
    → g.block_size ≡ f.block_size
    → f.block_count ≤ g.block_count
    → ((b : ℕ) → lo < b → b < f.block_count → g.blocks b ≡ f.blocks b)
    → Linked f lo q ls
    → Linked g lo q ls
Linked-agree f g lo q [] size more same h = h
Linked-agree f g lo q ((b, cs) ∷ ls) size more same h =
    let (at, above, inside, is, rest) = h in
    let kept = same b above inside in
    (
      at,
      above,
      omega arith,
      rw (kept, size) is,
      rw (kept) (
          Linked-agree f g b (f.blocks b).next_block ls size more
            (λ x lo' hi. same x (omega arith) hi) rest),
    )

-- What a new block at the end of the list makes of the file.
pub record Extends (f g : EdbFile) (last new : ℕ) (cs : List Cell) : Type 0 where
  pub same_size : g.block_size ≡ f.block_size
  pub behind : f.block_count ≤ new
  pub inside : new < g.block_count
  pub others : (b : ℕ) → b ≢ last → b < f.block_count → g.blocks b ≡ f.blocks b
  pub linked : g.blocks last ≡ record (f.blocks last) { next_block = new }
  pub is_new : IsHeapBlock g (g.blocks new) cs
  pub at_end : (g.blocks new).next_block ≡ 0

-- The block that a list begins at once it has a new last block.
abbrev pub entry : ℕ → ℕ → HeapBlocks → ℕ
entry new q [] = new
entry new q (l ∷ ls) = q

pub extend-Linked :
    (f g : EdbFile) (new lo q : ℕ) (new_cells : List Cell) (ls : HeapBlocks)
    → lo < new
    → Extends f g (last_block lo ls) new new_cells
    → Linked f lo q ls
    → Linked g lo (entry new q ls) (ls ++ ((new, new_cells) ∷ []))
extend-Linked f g new lo q new_cells [] low e h = (refl, low, e.inside, e.is_new, e.at_end)
extend-Linked f g new lo q new_cells ((b, cs) ∷ []) low e (at, above, inside, is, end) =
    let k = e.inside in
    let j = e.behind in
    (
      at,
      above,
      omega arith,
      rw (e.linked, e.same_size) is,
      rw (e.linked) (extend-Linked f g new b 0 new_cells [] (omega arith) e refl),
    )
extend-Linked f g new lo q new_cells ((b, cs) ∷ (b', cs') ∷ ls) low e
      (at, above, inside, is, rest) =
    let k = e.inside in
    let j = e.behind in
    let far = last-Linked f b' (f.blocks b').next_block ls rest.4 in
    let kept = e.others b (omega (arith, rest.1)) inside in
    (
      at,
      above,
      omega arith,
      rw (kept, e.same_size) is,
      rw (kept) (
          extend-Linked f g new b (f.blocks b).next_block new_cells ((b', cs') ∷ ls) (omega arith) e
            rest),
    )

pub entry-Linked :
    (f : EdbFile) (new lo q : ℕ) (ls : HeapBlocks) → Linked f lo q ls → q ≢ 0 → entry new q ls ≡ q
entry-Linked f new lo q [] h ne = absurd (ne h)
entry-Linked f new lo q (l ∷ ls) h ne = refl

pub last-append :
    (lo new : ℕ) (cs : List Cell) (ls : HeapBlocks) → last_block lo (ls ++ ((new, cs) ∷ [])) ≡ new
last-append lo new cs [] = refl
last-append lo new cs ((b, cs') ∷ ls) = last-append b new cs ls
