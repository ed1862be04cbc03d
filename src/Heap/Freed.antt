-- ===== src/Heap/Freed.antt =====
-- db/storage/edb/Heap.cpp: `Heap::free` of what `Heap::alloc` gave.
use essa_db.Prelude.{
  ℕ, ◌+◌, ◌-◌, ◌<◌, ◌≤◌, ◌≡◌, ◌≢◌, ◌⊎◌, refl, inl, inr, true, false, ◌==◌, Option, some, [], ◌∷◌,
  ◌++◌, arith, if◌then◌else◌, ◌∙◌, ap, sym, subst, Bool-cases, Option-cases, Result, ok,
}
use essa_db.Heap.Block.{data_size, free}
use essa_db.Heap.Chain.{first_fit, take_first_fit}
use essa_db.Heap.Free.{InUse, give_back, free-Chain, fresh, init-Chain}
use essa_db.Heap.Region.{first_fit-Apart}
use essa_db.Heap.File.{EdbFile, HeapPtr, Os, flush, block_header_size}
use essa_db.Heap.Blocks.{heap_alloc, heap_free}
use essa_db.Heap.Linked.{
  HeapBlocks, Linked, first_fit_block, take_first_fit_block, last_block, Linked-agree,
  first_block-fits, first_block-full,
}
use essa_db.Heap.Allocated.{flush-other, inside-mapped, Listed, Listed-lt}
use essa_db.Heap.Allocation.{
  IsHeap, Listed-inside, Allocated, in_block, in_new, refused, lost, with_new,
}
use essa_db.Heap.Outcome.{heap_alloc-Allocated}

-- The pointer is the payload of a cell in use of one of the blocks.
abbrev pub InUseIn : HeapPtr → HeapBlocks → Type 0
InUseIn ptr [] = ⊥
InUseIn ptr ((b, cs) ∷ ls) =
    ((ptr.block ≡ b) × InUse (ptr.offset - block_header_size) 0 cs) ⊎ InUseIn ptr ls

-- The blocks once that cell is given back.
unfoldable pub give_back_in : HeapPtr → HeapBlocks → HeapBlocks
give_back_in ptr [] = []
give_back_in ptr ((b, cs) ∷ ls) =
    if ptr.block == b
    then (b, give_back (ptr.offset - block_header_size) 0 cs) ∷ ls
    else (b, cs) ∷ give_back_in ptr ls

InUseIn-Listed : (ptr : HeapPtr) (ls : HeapBlocks) → InUseIn ptr ls → Listed ls ptr.block
InUseIn-Listed ptr [] u = u
InUseIn-Listed ptr ((b, cs) ∷ ls) (inl u) = inl u.0
InUseIn-Listed ptr ((b, cs) ∷ ls) (inr u) = inr (InUseIn-Listed ptr ls u)

last-give_back :
    (ptr : HeapPtr) (lo : ℕ) (ls : HeapBlocks)
    → last_block lo (give_back_in ptr ls) ≡ last_block lo ls
unfolding give_back_in
last-give_back ptr lo [] = refl
last-give_back ptr lo ((b, cs) ∷ ls) = elim (Bool-cases (ptr.block == b)) [
  | inl here ↦ rw here refl
  | inr there ↦ rw there (last-give_back ptr b ls)
]

module _ (ptr : HeapPtr) (f : EdbFile) where
  -- The file with the header of the pointer marked.
  abbrev pub freed_file : EdbFile
  freed_file =
      let block = f.blocks ptr.block in
      flush ptr.block (record block { bytes = free (ptr.offset - block_header_size) block.bytes }) f

  freed-other : (b : ℕ) → b ≢ ptr.block → freed_file.blocks b ≡ f.blocks b
  freed-other b ne = flush-other ptr.block b _ f ne

  freed-Linked :
      (lo q : ℕ) (ls : HeapBlocks)
      → Linked f lo q ls
      → InUseIn ptr ls
      → Linked freed_file lo q (give_back_in ptr ls)
  unfolding give_back_in flush
  freed-Linked lo q [] h u = absurd u
  freed-Linked lo q ((b, cs) ∷ ls) (at, above, inside, is, rest) (inl u) =
      let here : (ptr.block == b) ≡ true = ground arith in
      let same : (b == ptr.block) ≡ true = ground arith in
      rw here (
        at,
        above,
        inside,
        rw same (rw (u.0) (is.0, free-Chain _ _ _ 0 cs is.1 u.1)),
        rw same (
            rw (u.0) (
              Linked-agree f freed_file b (f.blocks b).next_block ls refl (omega arith)
                (λ x lo' hi. freed-other x (λ e. omega arith)) rest)),
      )
  freed-Linked lo q ((b, cs) ∷ ls) (at, above, inside, is, rest) (inr u) =
      let far = Listed-lt f b (f.blocks b).next_block ptr.block ls rest (InUseIn-Listed ptr ls u) in
      let there : (ptr.block == b) ≡ false = ground arith in
      let other : (b == ptr.block) ≡ false = ground arith in
      rw there (
        at,
        above,
        inside,
        rw other is,
        rw other (freed-Linked b (f.blocks b).next_block ls rest u),
      )

  -- If the heap of the file is the list ls and the pointer is the payload of a cell of ls that is in
  -- use, `Heap::free` succeeds, and the heap is ls with that cell given back. No other block changes.
  pub heap_free-IsHeap :
      (ls : HeapBlocks)
      → IsHeap f ls
      → InUseIn ptr ls
      → (g : EdbFile) × (heap_free ptr f ≡ (ok tt, g))
        × IsHeap g (give_back_in ptr ls)
        × ((b : ℕ) → b ≢ ptr.block → g.blocks b ≡ f.blocks b)
  unfolding heap_free flush
  heap_free-IsHeap ls h u =
      let listed = InUseIn-Listed ptr ls u in
      let above = Listed-lt f 0 2 ptr.block ls h.linked listed in
      let inside = Listed-inside f 0 2 ptr.block ls h.linked listed in
      (
        freed_file,
        rw (inside-mapped ptr.block f h.is_open above inside) refl,
        record {
          is_open = h.is_open;
          linked = freed-Linked 0 2 ls h.linked u;
          last = h.last ∙ sym (last-give_back ptr 0 ls);
        },
        freed-other,
      )

first_fit_block-InUseIn :
    (size : ℕ) (ptr : HeapPtr) (f : EdbFile) (lo q : ℕ) (ls : HeapBlocks)
    → Linked f lo q ls
    → first_fit_block size ls ≡ some ptr
    → InUseIn ptr (take_first_fit_block size ls)
unfolding first_fit_block take_first_fit_block
first_fit_block-InUseIn size ptr f lo q [] h e = cc
first_fit_block-InUseIn size ptr f lo q ((b, cs) ∷ ls) h e =
    elim (Option-cases (first_fit size 0 cs)) [
      | inr (p, fits) ↦
          let (found, taken) = first_block-fits size b cs ls p fits in
          let there : some (record { block = b; offset = p + block_header_size }) ≡ some ptr =
            sym found ∙ e in
          let same : record { block = b; offset = p + block_header_size } ≡ ptr = cc there in
          let (lo', end, apart, in_use) =
            first_fit-Apart _ (data_size f.block_size) size p 0 cs h.3.1 fits in
          rw taken (
            subst (λ k. InUseIn k ((b, take_first_fit size cs) ∷ ls)) same
              (inl (refl, subst (λ k. InUse k 0 (take_first_fit size cs)) (omega arith) in_use)))
      | inl full ↦
          let (next, taken) = first_block-full size b cs ls full in
          rw taken (
            inr
              (first_fit_block-InUseIn size ptr f b (f.blocks b).next_block ls h.4 (sym next ∙ e)))
    ]

InUseIn-append : (ptr : HeapPtr) (ls ls' : HeapBlocks) → InUseIn ptr ls' → InUseIn ptr (ls ++ ls')
InUseIn-append ptr [] ls' u = u
InUseIn-append ptr (l ∷ ls) ls' u = inr (InUseIn-append ptr ls ls' u)

fresh-InUse :
    (size n : ℕ) → size + 32 ≤ n → n < 4294967296 → InUse 8 0 (take_first_fit size (fresh n))
fresh-InUse size n room bound =
    let chain = init-Chain n (λ x. 0) (omega arith) bound in
    let first : first_fit size 0 (fresh n) ≡ some 8 = (unfold first_fit in ground arith) in
    let (lo, end, apart, in_use) = first_fit-Apart _ n size 8 0 (fresh n) chain first in in_use

module _ (os : Os) (size : ℕ) (ls : HeapBlocks) (f : EdbFile) (h : IsHeap f ls)
    (room : size + 41 ≤ f.block_size) (bound : f.block_size < 4294967296) where
  -- Where an allocation gives a pointer, it is a cell in use of the heap that it leaves.
  given-InUseIn :
      (ptr : HeapPtr) (g : EdbFile) (out : Option (Result HeapPtr × EdbFile))
      → Allocated os size ls f out
      → out ≡ some (ok ptr, g)
      → (ls' : HeapBlocks) × IsHeap g ls' × InUseIn ptr ls'
  given-InUseIn ptr g _ (in_block {ptr = ptr'} {g = g'} found is kept) e =
      let same : ptr' ≡ ptr = cc e in
      let same_file : g' ≡ g = cc e in
      (
        take_first_fit_block size ls,
        rw (← same_file) is,
        first_fit_block-InUseIn size ptr f 0 2 ls h.linked (found ∙ ap some same),
      )
  given-InUseIn ptr g _ (in_new {g = g'} full is kept) e =
      let same : record { block = f.block_count; offset = 17 } ≡ ptr = cc e in
      let same_file : g' ≡ g = cc e in
      let new =
        fresh-InUse size (data_size f.block_size) (unfold data_size in omega arith)
          (unfold data_size in omega arith) in
      (
        with_new size f ls,
        rw (← same_file) is,
        subst (λ k. InUseIn k (with_new size f ls)) same
            (InUseIn-append (record { block = f.block_count; offset = 17 }) ls _ (inl (refl, new))),
      )
  given-InUseIn ptr g _ (lost full done denied gone kept) e = cc
  given-InUseIn ptr g _ (refused full denied is kept) e = cc

  -- If the heap of the file is the list ls, of blocks of less than 2^32 bytes with room for
  -- `size` bytes in a new one and less than 2^32 - 1 blocks, and `Heap::alloc` gives a pointer,
  -- then the heap that it leaves is a list of blocks in which the pointer is a cell in use,
  -- `Heap::free` of it succeeds, and the heap after that is the same list with this cell given
  -- back.
  pub heap_alloc-heap_free :
      (ptr : HeapPtr) (g : EdbFile)
      → f.block_count + 1 < 4294967296
      → heap_alloc os size f ≡ some (ok ptr, g)
      → (ls' : HeapBlocks) × IsHeap g ls'
        × InUseIn ptr ls'
        × ((k : EdbFile) × (heap_free ptr g ≡ (ok tt, k)) × IsHeap k (give_back_in ptr ls'))
  heap_alloc-heap_free ptr g small e =
      let (ls', is, u) =
        given-InUseIn ptr g _ (heap_alloc-Allocated os size ls f h room bound small) e in
      let (k, done, is', others) = heap_free-IsHeap ptr g ls' is u in (ls', is, u, (k, done, is'))
