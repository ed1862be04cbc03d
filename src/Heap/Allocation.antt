-- ===== src/Heap/Allocation.antt =====
-- db/storage/edb/Heap.cpp: `Heap::alloc` and `Heap::free` on the heap of a file.
use essa_db.Prelude.{
  ℕ, ◌+◌, ◌<◌, ◌≤◌, ◌≡◌, ◌≢◌, ◌⊎◌, refl, inl, inr, true, false, Option, none, some, List, [], ◌∷◌,
  ◌++◌, ◌==◌, arith, ◌∙◌, ap, sym, subst, Bool-cases, Result, ok, err, DbError,
}
use essa_db.Heap.Memory.{Memory}
use essa_db.Heap.Block.{data_size}
use essa_db.Heap.Chain.{Cell, Chain, first_fit, take_first_fit}
use essa_db.Heap.Alloc.{alloc-Allocates}
use essa_db.Heap.Free.{fresh}
use essa_db.Heap.File.{heap, EdbFile, HeapPtr, Os, flush, allocate_block}
use essa_db.Heap.Blocks.{after_allocate_block}
use essa_db.Heap.Linked.{
  HeapBlocks, Linked, TakenIn, first_fit_block, take_first_fit_block, last_block, Extends,
  extend-Linked, entry-Linked, last-append,
}
use essa_db.Heap.Allocated.{inside-mapped, Listed, Listed-lt, TakenIn-Listed}
use essa_db.Heap.Grown.{
  larger, unmapped, with_new_block, grown-same, allocate_block-refused, allocate_block-unmapped,
  allocate_block-ok, with_new_block-Extends,
}

-- The heap of a file that is mapped: the list from block 2 on, and its last block in the header.
pub record IsHeap (f : EdbFile) (ls : HeapBlocks) : Type 0 where
  pub is_open : f.mapped ≡ true
  pub linked : Linked f 0 2 ls
  pub last : f.last_heap_block ≡ last_block 0 ls

-- What an allocation leaves as it is: the blocks that are not of the heap, and the bytes of the heap
-- that are in use.
pub record Preserves (ls : HeapBlocks) (f g : EdbFile) : Type 0 where
  pub same_size : g.block_size ≡ f.block_size
  pub no_fewer : f.block_count ≤ g.block_count
  pub others : (b : ℕ) → b < f.block_count → ¬ Listed ls b → g.blocks b ≡ f.blocks b
  pub kept : (b x : ℕ) → TakenIn ls b x → (g.blocks b).bytes x ≡ (f.blocks b).bytes x

-- The heap with a new block of one cell, of which `size` bytes are taken.
abbrev pub with_new : ℕ → EdbFile → HeapBlocks → HeapBlocks
with_new size f ls =
    ls ++ ((f.block_count, take_first_fit size (fresh (data_size f.block_size))) ∷ [])

-- The outcomes of an allocation of `size` bytes: in the first block that has room; in a new block,
-- where none has; or, where a new block is needed, an error of the system, after which the file is as
-- it was or has no mapping.
pub data Allocated (os : Os) (size : ℕ) (ls : HeapBlocks) (f : EdbFile)
    : Option (Result HeapPtr × EdbFile) → Type 0 where
  in_block :
      {ptr : HeapPtr} {g : EdbFile}
      → first_fit_block size ls ≡ some ptr
      → IsHeap g (take_first_fit_block size ls)
      → Preserves ls f g
      → Allocated os size ls f (some (ok ptr, g))
  in_new :
      {g : EdbFile}
      → first_fit_block size ls ≡ none
      → IsHeap g (with_new size f ls)
      → Preserves ls f g
      → Allocated os size ls f (some (ok (record { block = f.block_count; offset = 17 }), g))
  refused :
      {e : DbError} {g : EdbFile}
      → first_fit_block size ls ≡ none
      → os.ftruncate (larger f) ≡ some e
      → IsHeap g ls
      → Preserves ls f g
      → Allocated os size ls f (some (err e, g))
  lost :
      {e : DbError} {g : EdbFile}
      → first_fit_block size ls ≡ none
      → os.ftruncate (larger f) ≡ none
      → os.remap (larger f) ≡ some e
      → g.mapped ≡ false
      → Preserves ls f g
      → Allocated os size ls f (some (err e, g))

pub last-Listed : (f : EdbFile) (ls : HeapBlocks) → IsHeap f ls → Listed ls f.last_heap_block
last-Listed f ls h = rw h.last (at 0 2 ls h.linked (λ e. omega arith))
  where
    at : (lo q : ℕ) (ls : HeapBlocks) → Linked f lo q ls → q ≢ 0 → Listed ls (last_block lo ls)
    at lo q [] h ne = absurd (ne h)
    at lo q ((b, cs) ∷ []) h ne = inl refl
    at lo q ((b, cs) ∷ (b', cs') ∷ ls) h ne = inr (
        at b (f.blocks b).next_block ((b', cs') ∷ ls) h.4
          (λ e. let at = h.4.0 in omega (arith, h.4.1)))

pub Listed-inside :
    (f : EdbFile) (lo q b : ℕ) (ls : HeapBlocks)
    → Linked f lo q ls
    → Listed ls b
    → b < f.block_count
Listed-inside f lo q b [] h l = absurd l
Listed-inside f lo q b ((b', cs) ∷ ls) h (inl e) = omega (arith, h.2)
Listed-inside f lo q b ((b', cs) ∷ ls) h (inr l) =
    Listed-inside f b' (f.blocks b').next_block b ls h.4 l

-- A file with more blocks and the old ones as they were.
same-Preserves :
    (f g : EdbFile) (ls : HeapBlocks)
    → IsHeap f ls
    → g.block_size ≡ f.block_size
    → f.block_count ≤ g.block_count
    → ((b : ℕ) → b < f.block_count → ¬ (b ≡ f.last_heap_block) → g.blocks b ≡ f.blocks b)
    → ((x : ℕ) → (g.blocks f.last_heap_block).bytes x ≡ (f.blocks f.last_heap_block).bytes x)
    → Preserves ls f g
same-Preserves f g ls h size more same last = record {
  same_size = size;
  no_fewer = more;
  others = λ b inside out. same b inside (λ e. out (rw e (last-Listed f ls h)));
  kept = λ b x t. elim (decide b) [
    | inl e ↦ rw e (last x)
    | inr ne ↦
        ap (λ k. k.bytes x)
          (same b (Listed-inside f 0 2 b ls h.linked (TakenIn-Listed ls b x t)) ne)
  ];
}
  where
    decide : (b : ℕ) → (b ≡ f.last_heap_block) ⊎ ¬ (b ≡ f.last_heap_block)
    decide b = elim (Bool-cases (b == f.last_heap_block)) [
      | inl e ↦ inl (ground arith)
      | inr ne ↦ inr (λ e. ground arith)
    ]

-- A new last block, and bytes written to it.
module _ (f g : EdbFile) (ls : HeapBlocks) (h : IsHeap f ls) (cs cs' : List Cell) (m : Memory)
    (e : Extends f g f.last_heap_block f.block_count cs) (is_open : g.mapped ≡ true)
    (header : g.last_heap_block ≡ f.block_count)
    (chain : Chain m (data_size f.block_size) 0 cs') where
  abbrev extended : EdbFile
  extended = flush f.block_count (record (g.blocks f.block_count) { bytes = m }) g

  extended-Extends : Extends f extended f.last_heap_block f.block_count cs'
  unfolding flush
  extended-Extends =
      let inside = Listed-inside f 0 2 f.last_heap_block ls h.linked (last-Listed f ls h) in
      let new = f.block_count in
      let apart : (f.last_heap_block == new) ≡ false = ground arith in
      let same : (new == new) ≡ true = ground arith in
      record {
        same_size = e.same_size;
        behind = e.behind;
        inside = e.inside;
        others =
            λ b ne lt. let other : (b == new) ≡ false = ground arith in rw other (e.others b ne lt);
        linked = rw apart e.linked;
        is_new = rw same (e.is_new.0, rw e.same_size chain);
        at_end = rw same e.at_end;
      }

  extended-IsHeap : IsHeap extended (ls ++ ((f.block_count, cs') ∷ []))
  unfolding flush
  extended-IsHeap =
      let inside = Listed-inside f 0 2 f.last_heap_block ls h.linked (last-Listed f ls h) in
      let k = subst (λ l. Extends f extended l f.block_count cs') h.last extended-Extends in
      record {
        is_open = is_open;
        linked =
            subst (λ q. Linked extended 0 q (ls ++ ((f.block_count, cs') ∷ [])))
              (entry-Linked f f.block_count 0 2 ls h.linked (λ e. omega arith))
              (extend-Linked f extended f.block_count 0 2 cs' ls (omega arith) k h.linked);
        last = header ∙ sym (last-append 0 f.block_count cs' ls);
      }

  extended-Preserves : Preserves ls f extended
  extended-Preserves =
      let k = extended-Extends in
      let more = k.inside in
      let last : (x : ℕ)
          → (extended.blocks f.last_heap_block).bytes x ≡ (f.blocks f.last_heap_block).bytes x =
        λ x. ap (λ block. block.bytes x) k.linked in
      same-Preserves f extended ls h k.same_size (omega arith) (λ b lt ne. k.others b ne lt) last

-- The case in which no block has room, on the file that the loop leaves.
module _ (os : Os) (size : ℕ) (ls : HeapBlocks) (f : EdbFile) (h : IsHeap f ls)
    (full : first_fit_block size ls ≡ none) (room : size + 41 ≤ f.block_size)
    (bound : f.block_size < 4294967296) (small : f.block_count + 1 < 4294967296) where
  pub refused-Allocated :
      (e : DbError)
      → os.ftruncate (larger f) ≡ some e
      → Allocated os size ls f (after_allocate_block size (allocate_block os heap f))
  refused-Allocated e denied = rw (allocate_block-refused f os small e denied) (
      refused full denied h
        (same-Preserves f f ls h refl (omega arith) (λ b lt ne. refl) (λ x. refl)))

  pub unmapped-Allocated :
      (e : DbError)
      → os.ftruncate (larger f) ≡ none
      → os.remap (larger f) ≡ some e
      → Allocated os size ls f (after_allocate_block size (allocate_block os heap f))
  unmapped-Allocated e done denied =
      let inside = Listed-inside f 0 2 f.last_heap_block ls h.linked (last-Listed f ls h) in
      rw (allocate_block-unmapped f os small e done denied) (
        lost full done denied refl (
          same-Preserves f (unmapped f) ls h refl (omega arith) (λ b lt ne. grown-same f b lt)
            (λ x. ap (λ k. k.bytes x) (grown-same f f.last_heap_block inside))))

  -- The new block once the bytes are taken from its one cell.
  pub in_new-Allocated :
      os.ftruncate (larger f) ≡ none
      → os.remap (larger f) ≡ none
      → Allocated os size ls f (after_allocate_block size (allocate_block os heap f))
  unfolding flush
  in_new-Allocated done mapped =
      let listed = last-Listed f ls h in
      let inside = Listed-inside f 0 2 f.last_heap_block ls h.linked listed in
      let above = Listed-lt f 0 2 f.last_heap_block ls h.linked listed in
      let g : EdbFile = with_new_block f in
      let e = with_new_block-Extends f above inside (omega arith) bound in
      let (m, out, chain, kept) =
        alloc-Allocates (data_size f.block_size) size (fresh (data_size f.block_size))
          (g.blocks f.block_count).bytes (omega arith) e.is_new.1 in
      let first : first_fit size 0 (fresh (data_size f.block_size)) ≡ some 8 =
        (unfold first_fit in unfold data_size in ground arith) in
      let there = inside-mapped f.block_count g refl (omega arith) (omega arith) in
      rw (allocate_block-ok f os small above inside done mapped) (
        rw (there, out, first)
          (in_new full
            (extended-IsHeap f g ls h (fresh (data_size f.block_size))
              (take_first_fit size (fresh (data_size f.block_size))) m e refl refl chain)
            (extended-Preserves f g ls h (fresh (data_size f.block_size))
              (take_first_fit size (fresh (data_size f.block_size))) m e refl refl chain)))
