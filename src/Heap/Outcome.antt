-- ===== src/Heap/Outcome.antt =====
-- db/storage/edb/Heap.cpp: what `Heap::alloc` gives, in each case.
use essa_db.Prelude.{
  ℕ, ◌+◌, ◌-◌, ◌%◌, ◌<◌, ◌≤◌, ◌≡◌, refl, inl, inr, false, ltb, Option, none, some, arith, ◌∙◌, sym,
  subst, Option-cases, Result, ok,
}
use essa_db.Heap.File.{heap, EdbFile, HeapPtr, Os, allocate_block}
use essa_db.Heap.Blocks.{alloc_in_blocks, heap_alloc, after_allocate_block, after_blocks}
use essa_db.Heap.Linked.{HeapBlocks, first_fit_block, take_block-none, last-take, length-Linked}
use essa_db.Heap.Allocated.{Spares, alloc_in_blocks-Found}
use essa_db.Heap.Grown.{larger}
use essa_db.Heap.Allocation.{
  IsHeap, Preserves, Allocated, in_block, in_new, refused, lost, last-Listed, Listed-inside,
  in_new-Allocated, refused-Allocated, unmapped-Allocated,
}

module _ (os : Os) (size : ℕ) (ls : HeapBlocks) (f : EdbFile) where
  Spares-Preserves : (g k : EdbFile) → Spares ls f g → Preserves ls g k → Preserves ls f k
  Spares-Preserves g k s r = record {
    same_size = r.same_size ∙ s.same_size;
    no_fewer = omega (arith, s.same_count, r.no_fewer);
    others = λ b inside out. r.others b (omega (arith, s.same_count)) out ∙ s.others b out;
    kept = λ b x t. r.kept b x t ∙ s.kept b x t;
  }

  same-Preserves : (g : EdbFile) → Spares ls f g → Preserves ls f g
  same-Preserves g s = record {
    same_size = s.same_size;
    no_fewer = omega (arith, s.same_count);
    others = λ b inside out. s.others b out;
    kept = s.kept;
  }

  same-larger : (g : EdbFile) → Spares ls f g → larger g ≡ larger f
  same-larger g s = omega (arith, s.same_file_size, s.same_size)

  -- An outcome on the file that the loop leaves is one on the file before the loop.
  earlier-Allocated :
      (g : EdbFile) (out : Option (Result HeapPtr × EdbFile))
      → Spares ls f g
      → Allocated os size ls g out
      → Allocated os size ls f out
  earlier-Allocated g _ s (in_block found is kept) = in_block found is (Spares-Preserves g _ s kept)
  earlier-Allocated g _ s (in_new {g = k} full is kept) =
      subst (λ c. Allocated os size ls f (some (ok (record { block = c; offset = 17 }), k)))
        (sym s.same_count)
        (in_new full (rw (← s.same_count, ← s.same_size) is) (Spares-Preserves g k s kept))
  earlier-Allocated g _ s (lost full done denied gone kept) =
      lost full (rw (← same-larger g s) done) (rw (← same-larger g s) denied) gone
        (Spares-Preserves g _ s kept)
  earlier-Allocated g _ s (refused full denied is kept) =
      refused full (rw (← same-larger g s) denied) is (Spares-Preserves g _ s kept)

  full-Allocated :
      (g : EdbFile)
      → IsHeap g ls
      → first_fit_block size ls ≡ none
      → size + 41 ≤ g.block_size
      → g.block_size < 4294967296
      → g.block_count + 1 < 4294967296
      → Allocated os size ls g (after_allocate_block size (allocate_block os heap g))
  full-Allocated g h full room bound small = elim (Option-cases (os.ftruncate (larger g))) [
    | inr (e, denied) ↦ refused-Allocated os size ls g h full room bound small e denied
    | inl done ↦ elim (Option-cases (os.remap (larger g))) [
      | inr (e, denied) ↦ unmapped-Allocated os size ls g h full room bound small e done denied
      | inl mapped ↦ in_new-Allocated os size ls g h full room bound small done mapped
    ]
  ]

  heap_alloc-run :
      (g : EdbFile) (o : Option HeapPtr)
      → size + 41 ≤ f.block_size
      → f.block_size < 4294967296
      → alloc_in_blocks f.block_count size 2 f ≡ some (ok o, g)
      → heap_alloc os size f ≡ after_blocks os size (some (ok o, g))
  unfolding heap_alloc
  heap_alloc-run g o room bound found =
      let fits : ltb ((f.block_size + 18446744073709551616 - 8) % 18446744073709551616) size
          ≡ false =
        (let value : (f.block_size + 18446744073709551616 - 8) % 18446744073709551616
              ≡ f.block_size - 8 =
            omega arith in
          rw value (ground arith)) in
      rw (fits, found) refl

  -- If the heap of the file is the list ls of blocks of cells, with room for `size` bytes in a
  -- new block, of less than 2^32 bytes and with less than 2^32 - 1 blocks, `Heap::alloc` ends,
  -- reports no corruption and, but for an error of `remap`, keeps the heap a list of blocks of
  -- cells. It gives the place that first fit finds in the first block that has one, and takes it;
  -- where none has, it gives the first bytes of a new block behind the others, and takes them, or
  -- passes on an error of the system, after which the heap is as it was or, where the error is
  -- that of `remap`, the file has no mapping. In each case the other blocks, and the bytes of the
  -- heap that are in use, are as they were.
  pub heap_alloc-Allocated :
      IsHeap f ls
      → size + 41 ≤ f.block_size
      → f.block_size < 4294967296
      → f.block_count + 1 < 4294967296
      → Allocated os size ls f (heap_alloc os size f)
  heap_alloc-Allocated h room bound small =
      let listed = last-Listed f ls h in
      let inside = Listed-inside f 0 2 f.last_heap_block ls h.linked listed in
      let few = length-Linked f 0 2 ls h.linked (omega arith) in
      let (g, found, linked, s) =
        alloc_in_blocks-Found f.block_count size 0 2 ls f (omega arith) (omega arith)
          (λ e. omega arith) h.is_open h.linked in
      elim (Option-cases (first_fit_block size ls)) [
        | inr (ptr, e) ↦ rw (heap_alloc-run g (some ptr) room bound (rw e at found)) (
            in_block e
              (record {
                is_open = s.same_mapped ∙ h.is_open;
                linked = linked;
                last = s.same_last ∙ h.last ∙ sym (last-take size 0 ls);
              })
              (same-Preserves g s))
        | inl full ↦
            let is : IsHeap g ls = record {
              is_open = s.same_mapped ∙ h.is_open;
              linked = rw (take_block-none size ls full) at linked;
              last = s.same_last ∙ h.last;
            } in
            rw (heap_alloc-run g none room bound (rw full at found)) (
              earlier-Allocated g _ s (
                full-Allocated g is full (omega (arith, s.same_size)) (omega (arith, s.same_size))
                  (omega (arith, s.same_count))))
      ]
