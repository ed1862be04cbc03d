-- ===== src/Heap/Blocks.antt =====
-- db/storage/edb/Heap.cpp: `Heap`, which allocates in the list of the heap blocks of a file.
use essa_db.Prelude.{
  ℕ, zero, suc, ◌+◌, ◌-◌, ◌%◌, ltb, ◌==◌, Bool, true, false, not, Option, none, some, if◌then◌else◌,
  Result, ok, err, undefined, DbError,
}
use essa_db.Heap.Memory.{Memory}
use essa_db.Heap.Block.{data_size, alloc, free}
use essa_db.Heap.File.{
  BlockType, heap, EdbFile, HeapPtr, Os, block_header_size, is_mapped, flush, allocate_block,
}

abbrev pub is_heap : BlockType → Bool
is_heap heap = true
is_heap _ = false

-- How a round of the loop ends: with the answer of the loop, or at the next block.
pub data Round : Type 0 where
  out_of_fuel : Round
  ends : Result (Option HeapPtr) → EdbFile → Round
  goes_on : ℕ → EdbFile → Round

-- The block after `HeapBlock::alloc` on a copy of it, and what the loop makes of the answer.
abbrev pub after_alloc : ℕ → EdbFile → Option (Result (Option ℕ) × Memory) → Round
after_alloc b f none = out_of_fuel
after_alloc b f (some (err e, m)) = ends (err e) (flush b (record (f.blocks b) { bytes = m }) f)
after_alloc b f (some (undefined, m)) =
    ends undefined (flush b (record (f.blocks b) { bytes = m }) f)
after_alloc b f (some (ok (some p), m)) =
    ends (ok (some (record { block = b; offset = p + block_header_size })))
      (flush b (record (f.blocks b) { bytes = m }) f)
after_alloc b f (some (ok none, m)) =
    let next = (f.blocks b).next_block in
    let g = flush b (record (f.blocks b) { bytes = m }) f in
    if next == 0 then ends (ok none) g else goes_on next g

unfoldable pub alloc_round : ℕ → ℕ → EdbFile → Round
unfolding is_mapped flush data_size alloc
alloc_round size b f =
    if not (is_mapped b f)
    then ends undefined f
    else if not (is_heap (f.blocks b).type)
    then ends (err DbError.internal) f
    else after_alloc b f (alloc (data_size f.block_size) size (f.blocks b).bytes)

-- The loop of `Heap::alloc` from block `b` on: `ok none` where the list ends. On fuel; `none` means
-- that it ran out.
unfoldable pub alloc_in_blocks : ℕ → ℕ → ℕ → EdbFile → Option (Result (Option HeapPtr) × EdbFile)
unfolding alloc_round
alloc_in_blocks zero size b f = none
alloc_in_blocks (suc fuel) size b f = elim (alloc_round size b f) [
  | out_of_fuel ↦ none
  | ends r g ↦ some (r, g)
  | goes_on next g ↦ alloc_in_blocks fuel size next g
]

-- The allocation in the new block. It should have room; where it has not, the source is unreachable.
abbrev pub in_new_block :
    ℕ → EdbFile → Option (Result (Option ℕ) × Memory) → Option (Result HeapPtr × EdbFile)
in_new_block b f none = none
in_new_block b f (some (err e, m)) = some (err e, flush b (record (f.blocks b) { bytes = m }) f)
in_new_block b f (some (undefined, m)) =
    some (undefined, flush b (record (f.blocks b) { bytes = m }) f)
in_new_block b f (some (ok none, m)) =
    some (undefined, flush b (record (f.blocks b) { bytes = m }) f)
in_new_block b f (some (ok (some p), m)) = some (
  ok (record { block = b; offset = p + block_header_size }),
  flush b (record (f.blocks b) { bytes = m }) f,
)

abbrev pub after_allocate_block : ℕ → Result ℕ × EdbFile → Option (Result HeapPtr × EdbFile)
after_allocate_block size (err e, f) = some (err e, f)
after_allocate_block size (undefined, f) = some (undefined, f)
after_allocate_block size (ok b, f) =
    if is_mapped b f
    then in_new_block b f (alloc (data_size f.block_size) size (f.blocks b).bytes)
    else some (undefined, f)

-- What follows the loop.
abbrev pub after_blocks :
    Os → ℕ → Option (Result (Option HeapPtr) × EdbFile) → Option (Result HeapPtr × EdbFile)
after_blocks os size none = none
after_blocks os size (some (err e, f)) = some (err e, f)
after_blocks os size (some (undefined, f)) = some (undefined, f)
after_blocks os size (some (ok (some p), f)) = some (ok p, f)
after_blocks os size (some (ok none, f)) = after_allocate_block size (allocate_block os heap f)

-- `Heap::alloc`, which begins at block 2. No more rounds are made than there are blocks.
unfoldable pub heap_alloc : Os → ℕ → EdbFile → Option (Result HeapPtr × EdbFile)
unfolding alloc_in_blocks allocate_block
heap_alloc os size f =
    if ltb ((f.block_size + 18446744073709551616 - 8) % 18446744073709551616) size
    then some (err DbError.internal, f)
    else after_blocks os size (alloc_in_blocks f.block_count size 2 f)

-- `Heap::free`
unfoldable pub heap_free : HeapPtr → EdbFile → Result (Unit {0}) × EdbFile
unfolding is_mapped flush free
heap_free ptr f =
    let block = f.blocks ptr.block in
    if is_mapped ptr.block f
    then (
      ok tt,
      flush ptr.block (record block { bytes = free (ptr.offset - block_header_size) block.bytes })
          f,
    )
    else (undefined, f)
