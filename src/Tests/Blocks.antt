-- ===== src/Tests/Blocks.antt =====
-- A block of an EDB file at work.
use essa_db.Prelude.{
  ℕ, ◌+◌, ◌≤◌, ◌<◌, ◌≡◌, refl, ok, some, none, arith, [], ◌∷◌, ◌==◌, if◌then◌else◌, Option, Result,
  true,
}
use essa_db.Heap.Memory.{Memory, read32, write_header}
use essa_db.Heap.Block.{
  alloc, free, init, header_size, data_size, alloc_loop, has_valid_signature, is_available,
}
use essa_db.Heap.Chain.{Chain, first_fit, take_first_fit}
use essa_db.Heap.Alloc.{Allocates, alloc-Allocates, Taken}
use essa_db.Heap.Free.{fresh, init-Chain, give_back}
use essa_db.Heap.File.{EdbFile, HeapPtr, Os, heap, table}
use essa_db.Heap.Blocks.{heap_alloc, heap_free}
use essa_db.Heap.Linked.{HeapBlocks}
use essa_db.Heap.Allocation.{IsHeap, Allocated}
use essa_db.Heap.Outcome.{heap_alloc-Allocated}
use essa_db.Heap.Freed.{InUseIn, give_back_in, heap_alloc-heap_free}
use essa_db.Heap.Region.{alloc-Apart, alloc-free, init-alloc-none}

abbrev blank : Memory
blank x = 0

fresh-Chain : Chain (init 64 blank) 64 0 (fresh 64)
fresh-Chain = init-Chain 64 blank (omega arith) (omega arith)

alloc-Allocates_example : Allocates 64 0 8 (fresh 64) (init 64 blank) (alloc 64 8 (init 64 blank))
alloc-Allocates_example = alloc-Allocates 64 8 (fresh 64) (init 64 blank) (omega arith) fresh-Chain

-- The memory after eight bytes of the block are given out.
abbrev eight_out : Memory
eight_out = (alloc-Allocates 64 8 (fresh 64) (init 64 blank) (omega arith) fresh-Chain).0

alloc_eight : alloc 64 8 (init 64 blank) ≡ some (ok (some 8), eight_out)
unfolding first_fit
alloc_eight = (alloc-Allocates 64 8 (fresh 64) (init 64 blank) (omega arith) fresh-Chain).1

alloc-Apart_example :
    (header_size ≤ 8)
    × (8 + 8 + header_size ≤ 64)
    × ((x : ℕ) → 8 ≤ x → x < 8 + 8 → ¬ Taken 0 (fresh 64) x)
alloc-Apart_example =
    alloc-Apart 64 8 8 (fresh 64) (init 64 blank) eight_out (omega arith) fresh-Chain alloc_eight

alloc-free_example : Chain (free 8 eight_out) 64 0 (give_back 8 0 (take_first_fit 8 (fresh 64)))
alloc-free_example =
    alloc-free 64 8 8 (fresh 64) (init 64 blank) eight_out (omega arith) fresh-Chain alloc_eight

init-alloc-none_example : (m' : Memory) × (alloc 64 40 (init 64 blank) ≡ some (ok none, m'))
init-alloc-none_example =
    init-alloc-none 64 40 blank (omega arith) (omega arith) (omega arith) (omega arith)

-- A file with one table block and one heap block of 119 bytes of data.
abbrev small_file : EdbFile
small_file = record {
  block_size = 128;
  block_count = 3;
  file_size = 356;
  last_table_block = 1;
  last_heap_block = 2;
  mapped = true;
  blocks = λ b. record {
    type = if b == 2 then heap else table;
    prev_block = 0;
    next_block = 0;
    bytes = init 119 blank;
  };
}

abbrev one_block : HeapBlocks
one_block = (2, fresh 119) ∷ []

small-IsHeap : IsHeap small_file one_block
unfolding data_size
small-IsHeap = record {
  is_open = refl;
  linked = (
    refl,
    omega arith,
    omega arith,
    (refl, init-Chain 119 blank (omega arith) (omega arith)),
    refl,
  );
  last = refl;
}

abbrev willing : Os
willing = record { ftruncate = λ size. none; remap = λ size. none }

heap_alloc-Allocated_example :
    Allocated willing 8 one_block small_file (heap_alloc willing 8 small_file)
heap_alloc-Allocated_example =
    heap_alloc-Allocated willing 8 one_block small_file small-IsHeap (omega arith) (omega arith)
      (omega arith)

abbrev given : HeapPtr
given = record { block = 2; offset = 17 }

abbrev file_of : Option (Result HeapPtr × EdbFile) → EdbFile
file_of (some (r, f)) = f
file_of none = small_file

-- The first eight bytes of the block behind its headers.
eight_given :
    heap_alloc willing 8 small_file ≡ some (ok given, file_of (heap_alloc willing 8 small_file))
unfolding heap_alloc alloc_loop has_valid_signature read32 write_header is_available
eight_given = refl

heap_alloc-heap_free_example :
    (ls' : HeapBlocks) × IsHeap (file_of (heap_alloc willing 8 small_file)) ls'
    × InUseIn given ls'
    × ((k : EdbFile) × (heap_free given (file_of (heap_alloc willing 8 small_file)) ≡ (ok tt, k))
        × IsHeap k (give_back_in given ls'))
heap_alloc-heap_free_example =
    heap_alloc-heap_free willing 8 one_block small_file small-IsHeap (omega arith) (omega arith)
      given (file_of (heap_alloc willing 8 small_file)) (omega arith) eight_given
