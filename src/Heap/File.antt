-- ===== src/Heap/File.antt =====
-- db/storage/edb/EDBFile.cpp: the blocks of an EDB file and how it gets more of them; Heap.cpp: `Heap`,
-- which allocates in the list of heap blocks.
use essa_db.Prelude.{
  ℕ, ◌+◌, ◌-◌, ◌*◌, ◌%◌, ltb, leb, ◌==◌, Bool, true, false, not, ◌&&◌, ◌||◌, Option, none, some,
  if◌then◌else◌, Result, ok, err, undefined, DbError, ◌>>=◌,
}
use essa_db.Heap.Memory.{Memory}
use essa_db.Heap.Block.{data_size, init}

-- `BlockType`; a byte that is none of them is not represented.
pub data BlockType : Type 0 where
  free_ table heap big : BlockType

-- `Block`, with the bytes behind its own nine.
pub record Block : Type 0 where
  pub type : BlockType
  pub prev_block : ℕ
  pub next_block : ℕ
  pub bytes : Memory

pub record HeapPtr : Type 0 where
  pub block : ℕ
  pub offset : ℕ

-- What `EDBFile` keeps, of what the blocks depend on. The mapping, where the file has one, holds the
-- blocks from 1 up to `block_count`, without it.
pub record EdbFile : Type 0 where
  pub block_size : ℕ
  pub block_count : ℕ
  pub file_size : ℕ
  pub last_table_block : ℕ
  pub last_heap_block : ℕ
  pub mapped : Bool
  pub blocks : ℕ → Block

-- The calls of the operating system, given the size of the file: an error, or none.
pub record Os : Type 0 where
  pub ftruncate : ℕ → Option DbError
  pub remap : ℕ → Option DbError

-- `sizeof(Block)`
abbrev pub block_header_size : ℕ
block_header_size = 9

-- What `ftruncate` adds to a file is zero.
abbrev pub zero_block : Block
zero_block = record { type = free_; prev_block = 0; next_block = 0; bytes = λ x. 0 }

-- The assertions of `access`, for a pointer into the block at the index, and that there is a mapping.
unfoldable pub is_mapped : ℕ → EdbFile → Bool
is_mapped b f = f.mapped && not (b == 0 || leb f.block_count b)

-- What the end of an access of a block writes.
unfoldable pub flush : ℕ → Block → EdbFile → EdbFile
flush b block f = record f { blocks = λ x. if x == b then block else f.blocks x }

-- The file with `n` more blocks.
abbrev pub add_blocks : ℕ → Bool → EdbFile → EdbFile
add_blocks n mapped f = record f {
  file_size = f.file_size + n * f.block_size;
  block_count = (f.block_count + n) % 4294967296;
  mapped = mapped;
  blocks = λ x. if ltb x f.block_count then f.blocks x else zero_block;
}

-- `EDBFile::expand`. A failed `remap` leaves the new counts; the old mapping is gone then.
unfoldable pub expand : Os → ℕ → EdbFile → Result (Unit {0}) × EdbFile
expand os n f =
    let size = f.file_size + n * f.block_size in
    elim (os.ftruncate size) [
      | some e ↦ (err e, f)
      | none ↦ elim (os.remap size) [
        | none ↦ (ok tt, add_blocks n true f)
        | some e ↦ (err e, add_blocks n false f)
      ]
    ]

-- The next block of the last one becomes `b`, where there is a last one.
unfoldable pub link_last : ℕ → ℕ → EdbFile → Result EdbFile
unfolding is_mapped flush
link_last last b f =
    if last == 0
    then ok f
    else if is_mapped last f
    then ok (flush last (record (f.blocks last) { next_block = b }) f)
    else undefined

-- The new block, of each type. The access of it was opened before the last one was linked.
unfoldable pub place_block : BlockType → ℕ → EdbFile → Result EdbFile
unfolding flush link_last init data_size
place_block free_ b f = ok (flush b (record (f.blocks b) { type = free_ }) f)
place_block big b f = ok (flush b (record (f.blocks b) { type = big }) f)
place_block table b f = do
  g ← link_last f.last_table_block b f
  let block = record (f.blocks b) { type = table; prev_block = f.last_table_block }
  ok (flush b block (record g { last_table_block = b }))
place_block heap b f = do
  g ← link_last f.last_heap_block b f
  let block = record (f.blocks b) {
    type = heap;
    prev_block = f.last_heap_block;
    bytes = init (data_size f.block_size) (f.blocks b).bytes;
  }
  ok (flush b block (record g { last_heap_block = b }))

abbrev pub placed : ℕ → EdbFile → Result EdbFile → Result ℕ × EdbFile
placed b f (ok g) = (ok b, g)
placed b f (err e) = (err e, f)
placed b f undefined = (undefined, f)

abbrev pub after_expand : BlockType → Result (Unit {0}) × EdbFile → Result ℕ × EdbFile
after_expand type (ok _, f) =
    let b = f.block_count - 1 in
    placed b f (if is_mapped b f then place_block type b f else undefined)
after_expand type (err e, f) = (err e, f)
after_expand type (undefined, f) = (undefined, f)

-- `EDBFile::allocate_block`. The search for a free block changes nothing, and what it finds is
-- overwritten.
unfoldable pub allocate_block : Os → BlockType → EdbFile → Result ℕ × EdbFile
unfolding expand place_block
allocate_block os type f = after_expand type (expand os 1 f)
