-- ===== src/Heap/Block.antt =====
-- db/storage/edb/Heap.cpp: `HeapHeader` and the operations of `HeapBlock`.
use essa_db.Prelude.{
  ℕ, zero, suc, ◌+◌, ◌-◌, ◌%◌, ltb, leb, ◌==◌, Bool, not, ◌&&◌, ◌||◌, Option, none, some,
  if◌then◌else◌, Result, ok, err, DbError,
}
use essa_db.Heap.Memory.{Memory, read32, write32, write_header}

-- `Signature`
abbrev pub used : ℕ
used = 0x2137D05A

abbrev pub empty : ℕ
empty = 0xBEBEBEBE

abbrev pub end_edge : ℕ
end_edge = 0xE57F402D

abbrev pub freed : ℕ
freed = 0x2137DEAD

-- `sizeof(HeapHeader)`
abbrev pub header_size : ℕ
header_size = 8

unfoldable pub has_valid_signature : ℕ → Bool
has_valid_signature s = s == empty || s == used || s == end_edge || s == freed

unfoldable pub is_available : ℕ → Bool
is_available s = s == empty || s == freed

-- `HeapBlock::data_size`: what the header of the block, of nine bytes, leaves of it.
unfoldable pub data_size : ℕ → ℕ
data_size block_size = block_size - 9

-- `place_edge_headers`: the access that is declared last ends first.
unfoldable pub place_edge_headers : ℕ → Memory → Memory
place_edge_headers n m = write_header (write_header m (n - 8) end_edge 0) 0 empty (n - 16)

-- `memset(m_data + from, 0xef, count)`
unfoldable pub scrub : ℕ → ℕ → Memory → Memory
scrub from count m x = if leb from x && ltb x (from + count) then 0xef else m x

-- `HeapBlock::init`, in a block with `n` bytes of data.
unfoldable pub init : ℕ → Memory → Memory
unfolding scrub place_edge_headers
init n m = scrub 8 (n - 16) (place_edge_headers n m)

-- `distance_to_next_header`, computed in size_t and cast to uint32_t.
unfoldable pub distance_to_next_header : ℕ → ℕ → ℕ
distance_to_next_header old size =
    (old + 36893488147419103232 - size - header_size) % 18446744073709551616 % 4294967296

-- The headers that a successful allocation writes: the new one, then the old one, whose size is a
-- uint32_t.
unfoldable pub split : ℕ → ℕ → ℕ → Memory → Memory
unfolding distance_to_next_header
split ptr old size m =
    write_header
      (write_header m (ptr + size % 4294967296 + header_size) empty
        (distance_to_next_header old size))
      ptr used (size % 4294967296)

-- The loop of `HeapBlock::alloc`, at the header at `ptr`; `size + sizeof(HeapHeader) * 2` is a size_t.
-- `none` means that the fuel ran out.
unfoldable pub alloc_loop : ℕ → ℕ → ℕ → ℕ → Memory → Option (Result (Option ℕ) × Memory)
unfolding split
alloc_loop zero n size ptr m = none
alloc_loop (suc fuel) n size ptr m =
    let s = read32 m ptr in
    let old = read32 m (ptr + 4) in
    let next = ptr + old + header_size in
    let rest = alloc_loop fuel n size next m in
    if not (has_valid_signature s)
    then some (err DbError.internal, m)
    else if is_available s
        && not (ltb old ((size + header_size + header_size) % 18446744073709551616))
    then some (ok (some (ptr + header_size)), split ptr old size m)
    else if s == end_edge
    then some (ok none, m)
    else if ltb n next
    then some (err DbError.internal, m)
    else rest

-- `HeapBlock::alloc`: each round goes eight bytes on at least, so this fuel is enough.
unfoldable pub alloc : ℕ → ℕ → Memory → Option (Result (Option ℕ) × Memory)
alloc n size m = alloc_loop (suc n) n size 0 m

-- `HeapBlock::free`: the header in front of the offset is marked, whatever it is.
unfoldable pub free : ℕ → Memory → Memory
free offset m = write32 m (offset - header_size) freed
