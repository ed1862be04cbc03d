-- ===== src/Heap/Grown.antt =====
-- db/storage/edb/EDBFile.cpp: `allocate_block` for a heap block, and `Heap::alloc` on a whole file.
use essa_db.Prelude.{
  ℕ, ◌+◌, ◌-◌, ◌*◌, ◌%◌, ◌<◌, ◌≤◌, ◌≡◌, refl, true, false, ltb, leb, none, some, ◌==◌, arith,
  if◌then◌else◌, ok, err, DbError,
}
use essa_db.Heap.Block.{data_size, init}
use essa_db.Heap.Free.{fresh, init-Chain}
use essa_db.Heap.File.{
  Block, heap, EdbFile, Os, zero_block, flush, expand, link_last, place_block, allocate_block,
}
use essa_db.Heap.Linked.{Extends}
use essa_db.Heap.Allocated.{inside-mapped}

module _ (f : EdbFile) where
  -- The size of the file with one more block.
  abbrev pub larger : ℕ
  larger = f.file_size + 1 * f.block_size

  abbrev pub grown : EdbFile
  grown = record f {
    file_size = larger;
    block_count = f.block_count + 1;
    mapped = true;
    blocks = λ x. if ltb x f.block_count then f.blocks x else zero_block;
  }

  -- Where there is no new mapping.
  abbrev pub unmapped : EdbFile
  unmapped = record grown { mapped = false }

  abbrev linked_last : Block
  linked_last = record (grown.blocks f.last_heap_block) { next_block = f.block_count }

  abbrev new_block : Block
  new_block = record (grown.blocks f.block_count) {
    type = heap;
    prev_block = f.last_heap_block;
    bytes = init (data_size f.block_size) (grown.blocks f.block_count).bytes;
  }

  abbrev pub with_new_block : EdbFile
  with_new_block =
      flush f.block_count new_block
        (record (flush f.last_heap_block linked_last grown) { last_heap_block = f.block_count })

  pub grown-same : (b : ℕ) → b < f.block_count → grown.blocks b ≡ f.blocks b
  grown-same b inside = let there : ltb b f.block_count ≡ true = ground arith in rw there refl

  module _ (os : Os) (small : f.block_count + 1 < 4294967296) where
    no_wrap : (f.block_count + 1) % 4294967296 ≡ f.block_count + 1
    no_wrap = omega arith

    expand-refused : (e : DbError) → os.ftruncate larger ≡ some e → expand os 1 f ≡ (err e, f)
    unfolding expand
    expand-refused e refused = rw (refused, expand) refl

    expand-remapped :
        os.ftruncate larger ≡ none → os.remap larger ≡ none → expand os 1 f ≡ (ok tt, grown)
    unfolding expand
    expand-remapped done mapped = rw (done, expand) (rw (mapped, no_wrap) refl)

    expand-unmapped :
        (e : DbError)
        → os.ftruncate larger ≡ none
        → os.remap larger ≡ some e
        → expand os 1 f ≡ (err e, unmapped)
    unfolding expand
    expand-unmapped e done refused = rw (done, expand) (rw (refused, no_wrap) refl)

    pub allocate_block-refused :
        (e : DbError) → os.ftruncate larger ≡ some e → allocate_block os heap f ≡ (err e, f)
    unfolding allocate_block
    allocate_block-refused e refused = rw (expand-refused e refused) refl

    pub allocate_block-unmapped :
        (e : DbError)
        → os.ftruncate larger ≡ none
        → os.remap larger ≡ some e
        → allocate_block os heap f ≡ (err e, unmapped)
    unfolding allocate_block
    allocate_block-unmapped e done refused = rw (expand-unmapped e done refused) refl

    place_block-heap :
        0 < f.last_heap_block
        → f.last_heap_block < f.block_count
        → place_block heap f.block_count grown ≡ ok with_new_block
    unfolding place_block link_last
    place_block-heap some_last inside =
        let there : (f.last_heap_block == 0) ≡ false = ground arith in
        let below : leb (f.block_count + 1) f.last_heap_block ≡ false = ground arith in
        rw (there, below) refl

    pub allocate_block-ok :
        0 < f.last_heap_block
        → f.last_heap_block < f.block_count
        → os.ftruncate larger ≡ none
        → os.remap larger ≡ none
        → allocate_block os heap f ≡ (ok f.block_count, with_new_block)
    unfolding allocate_block
    allocate_block-ok some_last inside done mapped =
        let last_one : f.block_count + 1 - 1 ≡ f.block_count = omega arith in
        let new_mapped = inside-mapped f.block_count grown refl (omega arith) (omega arith) in
        rw (expand-remapped done mapped)
          (rw (last_one, new_mapped, place_block-heap some_last inside) refl)

  pub with_new_block-Extends :
      0 < f.last_heap_block
      → f.last_heap_block < f.block_count
      → 25 ≤ f.block_size
      → f.block_size < 4294967296
      → Extends f with_new_block f.last_heap_block f.block_count (fresh (data_size f.block_size))
  unfolding flush
  with_new_block-Extends some_last inside room bound =
      let apart : (f.last_heap_block == f.block_count) ≡ false = ground arith in
      let same : (b : ℕ) → (b == b) ≡ true = λ b. ground arith in
      let new : ltb f.block_count f.block_count ≡ false = ground arith in
      record {
        same_size = refl;
        behind = omega arith;
        inside = omega arith;
        others = λ b ne lt.
            let other : (b == f.block_count) ≡ false = ground arith in
            let not_last : (b == f.last_heap_block) ≡ false = ground arith in
            rw (other, not_last) (grown-same b lt);
        linked = rw (apart, same f.last_heap_block) (rw (grown-same f.last_heap_block inside) refl);
        is_new = rw (same f.block_count) (
          refl,
          init-Chain (data_size f.block_size) _ (unfold data_size in omega arith)
              (unfold data_size in omega arith),
        );
        at_end = rw (same f.block_count, new) refl;
      }
