-- ===== src/Heap/Allocated.antt =====
-- The loop of `Heap::alloc` on the list of heap blocks.
use essa_db.Prelude.{
  ℕ, zero, suc, ◌+◌, ◌<◌, ◌≤◌, ◌≡◌, ◌≢◌, ◌⊎◌, refl, inl, inr, true, false, Option, none, some, List,
  [], ◌∷◌, ◌==◌, arith, ◌∙◌, ap, sym, length, subst, Bool-cases, Option-cases, Result, ok,
}
use essa_db.Heap.Memory.{Memory}
use essa_db.Heap.Block.{data_size, alloc}
use essa_db.Heap.Chain.{Cell, Chain, first_fit, take_first_fit}
use essa_db.Heap.Alloc.{Taken, alloc-Allocates}
use essa_db.Heap.File.{Block, EdbFile, HeapPtr, flush, is_mapped}
use essa_db.Heap.Blocks.{is_heap, after_alloc, alloc_round, alloc_in_blocks}
use essa_db.Heap.Linked.{
  HeapBlocks, Linked, TakenIn, IsHeapBlock, first_fit_block, take_first_fit_block, Linked-agree,
  first_block-fits, first_block-full,
}

pub flush-at : (b : ℕ) (block : Block) (f : EdbFile) → (flush b block f).blocks b ≡ block
unfolding flush
flush-at b block f = let same : (b == b) ≡ true = ground arith in rw same refl

pub flush-other :
    (b x : ℕ) (block : Block) (f : EdbFile) → x ≢ b → (flush b block f).blocks x ≡ f.blocks x
unfolding flush
flush-other b x block f ne = let other : (x == b) ≡ false = ground arith in rw other refl

pub inside-mapped :
    (b : ℕ) (f : EdbFile) → f.mapped ≡ true → 0 < b → b < f.block_count → is_mapped b f ≡ true
unfolding is_mapped
inside-mapped b f is lo hi = ground arith

-- The block is one of the list.
abbrev pub Listed : HeapBlocks → ℕ → Type 0
Listed [] b = ⊥
Listed ((b', cs) ∷ ls) b = (b ≡ b') ⊎ Listed ls b

pub Listed-lt :
    (f : EdbFile) (lo q b : ℕ) (ls : HeapBlocks) → Linked f lo q ls → Listed ls b → lo < b
Listed-lt f lo q b [] h l = absurd l
Listed-lt f lo q b ((b', cs) ∷ ls) h (inl e) = omega (arith, h.1)
Listed-lt f lo q b ((b', cs) ∷ ls) h (inr l) =
    let far = Listed-lt f b' (f.blocks b').next_block b ls h.4 l in omega (arith, h.1)

pub TakenIn-Listed : (ls : HeapBlocks) (b x : ℕ) → TakenIn ls b x → Listed ls b
TakenIn-Listed [] b x t = t
TakenIn-Listed ((b', cs) ∷ ls) b x (inl t) = inl t.0
TakenIn-Listed ((b', cs) ∷ ls) b x (inr t) = inr (TakenIn-Listed ls b x t)

-- The file `g` has what `f` has, but for the bytes of heap blocks that are not in use.
pub record Spares (ls : HeapBlocks) (f g : EdbFile) : Type 0 where
  pub same_size : g.block_size ≡ f.block_size
  pub same_file_size : g.file_size ≡ f.file_size
  pub same_count : g.block_count ≡ f.block_count
  pub same_mapped : g.mapped ≡ f.mapped
  pub same_last : g.last_heap_block ≡ f.last_heap_block
  pub others : (b : ℕ) → ¬ Listed ls b → g.blocks b ≡ f.blocks b
  pub kept : (b x : ℕ) → TakenIn ls b x → (g.blocks b).bytes x ≡ (f.blocks b).bytes x

same-Spares : (ls : HeapBlocks) (f : EdbFile) → Spares ls f f
same-Spares ls f = record {
  same_size = refl;
  same_file_size = refl;
  same_count = refl;
  same_mapped = refl;
  same_last = refl;
  others = λ b out. refl;
  kept = λ b x t. refl;
}

-- The next round where the list goes on.
next-nonzero :
    (f : EdbFile) (lo q b : ℕ) (cs : List Cell) (ls : HeapBlocks)
    → Linked f lo q ((b, cs) ∷ ls)
    → (q == 0) ≡ false
next-nonzero f lo q b cs ls (at, above, inside, is, rest) = ground arith

alloc_round-lem :
    (size b : ℕ) (f : EdbFile) (o : Option ℕ) (m : Memory)
    → f.mapped ≡ true
    → 0 < b
    → b < f.block_count
    → is_heap (f.blocks b).type ≡ true
    → alloc (data_size f.block_size) size (f.blocks b).bytes ≡ some (ok o, m)
    → alloc_round size b f ≡ after_alloc b f (some (ok o, m))
unfolding alloc_round
alloc_round-lem size b f o m map lo hi is out = rw (inside-mapped b f map lo hi, is, out) refl

-- What the loop makes of the list from `q` on.
abbrev pub Found :
    ℕ → ℕ → ℕ → HeapBlocks → EdbFile → Option (Result (Option HeapPtr) × EdbFile) → Type 0
Found size lo q ls f out =
    (g : EdbFile) × (out ≡ some (ok (first_fit_block size ls), g))
    × Linked g lo q (take_first_fit_block size ls)
    × Spares ls f g

module _ (size lo b : ℕ) (f : EdbFile) (cs : List Cell) (ls : HeapBlocks) (m : Memory)
    (above : lo < b) (inside : b < f.block_count) (is : is_heap (f.blocks b).type ≡ true)
    (chain : Chain m (data_size f.block_size) 0 (take_first_fit size cs))
    (kept : (x : ℕ) → Taken 0 cs x → m x ≡ (f.blocks b).bytes x)
    (rest : Linked f b (f.blocks b).next_block ls) where
  -- The file with the block written back.
  abbrev written : EdbFile
  written = flush b (record (f.blocks b) { bytes = m }) f

  written-Linked : Linked written b (f.blocks b).next_block ls
  unfolding flush
  written-Linked =
      Linked-agree f written b (f.blocks b).next_block ls refl (omega arith)
        (λ x lo' hi. flush-other b x (record (f.blocks b) { bytes = m }) f (ground arith)) rest

  written-head : IsHeapBlock written (written.blocks b) (take_first_fit size cs)
  unfolding flush
  written-head = let same : (b == b) ≡ true = ground arith in rw same (is, chain)

  written-Spares : (g : EdbFile) → Spares ls written g → Spares ((b, cs) ∷ ls) f g
  unfolding flush
  written-Spares g s =
      let unlisted : ¬ Listed ls b =
        (λ l. let far = Listed-lt f b (f.blocks b).next_block b ls rest l in omega arith) in
      record {
        same_size = s.same_size;
        same_file_size = s.same_file_size;
        same_count = s.same_count;
        same_mapped = s.same_mapped;
        same_last = s.same_last;
        others = λ x out.
            s.others x (λ l. out (inr l))
            ∙ flush-other b x (record (f.blocks b) { bytes = m }) f (λ e. out (inl e));
        kept = λ x y t. elim t [
          | inl (e, t) ↦ rw e (
              ap (λ k. k.bytes y)
                (s.others b unlisted ∙ flush-at b (record (f.blocks b) { bytes = m }) f)
              ∙ kept y t)
          | inr t ↦
              let far = Listed-lt f b (f.blocks b).next_block x ls rest (TakenIn-Listed ls x y t) in
              s.kept x y t
              ∙ ap (λ k. k.bytes y)
                  (flush-other b x (record (f.blocks b) { bytes = m }) f (λ e. omega arith))
        ];
      }

  -- The list in a file that has the block as it is written back.
  after-Linked :
      (g : EdbFile) (ls' : HeapBlocks)
      → Spares ls written g
      → Linked g b (f.blocks b).next_block ls'
      → Linked g lo b ((b, take_first_fit size cs) ∷ ls')
  unfolding flush
  after-Linked g ls' s h =
      let unlisted : ¬ Listed ls b =
        (λ l. let far = Listed-lt f b (f.blocks b).next_block b ls rest l in omega arith) in
      let here : g.blocks b ≡ record (f.blocks b) { bytes = m } =
        s.others b unlisted ∙ flush-at b (record (f.blocks b) { bytes = m }) f in
      (refl, above, omega (arith, s.same_count), rw (here, s.same_size) (is, chain), rw here h)

  -- The first block has a cell that fits.
  fit-Found :
      (fuel p : ℕ)
      → f.mapped ≡ true
      → alloc (data_size f.block_size) size (f.blocks b).bytes ≡ some (ok (first_fit size 0 cs), m)
      → first_fit size 0 cs ≡ some p
      → Found size lo b ((b, cs) ∷ ls) f (alloc_in_blocks (suc fuel) size b f)
  unfolding alloc_in_blocks
  fit-Found fuel p map out e =
      let (first, taken) = first_block-fits size b cs ls p e in
      let round = alloc_round-lem size b f (some p) m map (omega arith) inside is (rw e at out) in
      (
        written,
        rw (round, alloc_in_blocks) (rw first refl),
        rw taken (after-Linked written ls (same-Spares ls written) written-Linked),
        written-Spares written (same-Spares ls written),
      )

  -- It has none, and the list goes on, or ends.
  miss-Found :
      (fuel : ℕ)
      → f.mapped ≡ true
      → alloc (data_size f.block_size) size (f.blocks b).bytes ≡ some (ok (first_fit size 0 cs), m)
      → first_fit size 0 cs ≡ none
      → (((f.blocks b).next_block == 0) ≡ false
          → Found size b
              (f.blocks b).next_block
              ls
              written
              (alloc_in_blocks fuel size (f.blocks b).next_block written))
      → (((f.blocks b).next_block == 0) ≡ true → ls ≡ [])
      → Found size lo b ((b, cs) ∷ ls) f (alloc_in_blocks (suc fuel) size b f)
  unfolding alloc_in_blocks
  miss-Found fuel map out e go_on end =
      let round = alloc_round-lem size b f none m map (omega arith) inside is (rw e at out) in
      let (first, taken) = first_block-full size b cs ls e in
      elim (Bool-cases ((f.blocks b).next_block == 0)) [
        | inr more ↦
            let (g, found, linked, spares) = go_on more in
            (
              g,
              rw (round, alloc_in_blocks) (rw (more, first) found),
              rw taken (after-Linked g (take_first_fit_block size ls) spares linked),
              written-Spares g spares,
            )
        | inl last ↦
            let no_more = end last in
            (
              written,
              rw (round, alloc_in_blocks)
                  (rw (last, first, no_more) (unfold first_fit_block in refl)),
              rw taken (
                  after-Linked written (take_first_fit_block size ls) (same-Spares ls written)
                    (unfold take_first_fit_block in rw no_more (rw no_more at rest))),
              written-Spares written (same-Spares ls written),
            )
      ]

end_of_list :
    (f : EdbFile) (lo q : ℕ) (ls : HeapBlocks) → Linked f lo q ls → (q == 0) ≡ true → ls ≡ []
end_of_list f lo q [] h e = refl
end_of_list f lo q ((b, cs) ∷ ls) h e =
    let more = next-nonzero f lo q b cs ls h in absurd (ground arith)

pub alloc_in_blocks-Found :
    (fuel size lo q : ℕ) (ls : HeapBlocks) (f : EdbFile)
    → size + 16 < 18446744073709551616
    → length ls ≤ fuel
    → q ≢ 0
    → f.mapped ≡ true
    → Linked f lo q ls
    → Found size lo q ls f (alloc_in_blocks fuel size q f)
unfolding flush
alloc_in_blocks-Found fuel size lo q [] f fine enough ne map h = absurd (ne h)
alloc_in_blocks-Found zero size lo q ((b, cs) ∷ ls) f fine enough ne map h = absurd (omega arith)
alloc_in_blocks-Found (suc fuel) size lo q ((b, cs) ∷ ls) f fine enough ne map
      (at, above, inside, is, rest) =
    let (m, out, chain, kept) =
      alloc-Allocates (data_size f.block_size) size cs (f.blocks b).bytes fine is.1 in
    let spared : (x : ℕ) → Taken 0 cs x → m x ≡ (f.blocks b).bytes x = λ x t. kept x (inr t) in
    let next = (f.blocks b).next_block in
    subst (λ k. Found size lo k ((b, cs) ∷ ls) f (alloc_in_blocks (suc fuel) size k f)) (sym at)
      (elim (Option-cases (first_fit size 0 cs)) [
        | inr (p, e) ↦
            fit-Found size lo b f cs ls m above inside is.0 chain spared rest fuel p map out e
        | inl e ↦
            miss-Found size lo b f cs ls m above inside is.0 chain spared rest fuel map out e
              (λ more.
                alloc_in_blocks-Found fuel size b next ls
                  (written size lo b f cs ls m above inside is.0 chain spared rest) fine
                  (omega arith) (ground arith) map
                  (written-Linked size lo b f cs ls m above inside is.0 chain spared rest))
              (end_of_list f b next ls rest)
      ])
