-- ===== src/Heap/Split.antt =====
-- db/storage/edb/Heap.cpp: what the two headers that a successful allocation writes make of a cell.
use essa_db.Prelude.{
  ℕ, ◌+◌, ◌-◌, ◌%◌, ◌<◌, ◌≤◌, List, ◌∷◌, ◌≡◌, refl, ◌⊎◌, inl, inr, arith, ◌∙◌, ap, sym, subst,
}
use essa_db.Heap.Memory.{
  Memory, write_header, read32-agree, write_header-outside, read-write_header,
}
use essa_db.Heap.Block.{used, empty, header_size, distance_to_next_header, split}
use essa_db.Heap.Chain.{Cell, never_used, taken, Chain, Chain-agree}

-- Where the cell has the room, nothing wraps.
abbrev whole_split : ℕ → ℕ → ℕ → Memory → Memory
whole_split q old size m =
    write_header (write_header m (q + size + header_size) empty (old - size - header_size)) q used
      size

split-whole :
    (q old size : ℕ) (m : Memory)
    → size + header_size + header_size ≤ old
    → old < 4294967296
    → split q old size m ≡ whole_split q old size m
unfolding split distance_to_next_header
split-whole q old size m room small =
    let part : size % 4294967296 ≡ size = omega arith in
    let inner : (old + 36893488147419103232 - size - header_size) % 18446744073709551616
        ≡ old - size - header_size =
      omega arith in
    let distance : (old - size - header_size) % 4294967296 ≡ old - size - header_size =
      omega arith in
    rw (part, inner, distance) refl

module _ (m : Memory) (q old size : ℕ) where
  whole-outside :
      (x : ℕ)
      → size + header_size + header_size ≤ old
      → (x < q) ⊎ (q + old + header_size ≤ x)
      → whole_split q old size m x ≡ m x
  whole-outside x room (inl h) =
      write_header-outside
        (write_header m (q + size + header_size) empty (old - size - header_size)) q used size x
        (inl h)
      ∙ write_header-outside m (q + size + header_size) empty (old - size - header_size) x
          (inl (omega arith))
  whole-outside x room (inr h) =
      write_header-outside
        (write_header m (q + size + header_size) empty (old - size - header_size)) q used size x
        (inr (omega arith))
      ∙ write_header-outside m (q + size + header_size) empty (old - size - header_size) x
          (inr (omega arith))

  whole-Chain :
      (n : ℕ) (cs : List Cell)
      → size + header_size + header_size ≤ old
      → old < 4294967296
      → Chain m n (q + old + header_size) cs
      → Chain (whole_split q old size m) n q (
          record { status = taken; size = size }
          ∷ record { status = never_used; size = old - size - header_size }
          ∷ cs)
  whole-Chain n cs room small h =
      let inner = write_header m (q + size + header_size) empty (old - size - header_size) in
      let first = read-write_header inner q used size (omega arith) (omega arith) in
      let second =
        read-write_header m (q + size + header_size) empty (old - size - header_size) (omega arith)
          (omega arith) in
      let above : (x : ℕ) → q + 8 ≤ x → whole_split q old size m x ≡ inner x =
        λ x lo. write_header-outside inner q used size x (inr lo) in
      let there : q + old + header_size
          ≡ q + size + header_size + (old - size - header_size) + header_size =
        omega arith in
      (
        first.0,
        first.1,
        omega arith,
        (
          read32-agree inner (whole_split q old size m) (q + size + header_size)
                (λ x lo hi. above x (omega arith))
              ∙ second.0,
          read32-agree inner (whole_split q old size m) (q + size + header_size + 4)
                (λ x lo hi. above x (omega arith))
              ∙ second.1,
          omega arith,
          subst (λ a. Chain (whole_split q old size m) n a cs) there
              (Chain-agree m (whole_split q old size m) n (q + old + header_size) cs
                (λ x lo. whole-outside x room (inr lo)) h),
        ),
      )

  pub split-outside :
      (x : ℕ)
      → size + header_size + header_size ≤ old
      → old < 4294967296
      → (x < q) ⊎ (q + old + header_size ≤ x)
      → split q old size m x ≡ m x
  split-outside x room small h =
      ap (λ k. k x) (split-whole q old size m room small) ∙ whole-outside x room h

  pub split-Chain :
      (n : ℕ) (cs : List Cell)
      → size + header_size + header_size ≤ old
      → old < 4294967296
      → Chain m n (q + old + header_size) cs
      → Chain (split q old size m) n q (
          record { status = taken; size = size }
          ∷ record { status = never_used; size = old - size - header_size }
          ∷ cs)
  split-Chain n cs room small h =
      subst
        (λ k. Chain k n q (
          record { status = taken; size = size }
          ∷ record { status = never_used; size = old - size - header_size }
          ∷ cs))
        (sym (split-whole q old size m room small)) (whole-Chain n cs room small h)
