-- ===== src/Heap/Free.antt =====
-- `HeapBlock::init` and `HeapBlock::free` on the cells of a block, and allocation after them.
use essa_db.Prelude.{
  ℕ, ◌+◌, ◌-◌, ◌<◌, ◌≤◌, ◌==◌, true, false, List, [], ◌∷◌, if◌then◌else◌, ◌≡◌, ◌⊎◌, inl, inr, arith,
  ◌∙◌, sym, subst,
}
use essa_db.Heap.Memory.{
  Memory, read32, write_header, read32-agree, write_header-outside, read-write_header, write32,
  write32-outside, read32-write32,
}
use essa_db.Heap.Block.{empty, freed, end_edge, header_size, free, init, scrub, place_edge_headers}
use essa_db.Heap.Chain.{Cell, never_used, taken, given_back, Chain, Chain-agree}

abbrev pub fresh : ℕ → List Cell
fresh n = record { status = never_used; size = n - 16 } ∷ []

scrub-outside :
    (from count x : ℕ) (m : Memory) → (x < from) ⊎ (from + count ≤ x) → scrub from count m x ≡ m x
unfolding scrub
scrub-outside from count x m h = ground arith

-- For 16 <= n < 2^32, the n bytes of a block after `init` are a chain of one cell, never used, of
-- n - 16 bytes, whatever they were.
pub init-Chain : (n : ℕ) (m : Memory) → 16 ≤ n → n < 4294967296 → Chain (init n m) n 0 (fresh n)
init-Chain n m low high =
    let edge = write_header m (n - 8) end_edge 0 in
    let start = read-write_header edge 0 empty (n - 16) (omega arith) (omega arith) in
    let last = read-write_header m (n - 8) end_edge 0 (omega arith) (omega arith) in
    let first : (x : ℕ) → x < 8 → init n m x ≡ write_header edge 0 empty (n - 16) x = λ x lo.
      unfold init in
      unfold place_edge_headers in
      scrub-outside 8 (n - 16) x (write_header edge 0 empty (n - 16)) (inl lo) in
    let behind : (x : ℕ) → n - 8 ≤ x → init n m x ≡ edge x = λ x lo.
      unfold init in
      unfold place_edge_headers in
      (scrub-outside 8 (n - 16) x (write_header edge 0 empty (n - 16)) (inr (omega arith))
        ∙ write_header-outside edge 0 empty (n - 16) x (inr (omega arith))) in
    let there : 0 + (n - 16) + header_size ≡ n - 8 = omega arith in
    (
      read32-agree (write_header edge 0 empty (n - 16)) (init n m) 0
            (λ x lo hi. first x (omega arith))
          ∙ start.0,
      read32-agree (write_header edge 0 empty (n - 16)) (init n m) 4
            (λ x lo hi. first x (omega arith))
          ∙ start.1,
      omega arith,
      (
        subst (λ a. read32 (init n m) a ≡ end_edge) (sym there)
            (read32-agree edge (init n m) (n - 8) (λ x lo hi. behind x lo) ∙ last.0),
        omega arith,
      ),
    )

-- The cells once the one whose payload starts at `p` is given back.
unfoldable pub give_back : ℕ → ℕ → List Cell → List Cell
give_back p q [] = []
give_back p q (c ∷ cs) =
    let rest = give_back p (q + c.size + header_size) cs in
    if p == q + header_size then record { status = given_back; size = c.size } ∷ cs else c ∷ rest

-- `p` is the payload of a cell that is in use.
abbrev pub InUse : ℕ → ℕ → List Cell → Type 0
InUse p q [] = ⊥
InUse p q (c ∷ cs) =
    ((c.status ≡ taken) × (p ≡ q + header_size)) ⊎ InUse p (q + c.size + header_size) cs

InUse-le : (p q : ℕ) (cs : List Cell) → InUse p q cs → q + header_size ≤ p
InUse-le p q [] h = absurd h
InUse-le p q (c ∷ cs) (inl h) = omega arith
InUse-le p q (c ∷ cs) (inr h) = let rest = InUse-le p (q + c.size + header_size) cs h in omega arith

-- Writing the signature of a header leaves the words elsewhere.
free-read32 :
    (m : Memory) (p a : ℕ)
    → 8 ≤ p
    → (a + 4 ≤ p - 8) ⊎ (p ≤ a + 4)
    → read32 (free p m) a ≡ read32 m a
unfolding free
free-read32 m p a big (inl lo) =
    read32-agree m (free p m) a (λ x l u. write32-outside m (p - 8) freed x (inl (omega arith)))
free-read32 m p a big (inr hi) =
    read32-agree m (free p m) a (λ x l u. write32-outside m (p - 8) freed x (inr (omega arith)))

pub free-Chain :
    (m : Memory) (n p q : ℕ) (cs : List Cell)
    → Chain m n q cs
    → InUse p q cs
    → Chain (free p m) n q (give_back p q cs)
unfolding give_back
free-Chain m n p q [] h u = absurd u
free-Chain m n p q (c ∷ cs) h (inl u) =
    let here : (p == q + header_size) ≡ true = ground arith in
    let at_header : q ≡ p - header_size = omega arith in
    rw (here) (
      (unfold free in
          subst (λ a. read32 (write32 m a freed) q ≡ freed) at_header
            (read32-write32 m q freed (omega arith))),
      free-read32 m p (q + 4) (omega arith) (inr (omega arith)) ∙ h.1,
      h.2,
      Chain-agree m (free p m) n (q + c.size + header_size) cs
          (λ x lo. unfold free in write32-outside m (p - 8) freed x (inr (omega arith))) h.3,
    )
free-Chain m n p q (c ∷ cs) h (inr u) =
    let far = InUse-le p (q + c.size + header_size) cs u in
    let other : (p == q + header_size) ≡ false = ground arith in
    rw (other) (
      free-read32 m p q (omega arith) (inl (omega arith)) ∙ h.0,
      free-read32 m p (q + 4) (omega arith) (inl (omega arith)) ∙ h.1,
      h.2,
      free-Chain m n p (q + c.size + header_size) cs h.3 u,
    )
