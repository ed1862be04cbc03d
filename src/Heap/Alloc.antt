-- ===== src/Heap/Alloc.antt =====
-- `HeapBlock::alloc` is first fit on the cells of a block: it never reports corruption of a chain,
-- its loop ends, and it writes to no payload that is in use.
use essa_db.Prelude.{
  ℕ, zero, suc, ◌+◌, ◌%◌, ◌<◌, ◌≤◌, ltb, ◌==◌, true, false, Option, some, List, [], ◌∷◌, Result, ok,
  ◌≡◌, ◌≢◌, refl, ◌⊎◌, inl, inr, arith, length, ◌∙◌, sym, subst, Bool-cases,
}
use essa_db.Heap.Memory.{Memory, read32-agree}
use essa_db.Heap.Block.{
  end_edge, is_available, has_valid_signature, header_size, alloc_loop, alloc, split,
}
use essa_db.Heap.Split.{split-outside, split-Chain}
use essa_db.Heap.Chain.{
  Status, Cell, never_used, taken, given_back, signature, is_free, Chain, Chain-le, length-Chain-le,
  fits, first_fit, take_first_fit,
}

signature_valid : (s : Status) → has_valid_signature (signature s) ≡ true
unfolding has_valid_signature
signature_valid never_used = refl
signature_valid taken = refl
signature_valid given_back = refl

signature_available : (s : Status) → is_available (signature s) ≡ is_free s
unfolding is_available
signature_available never_used = refl
signature_available taken = refl
signature_available given_back = refl

signature_inner : (s : Status) → (signature s == end_edge) ≡ false
signature_inner never_used = refl
signature_inner taken = refl
signature_inner given_back = refl

-- A byte of the payload of a cell that is in use.
abbrev pub Taken : ℕ → List Cell → ℕ → Type 0
Taken q [] x = ⊥
Taken q (c ∷ cs) x =
    ((c.status ≡ taken) × (q + header_size ≤ x) × (x < q + header_size + c.size))
    ⊎ Taken (q + c.size + header_size) cs x

pub Taken-le : (q : ℕ) (cs : List Cell) (x : ℕ) → Taken q cs x → q + header_size ≤ x
Taken-le q [] x h = absurd h
Taken-le q (c ∷ cs) x (inl h) = h.1
Taken-le q (c ∷ cs) x (inr h) = let rest = Taken-le (q + c.size + header_size) cs x h in omega arith

-- What an allocation in the cells `cs` from `q` on gives: the answer of first fit, a block whose cells
-- are those of first fit, and the bytes that are in use as they were.
abbrev pub Allocates : ℕ → ℕ → ℕ → List Cell → Memory → Option (Result (Option ℕ) × Memory) → Type 0
Allocates n q size cs m out =
    (m' : Memory) × (out ≡ some (ok (first_fit size q cs), m'))
    × Chain m' n q (take_first_fit size cs)
    × ((x : ℕ) → (x < q) ⊎ Taken q cs x → m' x ≡ m x)

-- A header at `q` that is skipped stays, and the rest of the chain goes on behind it.
skip-Allocates :
    (n q size : ℕ) (c : Cell) (cs : List Cell) (m : Memory)
    (out : Option (Result (Option ℕ) × Memory))
    → fits size c ≡ false
    → Chain m n q (c ∷ cs)
    → Allocates n (q + c.size + header_size) size cs m out
    → Allocates n q size (c ∷ cs) m out
unfolding first_fit take_first_fit
skip-Allocates n q size c cs m out e h (m', same, chain, kept) = rw (e) (
  m',
  same,
  (
    read32-agree m m' q (λ x lo hi. kept x (inl (omega arith))) ∙ h.0,
    read32-agree m m' (q + 4) (λ x lo hi. kept x (inl (omega arith))) ∙ h.1,
    h.2,
    chain,
  ),
  λ x d. elim d [
    | inl low ↦ kept x (inl (omega arith))
    | inr (inl t) ↦ kept x (inl (omega arith))
    | inr (inr t) ↦ kept x (inr t)
  ],
)

pub fits-room :
    (size : ℕ) (c : Cell)
    → fits size c ≡ true
    → (is_free c.status ≡ true)
      × (ltb c.size (size + header_size + header_size) ≡ false)
      × (size + header_size + header_size ≤ c.size)
fits-room size c e = ground arith

pub available-not_taken : (s : Status) → is_free s ≡ true → s ≢ taken
available-not_taken never_used e h = cc
available-not_taken taken e h = cc
available-not_taken given_back e h = cc

sum-whole :
    (size : ℕ)
    → size + 16 < 18446744073709551616
    → (size + header_size + header_size) % 18446744073709551616 ≡ size + header_size + header_size
sum-whole size fine = omega arith

alloc_loop-skip :
    (fuel n size q : ℕ) (c : Cell) (cs : List Cell) (m : Memory)
    → size + 16 < 18446744073709551616
    → fits size c ≡ false
    → Chain m n q (c ∷ cs)
    → alloc_loop (suc fuel) n size q m ≡ alloc_loop fuel n size (q + c.size + header_size) m
unfolding alloc_loop
alloc_loop-skip fuel n size q c cs m fine e h =
    let whole = sum-whole size fine in
    let inside : ltb n (q + c.size + header_size) ≡ false =
      (let rest = Chain-le m n (q + c.size + header_size) cs h.3 in ground arith) in
    rw
      (
        h.0,
        h.1,
        signature_valid c.status,
        signature_available c.status,
        whole,
        e,
        signature_inner c.status,
        inside,
      )
      refl

alloc_loop-Allocates :
    (fuel n size q : ℕ) (cs : List Cell) (m : Memory)
    → size + 16 < 18446744073709551616
    → length cs < fuel
    → Chain m n q cs
    → Allocates n q size cs m (alloc_loop fuel n size q m)
unfolding alloc_loop first_fit take_first_fit is_available has_valid_signature
alloc_loop-Allocates zero n size q cs m fine enough h = absurd (omega arith)
alloc_loop-Allocates (suc fuel) n size q [] m fine enough h = (m, rw (h.0) refl, h, λ x i. refl)
alloc_loop-Allocates (suc fuel) n size q (c ∷ cs) m fine enough h =
    elim (Bool-cases (fits size c)) [
      | inl e ↦
          let whole = sum-whole size fine in
          let (free, room, le) = fits-room size c e in
          (
            split q c.size size m,
            rw (h.0, h.1, signature_valid c.status, signature_available c.status, whole, free, room)
                refl,
            rw (e) (split-Chain m q c.size size n cs le h.2 h.3),
            λ x d. elim d [
              | inl low ↦ split-outside m q c.size size x le h.2 (inl low)
              | inr (inl t) ↦ absurd (available-not_taken c.status free t.0)
              | inr (inr t) ↦
                  split-outside m q c.size size x le h.2
                    (inr (let lo = Taken-le (q + c.size + header_size) cs x t in omega arith))
            ],
          )
      | inr e ↦ skip-Allocates n q size c cs m (alloc_loop (suc fuel) n size q m) e h (
          subst (λ o. Allocates n (q + c.size + header_size) size cs m o)
            (sym (alloc_loop-skip fuel n size q c cs m fine e h))
            (alloc_loop-Allocates fuel n size (q + c.size + header_size) cs m fine (omega arith)
              h.3))
    ]

-- If the n bytes of a block are a chain of headers with the cells cs, `alloc` of `size` bytes, of
-- less than 2^64 - 16, terminates and does not report corruption: it gives the payload that first
-- fit chooses among cs, or none where none fits; the bytes after it are a chain whose cells are
-- cs with the chosen cell split in two, and no byte of the payload of a cell in use has changed.
pub alloc-Allocates :
    (n size : ℕ) (cs : List Cell) (m : Memory)
    → size + 16 < 18446744073709551616
    → Chain m n 0 cs
    → Allocates n 0 size cs m (alloc n size m)
unfolding alloc
alloc-Allocates n size cs m fine h =
    let bound = length-Chain-le m n 0 cs h in
    alloc_loop-Allocates (suc n) n size 0 cs m fine (omega arith) h
