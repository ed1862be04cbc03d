-- ===== src/Heap/Memory.antt =====
-- The bytes of a heap block, and the two words of a header in them (db/storage/edb/AlignedAccess.hpp:
-- a header is copied out, and copied back when the access ends). The host is little-endian.
use essa_db.Prelude.{
  ℕ, ◌+◌, ◌*◌, ◌/◌, ◌%◌, ◌<◌, ◌≤◌, ◌≡◌, ◌⊎◌, ◌==◌, if◌then◌else◌, arith, inl, inr, ◌∙◌,
}

-- Offsets count from `m_data`.
abbrev pub Memory : Type 0
Memory = ℕ → ℕ

unfoldable pub write8 : Memory → ℕ → ℕ → Memory
write8 m a v x = if x == a then v else m x

unfoldable pub read32 : Memory → ℕ → ℕ
read32 m a = m a + 256 * m (a + 1) + 65536 * m (a + 2) + 16777216 * m (a + 3)

unfoldable pub write32 : Memory → ℕ → ℕ → Memory
unfolding write8
write32 m a v =
    write8
      (write8 (write8 (write8 m a (v % 256)) (a + 1) (v / 256 % 256)) (a + 2) (v / 65536 % 256))
      (a + 3) (v / 16777216 % 256)

-- `HeapHeader`, as the end of an access writes it.
unfoldable pub write_header : Memory → ℕ → ℕ → ℕ → Memory
unfolding write32
write_header m a signature size = write32 (write32 m a signature) (a + 4) size

pub write32-outside : (m : Memory) (a v x : ℕ) → (x < a) ⊎ (a + 4 ≤ x) → write32 m a v x ≡ m x
unfolding write32
write32-outside m a v x h = ground arith

write32-at :
    (m : Memory) (a v : ℕ)
    → (write32 m a v a ≡ v % 256)
      × (write32 m a v (a + 1) ≡ v / 256 % 256)
      × (write32 m a v (a + 2) ≡ v / 65536 % 256)
      × (write32 m a v (a + 3) ≡ v / 16777216 % 256)
unfolding write32
write32-at m a v = ground arith

pub read32-write32 : (m : Memory) (a v : ℕ) → v < 4294967296 → read32 (write32 m a v) a ≡ v
unfolding read32
read32-write32 m a v h =
    let (e0, e1, e2, e3) = write32-at m a v in rw (e0, e1, e2, e3) (omega arith)

-- Memories that agree on a word hold the same word.
pub read32-agree :
    (m m' : Memory) (a : ℕ) → ((x : ℕ) → a ≤ x → x < a + 4 → m' x ≡ m x) → read32 m' a ≡ read32 m a
unfolding read32
read32-agree m m' a h = rw (
  h a (omega arith) (omega arith),
  h (a + 1) (omega arith) (omega arith),
  h (a + 2) (omega arith) (omega arith),
  h (a + 3) (omega arith) (omega arith),
)

pub write_header-outside :
    (m : Memory) (a s n x : ℕ) → (x < a) ⊎ (a + 8 ≤ x) → write_header m a s n x ≡ m x
unfolding write_header
write_header-outside m a s n x (inl h) =
    write32-outside (write32 m a s) (a + 4) n x (inl (omega arith))
    ∙ write32-outside m a s x (inl h)
write_header-outside m a s n x (inr h) =
    write32-outside (write32 m a s) (a + 4) n x (inr (omega arith))
    ∙ write32-outside m a s x (inr (omega arith))

pub read-write_header :
    (m : Memory) (a s n : ℕ)
    → s < 4294967296
    → n < 4294967296
    → (read32 (write_header m a s n) a ≡ s) × (read32 (write_header m a s n) (a + 4) ≡ n)
unfolding write_header
read-write_header m a s n hs hn = (
  read32-agree (write32 m a s) (write32 (write32 m a s) (a + 4) n) a
        (λ x lo hi. write32-outside (write32 m a s) (a + 4) n x (inl hi))
      ∙ read32-write32 m a s hs,
  read32-write32 (write32 m a s) (a + 4) n hn,
)
