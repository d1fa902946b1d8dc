-- ===== src/Heap/Start.antt =====
-- A new heap: `init_malloc` and the buffer that it is made of.
use arqvenger_os.Base.{ℕ, zero, suc, ◌+◌, ◌-◌, ◌≤◌, ◌<◌, true, false, List, [], ◌∷◌, replicate}
use arqvenger_os.Heap.{Heap, marked}
use arqvenger_os.Heap.Layout.{Chunk, free_of, used_of}
use arqvenger_os.Heap.Listed.{InBin}

pub InBin-replicate : (x i n : ℕ) → InBin x i (replicate n []) → ⊥
InBin-replicate x i zero m = m
InBin-replicate x zero (suc n) m = m
InBin-replicate x (suc i) (suc n) m = InBin-replicate x i n m

-- The chunks of a new buffer of `n` bytes.
abbrev pub new_buffer : ℕ → List Chunk
new_buffer n = used_of 8 ∷ free_of (n - 16) ∷ used_of 8 ∷ []

module _ (h : Heap) (memory n : ℕ) (low : 32 ≤ n) (high : memory + n < 0x80000000) where
  bounded : Heap
  bounded = marked (marked h memory true 8) (memory + n - 8) true 8

  buffer : Heap
  buffer = marked bounded (memory + 8) false (n - 16)
