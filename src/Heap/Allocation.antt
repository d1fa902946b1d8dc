-- ===== src/Heap/Allocation.antt =====
-- Allocation: `malloc` without an external allocator.
use arqvenger_os.Base.{ℕ, ◌+◌, ◌≤◌, ◌<◌, ◌≡◌, ◌⊎◌, Option, none, some, ◌>>=◌, List, ◌∷◌, ◌++◌}
use arqvenger_os.Heap.{Heap}
use arqvenger_os.Heap.Layout.{Chunk, free_of, total, FreeAt}
use arqvenger_os.Heap.Listed.{Sound}
use arqvenger_os.Heap.Exhausted.{NoneFits}
use arqvenger_os.Heap.Split.{Cut}

module _ (h : Heap) (a : ℕ) (cs : List Chunk) (s : Sound h a cs) (n : ℕ) (low : 16 ≤ n) where
  -- a free chunk that is large enough
  abbrev pub Fit : ℕ → Type 0
  Fit c = FreeAt a cs c × (n ≤ h.size c)

-- What an allocation of a chunk of `n` bytes comes to: nothing, where less memory is free or no
-- free chunk is large enough, and the heap as it was, or a chunk
-- cut from a free one, with every other chunk as it was.
pub data Allocated (h : Heap) (a : ℕ) (cs : List Chunk) (n : ℕ)
    : Option (Option ℕ × Heap) → Type 0 where
  null : (h.free_memory < n) ⊎ NoneFits h a cs n → Allocated h a cs n (some (none, h))
  chunk :
      (xs ys new : List Chunk) (k m : ℕ) (h' : Heap)
      → cs ≡ xs ++ (free_of k ∷ ys)
      → Cut n k m new
      → Sound h' a (xs ++ (new ++ ys))
      → Allocated h a cs n (some (some (a + total xs + 4), h'))

abbrev pub data_of : Option (ℕ × Heap) → Option (Option ℕ × Heap)
data_of o = o >>= (λ r. some (some r.0, r.1))
