-- ===== src/Heap/Merging.antt =====
-- What `free` leaves: the freed chunk joined with its free neighbours.
use arqvenger_os.Base.{ℕ, ◌+◌, ◌≤◌, List, ◌∷◌, ◌++◌}
use arqvenger_os.Heap.{Heap}
use arqvenger_os.Heap.Layout.{Chunk, used_of, total}
use arqvenger_os.Heap.Listed.{Sound}

module _ (h : Heap) (a : ℕ) (xs ys : List Chunk) (c1 c2 : Chunk) (n : ℕ)
    (s : Sound h a (xs ++ (c1 ∷ used_of n ∷ c2 ∷ ys))) (low : 16 ≤ n) where
  -- the address of the freed chunk
  abbrev q : ℕ
  q = a + total xs + c1.bytes
