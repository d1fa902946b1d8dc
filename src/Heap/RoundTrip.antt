-- ===== src/Heap/RoundTrip.antt =====
-- A chunk allocated and freed again.
use arqvenger_os.Base.{ℕ, ◌≡◌, ◌⊎◌, Bool, true, Option, none, some, List, [], ◌∷◌, ◌++◌}
use arqvenger_os.Heap.{Heap, free}
use arqvenger_os.Heap.Layout.{Chunk}
use arqvenger_os.Heap.Listed.{Sound}

-- No free chunk is the first or the last one, or stands beside another; `before` says whether the
-- chunk before these is used.
abbrev pub Separated : Bool → List Chunk → Type 0
Separated before [] = before ≡ true
Separated before (c ∷ cs) = ((c.used ≡ true) ⊎ (before ≡ true)) × Separated c.used cs

-- The used chunks before and behind a free one.
record Neighbours (xs ys : List Chunk) : Type 0 where
  xs' : List Chunk
  ys' : List Chunk
  c1 : Chunk
  c2 : Chunk
  before : xs ≡ xs' ++ (c1 ∷ [])
  behind : ys ≡ c2 ∷ ys'
  c1_used : c1.used ≡ true
  c2_used : c2.used ≡ true

-- An allocation that gives NULL, or a chunk that `free` takes back to the chunks `cs`.
pub data Undone (a : ℕ) (cs : List Chunk) : Option (Option ℕ × Heap) → Type 0 where
  nothing : (h : Heap) → Undone a cs (some (none, h))
  freed :
      (p : ℕ) (h h' : Heap)
      → free h (some p) ≡ some h'
      → Sound h' a cs
      → Undone a cs (some (some p, h))
