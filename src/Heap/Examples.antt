-- ===== src/Heap/Examples.antt =====
-- Concrete runs of the heap's theorems.
use arqvenger_os.Base.{not, List, [], ◌∷◌, ◌==◌, if◌then◌else◌, set, replicate}
use arqvenger_os.Heap.{Heap}
use arqvenger_os.Heap.Layout.{Chunk, free_of, used_of}

-- A free chunk of 64 bytes at 2008 between two bounds.
abbrev one_free : Heap
one_free = record {
  context = 100;
  free_memory = 64;
  last_chunk_size = 0;
  last_chunk = 0;
  bins = set (replicate 89 []) 7 (2008 ∷ []);
  in_use = λ x. not (x == 2008);
  size = λ x. if x == 2008 then 64 else 8;
  footer = λ x. if x == 2068 then 64 else 8;
}

abbrev one_free_chunks : List Chunk
one_free_chunks = used_of 8 ∷ free_of 64 ∷ used_of 8 ∷ []

-- A used chunk of 64 bytes at 2008, and a free one of 32 bytes behind it.
abbrev one_used : Heap
one_used = record {
  context = 100;
  free_memory = 32;
  last_chunk_size = 0;
  last_chunk = 0;
  bins = set (replicate 89 []) 3 (2072 ∷ []);
  in_use = λ x. not (x == 2072);
  size = λ x. if x == 2008 then 64 else if x == 2072 then 32 else 8;
  footer = λ x. if x == 2068 then 64 else if x == 2100 then 32 else 8;
}

abbrev one_used_chunks : List Chunk
one_used_chunks = used_of 8 ∷ used_of 64 ∷ free_of 32 ∷ used_of 8 ∷ []
