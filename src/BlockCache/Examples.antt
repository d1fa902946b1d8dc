-- ===== src/BlockCache/Examples.antt =====
-- Concrete runs of the block cache's theorems.
use arqvenger_os.Base.{ℕ, true, ◌+◌, ◌≡◌, refl, [], ◌∷◌, some, arith}
use arqvenger_os.BlockCache.{
  Sector, Disk, Cache, cache_init, find_chunk, cache_evict, cache_read, cache_write, cache_sync,
  copy_out, copy_in, read_from, read_found, read_chunk, write_from, write_found, write_chunk,
  part_of, find_or_load, search_from, search_entry, load_chunk, mark_access, cache_list_remove,
}
use arqvenger_os.BlockCache.View.{Shows}
use arqvenger_os.BlockCache.Flush.{cache_init-Shows}
use arqvenger_os.BlockCache.Lru.{cache_init-IsLinked}
use arqvenger_os.BlockCache.Room.{Freed, cache_evict-Freed}
use arqvenger_os.BlockCache.Find.{Loaded, find_chunk-Loaded}
use arqvenger_os.BlockCache.Read.{Reads, cache_read-Reads}
use arqvenger_os.BlockCache.Write.{Writes, cache_write-Writes, cache_sync-disk}

-- the number of a sector is its one byte
abbrev numbered : Disk
numbered x = x ∷ []

abbrev new_data : ℕ → Sector
new_data x = (100 + x) ∷ []

abbrev empty_cache : Cache
empty_cache = cache_init numbered

-- a cache with the second page of the disk
abbrev one_page : Cache
one_page = (find_chunk 3 empty_cache 1).1

-- 12 sectors from the sixth on are written, in the three first pages.
abbrev with_writes : Cache
with_writes = (cache_write 5 empty_cache 6 12 new_data).1

cache_init-Shows_example : Shows empty_cache numbered
cache_init-Shows_example = cache_init-Shows numbered

find_chunk-Loaded_example : Loaded numbered 8 (find_chunk 3 empty_cache 1)
find_chunk-Loaded_example =
    find_chunk-Loaded 3 empty_cache numbered 1 (cache_init-Shows numbered)
      (cache_init-IsLinked numbered) (omega arith)

cache_read-Reads_example : Reads numbered 6 12 (cache_read 5 empty_cache 6 12)
cache_read-Reads_example =
    cache_read-Reads 5 empty_cache numbered 6 12 (cache_init-Shows numbered)
      (cache_init-IsLinked numbered) (omega arith)

cache_write-Writes_example :
    Writes (copy_in numbered 6 new_data 0 12) (cache_write 5 empty_cache 6 12 new_data)
cache_write-Writes_example =
    cache_write-Writes 5 empty_cache numbered 6 12 new_data (cache_init-Shows numbered)
      (cache_init-IsLinked numbered) (omega arith)

cache_sync-disk_example :
    (cache_sync 7 with_writes true).disk 10 ≡ copy_in numbered 6 new_data 0 12 10
cache_sync-disk_example =
    cache_sync-disk 7 with_writes (copy_in numbered 6 new_data 0 12) 10
      (cache_write-Writes 5 empty_cache numbered 6 12 new_data (cache_init-Shows numbered)
        (cache_init-IsLinked numbered) (omega arith)).1

cache_evict-Freed_example : Freed (cache_evict 4 one_page 1)
cache_evict-Freed_example =
    let page =
      find_chunk-Loaded 3 empty_cache numbered 1 (cache_init-Shows numbered)
        (cache_init-IsLinked numbered) (omega arith) in
    cache_evict-Freed 4 one_page numbered page.0 page.1 page.3 page.4 page.5

-- The runs themselves.
cache_read_test :
    (cache_read 6 with_writes 16 4).0 ≡ some ((110 ∷ []) ∷ (111 ∷ []) ∷ (18 ∷ []) ∷ (19 ∷ []) ∷ [])
unfolding cache_read read_from read_found read_chunk copy_out cache_write write_from write_found
    write_chunk part_of find_chunk find_or_load search_from search_entry load_chunk mark_access
    cache_list_remove cache_init
cache_read_test = refl
