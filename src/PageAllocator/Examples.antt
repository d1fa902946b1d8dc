-- ===== src/PageAllocator/Examples.antt =====
-- Concrete runs of the page allocator's theorems.
use arqvenger_os.Base.{◌+◌, ◌≡◌, refl, [], ◌∷◌, some, arith}
use arqvenger_os.PageAllocator.{
  PageMap, MemoryMapEntry, is_page_set, scan_from, after_scan, find_from, find_pages, init_pages,
  empty_page_map,
}
use arqvenger_os.PageAllocator.FirstFit.{IsFirstRun, find_from-IsFirstRun}
use arqvenger_os.PageAllocator.Pages.{IsPageMap, empty_page_map-IsPageMap, init_pages-IsPageMap}
use arqvenger_os.PageAllocator.Allocation.{
  Allocated, find_pages-Allocated, GivenBack, free_pages-find_pages,
}

-- 16 KB of memory from 4 MB on
abbrev small_memory : MemoryMapEntry
small_memory = record {
  base_addr_low = 0x40_0000;
  base_addr_high = 0;
  length_low = 0x4000;
  type = 1;
}

abbrev four_pages : PageMap
four_pages = init_pages empty_page_map (small_memory ∷ [])

four_pages-IsPageMap : IsPageMap four_pages
four_pages-IsPageMap =
    init_pages-IsPageMap empty_page_map (small_memory ∷ []) empty_page_map-IsPageMap

find_pages-Allocated_example : Allocated four_pages 3 (find_pages four_pages 3)
find_pages-Allocated_example = find_pages-Allocated four_pages 3 four_pages-IsPageMap (omega arith)

free_pages-find_pages_example : GivenBack four_pages 3 (find_pages four_pages 3)
free_pages-find_pages_example =
    free_pages-find_pages four_pages 3 four_pages-IsPageMap (omega arith)

-- The two words have free pages at 2, 5 to 7 and 31 to 34, with the first one's number 1024.
abbrev two_words : PageMap
two_words = 0x8000_00e4 ∷ 7 ∷ []

find_from-IsFirstRun_example : IsFirstRun two_words 4 (find_from two_words 2 4 2 0)
find_from-IsFirstRun_example =
    find_from-IsFirstRun two_words 2 4 2 0 refl (omega arith) (omega arith)
      (λ b lt. absurd (omega (arith, lt)))

find_from_test : find_from two_words 2 4 2 0 ≡ some (1024 + 31)
unfolding find_from scan_from after_scan is_page_set
find_from_test = refl
