-- ===== src/PageAllocator.antt =====
-- The allocator of pages: system/mm/allocator.c.
-- A set bit of the map is a free page; `setPage` reserves, `unsetPage` frees. A page's number is at
-- least 1024 wherever the map is looked at. The loops over the map take the number of its words, which is ENTRIES_IN_MAP.
pub mod FirstFit
pub mod Pages
pub mod Allocation
mod Examples
use Prim.Native.Nat.{bit_and, bit_or}
use arqvenger_os.Base.{
  ℕ, zero, suc, ◌+◌, ◌-◌, ◌*◌, ◌/◌, ◌%◌, ◌^◌, Bool, true, false, not, ◌&&◌, Option, none, some,
  List, [], ◌∷◌, ◌==◌, ltb, leb, if◌then◌else◌, get_or, set, replicate,
}
use arqvenger_os.Base.Bits.{bit, mask, unmask}

abbrev pub PageMap : Type 0
PageMap = List ℕ

abbrev pub page_size : ℕ
page_size = 4096

abbrev pub mappable_pages : ℕ
mappable_pages = 1024 * 1024

abbrev pub unusable_pages : ℕ
unusable_pages = 1024

abbrev pub pages_per_entry : ℕ
pages_per_entry = 32

abbrev pub entries_in_map : ℕ
entries_in_map = (mappable_pages - unusable_pages) / pages_per_entry + 1

unfoldable pub set_page : PageMap → ℕ → PageMap
set_page map page' =
    let page = page' - unusable_pages in
    set map (page / pages_per_entry)
      (bit_and (get_or map (page / pages_per_entry) 0) (unmask (page % pages_per_entry)))

unfoldable pub unset_page : PageMap → ℕ → PageMap
unset_page map page' =
    let page = page' - unusable_pages in
    set map (page / pages_per_entry)
      (bit_or (get_or map (page / pages_per_entry) 0) (mask (page % pages_per_entry)))

unfoldable pub is_page_set : PageMap → ℕ → Bool
is_page_set map page' =
    let page = page' - unusable_pages in
    bit (get_or map (page / pages_per_entry) 0) (page % pages_per_entry) == 0

-- How the inner loop of `find_pages` ends: at an offset with enough pages behind it, or behind a word.
pub data Scan : Type 0 where
  hit : ℕ → Scan
  ended : ℕ → Scan

-- The inner loop from `offset` on, over the `left` pages that are left in the map, which it does not come to the end of.
unfoldable pub scan_from : PageMap → ℕ → ℕ → ℕ → ℕ → ℕ → ℕ → ℕ → Scan
scan_from map entries pages zero i start offset consecutive' = ended i
scan_from map entries pages (suc left) i start offset consecutive' =
    let consecutive = if is_page_set map (start + offset) then 0 else consecutive' + 1 in
    let word_ends = (offset + 1) % pages_per_entry == 0 in
    let rest =
      scan_from map entries pages left (if word_ends then i + 1 else i) start (offset + 1)
        consecutive in
    if consecutive == pages
    then hit offset
    else if word_ends
        && not (not (consecutive == 0) && ltb (i + 1) entries && not (get_or map (i + 1) 0 == 0))
    then ended i
    else rest

-- what follows it in a round of the outer loop
unfoldable pub after_scan : ℕ → ℕ → Scan → (ℕ → Option ℕ) → Option ℕ
after_scan pages start (hit offset) next = some (start + offset + 1 - pages)
after_scan pages start (ended i) next = next (i + 1)

-- The outer loop, over at most `n` more words from `i` on: the first page.
unfoldable pub find_from : PageMap → ℕ → ℕ → ℕ → ℕ → Option ℕ
find_from map entries pages zero i = none
find_from map entries pages (suc n) i =
    let start = i * pages_per_entry + unusable_pages in
    let next_word = find_from map entries pages n (i + 1) in
    let scanned =
      after_scan pages start
        (scan_from map entries pages (pages_per_entry * (entries - i)) i start 0 0)
        (λ k. find_from map entries pages n k) in
    if ltb i entries then (if not (get_or map i 0 == 0) then scanned else next_word) else none

-- The loops that reserve and free `n` pages from `page` on.
unfoldable pub set_pages : PageMap → ℕ → ℕ → PageMap
set_pages map page zero = map
set_pages map page (suc n) = set_pages (set_page map page) (page + 1) n

unfoldable pub unset_pages : PageMap → ℕ → ℕ → PageMap
unset_pages map page zero = map
unset_pages map page (suc n) = unset_pages (unset_page map page) (page + 1) n

abbrev pub reserve_found : PageMap → ℕ → Option ℕ → Option ℕ × PageMap
reserve_found map pages none = (none, map)
reserve_found map pages (some start) =
    (some (start * page_size % 2 ^ 32), set_pages map start pages)

-- `find_pages`: the address, with `none` for NULL
unfoldable pub find_pages : PageMap → ℕ → Option ℕ × PageMap
find_pages map pages =
    if pages == 0
    then (none, map)
    else reserve_found map pages (find_from map entries_in_map pages entries_in_map 0)

-- `freePages`
unfoldable pub free_pages : PageMap → ℕ → ℕ → PageMap
free_pages map address pages = unset_pages map (address / page_size) pages

-- An entry of the memory map that the boot loader gives.
pub record MemoryMapEntry : Type 0 where
  pub base_addr_low : ℕ
  pub base_addr_high : ℕ
  pub length_low : ℕ
  pub type : ℕ

-- The loop of `initPages` over the pages of an entry.
unfoldable pub unset_mappable : PageMap → ℕ → ℕ → PageMap
unset_mappable map page zero = map
unset_mappable map page (suc n) =
    unset_mappable (if ltb page mappable_pages then unset_page map page else map) (page + 1) n

unfoldable pub init_entry : PageMap → MemoryMapEntry → PageMap
init_entry map entry =
    let end = (entry.base_addr_low + entry.length_low) % 2 ^ 32 in
    let memory_start = unusable_pages * page_size in
    let start =
      if ltb entry.base_addr_low memory_start then memory_start else entry.base_addr_low in
    let offset = start % page_size in
    let first_page = start / page_size + (if offset == 0 then 0 else 1) in
    let pages = (entry.length_low + 2 ^ 32 - offset) % 2 ^ 32 / page_size in
    if entry.base_addr_high == 0 && not (end == 0) && entry.type == 1 && leb memory_start end
    then unset_mappable map first_page pages
    else map

unfoldable pub init_pages : PageMap → List MemoryMapEntry → PageMap
init_pages map [] = map
init_pages map (entry ∷ l) = init_pages (init_entry map entry) l

-- what `reservePageMap` leaves in the map
abbrev pub empty_page_map : PageMap
empty_page_map = replicate entries_in_map 0
