-- ===== src/BlockCache.antt =====
-- The block cache between the file system and the disk: system/cache/cache.c.
-- A buffer is its eight sectors; the LRU list is the list of the indices of its chunks, the most
-- recent one first. The clock's reading `now` is taken to be the same throughout an operation, and an
-- access to the disk to succeed.
pub mod View
pub mod Flush
pub mod Lru
pub mod Room
pub mod Lookup
pub mod Find
pub mod Parts
pub mod Read
pub mod Store
pub mod Write
mod Examples
use arqvenger_os.Base.{
  ℕ, zero, suc, ◌+◌, ◌-◌, ◌*◌, ◌/◌, ◌%◌, ◌^◌, Bool, true, false, not, ◌&&◌, ◌||◌, Option, none,
  some, List, [], ◌∷◌, ◌++◌, ◌==◌, ltb, leb, if◌then◌else◌,
}
use mathlib.Core.List.{reverse}
use mathlib.Core.Option

-- the bytes of a sector
abbrev pub Sector : Type 0
Sector = List ℕ

abbrev pub Disk : Type 0
Disk = ℕ → Sector

abbrev pub sectors_per_page : ℕ
sectors_per_page = 8

abbrev pub table_entries : ℕ
table_entries = 8

-- `struct Chunk`
pub record Chunk : Type 0 where
  pub initial_sector : ℕ
  pub buffer : ℕ → Sector
  pub dirty : Bool
  pub accesses : ℕ
  pub first_write_time : ℕ
  pub last_access_time : ℕ

-- `table` by its index, which a chunk's `index` repeats
pub record Cache : Type 0 where
  pub table : ℕ → Option Chunk
  pub list : List ℕ
  pub disk : Disk

abbrev pub update : (ℕ → Option Chunk) → ℕ → Option Chunk → ℕ → Option Chunk
update t i o j = if j == i then o else t j

-- a write through the pointer to the chunk with index `i`
abbrev pub modify : Cache → ℕ → (Chunk → Chunk) → Cache
modify c i f = record c { table = update c.table i (Option.map f (c.table i)) }

abbrev pub cache_list_add : List ℕ → ℕ → List ℕ
cache_list_add l i = i ∷ l

unfoldable pub cache_list_remove : List ℕ → ℕ → List ℕ
cache_list_remove [] i = []
cache_list_remove (j ∷ l) i = let rest = j ∷ cache_list_remove l i in if j == i then l else rest

unfoldable pub mark_access : ℕ → Cache → ℕ → Cache
mark_access now c i =
    let c1 = modify c i (λ ch. record ch { accesses = ch.accesses + 1; last_access_time = now }) in
    record c1 { list = cache_list_add (cache_list_remove c1.list i) i }

-- `ata_read` and `ata_write` of a page
abbrev pub read_page : Disk → ℕ → ℕ → Sector
read_page disk s k = disk (s + k)

abbrev pub write_page : Disk → ℕ → (ℕ → Sector) → Disk
write_page disk s buffer x =
    if leb s x && ltb x (s + sectors_per_page) then buffer (x - s) else disk x

unfoldable pub flush_chunk : Disk → Chunk → Disk
flush_chunk disk ch = if ch.dirty then write_page disk ch.initial_sector ch.buffer else disk

-- `release_chunk` of the chunk that `table` has there
unfoldable pub release_chunk : Cache → ℕ → Chunk → Cache
release_chunk c i entry = record {
  table = update c.table i none;
  list = cache_list_remove c.list i;
  disk = flush_chunk c.disk entry;
}

-- The test of `evict`.
unfoldable pub may_release : ℕ → Bool → Chunk → Bool
may_release now force entry = not entry.dirty && (ltb entry.last_access_time now || force)

-- The loop of `evict`, from the chunk `i` on, and `older` from the one before it in the list, with
-- the number of chunks released. `release_chunk` clears the chunk's `prev` before the loop goes on to
-- it, so that the first release ends the loop.
unfoldable pub try_release : ℕ → Bool → Cache → ℕ → Option Chunk → ℕ × Cache → ℕ × Cache
try_release now force c i none older = older
try_release now force c i (some entry) older =
    if may_release now force entry then (1, release_chunk c i entry) else older

unfoldable pub evict_from : ℕ → Bool → Cache → List ℕ → ℕ × Cache
evict_from now force c [] = (0, c)
evict_from now force c (i ∷ l) = try_release now force c i (c.table i) (evict_from now force c l)

unfoldable pub evict : ℕ → Cache → ℕ → Bool → ℕ × Cache
evict now c min_pages force =
    if min_pages == 0 then (0, c) else evict_from now force c (reverse c.list)

-- One entry of the loop of `cache_sync`.
abbrev pub must_flush : ℕ → Bool → Chunk → Bool
must_flush now force entry = entry.dirty && (force || ltb entry.first_write_time now)

unfoldable pub sync_chunk : ℕ → Bool → Cache → ℕ → Option Chunk → Cache
sync_chunk now force c i none = c
sync_chunk now force c i (some entry) =
    if must_flush now force entry
    then record c {
      table = update c.table i (some (record entry { dirty = false }));
      disk = write_page c.disk entry.initial_sector entry.buffer;
    }
    else c

-- the loop over `n` more entries from `i` on
unfoldable pub sync_from : ℕ → Bool → ℕ → Cache → ℕ → Cache
sync_from now force zero c i = c
sync_from now force (suc n) c i =
    sync_from now force n (sync_chunk now force c i (c.table i)) (i + 1)

unfoldable pub cache_sync : ℕ → Cache → Bool → Cache
cache_sync now c force = sync_from now force table_entries c 0

unfoldable pub cache_evict : ℕ → Cache → ℕ → ℕ × Cache
cache_evict now c min_pages =
    let (n1, c1) = evict now c min_pages false in
    let (n2, c2) = evict now (cache_sync now c1 true) (min_pages - n1) false in
    let (n3, c3) = evict now c2 (min_pages - (n1 + n2)) true in
    if ltb n1 min_pages
    then (if ltb (n1 + n2) min_pages then (n1 + n2 + n3, c3) else (n1 + n2, c2))
    else (n1, c1)

-- The first loop of `find_chunk`, over `n` more entries from `i` on: the chunk with the sector, or
-- `firstEmpty`.
pub data Search : Type 0 where
  found : ℕ → Search
  missing : Option ℕ → Search

abbrev pub or_first : Option ℕ → ℕ → Option ℕ
or_first none i = some i
or_first (some e) i = some e

unfoldable pub search_entry : Option Chunk → ℕ → ℕ → Option ℕ → (Option ℕ → Search) → Search
search_entry none sector i first_empty next = next (or_first first_empty i)
search_entry (some entry) sector i first_empty next =
    if entry.initial_sector == sector then found i else next first_empty

unfoldable pub search_from : (ℕ → Option Chunk) → ℕ → ℕ → ℕ → Option ℕ → Search
search_from table sector zero i first_empty = missing first_empty
search_from table sector (suc n) i first_empty =
    search_entry (table i) sector i first_empty (search_from table sector n (i + 1))

-- its second loop
unfoldable pub free_or : Option Chunk → ℕ → Option ℕ → Option ℕ
free_or none i next = some i
free_or (some entry) i next = next

unfoldable pub first_free : (ℕ → Option Chunk) → ℕ → ℕ → Option ℕ
first_free table zero i = none
first_free table (suc n) i = free_or (table i) i (first_free table n (i + 1))

-- The rest of `find_chunk`, with the entry to fill. With `firstEmpty` still -1 the source would write
-- in front of the table: `none` here too. An allocation that fails, or that has the allocator enter the
-- eviction again, is not modelled.
unfoldable pub load_chunk : ℕ → Cache → ℕ → Option ℕ → Option ℕ × Cache
load_chunk now c sector none = (none, c)
load_chunk now c sector (some i) =
    let entry : Chunk = record {
      initial_sector = sector;
      buffer = read_page c.disk sector;
      dirty = false;
      accesses = 0;
      first_write_time = 0;
      last_access_time = now;
    } in
    (some i, record c { table = update c.table i (some entry); list = cache_list_add c.list i })

-- `find_chunk` behind its first loop: the index of the chunk, with `none` for NULL
unfoldable pub find_or_load : ℕ → Cache → ℕ → Search → Option ℕ × Cache
find_or_load now c sector (found i) = (some i, c)
find_or_load now c sector (missing (some i)) = load_chunk now c sector (some i)
find_or_load now c sector (missing none) =
    let (evicted, c1) = cache_evict now c 1 in
    if ltb evicted 1
    then (none, c1)
    else load_chunk now c1 sector (first_free c1.table table_entries 0)

unfoldable pub find_chunk : ℕ → Cache → ℕ → Option ℕ × Cache
find_chunk now c index =
    let sector = index * sectors_per_page % 2 ^ 32 in
    find_or_load now c sector (search_from c.table sector table_entries 0 none)

-- `n` sectors of a buffer from `k` on, as `memcpy` copies them out
unfoldable pub copy_out : (ℕ → Sector) → ℕ → ℕ → List Sector
copy_out buffer k zero = []
copy_out buffer k (suc n) = buffer k ∷ copy_out buffer (k + 1) n

-- `memcpy` of `n` sectors of `src` from `k` on, to the index `at` of a buffer
abbrev pub copy_in : (ℕ → Sector) → ℕ → (ℕ → Sector) → ℕ → ℕ → ℕ → Sector
copy_in buffer at src k n j = if leb at j && ltb j (at + n) then src (k + (j - at)) else buffer j

-- The sectors of `block` that belong to `count` sectors from `sector` on: the first one's index in
-- the buffer, and their number, on the three branches of the loops.
unfoldable pub part_of : ℕ → ℕ → ℕ → ℕ × ℕ
part_of sector count block =
    let first = sector % sectors_per_page in
    if block == sector / sectors_per_page
    then (first, if ltb sectors_per_page (count + first) then sectors_per_page - first else count)
    else if block == (sector + count) / sectors_per_page
    then (0, (sector + count) % sectors_per_page)
    else (0, sectors_per_page)

abbrev pub buffer_of : Option Chunk → ℕ → Sector
buffer_of none k = []
buffer_of (some ch) k = ch.buffer k

-- One round of the loop of `cache_read` behind `find_chunk`: what it copies out.
unfoldable pub read_chunk : ℕ → Cache → ℕ → ℕ → ℕ → ℕ → List Sector × Cache
read_chunk now c i sector count block =
    let c1 = mark_access now c i in
    let (first, n) = part_of sector count block in (copy_out (buffer_of (c1.table i)) first n, c1)

unfoldable pub read_found :
    ℕ
    → ℕ
    → ℕ
    → ℕ
    → Option ℕ × Cache
    → (Cache → Option (List Sector) × Cache)
    → Option (List Sector) × Cache
read_found now sector count block (none, c) next = (none, c)
read_found now sector count block (some i, c) next =
    let (text, c1) = read_chunk now c i sector count block in
    let (rest, c2) = next c1 in (Option.map (λ r. text ++ r) rest, c2)

-- The loop over `n` more blocks from `block` on; `none` is the result -1.
unfoldable pub read_from : ℕ → ℕ → ℕ → ℕ → Cache → ℕ → Option (List Sector) × Cache
read_from now sector count zero c block = (some [], c)
read_from now sector count (suc n) c block =
    read_found now sector count block (find_chunk now c block)
      (λ c1. read_from now sector count n c1 (block + 1))

unfoldable pub cache_read : ℕ → Cache → ℕ → ℕ → Option (List Sector) × Cache
cache_read now c sector count =
    let start_block = sector / sectors_per_page in
    let end_block = (sector + count) / sectors_per_page in
    read_from now sector count (end_block + 1 - start_block) c start_block

-- One round of the loop of `cache_write` behind `find_chunk`, with `counter` sectors of `buff`
-- written before it.
unfoldable pub write_chunk : ℕ → Cache → ℕ → ℕ → ℕ → ℕ → (ℕ → Sector) → ℕ → ℕ × Cache
write_chunk now c i sector count block buff counter =
    let (first, n) = part_of sector count block in
    let c1 = modify (mark_access now c i) i (λ ch. record ch {
      first_write_time = if not ch.dirty then now else ch.first_write_time;
      dirty = true;
      buffer = copy_in ch.buffer first buff counter n;
    }) in
    (counter + n, c1)

unfoldable pub write_found :
    ℕ → ℕ → ℕ → ℕ → (ℕ → Sector) → ℕ → Option ℕ × Cache → (ℕ → Cache → Bool × Cache) → Bool × Cache
write_found now sector count block buff counter (none, c) next = (false, c)
write_found now sector count block buff counter (some i, c) next =
    let (counter', c1) = write_chunk now c i sector count block buff counter in next counter' c1

-- The loop over `n` more blocks; `false` is the result -1.
unfoldable pub write_from : ℕ → ℕ → ℕ → (ℕ → Sector) → ℕ → Cache → ℕ → ℕ → Bool × Cache
write_from now sector count buff zero c block counter = (true, c)
write_from now sector count buff (suc n) c block counter =
    write_found now sector count block buff counter (find_chunk now c block)
      (λ counter' c1. write_from now sector count buff n c1 (block + 1) counter')

unfoldable pub cache_write : ℕ → Cache → ℕ → ℕ → (ℕ → Sector) → Bool × Cache
cache_write now c sector count buff =
    let start_block = sector / sectors_per_page in
    let end_block = (sector + count) / sectors_per_page in
    write_from now sector count buff (end_block + 1 - start_block) c start_block 0

-- `cache_init`
unfoldable pub cache_init : Disk → Cache
cache_init disk = record { table = λ i. none; list = []; disk = disk }
