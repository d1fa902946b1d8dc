-- ===== src/Heap.antt =====
-- The heap: system/malloc/malloc.c.
-- The headers and the footers of the chunks are maps by address, and a bin is the list of the
-- addresses of its chunks, from its `next` on; addresses and sizes stay below 2 ^ 31 outside the
-- requests. `none` is an assertion that fails. The answers of `external_alloc` are an argument: the
-- buffers that it gives in turn, and NULL after them, also where there is no such function.
pub mod Bins
pub mod Exhausted
pub mod RoundTrip
mod Examples
pub mod Start
pub mod Merging
pub mod Freeing
pub mod Allocation
pub mod Split
pub mod Listed
pub mod Layout
use arqvenger_os.Base.{
  ℕ, zero, suc, ◌+◌, ◌-◌, ◌*◌, ◌/◌, ◌%◌, ◌^◌, Bool, true, false, not, ◌&&◌, ◌||◌, Option, none,
  some, ◌>>=◌, List, [], ◌∷◌, map, ◌==◌, ltb, leb, if◌then◌else◌, length, drop, get_or, set,
  replicate,
}

abbrev pub max_small_request : ℕ
max_small_request = 256

-- `sizeof( struct memory_context )`
abbrev pub context_size : ℕ
context_size = 1084

abbrev pub min_free_chunk_size : ℕ
min_free_chunk_size = 16

abbrev pub min_inuse_chunk_size : ℕ
min_inuse_chunk_size = 8

abbrev pub bin_sizes : List ℕ
bin_sizes =
    8 ∷ 16 ∷ 24 ∷ 32 ∷ 40 ∷ 48 ∷ 56 ∷ 64 ∷ 72 ∷ 80 ∷ 88 ∷ 96 ∷ 104 ∷ 112 ∷ 120 ∷ 128 ∷ 136 ∷ 144
    ∷ 152 ∷ 160 ∷ 168 ∷ 176 ∷ 184 ∷ 192 ∷ 200 ∷ 208 ∷ 216 ∷ 224 ∷ 232 ∷ 240 ∷ 248 ∷ 256 ∷ 264 ∷ 272
    ∷ 280 ∷ 288 ∷ 296 ∷ 304 ∷ 312 ∷ 320 ∷ 328 ∷ 336 ∷ 344 ∷ 352 ∷ 360 ∷ 368 ∷ 376 ∷ 384 ∷ 392 ∷ 400
    ∷ 408 ∷ 416 ∷ 424 ∷ 432 ∷ 440 ∷ 448 ∷ 456 ∷ 464 ∷ 472 ∷ 480 ∷ 488 ∷ 496 ∷ 504 ∷ 512 ∷ 576 ∷ 640
    ∷ 768 ∷ 1024 ∷ 2048 ∷ 4096 ∷ 0x2000 ∷ 0x4000 ∷ 0x8000 ∷ 0x10000 ∷ 0x20000 ∷ 0x40000 ∷ 0x80000
    ∷ 0x100000 ∷ 0x200000 ∷ 0x400000 ∷ 0x800000 ∷ 0x1000000 ∷ 0x2000000 ∷ 0x4000000 ∷ 0x8000000
    ∷ 0x10000000 ∷ 0x20000000 ∷ 0x40000000 ∷ 0x80000000 ∷ []

abbrev pub bin_number : ℕ
bin_number = 89

unfoldable pub bin_size : ℕ → ℕ
bin_size i = get_or bin_sizes i 0

-- `struct memory_context`, at the address `context`, with the headers and footers; `in_use` is the
-- status INUSE_STATUS.
pub record Heap : Type 0 where
  pub context : ℕ
  pub free_memory : ℕ
  pub last_chunk_size : ℕ
  pub last_chunk : ℕ
  pub bins : List (List ℕ)
  pub in_use : ℕ → Bool
  pub size : ℕ → ℕ
  pub footer : ℕ → ℕ

abbrev pub write {ℓ} : {A : Type ℓ} → (ℕ → A) → ℕ → A → ℕ → A
write f a v x = if x == a then v else f x

-- the loop of `find_bin`, with fuel: `none` when it runs out
unfoldable pub bin_search : ℕ → ℕ → ℕ → ℕ → Option ℕ
bin_search zero low high n = none
bin_search (suc fuel) low high n =
    let middle = (low + high) / 2 in
    let right = bin_search fuel middle high n in
    let left = bin_search fuel low middle n in
    if low + 1 == high then some low else if leb (bin_size middle) n then right else left

unfoldable pub find_bin : ℕ → Option ℕ
find_bin n =
    if ltb n (bin_size (bin_number - 1)) then bin_search bin_number 0 bin_number n else none

-- the first chunk of a bin that is large enough
unfoldable pub find_chunk : (ℕ → ℕ) → List ℕ → ℕ → Option ℕ
find_chunk sizes [] n = none
find_chunk sizes (a ∷ bin) n =
    let rest = find_chunk sizes bin n in if ltb (sizes a) n then rest else some a

-- the bin with the chunk `a` of `n` bytes before the first larger one
unfoldable pub insert_chunk : (ℕ → ℕ) → List ℕ → ℕ → ℕ → List ℕ
insert_chunk sizes [] a n = a ∷ []
insert_chunk sizes (x ∷ bin) a n =
    let rest = insert_chunk sizes bin a n in if leb (sizes x) n then x ∷ rest else a ∷ x ∷ bin

-- what a chunk's header and footer become
abbrev pub marked : Heap → ℕ → Bool → ℕ → Heap
marked h a used n = record h {
  in_use = write h.in_use a used;
  size = write h.size a n;
  footer = write h.footer (a + n - 4) n;
}

unfoldable pub add_free_chunk : Heap → ℕ → ℕ → Option Heap
add_free_chunk h a n =
    if leb min_free_chunk_size n
    then find_bin n >>= (λ b.
      let h1 = marked h a false n in
      some (record h1 { bins = set h.bins b (insert_chunk h1.size (get_or h.bins b []) a n) }))
    else none

-- A chunk is taken out of the bin that it is in; the C code does it by the links in the chunk's header, and
-- so does it only for a chunk that a bin lists.
unfoldable pub without : ℕ → List ℕ → List ℕ
without a [] = []
without a (x ∷ bin) = let rest = without a bin in if x == a then rest else x ∷ rest

abbrev pub unlink : Heap → ℕ → Heap
unlink h a = record h { bins = map (without a) h.bins }

-- The address of the data, and the heap.
abbrev pub taken_chunk : Heap → ℕ → ℕ → ℕ → ℕ × Heap
taken_chunk h a n left = (
  a + 4,
  record (marked h a true n) {
    free_memory = (h.free_memory + 2 ^ 32 - n) % 2 ^ 32;
    last_chunk_size = left;
  },
)

unfoldable pub split_chunk : Heap → ℕ → ℕ → Option (ℕ × Heap)
split_chunk h a n =
    let left = h.size a - n in
    if ltb left min_free_chunk_size
    then some (taken_chunk h a (n + left) 0)
    else (add_free_chunk (record h { last_chunk = a + n }) (a + n) left
        >>= (λ h1. some (taken_chunk h1 a n left)))

-- `add_malloc_buffer`, where a bound has 8 bytes
unfoldable pub add_malloc_buffer : Heap → ℕ → ℕ → Option Heap
add_malloc_buffer h memory n =
    if ltb n (2 * 8 + min_free_chunk_size)
    then some h
    else (add_free_chunk (marked (marked h memory true 8) (memory + n - 8) true 8) (memory + 8)
          (n - 16)
        >>= (λ h1. some (record h1 { free_memory = (h1.free_memory + (n - 16)) % 2 ^ 32 })))

-- The index of the first bin with a chunk, of those from index `i` on.
unfoldable pub first_bin : List (List ℕ) → ℕ → Option ℕ
first_bin [] i = none
first_bin ([] ∷ bins) i = first_bin bins (i + 1)
first_bin ((a ∷ bin) ∷ bins) i = some i

abbrev pub head_of : List ℕ → ℕ
head_of [] = 0
head_of (a ∷ bin) = a

-- The chunk that `malloc` finds: in the first bin with a chunk, or in the next one.
unfoldable pub next_chunk : Heap → ℕ → Option ℕ
next_chunk h b =
    first_bin (drop (b + 1) h.bins) (b + 1) >>= (λ i. some (head_of (get_or h.bins i [])))

abbrev pub or_next : Heap → ℕ → Option ℕ → Option ℕ
or_next h b none = next_chunk h b
or_next h b (some a) = some a

unfoldable pub search_bins : Heap → ℕ → ℕ → Option ℕ
search_bins h b n =
    first_bin (drop b h.bins) b >>= (λ i. or_next h i (find_chunk h.size (get_or h.bins i []) n))

-- The heuristic of `malloc`.
unfoldable pub prefer_last : Heap → ℕ → ℕ → ℕ
prefer_last h a n =
    if ltb n (h.size a) && leb n h.last_chunk_size && leb n max_small_request
    then h.last_chunk
    else a

-- What `malloc` does with the chunk it has found; `oom` is what `out_of_memory` comes to.
unfoldable pub use_chunk : Heap → ℕ → Option (Option ℕ × Heap) → Option ℕ → Option (Option ℕ × Heap)
use_chunk h n oom none = oom
use_chunk h n oom (some a) =
    let c = prefer_last h a n in split_chunk (unlink h c) c n >>= (λ r. some (some r.0, r.1))

unfoldable pub from_bins : Heap → ℕ → Option (Option ℕ × Heap) → Option (Option ℕ × Heap)
from_bins h n oom =
    if ltb h.free_memory n
    then oom
    else (find_bin n >>= (λ b. use_chunk h n oom (search_bins h b n)))

-- the size of the chunk for a request
abbrev pub chunk_size : ℕ → ℕ
chunk_size n =
    let m = (n + min_inuse_chunk_size) % 2 ^ 32 in
    if ltb m min_free_chunk_size then min_free_chunk_size else m

-- `malloc` with `out_of_memory`, which calls it again
unfoldable pub malloc : List (ℕ × ℕ) → Heap → ℕ → Option (Option ℕ × Heap)
malloc [] h n = from_bins h (chunk_size n) (some (none, h))
malloc (answer ∷ external) h n =
    let m = chunk_size n in
    from_bins h m (
      if answer.0 == 0 || ltb answer.1 ((m + 2 * min_inuse_chunk_size) % 2 ^ 32)
      then some (none, h)
      else (add_malloc_buffer h answer.0 answer.1
          >>= (λ h1. malloc external h1 (m - min_inuse_chunk_size))))

-- `free` of a chunk: it is joined with the free chunks before and behind it.
unfoldable pub join_previous : Heap → ℕ → ℕ → Option (Heap × ℕ × ℕ)
join_previous h a n =
    let size = h.footer (a - 4) in
    let previous = a - size in
    if not (h.in_use previous)
    then (if h.size previous == size then some (unlink h previous, previous, n + size) else none)
    else some (h, a, n)

unfoldable pub join_next : Heap → ℕ → ℕ → Option (Heap × ℕ)
join_next h next n =
    let size = h.size next in
    if not (h.in_use next)
    then (if size == h.footer (next + size - 4)
        then some (
          record (unlink h next) {
            last_chunk_size = if h.last_chunk == next then 0 else h.last_chunk_size;
          },
          n + size,
        )
        else none)
    else some (h, n)

unfoldable pub free_chunk : Heap → ℕ → Option Heap
free_chunk h a =
    let n = h.size a in
    join_previous (record h { free_memory = (h.free_memory + n) % 2 ^ 32 }) a n
    >>= (λ r. join_next r.0 (a + n) r.2 >>= (λ s. add_free_chunk s.0 r.1 s.1))

-- the assertions of `free` and `realloc` on a chunk
abbrev pub is_chunk : Heap → ℕ → Bool
is_chunk h a = h.in_use a && h.size a == h.footer (a + h.size a - 4)

abbrev pub outside_context : Heap → ℕ → Bool
outside_context h a = leb (a + h.size a) h.context || leb (h.context + context_size) a

unfoldable pub free : Heap → Option ℕ → Option Heap
free h none = some h
free h (some memory) =
    let a = memory - 4 in if outside_context h a && is_chunk h a then free_chunk h a else none

-- `realloc` to a smaller size, to the next chunk, and by a new chunk
unfoldable pub shrink : Heap → ℕ → ℕ → Option Heap
shrink h a m =
    let n = h.size a in
    if ltb (n - m) min_free_chunk_size
    then some h
    else free
        (record h {
          in_use = write h.in_use (a + m) true;
          size = write (write h.size a m) (a + m) (n - m);
          footer = write (write h.footer (a + n - 4) (n - m)) (a + m - 4) m;
        })
        (some (a + m + 4))

unfoldable pub grow : Heap → ℕ → ℕ → Heap
grow h a next =
    let n = h.size a + h.size next in
    record (unlink h next) {
      size = write h.size a n;
      footer = write h.footer (next + h.size next - 4) n;
      free_memory = (h.free_memory + 2 ^ 32 - h.size next) % 2 ^ 32;
      last_chunk_size = 0;
    }

abbrev pub free_old : ℕ → Option ℕ × Heap → Option (Option ℕ × Heap)
free_old memory (none, h) = some (none, h)
free_old memory (some new, h) = free h (some memory) >>= (λ h1. some (some new, h1))

unfoldable pub realloc_chunk : List (ℕ × ℕ) → Heap → ℕ → ℕ → Option (Option ℕ × Heap)
realloc_chunk external h a m =
    let next = a + h.size a in
    if leb m (h.size a)
    then (shrink h a m >>= (λ h1. some (some (a + 4), h1)))
    else (if not (h.in_use next) && ltb (h.size next + h.size a) m
        then some (some (a + 4), grow h a next)
        else (malloc external h (m - min_inuse_chunk_size) >>= free_old (a + 4)))

-- `realloc`, with the content of the memory left out
unfoldable pub realloc : List (ℕ × ℕ) → Heap → Option ℕ → ℕ → Option (Option ℕ × Heap)
realloc external h none n = malloc external h n
realloc external h (some memory) n =
    let a = memory - 4 in
    if is_chunk h a then realloc_chunk external h a ((n + min_inuse_chunk_size) % 2 ^ 32) else none

-- `init_malloc`
unfoldable pub init_malloc : Heap → ℕ → ℕ → Option Heap
init_malloc h memory n =
    if leb context_size n
    then add_malloc_buffer
        (record h {
          context = memory;
          free_memory = 0;
          last_chunk_size = 0;
          bins = replicate bin_number [];
        })
        (memory + context_size) (n - context_size)
    else none
