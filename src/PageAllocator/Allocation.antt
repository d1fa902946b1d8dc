-- ===== src/PageAllocator/Allocation.antt =====
-- `find_pages` and `freePages` on the whole map.
use arqvenger_os.Base.{
  ℕ, ◌+◌, ◌-◌, ◌*◌, ◌/◌, ◌≤◌, ◌<◌, ◌≡◌, ◌≢◌, refl, sym, ap, ◌∙◌, inl, inr, true, false, ◌&&◌,
  Option, none, some, arith, length, ◌==◌, ltb, leb, if◌then◌else◌, Bool-cases,
}
use arqvenger_os.PageAllocator.{
  PageMap, entries_in_map, is_page_set, find_from, set_pages, unset_pages, reserve_found,
  find_pages, free_pages,
}
use arqvenger_os.PageAllocator.FirstFit.{
  Blocked, AllFree, IsFirstRun, find_from-IsFirstRun, zero_word, get_or-past,
}
use arqvenger_os.PageAllocator.Pages.{
  is_page_set-set_pages, is_page_set-unset_pages, IsPageMap, length-set_pages,
}

-- The pages from `b` on are reserved in `map'`, and it has the others as `map` does.
abbrev pub Reserved : PageMap → ℕ → ℕ → PageMap → Type 0
Reserved map pages b map' =
    (q : ℕ)
    → is_page_set map' (q + 1024)
      ≡ (if leb b q && ltb q (b + pages) then true else is_page_set map (q + 1024))

abbrev pub Allocated : PageMap → ℕ → Option ℕ × PageMap → Type 0
Allocated map pages (none, map') = (map' ≡ map) × ((b : ℕ) → Blocked map pages b)
Allocated map pages (some address, map') =
    (b : ℕ) × (address ≡ (b + 1024) * 4096)
    × AllFree map pages b
    × ((b' : ℕ) → b' < b → Blocked map pages b')
    × Reserved map pages b map'
    × IsPageMap map'

-- Free pages are in the map.
run_in_map :
    (map : PageMap) (b pages : ℕ) → 1 ≤ pages → AllFree map pages b → b + pages ≤ 32 * length map
run_in_map map b pages some_pages free = elim (Bool-cases (leb (b + pages) (32 * length map))) [
  | inl inside ↦ ground (arith, inside)
  | inr outside ↦
      let past : length map ≤ (b + pages - 1) / 32 = ground (arith, outside, some_pages) in
      let taken : is_page_set map (b + pages - 1 + 1024) ≡ true =
        zero_word map ((b + pages - 1) / 32) (b + pages - 1) (get_or-past map _ past) refl in
      absurd (
        true_false (
          sym taken
          ∙ ap (is_page_set map) (omega (arith, some_pages))
          ∙ free (pages - 1) (omega (arith, some_pages))))
]
  where
    true_false : true ≢ false
    true_false e = cc

Reserved-IsPageMap :
    (map map' : PageMap) (b pages : ℕ)
    → IsPageMap map
    → length map' ≡ length map
    → Reserved map pages b map'
    → IsPageMap map'
Reserved-IsPageMap map map' b pages m same r = record {
  size = same ∙ m.size;
  mappable = λ q e. elim (Bool-cases (leb b q && ltb q (b + pages))) [
    | inl mine ↦ absurd (true_false (sym (rw mine at (r q)) ∙ e))
    | inr other ↦ m.mappable q (sym (rw other at (r q)) ∙ e)
  ];
}
  where
    true_false : true ≢ false
    true_false e = cc

of_first_run :
    (map : PageMap) (pages : ℕ) (o : Option ℕ)
    → IsPageMap map
    → 1 ≤ pages
    → IsFirstRun map pages o
    → Allocated map pages (reserve_found map pages o)
of_first_run map pages none m some_pages blocked = (refl, blocked)
of_first_run map pages (some page) m some_pages (b, at, free, before) =
    let fits = run_in_map map b pages some_pages free in
    let small = m.mappable (b + 0) (free 0 (omega (arith, some_pages))) in
    let reserved : Reserved map pages b (set_pages map page pages) = λ q.
      ap (λ p. is_page_set (set_pages map p pages) (q + 1024)) at
      ∙ is_page_set-set_pages map b pages q fits in
    (
      b,
      omega (arith, at, small),
      free,
      before,
      reserved,
      Reserved-IsPageMap map (set_pages map page pages) b pages m (length-set_pages map page pages)
          reserved,
    )

-- `find_pages` of at least one page, on a map of its size that has no free page beyond the 32-bit
-- addresses, takes the first run of that many free pages, returns its address and reserves exactly
-- these pages, or fails and leaves the map when there is no such run. The map stays one of that
-- kind.
pub find_pages-Allocated :
    (map : PageMap) (pages : ℕ)
    → IsPageMap map
    → 1 ≤ pages
    → Allocated map pages (find_pages map pages)
unfolding find_pages
find_pages-Allocated map pages m some_pages =
    let wanted : (pages == 0) ≡ false = ground (arith, some_pages) in
    rw wanted (
      of_first_run map pages (find_from map entries_in_map pages entries_in_map 0) m some_pages (
        find_from-IsFirstRun map entries_in_map pages entries_in_map 0 m.size some_pages
          (omega arith) (λ b' lt. absurd (omega (arith, lt)))))

-- Freeing what was allocated gives every page back as it was.
abbrev pub GivenBack : PageMap → ℕ → Option ℕ × PageMap → Type 0
GivenBack map pages (none, map') = map' ≡ map
GivenBack map pages (some address, map') =
    (q : ℕ) → is_page_set (free_pages map' address pages) (q + 1024) ≡ is_page_set map (q + 1024)

Allocated-GivenBack :
    (map : PageMap) (pages : ℕ) (out : Option ℕ × PageMap)
    → IsPageMap map
    → 1 ≤ pages
    → Allocated map pages out
    → GivenBack map pages out
unfolding free_pages
Allocated-GivenBack map pages (none, map') m some_pages (same, blocked) = same
Allocated-GivenBack map pages (some address, map') m some_pages
      (b, at, free, before, reserved, m') =
    λ q.
      let fits = run_in_map map b pages some_pages free in
      let same_size : length map' ≡ length map = m'.size ∙ sym m.size in
      ap (λ p. is_page_set (unset_pages map' p pages) (q + 1024)) (omega (arith, at))
      ∙ is_page_set-unset_pages map' b pages q (omega (arith, fits, same_size))
      ∙ elim (Bool-cases (leb b q && ltb q (b + pages))) [
        | inl mine ↦ rw mine (
            sym (free (q - b) (ground (arith, mine))) ∙ ap (is_page_set map) (ground (arith, mine)))
        | inr other ↦ let back = rw other at (reserved q) in rw other back
      ]

-- Freeing the pages that `find_pages` of at least one page has given, on a map of its size that has
-- no free page beyond the 32-bit addresses, makes every page free or reserved as it was.
pub free_pages-find_pages :
    (map : PageMap) (pages : ℕ)
    → IsPageMap map
    → 1 ≤ pages
    → GivenBack map pages (find_pages map pages)
free_pages-find_pages map pages m some_pages =
    Allocated-GivenBack map pages (find_pages map pages) m some_pages
      (find_pages-Allocated map pages m some_pages)
