-- ===== src/PageAllocator/Pages.antt =====
-- Single pages of the map, and the maps that the allocator has.
use arqvenger_os.Base.{
  ℕ, zero, suc, ◌+◌, ◌-◌, ◌*◌, ◌/◌, ◌%◌, ◌^◌, ◌≤◌, ◌<◌, ◌≡◌, ◌≢◌, refl, sym, subst, ap, ◌∙◌, inl,
  inr, true, false, not, ◌&&◌, List, [], ◌∷◌, arith, length, length-set, length-replicate, ◌==◌,
  ltb, leb, if◌then◌else◌, Bool-cases, if_cases, replicate, get_or,
}
use arqvenger_os.Bitmap.{bitmap_set, bitmap_clear, bitmap_test}
use arqvenger_os.Bitmap.Laws.{bitmap_test-set, bitmap_test-clear}
use arqvenger_os.PageAllocator.{
  PageMap, entries_in_map, set_page, unset_page, is_page_set, set_pages, unset_pages,
  MemoryMapEntry, unset_mappable, init_entry, init_pages, empty_page_map,
}
use arqvenger_os.PageAllocator.FirstFit.{zero_word}

is_page_set-set_page :
    (map : PageMap) (b q : ℕ)
    → b / 32 < length map
    → is_page_set (set_page map (b + 1024)) (q + 1024)
      ≡ (if q == b then true else is_page_set map (q + 1024))
unfolding is_page_set set_page bitmap_clear bitmap_test
is_page_set-set_page map b q h =
    let sub : b + 1024 - 1024 ≡ b = omega arith in
    let sub' : q + 1024 - 1024 ≡ q = omega arith in
    rw (sub, sub', bitmap_test-clear map b q h)
      (elim (Bool-cases (q == b)) [ inl e ↦ rw e | inr e ↦ rw e ])

is_page_set-unset_page :
    (map : PageMap) (b q : ℕ)
    → b / 32 < length map
    → is_page_set (unset_page map (b + 1024)) (q + 1024)
      ≡ (if q == b then false else is_page_set map (q + 1024))
unfolding is_page_set unset_page bitmap_set bitmap_test
is_page_set-unset_page map b q h =
    let sub : b + 1024 - 1024 ≡ b = omega arith in
    let sub' : q + 1024 - 1024 ≡ q = omega arith in
    rw (sub, sub', bitmap_test-set map b q h)
      (elim (Bool-cases (q == b)) [ inl e ↦ rw e | inr e ↦ rw e ])

pub length-set_pages : (map : PageMap) (page n : ℕ) → length (set_pages map page n) ≡ length map
unfolding set_pages set_page
length-set_pages map page zero = refl
length-set_pages map page (suc n) =
    length-set_pages (set_page map page) (page + 1) n ∙ length-set map _ _

pub length-unset_pages : (map : PageMap) (page n : ℕ) → length (unset_pages map page n) ≡ length map
unfolding unset_pages unset_page
length-unset_pages map page zero = refl
length-unset_pages map page (suc n) =
    length-unset_pages (unset_page map page) (page + 1) n ∙ length-set map _ _

pub is_page_set-set_pages :
    (map : PageMap) (b n q : ℕ)
    → b + n ≤ 32 * length map
    → is_page_set (set_pages map (b + 1024) n) (q + 1024)
      ≡ (if leb b q && ltb q (b + n) then true else is_page_set map (q + 1024))
unfolding set_pages
is_page_set-set_pages map b zero q h =
    let none_here : (leb b q && ltb q (b + 0)) ≡ false = ground arith in rw none_here
is_page_set-set_pages map b (suc n) q h =
    let map1 = set_page map (b + 1024) in
    let same_length : length map1 ≡ length map = length-set_pages map (b + 1024) 1 in
    let rest = is_page_set-set_pages map1 (b + 1) n q (omega (arith, h, same_length)) in
    let first = is_page_set-set_page map b q (omega (arith, h)) in
    ap (λ p. is_page_set (set_pages map1 p n) (q + 1024)) (omega arith)
    ∙ rest
    ∙ rw first (ground arith)

pub is_page_set-unset_pages :
    (map : PageMap) (b n q : ℕ)
    → b + n ≤ 32 * length map
    → is_page_set (unset_pages map (b + 1024) n) (q + 1024)
      ≡ (if leb b q && ltb q (b + n) then false else is_page_set map (q + 1024))
unfolding unset_pages
is_page_set-unset_pages map b zero q h =
    let none_here : (leb b q && ltb q (b + 0)) ≡ false = ground arith in rw none_here
is_page_set-unset_pages map b (suc n) q h =
    let map1 = unset_page map (b + 1024) in
    let same_length : length map1 ≡ length map = length-unset_pages map (b + 1024) 1 in
    let rest = is_page_set-unset_pages map1 (b + 1) n q (omega (arith, h, same_length)) in
    let first = is_page_set-unset_page map b q (omega (arith, h)) in
    ap (λ p. is_page_set (unset_pages map1 p n) (q + 1024)) (omega arith)
    ∙ rest
    ∙ rw first (ground arith)

-- The map has its size, and no page beyond the 32-bit addresses is free.
pub record IsPageMap (map : PageMap) : Type 0 where
  pub size : length map ≡ entries_in_map
  pub mappable : (q : ℕ) → is_page_set map (q + 1024) ≡ false → q + 1024 < 2 ^ 20

pub empty_page_map-IsPageMap : IsPageMap empty_page_map
empty_page_map-IsPageMap = record {
  size = length-replicate {A = ℕ} entries_in_map 0;
  mappable = λ q e. absurd (taken q e);
}
  where
    all_zero : (n i : ℕ) → get_or {A = ℕ} (replicate n 0) i 0 ≡ 0
    all_zero zero i = refl
    all_zero (suc n) zero = refl
    all_zero (suc n) (suc i) = all_zero n i

    true_false : true ≢ false
    true_false e = cc

    taken : (q : ℕ) → is_page_set empty_page_map (q + 1024) ≢ false
    taken q e =
        let set_there =
          zero_word empty_page_map (q / 32) q (all_zero entries_in_map (q / 32)) refl in
        true_false (sym set_there ∙ e)

unset_mappable-IsPageMap :
    (map : PageMap) (b n : ℕ) → IsPageMap map → IsPageMap (unset_mappable map (b + 1024) n)
unfolding unset_mappable unset_page unset_pages
unset_mappable-IsPageMap map b zero m = m
unset_mappable-IsPageMap map b (suc n) m =
    subst
      (λ p. IsPageMap (
        unset_mappable (if ltb (b + 1024) (1024 * 1024) then unset_page map (b + 1024) else map) p
          n))
      (omega arith)
      (unset_mappable-IsPageMap
        (if ltb (b + 1024) (1024 * 1024) then unset_page map (b + 1024) else map) (b + 1) n
        (if_cases IsPageMap (ltb (b + 1024) (1024 * 1024)) (λ e. one b (ground (arith, e)))
          (λ e. m)))
  where
    one : (b : ℕ) → b + 1024 < 2 ^ 20 → IsPageMap (unset_page map (b + 1024))
    one b small = record {
      size = length-unset_pages map (b + 1024) 1 ∙ m.size;
      mappable = λ q e. elim (Bool-cases (q == b)) [
        | inl same ↦ ground (arith, same, small)
        | inr other ↦
            m.mappable q (
              rw other at (sym (is_page_set-unset_page map b q (omega (arith, small, m.size))) ∙ e))
      ];
    }

-- `initPages` on a map of its size without a free page beyond the 32-bit addresses leaves one,
-- whatever entries the memory map has.
pub init_pages-IsPageMap :
    (map : PageMap) (l : List MemoryMapEntry) → IsPageMap map → IsPageMap (init_pages map l)
unfolding init_pages init_entry
init_pages-IsPageMap map [] m = m
init_pages-IsPageMap map (entry ∷ l) m = init_pages-IsPageMap (init_entry map entry) l (
    if_cases IsPageMap
      (entry.base_addr_high == 0
        && not ((entry.base_addr_low + entry.length_low) % 2 ^ 32 == 0)
        && entry.type == 1
        && leb (1024 * 4096) ((entry.base_addr_low + entry.length_low) % 2 ^ 32))
      (λ e.
        let start =
          if ltb entry.base_addr_low (1024 * 4096) then 1024 * 4096 else entry.base_addr_low in
        let first = start / 4096 + (if start % 4096 == 0 then 0 else 1) in
        let high : 1024 ≤ first = ground arith in
        let pages = (entry.length_low + 2 ^ 32 - start % 4096) % 2 ^ 32 / 4096 in
        subst (λ p. IsPageMap (unset_mappable map p pages)) (back first high)
          (unset_mappable-IsPageMap map (first - 1024) pages m))
      (λ e. m))
  where
    back : (p : ℕ) → 1024 ≤ p → p - 1024 + 1024 ≡ p
    back p h = omega (arith, h)
