-- ===== src/PageAllocator/FirstFit.antt =====
-- The search of `find_pages` for a run of free pages.
use arqvenger_os.Base.{
  ℕ, zero, suc, ◌+◌, ◌-◌, ◌*◌, ◌/◌, ◌%◌, ◌^◌, ◌≤◌, ◌<◌, ◌≡◌, ◌≢◌, refl, sym, ap, ◌∙◌, inl, inr,
  true, false, not, ◌&&◌, Option, none, some, [], ◌∷◌, arith, length, ◌==◌, ==_iff, ltb, get_or,
  Bool-cases, if_cases, ℕ_discrete,
}
use native.Mathlib.Nat.{zero-div}
use arqvenger_os.Base.Bits.{bit}
use arqvenger_os.PageAllocator.{
  PageMap, is_page_set, Scan, hit, ended, scan_from, after_scan, find_from,
}

-- the bit of the page `b + 1024`
abbrev pub IsFree : PageMap → ℕ → Type 0
IsFree map b = is_page_set map (b + 1024) ≡ false

-- A run of `pages` pages from `b` on is not free.
abbrev pub Blocked : PageMap → ℕ → ℕ → Type 0
Blocked map pages b = (j : ℕ) × (j < pages) × (is_page_set map (b + j + 1024) ≡ true)

abbrev pub AllFree : PageMap → ℕ → ℕ → Type 0
AllFree map pages b = (j : ℕ) → j < pages → is_page_set map (b + j + 1024) ≡ false

-- The first run of `pages` free pages, or that there is none.
abbrev pub IsFirstRun : PageMap → ℕ → Option ℕ → Type 0
IsFirstRun map pages none = (b : ℕ) → Blocked map pages b
IsFirstRun map pages (some page) =
    (b : ℕ) × (page ≡ b + 1024) × AllFree map pages b × ((b' : ℕ) → b' < b → Blocked map pages b')

pub zero_word :
    (map : PageMap) (i b : ℕ) → get_or map i 0 ≡ 0 → b / 32 ≡ i → is_page_set map (b + 1024) ≡ true
unfolding is_page_set
zero_word map i b e at =
    let word : get_or map ((b + 1024 - 1024) / 32) 0 ≡ 0 =
      ap (λ k. get_or map k 0) (omega (arith, at)) ∙ e in
    rw word (zero_bit ((b + 1024 - 1024) % 32))
  where
    zero_bit : (k : ℕ) → (bit 0 k == 0) ≡ true
    zero_bit k = rw (zero-div (2 ^ k)) refl

pub get_or-past : (map : PageMap) (i : ℕ) → length map ≤ i → get_or map i 0 ≡ 0
get_or-past [] i h = refl
get_or-past (w ∷ map) zero h = absurd (omega arith)
get_or-past (w ∷ map) (suc i) h = get_or-past map i (omega arith)

-- What the inner loop has found when it ends.
abbrev pub Scanned : PageMap → ℕ → ℕ → ℕ → Scan → Type 0
Scanned map pages low start (hit offset) =
    (b : ℕ) × (start + offset + 1 ≡ b + pages + 1024)
    × AllFree map pages b
    × ((b' : ℕ) → b' < b → Blocked map pages b')
Scanned map pages low start (ended i) =
    (low ≤ i) × ((b' : ℕ) → b' < (i + 1) * 32 → Blocked map pages b')

module _ (map : PageMap) (entries pages : ℕ) (size : length map ≡ entries)
    (some_pages : 1 ≤ pages) where
  -- A page that is not free blocks the runs that start in the `pages` places up to it.
  blocks :
      (f q : ℕ)
      → q < f + pages
      → is_page_set map (q + 1024) ≡ true
      → ((b' : ℕ) → b' < f → Blocked map pages b')
      → (b' : ℕ) → b' ≤ q
      → Blocked map pages b'
  blocks f q near is_set before b' le = elim (Bool-cases (ltb b' f)) [
    | inl early ↦ before b' (ground (arith, early))
    | inr late ↦
        let le' : f ≤ b' = ground (arith, late) in
        (q - b', omega (arith, near, le'), ap (is_page_set map) (omega (arith, le)) ∙ is_set)
  ]

  -- the first page of a word that has none, or that is behind the map
  empty_word :
      (i : ℕ)
      → (ltb i entries && not (get_or map i 0 == 0)) ≡ false
      → is_page_set map (i * 32 + 1024) ≡ true
  empty_word i e = elim (Bool-cases (ltb i entries)) [
    | inl inside ↦
        let zero_there : get_or map i 0 ≡ 0 = ground (arith, inside, e) in
        zero_word map i (i * 32) zero_there (omega arith)
    | inr outside ↦
        let past : length map ≤ i = ground (arith, outside, size) in
        zero_word map i (i * 32) (get_or-past map i past) (omega arith)
  ]

  scan_from-Scanned :
      (low left i start offset c f q : ℕ)
      → low ≤ i
      → start % 32 ≡ 0
      → start + offset ≡ q + 1024
      → i ≡ q / 32
      → q + left ≡ 32 * entries
      → 1 ≤ left
      → f + c ≡ q
      → c < pages
      → AllFree map c f
      → ((b' : ℕ) → b' < f → Blocked map pages b')
      → Scanned map pages low start (scan_from map entries pages left i start offset c)
  unfolding scan_from
  scan_from-Scanned low zero i start offset c f q least al at word end more run few free before =
      absurd (omega (arith, more))
  scan_from-Scanned low (suc left) i start offset c f q least al at word end more run few free
        before =
      elim (Bool-cases (is_page_set map (start + offset))) [
        | inl is_set ↦
            let blocked =
              blocks f q (omega (arith, run, few)) (ap (is_page_set map) (sym at) ∙ is_set)
                before in
            let not_all : (0 == pages) ≡ false = ground (arith, some_pages) in
            rw (is_set, not_all)
              (if_cases P ((offset + 1) % 32 == 0 && true)
                (λ e.
                  let ends : (q + 1) % 32 ≡ 0 = ground (arith, al, at, e) in
                  (least, λ b' lt. blocked b' (omega (arith, lt, word, ends))))
                (λ e.
                  let goes_on : (q + 1) % 32 ≢ 0 = ground (arith, al, at, e) in
                  scan_from-Scanned low left _ start (offset + 1) 0 (q + 1) (q + 1)
                    (ground (arith, least)) al (omega (arith, at)) (ground (arith, al, at, word))
                    (omega (arith, end)) (omega (arith, end, goes_on)) (omega arith) some_pages
                    (λ j lt. absurd (omega (arith, lt))) (λ b' lt. blocked b' (omega (arith, lt)))))
        | inr is_free ↦
            let here : is_page_set map (f + c + 1024) ≡ false =
              ap (is_page_set map) (omega (arith, at, run)) ∙ is_free in
            let longer : AllFree map (c + 1) f = λ j lt. elim (ℕ_discrete j c) [
              | yes same ↦ ap (λ k. is_page_set map (f + k + 1024)) same ∙ here
              | no other ↦ free j (omega (arith, lt, other))
            ] in
            rw is_free (
              if_cases P (c + 1 == pages)
                (λ e.
                  let all : c + 1 ≡ pages = (==_iff (c + 1) pages).0 e in
                  (
                    f,
                    omega (arith, at, run, all),
                    (λ j lt. longer j (omega (arith, lt, all))),
                    before,
                  ))
                (λ e.
                  let not_all : c + 1 < pages = ground (arith, e, few) in
                  if_cases P
                    ((offset + 1) % 32 == 0
                      && not (
                          not (c + 1 == 0)
                          && ltb (i + 1) entries
                          && not (get_or map (i + 1) 0 == 0)))
                    (λ e.
                      let ends : (q + 1) % 32 ≡ 0 = ground (arith, al, at, e) in
                      let empty : (ltb (i + 1) entries && not (get_or map (i + 1) 0 == 0)) ≡ false =
                        ground (arith, e) in
                      let next_set : is_page_set map (q + 1 + 1024) ≡ true =
                        ap (is_page_set map) (omega (arith, word, ends))
                        ∙ empty_word (i + 1) empty in
                      (
                        least,
                        λ b' lt.
                            blocks f (q + 1) (omega (arith, run, not_all)) next_set before b'
                              (omega (arith, lt, word, ends)),
                      ))
                    (λ e.
                      let inside : (q + 1) % 32 ≡ 0 → i + 1 < entries =
                        λ ends. ground (arith, al, at, e, ends) in
                      scan_from-Scanned low left _ start (offset + 1) (c + 1) f (q + 1)
                        (ground (arith, least)) al (omega (arith, at))
                        (ground (arith, al, at, word)) (omega (arith, end)) (left_over inside)
                        (omega (arith, run)) not_all longer before)))
      ]
    where
      P : Scan → Type 0
      P = Scanned map pages low start

      left_over : ((q + 1) % 32 ≡ 0 → i + 1 < entries) → 1 ≤ left
      left_over inside = elim (ℕ_discrete ((q + 1) % 32) 0) [
        | yes ends ↦ omega (arith, end, word, ends, inside ends)
        | no goes_on ↦ omega (arith, end, goes_on)
      ]

  past_map : (i b : ℕ) → entries ≤ i → i * 32 ≤ b → Blocked map pages b
  past_map i b over le = (
    0,
    some_pages,
    ap (is_page_set map) (omega arith)
        ∙ zero_word map (b / 32) b (get_or-past map (b / 32) (omega (arith, size, over, le))) refl,
  )

  none_left :
      (i : ℕ)
      → entries ≤ i
      → ((b' : ℕ) → b' < i * 32 → Blocked map pages b')
      → (b : ℕ) → Blocked map pages b
  none_left i over before b = elim (Bool-cases (ltb b (i * 32))) [
    | inl early ↦ before b (ground (arith, early))
    | inr late ↦ past_map i b over (ground (arith, late))
  ]

  after_scan-IsFirstRun :
      (i : ℕ) (r : Scan) (next : ℕ → Option ℕ)
      → Scanned map pages i (i * 32 + 1024) r
      → ((k : ℕ)
          → i < k
          → ((b' : ℕ) → b' < k * 32 → Blocked map pages b')
          → IsFirstRun map pages (next k))
      → IsFirstRun map pages (after_scan pages (i * 32 + 1024) r next)
  unfolding after_scan
  after_scan-IsFirstRun i (hit offset) next (b, at, free, before) later =
      (b, omega (arith, at), free, before)
  after_scan-IsFirstRun i (ended k) next (least, before) later =
      later (k + 1) (omega (arith, least)) before

  IsFirstRun-from :
      (n i : ℕ)
      → entries ≤ i + n
      → ((b' : ℕ) → b' < i * 32 → Blocked map pages b')
      → IsFirstRun map pages (find_from map entries pages n i)
  unfolding find_from
  IsFirstRun-from zero i enough before = none_left i (omega (arith, enough)) before
  IsFirstRun-from (suc n) i enough before =
      if_cases P (ltb i entries)
        (λ e.
          let inside : i < entries = ground (arith, e) in
          if_cases P (not (get_or map i 0 == 0))
            (λ e.
              after_scan-IsFirstRun i _ _
                (scan_from-Scanned i (32 * (entries - i)) i (i * 32 + 1024) 0 0 (i * 32) (i * 32)
                  (omega arith) (omega arith) (omega arith) (omega arith) (omega (arith, inside))
                  (omega (arith, inside)) (omega arith) some_pages
                  (λ j lt. absurd (omega (arith, lt))) before)
                (λ k lt before'. IsFirstRun-from n k (omega (arith, enough, lt)) before'))
            (λ e.
              let zero_there : get_or map i 0 ≡ 0 = ground (arith, e) in
              IsFirstRun-from n (i + 1) (omega (arith, enough)) (λ b' lt.
                elim (Bool-cases (ltb b' (i * 32))) [
                  | inl early ↦ before b' (ground (arith, early))
                  | inr late ↦
                      let here : b' / 32 ≡ i = ground (arith, late, lt) in
                      (
                        0,
                        some_pages,
                        ap (is_page_set map) (omega arith) ∙ zero_word map i b' zero_there here,
                      )
                ])))
        (λ e. none_left i (ground (arith, e)) before)
    where
      P : Option ℕ → Type 0
      P = IsFirstRun map pages

-- The search of `find_pages`, which skips the words without a free page and goes on from word to
-- word within a run, over a map of `entries` words with enough rounds left and no run before the
-- word it starts at, finds what trying every page in order would: the first page from which on the
-- pages wanted, at least one, are free, or none.
pub find_from-IsFirstRun :
    (map : PageMap) (entries pages n i : ℕ)
    → length map ≡ entries
    → 1 ≤ pages
    → entries ≤ i + n
    → ((b' : ℕ) → b' < i * 32 → Blocked map pages b')
    → IsFirstRun map pages (find_from map entries pages n i)
find_from-IsFirstRun map entries pages n i size some_pages enough before =
    IsFirstRun-from map entries pages size some_pages n i enough before
