-- ===== src/Heap/Bins.antt =====
-- The search for a bin: `find_bin`.
use arqvenger_os.Base.{
  ℕ, zero, suc, ◌+◌, ◌/◌, ◌≤◌, ◌<◌, ◌≡◌, refl, ap, ◌∙◌, ◌⊎◌, inl, inr, Bool, true, ◌&&◌, some, List,
  [], ◌∷◌, ◌==◌, ltb, leb, if_cases, Bool-cases, Option, get_or, length, arith,
}
use arqvenger_os.Heap.{bin_sizes, bin_size, bin_search, find_bin}

-- The sizes ascend.
ascending : ℕ → List ℕ → Bool
ascending x [] = true
ascending x (y ∷ l) = leb x y && ascending y l

ascending-head :
    (x y : ℕ) (l : List ℕ) → ascending x (y ∷ l) ≡ true → (x ≤ y) × (ascending y l ≡ true)
unfolding ascending
ascending-head x y l h = elim (Bool-cases (leb x y)) [
  | inl e ↦ (ground arith, rw e at h)
  | inr e ↦ absurd (ground (arith, h))
]

ascending-get_or :
    (x : ℕ) (l : List ℕ) (i : ℕ) → ascending x l ≡ true → i < length l → x ≤ get_or l i 0
ascending-get_or x [] i h k = elim k [ ]
ascending-get_or x (y ∷ l) zero h k = (ascending-head x y l h).0
ascending-get_or x (y ∷ l) (suc i) h k =
    let (le, up) = ascending-head x y l h in omega (arith, ascending-get_or y l i up (omega arith))

ascending-le :
    (x : ℕ) (l : List ℕ) (i j : ℕ)
    → ascending x l ≡ true
    → i ≤ j
    → j < length l
    → get_or l i 0 ≤ get_or l j 0
ascending-le x [] i j h k m = elim m [ ]
ascending-le x (y ∷ l) zero zero h k m = omega arith
ascending-le x (y ∷ l) zero (suc j) h k m =
    ascending-get_or y l j (ascending-head x y l h).1 (omega arith)
ascending-le x (y ∷ l) (suc i) zero h k m = absurd (omega arith)
ascending-le x (y ∷ l) (suc i) (suc j) h k m =
    ascending-le y l i j (ascending-head x y l h).1 (omega arith) (omega arith)

pub bin_size-le : (i j : ℕ) → i ≤ j → j < 89 → bin_size i ≤ bin_size j
unfolding bin_size ascending
bin_size-le i j h k = ascending-le 0 bin_sizes i j refl h k

last_bin_size : bin_size 88 ≡ 0x80000000
unfolding bin_size
last_bin_size = refl

first_bin_size : bin_size 0 ≡ 8
unfolding bin_size
first_bin_size = refl

-- The last bin whose size is at most `n`.
abbrev pub IsBin : ℕ → ℕ → Type 0
IsBin n b = (b < 88) × (bin_size b ≤ n) × (n < bin_size (b + 1))

-- what is known of the upper end of the search
abbrev Above : ℕ → ℕ → Type 0
Above n high = (high ≡ 89) ⊎ ((high < 89) × (n < bin_size high))

search_end-IsBin :
    (low high n : ℕ)
    → n < 0x80000000
    → low + 1 ≡ high
    → bin_size low ≤ n
    → Above n high
    → IsBin n low
search_end-IsBin low high n small e below (inl last) =
    let top : bin_size low ≡ 0x80000000 =
      ap bin_size (let at : low ≡ 88 = omega arith in at) ∙ last_bin_size in
    absurd (omega arith)
search_end-IsBin low high n small e below (inr (in_table, above)) =
    (omega arith, below, rw (ap bin_size e) above)

-- a search that ends on the bin for `n`
abbrev Found : ℕ → Option ℕ → Type 0
Found n o = (b : ℕ) × (o ≡ some b) × IsBin n b

bin_search-IsBin :
    (fuel low high n : ℕ)
    → n < 0x80000000
    → low < high
    → high ≤ low + fuel
    → high ≤ 89
    → bin_size low ≤ n
    → Above n high
    → Found n (bin_search fuel low high n)
unfolding bin_search
bin_search-IsBin zero low high n small lt fits top below above = absurd (omega arith)
bin_search-IsBin (suc fuel) low high n small lt fits top below above =
    if_cases (Found n) (low + 1 == high)
      (λ e. (low, refl, search_end-IsBin low high n small (ground arith) below above))
      (λ e.
        if_cases (Found n) (leb (bin_size ((low + high) / 2)) n)
          (λ f.
            bin_search-IsBin fuel ((low + high) / 2) high n small (ground arith) (ground arith) top
              (ground arith) above)
          (λ f.
            bin_search-IsBin fuel low ((low + high) / 2) n small (ground arith) (ground arith)
              (ground arith) below (inr (ground arith, ground arith))))

pub find_bin-IsBin : (n : ℕ) → 8 ≤ n → n < 0x80000000 → (b : ℕ) × (find_bin n ≡ some b) × IsBin n b
unfolding find_bin
find_bin-IsBin n low high =
    let room : ltb n (bin_size 88) ≡ true = rw last_bin_size (ground arith) in
    rw room (
      bin_search-IsBin 89 0 89 n high (omega arith) (omega arith) (omega arith)
        (rw first_bin_size low) (inl refl))
