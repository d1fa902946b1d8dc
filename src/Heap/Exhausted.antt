-- ===== src/Heap/Exhausted.antt =====
-- A search of the bins that finds nothing.
use arqvenger_os.Base.{
  ℕ, zero, suc, ◌+◌, ◌-◌, ◌≤◌, ◌<◌, ◌≡◌, refl, sym, subst, ap, ◌∙◌, inl, inr, none, some, List, [],
  ◌∷◌, ltb, leb, Bool-cases, Option-cases, eq_of_some, get_or, drop, ℕ_discrete, arith,
}
use arqvenger_os.Heap.{Heap, bin_size, find_chunk, first_bin, next_chunk, or_next, search_bins}
use arqvenger_os.Heap.Bins.{IsBin, bin_size-le}
use arqvenger_os.Heap.Layout.{Chunk, FreeAt}
use arqvenger_os.Heap.Listed.{In, InBin, Sound}

pub get_or-drop : (b d : ℕ) (l : List (List ℕ)) → get_or (drop b l) d [] ≡ get_or l (b + d) []
get_or-drop zero d l = ap (λ i. get_or l i []) (omega arith)
get_or-drop (suc b) d [] = refl
get_or-drop (suc b) d (x ∷ l) =
    get_or-drop b d l
    ∙ ap (λ i. get_or (x ∷ l) i []) (let at : suc (b + d) ≡ suc b + d = omega arith in at)

-- No bin whose chunks can be large enough has one of `n` bytes.
abbrev NoneListed : Heap → ℕ → Type 0
NoneListed h n = (i x : ℕ) → i < 88 → n < bin_size (i + 1) → InBin x i h.bins → h.size x < n

first_bin-none : (l : List (List ℕ)) (j d x : ℕ) → first_bin l j ≡ none → InBin x d l → ⊥
unfolding first_bin
first_bin-none [] j d x e m = m
first_bin-none ([] ∷ l) j zero x e m = m
first_bin-none ([] ∷ l) j (suc d) x e m = first_bin-none l (j + 1) d x e m
first_bin-none ((y ∷ bin) ∷ l) j d x e m = absurd (ground (arith, e))

first_bin-before :
    (l : List (List ℕ)) (j i d x : ℕ) → first_bin l j ≡ some i → j + d < i → InBin x d l → ⊥
unfolding first_bin
first_bin-before [] j i d x e lt m = m
first_bin-before ([] ∷ l) j i zero x e lt m = m
first_bin-before ([] ∷ l) j i (suc d) x e lt m = first_bin-before l (j + 1) i d x e (omega arith) m
first_bin-before ((y ∷ bin) ∷ l) j i d x e lt m = let same = eq_of_some e in absurd (omega arith)

find_chunk-none :
    (sizes : ℕ → ℕ) (l : List ℕ) (n x : ℕ) → find_chunk sizes l n ≡ none → In x l → sizes x < n
unfolding find_chunk
find_chunk-none sizes [] n x e m = elim m [ ]
find_chunk-none sizes (y ∷ l) n x e m = elim (Bool-cases (ltb (sizes y) n)) [
  | inl f ↦ elim m [
    | inl here ↦ subst (λ z. sizes z < n) (sym here) (ground arith)
    | inr k ↦ find_chunk-none sizes l n x (rw f at e) k
  ]
  | inr f ↦ absurd (ground (arith, rw f at e))
]

-- a chunk of a bin from `b` on, among those bins
from_bin :
    (b i x : ℕ) (bins : List (List ℕ)) → b ≤ i → InBin x i bins → InBin x (i - b) (drop b bins)
from_bin b i x bins le m =
    subst (In x) (sym (get_or-drop b (i - b) bins ∙ ap (λ j. get_or bins j []) (omega arith))) m

later_bin : (n b i : ℕ) → b < 88 → i < 88 → bin_size b ≤ n → n < bin_size (i + 1) → b ≤ i
later_bin n b i top small below above = elim (Bool-cases (leb b i)) [
  | inl e ↦ ground arith
  | inr e ↦ let le = bin_size-le (i + 1) b (ground arith) (omega arith) in absurd (omega arith)
]

-- the bins behind the one whose chunks are all too small
next_chunk-none : (h : Heap) (j i x : ℕ) → next_chunk h j ≡ none → j < i → InBin x i h.bins → ⊥
unfolding next_chunk
next_chunk-none h j i x e lt m = elim (Option-cases (first_bin (drop (j + 1) h.bins) (j + 1))) [
  | inl f ↦
      first_bin-none (drop (j + 1) h.bins) (j + 1) (i - (j + 1)) x f
        (from_bin (j + 1) i x h.bins (omega arith) m)
  | inr (k, f) ↦ absurd (ground (arith, rw f at e))
]

search_bins-none :
    (h : Heap) (n b : ℕ)
    → (b < 88) × (bin_size b ≤ n) × (n < bin_size (b + 1))
    → search_bins h b n ≡ none
    → NoneListed h n
unfolding search_bins
search_bins-none h n b (top, below, above) e i x small able m =
    let after = later_bin n b i top small below able in
    elim (Option-cases (first_bin (drop b h.bins) b)) [
      | inl f ↦
          absurd (first_bin-none (drop b h.bins) b (i - b) x f (from_bin b i x h.bins after m))
      | inr (j, f) ↦
          let e' : or_next h j (find_chunk h.size (get_or h.bins j []) n) ≡ none = rw f at e in
          elim (Option-cases (find_chunk h.size (get_or h.bins j []) n)) [
            | inl g ↦ elim (Bool-cases (ltb i j)) [
              | inl lt ↦ absurd (
                  first_bin-before (drop b h.bins) b j (i - b) x f (ground arith)
                    (from_bin b i x h.bins after m))
              | inr ge ↦ elim (ℕ_discrete i j) [
                | yes same ↦
                    find_chunk-none h.size (get_or h.bins j []) n x g
                      (subst (λ k. InBin x k h.bins) same m)
                | no ne ↦ absurd (next_chunk-none h j i x (rw g at e') (ground arith) m)
              ]
            ]
            | inr (c, g) ↦ absurd (ground (arith, rw g at e'))
          ]
    ]

-- Every free chunk has fewer than `n` bytes.
abbrev pub NoneFits : Heap → ℕ → List Chunk → ℕ → Type 0
NoneFits h a cs n = (x : ℕ) → FreeAt a cs x → h.size x < n

-- A search that finds nothing means that there is nothing to find.
pub search_bins-NoneFits :
    (h : Heap) (a : ℕ) (cs : List Chunk) (n b : ℕ)
    → Sound h a cs
    → IsBin n b
    → search_bins h b n ≡ none
    → NoneFits h a cs n
search_bins-NoneFits h a cs n b s is_bin e x f =
    let (i, its_bin, m) = s.complete x f in
    elim (Bool-cases (ltb (h.size x) n)) [
      | inl lt ↦ ground arith
      | inr ge ↦
          search_bins-none h n b is_bin e i x its_bin.0
            (let above = its_bin.2 in let large : n ≤ h.size x = ground arith in omega arith) m
    ]
