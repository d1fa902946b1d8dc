-- ===== src/Heap/Split.antt =====
-- The use of a free chunk: `split_chunk`.
use arqvenger_os.Base.{
  ℕ, ◌+◌, ◌-◌, ◌≤◌, ◌<◌, ◌≡◌, refl, sym, subst, ◌∙◌, ◌⊎◌, inl, inr, true, false, some, List, [],
  ◌∷◌, ◌++◌, map, ltb, Bool-cases, length, length-map, arith,
}
use arqvenger_os.Heap.{Heap, bin_size, marked, without, unlink, taken_chunk, split_chunk}
use arqvenger_os.Heap.Bins.{IsBin}
use arqvenger_os.Heap.Layout.{
  Chunk, free_of, used_of, total, Tiles, SameAt, FreeAt, Tiles-frame, Tiles-right, marked-IsChunkAt,
  marked-SameAt, FreeAt-right, FreeAt-left, total-append,
}
use arqvenger_os.Heap.Listed.{InBin, Sound, InBin-unlink, InBin-unlink_other, added, resound}

-- A heap with the same headers and footers.
pub SameAt-copy : (h h1 h2 : Heap) (x : ℕ) → SameAt h h1 x → SameAt h1 h2 x → SameAt h h2 x
SameAt-copy h h1 h2 x s t = record {
  in_use = t.in_use ∙ s.in_use;
  size = t.size ∙ s.size;
  footer = t.footer ∙ s.footer;
}

-- A used chunk of `m` bytes, `n` of them wanted, and what is left of `k` bytes.
pub data Cut (n k : ℕ) : ℕ → List Chunk → Type 0 where
  whole : n ≤ k → k < n + 16 → Cut n k k (used_of k ∷ [])
  rest : n + 16 ≤ k → Cut n k n (used_of n ∷ free_of (k - n) ∷ [])

pub total-Cut : (n k m : ℕ) (new : List Chunk) → Cut n k m new → total new ≡ k
total-Cut n k m new (whole le lt) = omega arith
total-Cut n k m new (rest le) = omega arith

module _ (h : Heap) (a : ℕ) (xs ys : List Chunk) (k n : ℕ) (s : Sound h a (xs ++ (free_of k ∷ ys)))
    (low : 16 ≤ n) (le : n ≤ k) where
  k-header : h.size (a + total xs) ≡ k
  k-header = (Tiles-right h a xs (free_of k ∷ ys) s.tiles).0.header

  unlisted :
      (i x : ℕ)
      → InBin x i (map (without (a + total xs)) h.bins)
      → (FreeAt (a + total xs) (free_of k ∷ []) x → ⊥) × InBin x i h.bins
  unlisted i x m =
      let (ne, old) = InBin-unlink (a + total xs) x i h.bins m in
      (λ f. elim f [ inl (e, here) ↦ ne here | inr g ↦ g ], old)

  still_listed :
      (i x : ℕ)
      → (FreeAt (a + total xs) (free_of k ∷ []) x → ⊥)
      → InBin x i h.bins
      → InBin x i (map (without (a + total xs)) h.bins)
  still_listed i x out m = InBin-unlink_other (a + total xs) x i h.bins (λ e. out (inl (refl, e))) m

  -- the heap after the whole chunk is used
  whole_heap : Heap
  whole_heap = (taken_chunk (unlink h (a + total xs)) (a + total xs) k 0).1

  whole-Sound : Sound whole_heap a (xs ++ ((used_of k ∷ []) ++ ys))
  unfolding whole_heap
  whole-Sound =
      resound h whole_heap a xs (free_of k ∷ []) (used_of k ∷ []) ys s refl
        (λ y out.
          let m =
            marked-SameAt h (a + total xs) true k y (omega arith)
              (elim out [ inl o ↦ inl o | inr o ↦ inr (omega arith) ]) in
          record { in_use = m.in_use; size = m.size; footer = m.footer })
        (
          let m = marked-IsChunkAt h (a + total xs) true k (omega arith) in
              record { enough = m.enough; status = m.status; header = m.header; footer = m.footer },
          tt,
        )
        refl (length-map h.bins (without (a + total xs)) ∙ s.bin_count)
        (λ i x m. inl (unlisted i x m)) still_listed
        (λ x f. elim f [ inl (e, here) ↦ absurd (ground (arith, e)) | inr g ↦ elim g [ ] ])
        (λ lt. absurd (omega arith))

  -- the heap after the chunk is split, with the bins as they are then
  split_heap : List (List ℕ) → Heap
  split_heap bins =
      (taken_chunk
        (record (marked (record (unlink h (a + total xs)) { last_chunk = a + total xs + n })
          (a + total xs + n) false (k - n)) { bins = bins })
        (a + total xs) n (k - n)).1

  split-SameAt :
      (bins : List (List ℕ)) (y : ℕ)
      → n + 16 ≤ k
      → (y < a + total xs) ⊎ (a + total xs + k ≤ y)
      → SameAt h (split_heap bins) y
  unfolding split_heap
  split-SameAt bins y room out =
      let h1 = marked h (a + total xs + n) false (k - n) in
      let m1 =
        marked-SameAt h (a + total xs + n) false (k - n) y (omega arith)
          (elim out [ inl o ↦ inl (omega arith) | inr o ↦ inr (omega arith) ]) in
      let m2 =
        marked-SameAt h1 (a + total xs) true n y (omega arith)
          (elim out [ inl o ↦ inl o | inr o ↦ inr (omega arith) ]) in
      record {
        in_use = m2.in_use ∙ m1.in_use;
        size = m2.size ∙ m1.size;
        footer = m2.footer ∙ m1.footer;
      }

  split-Tiles :
      (bins : List (List ℕ))
      → n + 16 ≤ k
      → Tiles (split_heap bins) (a + total xs) (used_of n ∷ free_of (k - n) ∷ [])
  unfolding split_heap
  split-Tiles bins room =
      let h1 = marked h (a + total xs + n) false (k - n) in
      let m2 = marked-IsChunkAt h1 (a + total xs) true n (omega arith) in
      (
        record { enough = m2.enough; status = m2.status; header = m2.header; footer = m2.footer },
        Tiles-frame h1 (split_heap bins) (a + total xs + n) (free_of (k - n) ∷ [])
            (λ y lo hi.
              let m = marked-SameAt h1 (a + total xs) true n y (omega arith) (inr lo) in
              record { in_use = m.in_use; size = m.size; footer = m.footer })
            (marked-IsChunkAt h (a + total xs + n) false (k - n) (omega arith), tt),
      )

  split-Sound :
      (bins : List (List ℕ))
      → n + 16 ≤ k
      → length bins ≡ 89
      → ((i x : ℕ)
          → InBin x i bins
          → ((x ≡ a + total xs + n) × (bin_size i ≤ k - n))
            ⊎ InBin x i (map (without (a + total xs)) h.bins))
      → ((b : ℕ) × IsBin (k - n) b × InBin (a + total xs + n) b bins)
      → ((i x : ℕ) → InBin x i (map (without (a + total xs)) h.bins) → InBin x i bins)
      → Sound (split_heap bins) a (xs ++ ((used_of n ∷ free_of (k - n) ∷ []) ++ ys))
  unfolding split_heap
  split-Sound bins room count from there keeps =
      let t = split-Tiles bins room in
      let header = t.1.0.header in
      let behind : FreeAt (a + total xs) (used_of n ∷ free_of (k - n) ∷ []) (a + total xs + n) =
        inr (inl (refl, refl)) in
      resound h (split_heap bins) a xs (free_of k ∷ []) (used_of n ∷ free_of (k - n) ∷ []) ys s
        (omega arith)
        (λ y out. split-SameAt bins y room (elim out [ inl o ↦ inl o | inr o ↦ inr (omega arith) ]))
        t refl count
        (λ i x m. elim (from i x m) [
          | inl (here, small) ↦ inr (
            subst (FreeAt (a + total xs) (used_of n ∷ free_of (k - n) ∷ [])) (sym here) behind,
            rw (here, header) small,
          )
          | inr old ↦ inl (unlisted i x old)
        ])
        (λ i x out m. keeps i x (still_listed i x out m))
        (λ x f. elim f [
          | inl (e, here) ↦ absurd (ground (arith, e))
          | inr (inl (e, here)) ↦ let (b, is_bin, m) = there in rw (here, header) (b, is_bin, m)
          | inr (inr g) ↦ elim g [ ]
        ])
        (λ lt. (
          FreeAt-right a xs ((used_of n ∷ free_of (k - n) ∷ []) ++ ys) (a + total xs + n) (
              FreeAt-left (a + total xs) (used_of n ∷ free_of (k - n) ∷ []) ys (a + total xs + n)
                behind),
          rw header (omega arith),
        ))

  pub split_chunk-Cut :
      (m : ℕ) × (new : List Chunk) × (h' : Heap) × (split_chunk
          (unlink h (a + total xs))
          (a + total xs)
          n
        ≡ some (a + total xs + 4, h'))
      × Cut n k m new
      × Sound h' a (xs ++ (new ++ ys))
  unfolding split_chunk whole_heap split_heap
  split_chunk-Cut = elim (Bool-cases (ltb (k - n) 16)) [
    | inl e ↦
        let all : n + (k - n) ≡ k = omega arith in
        (
          k,
          used_of k ∷ [],
          whole_heap,
          simp (k-header, e, all) refl,
          whole le (ground arith),
          whole-Sound,
        )
    | inr e ↦
        let fits = s.fits in
        let bound = total-append xs (free_of k ∷ ys) in
        let (bins, found, count, from, there, keeps) =
          added (record (unlink h (a + total xs)) { last_chunk = a + total xs + n })
            (a + total xs + n) (k - n) (ground arith) (omega arith)
            (length-map h.bins (without (a + total xs)) ∙ s.bin_count) in
        (
          n,
          used_of n ∷ free_of (k - n) ∷ [],
          split_heap bins,
          simp (k-header, e, found) refl,
          rest (ground arith),
          split-Sound bins (ground arith)
              (count ∙ length-map h.bins (without (a + total xs)) ∙ s.bin_count) from there keeps,
        )
  ]
