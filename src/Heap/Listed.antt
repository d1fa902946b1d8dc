-- ===== src/Heap/Listed.antt =====
-- The bins and the chunks that they list.
use arqvenger_os.Base.{
  ℕ, zero, suc, ◌+◌, ◌≤◌, ◌<◌, ◌≡◌, ◌≢◌, refl, sym, subst, ap, ℕ_discrete, ◌⊎◌, inl, inr, true,
  false, some, List, [], ◌∷◌, ◌++◌, map, ◌==◌, leb, Bool-cases, get_or, set, length, length-set,
  arith,
}
use arqvenger_os.Heap.{Heap, context_size, bin_size, insert_chunk, marked, add_free_chunk, without}
use arqvenger_os.Heap.Bins.{IsBin, find_bin-IsBin}
use arqvenger_os.Heap.Layout.{
  Chunk, total, Tiles, SameAt, FreeAt, Tiles-replace, Tiles-left, Tiles-right, FreeAt-cases,
  FreeAt-left, FreeAt-right, FreeAt-bounds, total-append,
}

abbrev pub In : ℕ → List ℕ → Type 0
In x [] = ⊥
In x (y ∷ l) = (x ≡ y) ⊎ In x l

abbrev pub InBin : ℕ → ℕ → List (List ℕ) → Type 0
InBin x i bins = In x (get_or bins i [])

-- A bin lists the chunk at `x`, and it is the bin of its size.
abbrev pub IsListed : Heap → ℕ → Type 0
IsListed h x = (i : ℕ) × IsBin (h.size x) i × InBin x i h.bins

-- The context lies before the chunks, which tile the memory from `a` on, the bins list free ones, each
-- where it belongs or below, and every free one in the bin of its size, and the last chunk, while it has a size, is a free one of that size at least.
pub record Sound (h : Heap) (a : ℕ) (cs : List Chunk) : Type 0 where
  pub above : h.context + context_size ≤ a
  pub tiles : Tiles h a cs
  pub fits : a + total cs < 0x80000000
  pub bin_count : length h.bins ≡ 89
  pub listed : (i x : ℕ) → InBin x i h.bins → FreeAt a cs x × (bin_size i ≤ h.size x)
  pub complete : (x : ℕ) → FreeAt a cs x → IsListed h x
  pub last :
      0 < h.last_chunk_size → FreeAt a cs h.last_chunk × (h.last_chunk_size ≤ h.size h.last_chunk)

In-without : (c x : ℕ) (l : List ℕ) → In x (without c l) → (x ≢ c) × In x l
unfolding without
In-without c x [] m = elim m [ ]
In-without c x (y ∷ l) m = elim (Bool-cases (y == c)) [
  | inl e ↦ let (ne, k) = In-without c x l (rw e at m) in (ne, inr k)
  | inr e ↦
      let m' : (x ≡ y) ⊎ In x (without c l) = rw e at m in
      elim m' [
        | inl here ↦ ((λ f. absurd (ground (arith, here, f, e))), inl here)
        | inr k ↦ let (ne, n) = In-without c x l k in (ne, inr n)
      ]
]

pub InBin-unlink :
    (c x i : ℕ) (bins : List (List ℕ)) → InBin x i (map (without c) bins) → (x ≢ c) × InBin x i bins
InBin-unlink c x i [] m = elim m [ ]
InBin-unlink c x zero (l ∷ bins) m = In-without c x l m
InBin-unlink c x (suc i) (l ∷ bins) m = InBin-unlink c x i bins m

In-insert :
    (sizes : ℕ → ℕ) (l : List ℕ) (c n x : ℕ) → In x (insert_chunk sizes l c n) → (x ≡ c) ⊎ In x l
unfolding insert_chunk
In-insert sizes [] c n x m = m
In-insert sizes (y ∷ l) c n x m = elim (Bool-cases (leb (sizes y) n)) [
  | inl e ↦
      let m' : (x ≡ y) ⊎ In x (insert_chunk sizes l c n) = rw e at m in
      elim m' [
        | inl here ↦ inr (inl here)
        | inr k ↦ elim (In-insert sizes l c n x k) [ inl f ↦ inl f | inr f ↦ inr (inr f) ]
      ]
  | inr e ↦ rw e at m
]

pub InBin-set :
    (bins : List (List ℕ)) (b i x : ℕ) (l : List ℕ)
    → InBin x i (set bins b l)
    → ((i ≡ b) × In x l) ⊎ InBin x i bins
InBin-set [] b i x l m = inr m
InBin-set (k ∷ bins) zero zero x l m = inl (refl, m)
InBin-set (k ∷ bins) zero (suc i) x l m = inr m
InBin-set (k ∷ bins) (suc b) zero x l m = inr m
InBin-set (k ∷ bins) (suc b) (suc i) x l m = elim (InBin-set bins b i x l m) [
  | inl (e, n) ↦ inl (ap suc e, n)
  | inr n ↦ inr n
]

In-without_other : (c x : ℕ) (l : List ℕ) → x ≢ c → In x l → In x (without c l)
unfolding without
In-without_other c x [] ne m = m
In-without_other c x (y ∷ l) ne m = elim (Bool-cases (y == c)) [
  | inl e ↦ elim m [
    | inl here ↦ absurd (ne (ground (arith, here, e)))
    | inr k ↦ rw e (In-without_other c x l ne k)
  ]
  | inr e ↦ elim m [ inl here ↦ rw e (inl here) | inr k ↦ rw e (inr (In-without_other c x l ne k)) ]
]

-- Every other chunk stays in its bin.
pub InBin-unlink_other :
    (c x i : ℕ) (bins : List (List ℕ)) → x ≢ c → InBin x i bins → InBin x i (map (without c) bins)
InBin-unlink_other c x i [] ne m = m
InBin-unlink_other c x zero (l ∷ bins) ne m = In-without_other c x l ne m
InBin-unlink_other c x (suc i) (l ∷ bins) ne m = InBin-unlink_other c x i bins ne m

In-insert_new : (sizes : ℕ → ℕ) (l : List ℕ) (c n : ℕ) → In c (insert_chunk sizes l c n)
unfolding insert_chunk
In-insert_new sizes [] c n = inl refl
In-insert_new sizes (y ∷ l) c n = elim (Bool-cases (leb (sizes y) n)) [
  | inl e ↦ rw e (inr (In-insert_new sizes l c n))
  | inr e ↦ rw e (inl refl)
]

In-insert_old : (sizes : ℕ → ℕ) (l : List ℕ) (c n x : ℕ) → In x l → In x (insert_chunk sizes l c n)
unfolding insert_chunk
In-insert_old sizes [] c n x m = elim m [ ]
In-insert_old sizes (y ∷ l) c n x m = elim (Bool-cases (leb (sizes y) n)) [
  | inl e ↦ elim m [
    | inl here ↦ rw e (inl here)
    | inr k ↦ rw e (inr (In-insert_old sizes l c n x k))
  ]
  | inr e ↦ rw e (inr m)
]

InBin-set_here :
    (bins : List (List ℕ)) (b x : ℕ) (l : List ℕ)
    → b < length bins
    → In x l
    → InBin x b (set bins b l)
InBin-set_here [] b x l lt m = absurd (omega arith)
InBin-set_here (k ∷ bins) zero x l lt m = m
InBin-set_here (k ∷ bins) (suc b) x l lt m = InBin-set_here bins b x l (omega arith) m

InBin-set_other :
    (bins : List (List ℕ)) (b i x : ℕ) (l : List ℕ)
    → i ≢ b
    → InBin x i bins
    → InBin x i (set bins b l)
InBin-set_other [] b i x l ne m = m
InBin-set_other (k ∷ bins) zero zero x l ne m = absurd (ne refl)
InBin-set_other (k ∷ bins) zero (suc i) x l ne m = m
InBin-set_other (k ∷ bins) (suc b) zero x l ne m = m
InBin-set_other (k ∷ bins) (suc b) (suc i) x l ne m =
    InBin-set_other bins b i x l (λ e. ne (ap suc e)) m

-- Every chunk of a bin is still in it when one is put into a bin.
InBin-added :
    (sizes : ℕ → ℕ) (bins : List (List ℕ)) (b c n i x : ℕ)
    → b < length bins
    → InBin x i bins
    → InBin x i (set bins b (insert_chunk sizes (get_or bins b []) c n))
InBin-added sizes bins b c n i x lt m =
    let bin = insert_chunk sizes (get_or bins b []) c n in
    elim (ℕ_discrete i b) [
      | yes e ↦
          subst (λ j. InBin x j (set bins b bin)) (sym e)
            (InBin-set_here bins b x bin lt
              (In-insert_old sizes (get_or bins b []) c n x (subst (λ j. InBin x j bins) e m)))
      | no ne ↦ InBin-set_other bins b i x bin ne m
    ]

-- `add_free_chunk` of a chunk that is large enough.
pub added :
    (h : Heap) (c n : ℕ)
    → 16 ≤ n
    → n < 0x80000000
    → length h.bins ≡ 89
    → (bins : List (List ℕ)) × (add_free_chunk h c n
        ≡ some (record (marked h c false n) { bins = bins }))
      × (length bins ≡ length h.bins)
      × ((i x : ℕ) → InBin x i bins → ((x ≡ c) × (bin_size i ≤ n)) ⊎ InBin x i h.bins)
      × ((b : ℕ) × IsBin n b × InBin c b bins)
      × ((i x : ℕ) → InBin x i h.bins → InBin x i bins)
unfolding add_free_chunk
added h c n low high full =
    let (b, found, is_bin) = find_bin-IsBin n (omega arith) high in
    let room : leb 16 n ≡ true = ground arith in
    let h1 = marked h c false n in
    let bin = insert_chunk h1.size (get_or h.bins b []) c n in
    (
      set h.bins b bin,
      simp (room, found) refl,
      length-set h.bins b bin,
      λ i x m. elim (InBin-set h.bins b i x bin m) [
        | inl (e, k) ↦ elim (In-insert h1.size (get_or h.bins b []) c n x k) [
          | inl here ↦ inl (here, rw e (is_bin.1))
          | inr old ↦ inr (rw e old)
        ]
        | inr old ↦ inr old
      ],
      (
        b,
        is_bin,
        InBin-set_here h.bins b c bin (let small = is_bin.0 in omega arith)
            (In-insert_new h1.size (get_or h.bins b []) c n),
      ),
      λ i x m. InBin-added h1.size h.bins b c n i x (let small = is_bin.0 in omega arith) m,
    )

-- A free chunk outside the changed part stays one.
pub kept :
    (h h' : Heap) (a : ℕ) (xs old new ys : List Chunk) (x : ℕ)
    → total new ≡ total old
    → ((y : ℕ) → (y < a + total xs) ⊎ (a + total xs + total old ≤ y) → SameAt h h' y)
    → Tiles h a (xs ++ (old ++ ys))
    → FreeAt a (xs ++ (old ++ ys)) x
    → (FreeAt (a + total xs) old x → ⊥)
    → FreeAt a (xs ++ (new ++ ys)) x × (h'.size x ≡ h.size x)
kept h h' a xs old new ys x e same t f out = elim (FreeAt-cases a xs (old ++ ys) x f) [
  | inl g ↦
      let bounds = FreeAt-bounds h a xs x (Tiles-left h a xs (old ++ ys) t) g in
      (FreeAt-left a xs (new ++ ys) x g, (same x (inl bounds.1)).size)
  | inr g ↦ elim (FreeAt-cases (a + total xs) old ys x g) [
    | inl k ↦ absurd (out k)
    | inr k ↦
        let bounds =
          FreeAt-bounds h (a + total xs + total old) ys x
            (Tiles-right h (a + total xs) old ys (Tiles-right h a xs (old ++ ys) t)) k in
        (
          FreeAt-right a xs (new ++ ys) x (
              FreeAt-right (a + total xs) new ys x (
                subst (λ p. FreeAt p ys x)
                  (let at : a + total xs + total old ≡ a + total xs + total new = omega arith in at)
                  k)),
          (same x (inr bounds.0)).size,
        )
  ]
]

-- A free chunk after a change is a new one, or was one outside the changed part before.
kept_back :
    (h h' : Heap) (a : ℕ) (xs old new ys : List Chunk) (x : ℕ)
    → total new ≡ total old
    → ((y : ℕ) → (y < a + total xs) ⊎ (a + total xs + total old ≤ y) → SameAt h h' y)
    → Tiles h a (xs ++ (old ++ ys))
    → FreeAt a (xs ++ (new ++ ys)) x
    → FreeAt (a + total xs) new x
      ⊎ (FreeAt a (xs ++ (old ++ ys)) x
          × (FreeAt (a + total xs) old x → ⊥)
          × (h'.size x ≡ h.size x))
kept_back h h' a xs old new ys x e same t f =
    let t_old = Tiles-left h (a + total xs) old ys (Tiles-right h a xs (old ++ ys) t) in
    elim (FreeAt-cases a xs (new ++ ys) x f) [
      | inl g ↦
          let bounds = FreeAt-bounds h a xs x (Tiles-left h a xs (old ++ ys) t) g in
          inr (
            FreeAt-left a xs (old ++ ys) x g,
            (λ k.
                let inside = FreeAt-bounds h (a + total xs) old x t_old k in absurd (omega arith)),
            (same x (inl bounds.1)).size,
          )
      | inr g ↦ elim (FreeAt-cases (a + total xs) new ys x g) [
        | inl k ↦ inl k
        | inr k ↦
            let k' : FreeAt (a + total xs + total old) ys x =
              subst (λ p. FreeAt p ys x)
                (let at : a + total xs + total new ≡ a + total xs + total old = omega arith in at)
                k in
            let bounds =
              FreeAt-bounds h (a + total xs + total old) ys x
                (Tiles-right h (a + total xs) old ys (Tiles-right h a xs (old ++ ys) t)) k' in
            inr (
              FreeAt-right a xs (old ++ ys) x (FreeAt-right (a + total xs) old ys x k'),
              (λ k2.
                  let inside = FreeAt-bounds h (a + total xs) old x t_old k2 in
                  absurd (omega arith)),
              (same x (inr bounds.0)).size,
            )
      ]
    ]

-- The heap after a change of the chunks `old` to `new`.
pub resound :
    (h h' : Heap) (a : ℕ) (xs old new ys : List Chunk)
    → Sound h a (xs ++ (old ++ ys))
    → total new ≡ total old
    → ((y : ℕ) → (y < a + total xs) ⊎ (a + total xs + total old ≤ y) → SameAt h h' y)
    → Tiles h' (a + total xs) new
    → h'.context ≡ h.context
    → length h'.bins ≡ 89
    → ((i x : ℕ)
        → InBin x i h'.bins
        → ((FreeAt (a + total xs) old x → ⊥) × InBin x i h.bins)
          ⊎ (FreeAt (a + total xs) new x × (bin_size i ≤ h'.size x)))
    → ((i x : ℕ) → (FreeAt (a + total xs) old x → ⊥) → InBin x i h.bins → InBin x i h'.bins)
    → ((x : ℕ) → FreeAt (a + total xs) new x → IsListed h' x)
    → (0 < h'.last_chunk_size
        → FreeAt a (xs ++ (new ++ ys)) h'.last_chunk × (h'.last_chunk_size ≤ h'.size h'.last_chunk))
    → Sound h' a (xs ++ (new ++ ys))
resound h h' a xs old new ys s e same t context count bins keeps fresh last = record {
  above = let above = s.above in omega arith;
  tiles = Tiles-replace h h' a xs old new ys e same s.tiles t;
  fits =
      let fits = s.fits in
      omega (
        arith,
        total-append xs (old ++ ys),
        total-append xs (new ++ ys),
        total-append old ys,
        total-append new ys,
      );
  bin_count = count;
  listed = λ i x m. elim (bins i x m) [
    | inl (out, k) ↦
        let (f, le) = s.listed i x k in
        let (f', size) = kept h h' a xs old new ys x e same s.tiles f out in (f', rw size le)
    | inr (f, le) ↦ (FreeAt-right a xs (new ++ ys) x (FreeAt-left (a + total xs) new ys x f), le)
  ];
  complete = λ x f. elim (kept_back h h' a xs old new ys x e same s.tiles f) [
    | inl g ↦ fresh x g
    | inr (g, out, size) ↦
        let (i, is_bin, m) = s.complete x g in (i, rw size is_bin, keeps i x out m)
  ];
  last = last;
}
