-- ===== src/Heap/Freeing.antt =====
-- Freeing a chunk: `free` and the chunks that it is joined with.
use arqvenger_os.Base.{
  ℕ, ◌+◌, ◌%◌, ◌^◌, ◌≤◌, ◌<◌, ◌≡◌, ◌≢◌, refl, sym, subst, ap, ◌∙◌, ◌⊎◌, inl, inr, false, some, List,
  [], ◌∷◌, ◌++◌, ◌==◌, if◌then◌else◌, length, length-map, arith, ℕ_discrete, snoc-append,
}
use arqvenger_os.Heap.{Heap, marked, add_free_chunk, without, unlink, free}
use arqvenger_os.Heap.Layout.{
  Chunk, free_of, used_of, total, total-append, SameAt, FreeAt, Tiles-right, marked-IsChunkAt,
  marked-SameAt, FreeAt-cases, FreeAt-right, FreeAt-left,
}
use arqvenger_os.Heap.Listed.{InBin, Sound, InBin-unlink, InBin-unlink_other, added, resound, kept}

-- The chunks that a freed chunk of `n` bytes and its neighbours become.
abbrev pub joined_next : ℕ → Chunk → List Chunk
joined_next n c2 = if c2.used then free_of n ∷ c2 ∷ [] else free_of (n + c2.bytes) ∷ []

abbrev pub joined : Chunk → ℕ → Chunk → List Chunk
joined c1 n c2 = if c1.used then c1 ∷ joined_next n c2 else joined_next (n + c1.bytes) c2

-- What is known of the heap before the joined chunk is added: `h1` has lost the chunks `old` from
-- its bins.
pub record Loose (h h1 : Heap) (a : ℕ) (xs old ys : List Chunk) : Type 0 where
  pub sound : Sound h a (xs ++ (old ++ ys))
  pub same : (x : ℕ) → SameAt h h1 x
  pub context : h1.context ≡ h.context
  pub count : length h1.bins ≡ 89
  pub listed : (i x : ℕ) → InBin x i h1.bins → (FreeAt (a + total xs) old x → ⊥) × InBin x i h.bins
  pub keeps : (i x : ℕ) → (FreeAt (a + total xs) old x → ⊥) → InBin x i h.bins → InBin x i h1.bins
  pub last :
      0 < h1.last_chunk_size
      → FreeAt a (xs ++ (old ++ ys)) h1.last_chunk
        × (h1.last_chunk_size ≤ h.size h1.last_chunk)
        × ((FreeAt (a + total xs) old h1.last_chunk → ⊥)
            ⊎ ((h1.last_chunk ≡ a + total xs) × (h.size (a + total xs) ≤ total old)))

-- The joined chunk is added.
pub release :
    (h h1 : Heap) (a : ℕ) (xs old ys : List Chunk)
    → Loose h h1 a xs old ys
    → 16 ≤ total old
    → (h' : Heap) × (add_free_chunk h1 (a + total xs) (total old) ≡ some h')
      × Sound h' a (xs ++ (free_of (total old) ∷ ys))
release h h1 a xs old ys l low =
    let bound = total-append xs (old ++ ys) in
    let bound' = total-append old ys in
    let fits = l.sound.fits in
    let (bins, found, count, from, there, keeps) =
      added h1 (a + total xs) (total old) low (omega arith) l.count in
    let h' = record (marked h1 (a + total xs) false (total old)) { bins = bins } in
    let same : (y : ℕ) → (y < a + total xs) ⊎ (a + total xs + total old ≤ y) → SameAt h h' y =
      λ y out.
        let m = marked-SameAt h1 (a + total xs) false (total old) y (omega arith) out in
        let n = l.same y in
        record {
          in_use = m.in_use ∙ n.in_use;
          size = m.size ∙ n.size;
          footer = m.footer ∙ n.footer;
        } in
    let here = marked-IsChunkAt h1 (a + total xs) false (total old) (omega arith) in
    let new = free_of (total old) ∷ [] in
    let start : FreeAt a (xs ++ (new ++ ys)) (a + total xs) =
      FreeAt-right a xs (new ++ ys) (a + total xs) (inl (refl, refl)) in
    (
      h',
      found,
      resound h h' a xs old new ys l.sound (omega arith) same
          (
            record {
              enough = here.enough;
              status = here.status;
              header = here.header;
              footer = here.footer;
            },
            tt,
          )
          l.context (count ∙ l.count)
          (λ i x m. elim (from i x m) [
            | inl (e, small) ↦ inr (inl (refl, e), rw (e, here.header) small)
            | inr m1 ↦ inl (l.listed i x m1)
          ])
          (λ i x out m. keeps i x (l.keeps i x out m))
          (λ x f. elim f [
            | inl (e, at) ↦ let (b, is_bin, m) = there in rw (at, here.header) (b, is_bin, m)
            | inr g ↦ elim g [ ]
          ])
          (λ lt.
            let (at, le, where_) = l.last lt in
            elim where_ [
              | inl out ↦
                  let (f, size) =
                    kept h h' a xs old new ys h1.last_chunk (omega arith) same l.sound.tiles at
                      out in
                  (f, rw size le)
              | inr (e, small) ↦ (
                subst (FreeAt a (xs ++ (new ++ ys))) (sym e) start,
                rw (e, here.header) (omega (arith, ap h.size e)),
              )
            ]),
    )

-- A used chunk between two others.
module _ (h : Heap) (a : ℕ) (xs ys : List Chunk) (c1 c2 : Chunk) (n : ℕ)
    (s : Sound h a (xs ++ (c1 ∷ used_of n ∷ c2 ∷ ys))) where
  -- the heap that counts the chunk as free
  abbrev pub counted : Heap
  counted = record h { free_memory = (h.free_memory + n) % 2 ^ 32 }

  pub alone : Loose h counted a (xs ++ (c1 ∷ [])) (used_of n ∷ []) (c2 ∷ ys)
  alone =
      let sound = subst (Sound h a) (sym (snoc-append xs c1 (used_of n ∷ c2 ∷ ys))) s in
      record {
        sound = sound;
        same = λ x. record { in_use = refl; size = refl; footer = refl };
        context = refl;
        count = s.bin_count;
        listed = λ i x m. (not_free x, m);
        keeps = λ i x out m. m;
        last = λ lt. let (f, le) = sound.last lt in (f, le, inl (not_free h.last_chunk));
      }
    where
      not_free : (x : ℕ) → FreeAt (a + total (xs ++ (c1 ∷ []))) (used_of n ∷ []) x → ⊥
      not_free x (inl (e, here)) = absurd (ground (arith, e))
      not_free x (inr f) = f

  pub with_previous :
      c1.used ≡ false → Loose h (unlink counted (a + total xs)) a xs (c1 ∷ used_of n ∷ []) (c2 ∷ ys)
  with_previous free = record {
    sound = s;
    same = λ x. record { in_use = refl; size = refl; footer = refl };
    context = refl;
    count = length-map h.bins (without (a + total xs)) ∙ s.bin_count;
    listed = λ i x m. let (ne, old) = InBin-unlink (a + total xs) x i h.bins m in (only x ne, old);
    keeps = λ i x out m. InBin-unlink_other (a + total xs) x i h.bins (λ e. out (inl (free, e))) m;
    last = λ lt.
        let (f, le) = s.last lt in
        (
          f,
          le,
          elim (ℕ_discrete h.last_chunk (a + total xs)) [
            | yes e ↦ inr (
              e,
              let k = (Tiles-right h a xs (c1 ∷ used_of n ∷ c2 ∷ ys) s.tiles).0.header in
                  omega arith,
            )
            | no ne ↦ inl (only h.last_chunk ne)
          ],
        );
  }
    where
      only : (x : ℕ) → x ≢ a + total xs → FreeAt (a + total xs) (c1 ∷ used_of n ∷ []) x → ⊥
      only x ne (inl (e, here)) = ne here
      only x ne (inr (inl (e, here))) = absurd (ground (arith, e))
      only x ne (inr (inr f)) = f

-- the heap after the chunk at `next` is taken out of its bin
abbrev pub joined_heap : Heap → ℕ → Heap
joined_heap h next = record (unlink h next) {
  last_chunk_size = if h.last_chunk == next then 0 else h.last_chunk_size;
}

size_kept :
    (last next size : ℕ)
    → 0 < (if last == next then 0 else size)
    → (last ≢ next) × (0 < size) × ((if last == next then 0 else size) ≡ size)
size_kept last next size lt = ground (arith, lt)

pub with_next :
    (h h1 : Heap) (a : ℕ) (xs old ys : List Chunk) (c2 : Chunk)
    → c2.used ≡ false
    → Loose h h1 a xs old (c2 ∷ ys)
    → Loose h (joined_heap h1 (a + total xs + total old)) a xs (old ++ (c2 ∷ [])) ys
with_next h h1 a xs old ys c2 free l = record {
  sound = subst (λ k. Sound h a (xs ++ k)) (sym (snoc-append old c2 ys)) l.sound;
  same = λ x. let k = l.same x in record { in_use = k.in_use; size = k.size; footer = k.footer };
  context = l.context;
  count = length-map h1.bins (without r) ∙ l.count;
  listed = λ i x m.
      let (ne, m1) = InBin-unlink r x i h1.bins m in
      let (out, m0) = l.listed i x m1 in (later x out ne, m0);
  keeps = λ i x out m.
      InBin-unlink_other r x i h1.bins
        (λ e. out (FreeAt-right (a + total xs) old (c2 ∷ []) x (inl (free, e))))
        (l.keeps i x (λ f. out (FreeAt-left (a + total xs) old (c2 ∷ []) x f)) m);
  last = λ lt.
      let (ne, lt1, e) = size_kept h1.last_chunk r h1.last_chunk_size lt in
      let (f, le, where_) = l.last lt1 in
      (
        subst (λ k. FreeAt a (xs ++ k) h1.last_chunk) (sym (snoc-append old c2 ys)) f,
        rw e le,
        elim where_ [
          | inl out ↦ inl (later h1.last_chunk out ne)
          | inr (at, small) ↦ inr (at, omega (arith, total-append old (c2 ∷ [])))
        ],
      );
}
  where
    r : ℕ
    r = a + total xs + total old

    later :
        (x : ℕ)
        → (FreeAt (a + total xs) old x → ⊥)
        → x ≢ a + total xs + total old
        → FreeAt (a + total xs) (old ++ (c2 ∷ [])) x
        → ⊥
    later x out ne f = elim (FreeAt-cases (a + total xs) old (c2 ∷ []) x f) [
      | inl g ↦ out g
      | inr g ↦ elim g [ inl (e, here) ↦ ne here | inr k ↦ k ]
    ]
