-- ===== src/BlockCache/Lru.antt =====
-- The list of the chunks and the slots of the table.
use arqvenger_os.Base.{
  ℕ, zero, suc, ◌+◌, ◌-◌, ◌<◌, ◌≡◌, ◌≢◌, refl, sym, subst, ap, ◌∙◌, ◌⊎◌, inl, inr, Bool, true,
  false, Option, none, some, List, [], ◌∷◌, arith, Bool-cases, Option-cases, ◌==◌, ==_iff,
  if◌then◌else◌, ℕ_discrete,
}
use mathlib.Core.List.{reverse}
use arqvenger_os.BlockCache.{
  Disk, Chunk, Cache, release_chunk, may_release, try_release, evict_from, evict, sync_chunk,
  sync_from, must_flush, cache_sync, cache_init, cache_list_remove,
}

-- how often an index stands in the list
unfoldable pub occurrences : ℕ → List ℕ → ℕ
occurrences i [] = 0
occurrences i (j ∷ l) = let rest = occurrences i l in if j == i then suc rest else rest

abbrev pub occupied : Option Chunk → ℕ
occupied none = 0
occupied (some ch) = 1

-- The list has each chunk of the table once, and nothing else.
abbrev pub IsLinked : Cache → Type 0
IsLinked c = (i : ℕ) → occurrences i c.list ≡ occupied (c.table i)

pub occurrences-remove :
    (l : List ℕ) (i j : ℕ)
    → occurrences j (cache_list_remove l i)
      ≡ (if i == j then occurrences j l - 1 else occurrences j l)
unfolding occurrences cache_list_remove
occurrences-remove [] i j = ground arith
occurrences-remove (k ∷ l) i j = ground (arith, occurrences-remove l i j)

pub release_chunk-IsLinked :
    (c : Cache) (i : ℕ) (entry : Chunk)
    → c.table i ≡ some entry
    → IsLinked c
    → IsLinked (release_chunk c i entry)
unfolding release_chunk
release_chunk-IsLinked c i entry e h j =
    let old = h j in
    occurrences-remove c.list i j ∙ elim (ℕ_discrete j i) [
      | yes p ↦
          let hit : (j == i) ≡ true = (==_iff j i).1 p in
          let hit' : (i == j) ≡ true = (==_iff i j).1 (sym p) in
          let one : occurrences j c.list ≡ 1 =
            h j ∙ ap (λ k. occupied (c.table k)) p ∙ ap occupied e in
          rw (hit, hit') (omega (arith, one))
      | no p ↦
          let miss : (j == i) ≡ false = ground arith in
          let miss' : (i == j) ≡ false = ground arith in rw (miss, miss') old
    ]

-- What `evict` comes to: nothing, or the release of one chunk.
abbrev pub Evicted : Cache → ℕ × Cache → Type 0
Evicted c (n, c') =
    ((n ≡ 0) × (c' ≡ c))
    ⊎ ((i : ℕ) × (entry : Chunk) × (n ≡ 1)
        × (c.table i ≡ some entry)
        × (c' ≡ release_chunk c i entry))

evict_from-Evicted :
    (now : ℕ) (force : Bool) (c : Cache) (l : List ℕ) → Evicted c (evict_from now force c l)
unfolding evict_from try_release
evict_from-Evicted now force c [] = inl (refl, refl)
evict_from-Evicted now force c (i ∷ l) = elim (Option-cases (c.table i)) [
  | inl free ↦ rw free (evict_from-Evicted now force c l)
  | inr (entry, e) ↦ elim (Bool-cases (may_release now force entry)) [
    | inl go ↦ subst (Evicted c) (sym (pick i l entry e go)) (inr (i, entry, refl, e, refl))
    | inr stay ↦ subst (Evicted c) (sym (skip i l entry e stay)) (evict_from-Evicted now force c l)
  ]
]
  where
    pick :
        (i : ℕ) (l : List ℕ) (entry : Chunk)
        → c.table i ≡ some entry
        → may_release now force entry ≡ true
        → evict_from now force c (i ∷ l) ≡ (1, release_chunk c i entry)
    pick i l entry e go = rw (e, go)

    skip :
        (i : ℕ) (l : List ℕ) (entry : Chunk)
        → c.table i ≡ some entry
        → may_release now force entry ≡ false
        → evict_from now force c (i ∷ l) ≡ evict_from now force c l
    skip i l entry e stay = rw (e, stay)

pub evict-Evicted :
    (now : ℕ) (c : Cache) (min : ℕ) (force : Bool) → Evicted c (evict now c min force)
unfolding evict
evict-Evicted now c min force = elim (Bool-cases (min == 0)) [
  | inl none_wanted ↦ rw none_wanted (inl (refl, refl))
  | inr wanted ↦ rw wanted (evict_from-Evicted now force c (reverse c.list))
]

pub Evicted-IsLinked : (c : Cache) (out : ℕ × Cache) → Evicted c out → IsLinked c → IsLinked out.1
Evicted-IsLinked c (n, c') (inl (e, same)) h = subst IsLinked (sym same) h
Evicted-IsLinked c (n, c') (inr (i, entry, e, there, is)) h =
    subst IsLinked (sym is) (release_chunk-IsLinked c i entry there h)

-- `cache_sync` with force leaves no dirty chunk, and every slot as full as it was.
occupied-sync_chunk :
    (now : ℕ) (force : Bool) (c : Cache) (i j : ℕ) (o : Option Chunk)
    → c.table i ≡ o
    → occupied ((sync_chunk now force c i o).table j) ≡ occupied (c.table j)
unfolding sync_chunk
occupied-sync_chunk now force c i j none e = refl
occupied-sync_chunk now force c i j (some entry) e =
    elim (Bool-cases (must_flush now force entry)) [
      | inl go ↦ elim (ℕ_discrete j i) [
        | yes p ↦
            let hit : (j == i) ≡ true = (==_iff j i).1 p in
            let there : c.table j ≡ some entry = ap c.table p ∙ e in rw (go, hit, there)
        | no p ↦ let miss : (j == i) ≡ false = ground arith in rw (go, miss)
      ]
      | inr stay ↦ rw stay
    ]

list-sync_chunk :
    (now : ℕ) (force : Bool) (c : Cache) (i : ℕ) (o : Option Chunk)
    → (sync_chunk now force c i o).list ≡ c.list
unfolding sync_chunk
list-sync_chunk now force c i none = refl
list-sync_chunk now force c i (some entry) = ground arith

sync_from-IsLinked :
    (now : ℕ) (force : Bool) (n : ℕ) (c : Cache) (i : ℕ)
    → IsLinked c
    → IsLinked (sync_from now force n c i) × ((sync_from now force n c i).list ≡ c.list)
unfolding sync_from
sync_from-IsLinked now force zero c i h = (h, refl)
sync_from-IsLinked now force (suc n) c i h =
    let c1 = sync_chunk now force c i (c.table i) in
    let same = list-sync_chunk now force c i (c.table i) in
    let (linked, list) = sync_from-IsLinked now force n c1 (i + 1) (λ j.
      ap (occurrences j) same ∙ h j ∙ sym (occupied-sync_chunk now force c i j (c.table i) refl)) in
    (linked, list ∙ same)

abbrev pub IsClean : Option Chunk → Type 0
IsClean none = Unit
IsClean (some ch) = ch.dirty ≡ false

synced-IsClean :
    (now : ℕ) (c : Cache) (i : ℕ) (o : Option Chunk)
    → c.table i ≡ o
    → IsClean ((sync_chunk now true c i o).table i)
unfolding sync_chunk
synced-IsClean now c i none e = rw e tt
synced-IsClean now c i (some entry) e = elim (Bool-cases entry.dirty) [
  | inl dirty ↦ let hit : (i == i) ≡ true = ground arith in rw (dirty, hit) refl
  | inr clean ↦ rw (clean, e) clean
]

synced_other :
    (now : ℕ) (force : Bool) (c : Cache) (i j : ℕ) (o : Option Chunk)
    → j ≢ i
    → (sync_chunk now force c i o).table j ≡ c.table j
unfolding sync_chunk
synced_other now force c i j none ne = refl
synced_other now force c i j (some entry) ne = elim (Bool-cases (must_flush now force entry)) [
  | inl go ↦ let miss : (j == i) ≡ false = ground arith in rw (go, miss)
  | inr stay ↦ rw stay
]

sync_from-IsClean :
    (now : ℕ) (n : ℕ) (c : Cache) (i j : ℕ)
    → (j < i → IsClean (c.table j))
    → j < i + n
    → IsClean ((sync_from now true n c i).table j)
unfolding sync_from
sync_from-IsClean now zero c i j before h = before (omega arith)
sync_from-IsClean now (suc n) c i j before h =
    sync_from-IsClean now n (sync_chunk now true c i (c.table i)) (i + 1) j
      (λ le. elim (ℕ_discrete j i) [
        | yes p ↦
            subst (λ k. IsClean ((sync_chunk now true c i (c.table i)).table k)) (sym p)
              (synced-IsClean now c i (c.table i) refl)
        | no p ↦
            subst IsClean (sym (synced_other now true c i j (c.table i) p)) (before (omega arith))
      ])
      (omega arith)

pub cache_sync-IsLinked :
    (now : ℕ) (c : Cache) (force : Bool) → IsLinked c → IsLinked (cache_sync now c force)
unfolding cache_sync
cache_sync-IsLinked now c force h = (sync_from-IsLinked now force 8 c 0 h).0

pub list-cache_sync :
    (now : ℕ) (c : Cache) (force : Bool) → IsLinked c → (cache_sync now c force).list ≡ c.list
unfolding cache_sync
list-cache_sync now c force h = (sync_from-IsLinked now force 8 c 0 h).1

pub cache_sync-IsClean :
    (now : ℕ) (c : Cache) (j : ℕ) → j < 8 → IsClean ((cache_sync now c true).table j)
unfolding cache_sync
cache_sync-IsClean now c j h = sync_from-IsClean now 8 c 0 j (λ no. absurd (omega arith)) h

pub cache_init-IsLinked : (disk : Disk) → IsLinked (cache_init disk)
unfolding cache_init occurrences
cache_init-IsLinked disk i = refl
