-- ===== src/BlockCache/Find.antt =====
-- `find_chunk` and what it leaves of the cache.
use arqvenger_os.Base.{
  ℕ, zero, suc, ◌+◌, ◌-◌, ◌*◌, ◌%◌, ◌^◌, ◌<◌, ◌≡◌, ◌≢◌, refl, sym, subst, ap, ◌∙◌, inl, inr, Bool,
  true, false, Option, none, some, ◌∷◌, arith, Bool-cases, Option-cases, eq_of_some, ◌==◌, ==_iff,
  ltb, ℕ_discrete,
}
use arqvenger_os.BlockCache.{
  Disk, Chunk, Cache, update, release_chunk, read_page, evict, sync_chunk, sync_from, must_flush,
  cache_sync, cache_evict, Search, found, missing, search_from, load_chunk, find_or_load,
  find_chunk,
}
use arqvenger_os.BlockCache.View.{
  Shows, Carried, Carried-none, Carried-some, at_update, update_self, update_other,
}
use arqvenger_os.BlockCache.Flush.{cache_evict-Shows}
use arqvenger_os.BlockCache.Lru.{occurrences, occupied, IsLinked, Evicted, evict-Evicted}
use arqvenger_os.BlockCache.Room.{cache_evict-Freed}
use arqvenger_os.BlockCache.Lookup.{Searched, search_from-Searched, first_free-some}

Carried-refl : (c : Cache) → Carried c c
Carried-refl c = record { old = λ j ch e. (ch, e, refl, λ k. refl) }

Carried-trans : (a b c : Cache) → Carried a b → Carried b c → Carried a c
Carried-trans a b c f g = record {
  old = λ j ch e.
      let (ch1, e1, first1, same1) = g.old j ch e in
      let (ch0, e0, first0, same0) = f.old j ch1 e1 in
      (ch0, e0, first1 ∙ first0, λ k. same1 k ∙ same0 k);
}

Evicted-Carried : (c : Cache) (out : ℕ × Cache) → Evicted c out → Carried c out.1
unfolding release_chunk
Evicted-Carried c (n, c') (inl (e, same)) = subst (Carried c) (sym same) (Carried-refl c)
Evicted-Carried c (n, c') (inr (i, entry, e, there, is)) =
    Carried-none c c' i (ap (λ (d : Cache). d.table) is)

sync_chunk-Carried :
    (now : ℕ) (force : Bool) (c : Cache) (i : ℕ) (o : Option Chunk)
    → c.table i ≡ o
    → Carried c (sync_chunk now force c i o)
unfolding sync_chunk
sync_chunk-Carried now force c i none e = Carried-refl c
sync_chunk-Carried now force c i (some entry) e = elim (Bool-cases (must_flush now force entry)) [
  | inl go ↦
      rw go (Carried-some c _ i entry (record entry { dirty = false }) refl e refl (λ k. refl))
  | inr stay ↦ rw stay (Carried-refl c)
]

sync_from-Carried :
    (now : ℕ) (force : Bool) (n : ℕ) (c : Cache) (i : ℕ) → Carried c (sync_from now force n c i)
unfolding sync_from
sync_from-Carried now force zero c i = Carried-refl c
sync_from-Carried now force (suc n) c i =
    let c1 = sync_chunk now force c i (c.table i) in
    Carried-trans c c1 (sync_from now force n c1 (i + 1))
      (sync_chunk-Carried now force c i (c.table i) refl) (sync_from-Carried now force n c1 (i + 1))

cache_evict-Carried : (now : ℕ) (c : Cache) (min : ℕ) → Carried c (cache_evict now c min).1
unfolding cache_evict cache_sync
cache_evict-Carried now c min =
    let first = evict now c min false in
    let synced = cache_sync now first.1 true in
    let second = evict now synced (min - first.0) false in
    let third = evict now second.1 (min - (first.0 + second.0)) true in
    let f1 = Evicted-Carried c first (evict-Evicted now c min false) in
    let f2 = Carried-trans c first.1 synced f1 (sync_from-Carried now true 8 first.1 0) in
    let f3 =
      Carried-trans c synced second.1 f2
        (Evicted-Carried synced second (evict-Evicted now synced (min - first.0) false)) in
    let f4 = Carried-trans c second.1 third.1 f3 (
      Evicted-Carried second.1 third
        (evict-Evicted now second.1 (min - (first.0 + second.0)) true)) in
    elim (Bool-cases (ltb first.0 min)) [
      | inl more ↦ elim (Bool-cases (ltb (first.0 + second.0) min)) [
        | inl still ↦ rw (more, still) f4
        | inr enough ↦ rw (more, enough) f3
      ]
      | inr enough ↦ rw enough f1
    ]

-- The cache is sound, and the page of `sector` is in the slot that `find_chunk` returns.
abbrev pub Loaded : Disk → ℕ → Option ℕ × Cache → Type 0
Loaded v sector (o, c) =
    (i : ℕ) × (ch : Chunk) × (o ≡ some i)
    × Shows c v
    × IsLinked c
    × (c.table i ≡ some ch)
    × (ch.initial_sector ≡ sector)

abbrev Away : Cache → ℕ → Type 0
Away c sector = (j : ℕ) (ch : Chunk) → c.table j ≡ some ch → ch.initial_sector ≢ sector

load_chunk-Loaded :
    (now : ℕ) (c : Cache) (v : Disk) (sector k : ℕ)
    → Shows c v
    → IsLinked c
    → Away c sector
    → sector % 8 ≡ 0
    → k < 8
    → c.table k ≡ none
    → Loaded v sector (load_chunk now c sector (some k))
unfolding load_chunk occurrences
load_chunk-Loaded now c v sector k s h away a small free =
    let entry : Chunk = record {
      initial_sector = sector;
      buffer = read_page c.disk sector;
      dirty = false;
      accesses = 0;
      first_write_time = 0;
      last_access_time = now;
    } in
    let c1 : Cache = record c { table = update c.table k (some entry); list = k ∷ c.list } in
    (
      k,
      entry,
      refl,
      record {
        cached = λ j ch n e lt. elim (at_update c.table k j (some entry) e) [
          | inl p ↦
              ap (λ (b : Chunk). b.buffer n) (sym (eq_of_some p.1))
              ∙ s.stored (sector + n)
                  (λ j' ch' e' dirty' same. away j' ch' e' (same ∙ omega (arith, a, lt)))
              ∙ ap (λ (b : Chunk). v (b.initial_sector + n)) (eq_of_some p.1)
          | inr (ne, e') ↦ s.cached j ch n e' lt
        ];
        stored = λ x away_from. s.stored x (λ j ch e dirty.
            away_from j ch
              (elim (ℕ_discrete j k) [
                | yes p ↦ absurd (none_some (sym free ∙ ap c.table (sym p) ∙ e))
                | no p ↦ update_other c.table k j (some entry) p ∙ e
              ])
              dirty);
        aligned = λ j ch e. elim (at_update c.table k j (some entry) e) [
          | inl p ↦ ap (λ (b : Chunk). b.initial_sector % 8) (sym (eq_of_some p.1)) ∙ a
          | inr (ne, e') ↦ s.aligned j ch e'
        ];
        unique = λ j j' x y e f same. elim (at_update c.table k j (some entry) e) [
          | inl p ↦ elim (at_update c.table k j' (some entry) f) [
            | inl q ↦ p.0 ∙ sym q.0
            | inr (ne, f') ↦ absurd (
                away j' y f'
                  (sym same ∙ ap (λ (b : Chunk). b.initial_sector) (sym (eq_of_some p.1))))
          ]
          | inr (ne, e') ↦ elim (at_update c.table k j' (some entry) f) [
            | inl q ↦
                absurd
                  (away j x e' (same ∙ ap (λ (b : Chunk). b.initial_sector) (sym (eq_of_some q.1))))
            | inr (ne', f') ↦ s.unique j j' x y e' f' same
          ]
        ];
        within = λ j ch e. elim (at_update c.table k j (some entry) e) [
          | inl p ↦ omega (arith, p.0, small)
          | inr (ne, e') ↦ s.within j ch e'
        ];
      },
      (λ j. elim (ℕ_discrete k j) [
        | yes p ↦
            let hit : (k == j) ≡ true = (==_iff k j).1 p in
            let hit' : (j == k) ≡ true = (==_iff j k).1 (sym p) in
            rw (hit, hit')
              (ap suc (h j ∙ ap (λ i. occupied (c.table i)) (sym p) ∙ ap occupied free))
        | no p ↦
            let miss : (k == j) ≡ false = ground arith in
            let miss' : (j == k) ≡ false = ground arith in rw (miss, miss') (h j)
      ]),
      update_self c.table k (some entry),
      refl,
    )
  where
    none_some : {ch : Chunk} → none ≢ some ch
    none_some p = cc

-- On a sound cache that the list of chunks matches, `find_chunk` of a page whose first sector is
-- below 2 ^ 32 does not take its error return: its result has that page, the cache stays sound,
-- shows the same disk, and the list matches it.
pub find_chunk-Loaded :
    (now : ℕ) (c : Cache) (v : Disk) (index : ℕ)
    → Shows c v
    → IsLinked c
    → index * 8 < 2 ^ 32
    → Loaded v (index * 8) (find_chunk now c index)
unfolding find_chunk find_or_load
find_chunk-Loaded now c v index s h small =
    let same : index * 8 % 2 ^ 32 ≡ index * 8 = omega (arith, small) in
    rw same (
      of_search now c v (index * 8) (search_from c.table (index * 8) 8 0 none) s h (omega arith)
        (search_from-Searched c.table (index * 8) 8 0 none))
  where
    of_search :
        (now : ℕ) (c : Cache) (v : Disk) (sector : ℕ) (r : Search)
        → Shows c v
        → IsLinked c
        → sector % 8 ≡ 0
        → Searched c.table sector 8 0 none r
        → Loaded v sector (find_or_load now c sector r)
    of_search now c v sector (found i) s h a (ch, e, first) = (i, ch, refl, s, h, e, first)
    of_search now c v sector (missing (some k)) s h a (away, filled, full) = elim (filled k refl) [
      | inl before ↦ absurd (cc)
      | inr (le, lt, free) ↦
          load_chunk-Loaded now c v sector k s h
            (λ j ch e. away j ch (omega arith) (s.within j ch e) e) a lt free
    ]
    of_search now c v sector (missing none) s h a (away, filled, full) =
        elim (Option-cases (c.table 0)) [
          | inl free ↦ absurd (full refl 0 (omega arith) (omega arith) free)
          | inr (ch0, e0) ↦
              let out = cache_evict now c 1 in
              let (one, linked, (k, lt, free)) = cache_evict-Freed now c v 0 ch0 s h e0 in
              let shown = cache_evict-Shows now c v 1 s in
              let carried = cache_evict-Carried now c 1 in
              let (j, is, small, free_j) =
                first_free-some out.1.table 8 0 k (omega arith) lt free in
              let enough : ltb out.0 1 ≡ false = ground (arith, one) in
              rw (enough, is)
                (load_chunk-Loaded now out.1 v sector j shown linked
                  (λ i ch e same.
                    let (ch', e', first, bytes) = carried.old i ch e in
                    away i ch' (omega arith) (s.within i ch' e') e' (sym first ∙ same))
                  a small free_j)
        ]
