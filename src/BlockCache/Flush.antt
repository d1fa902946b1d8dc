-- ===== src/BlockCache/Flush.antt =====
-- Releasing and flushing chunks, and the disk that the cache shows.
use arqvenger_os.Base.{
  ℕ, zero, suc, ◌+◌, ◌-◌, ◌≡◌, refl, sym, ap, ◌∙◌, inl, inr, Bool, true, false, Option, none, some,
  List, [], ◌∷◌, Bool-cases, Option-cases, eq_of_some, ◌==◌, ltb,
}
use mathlib.Core.List.{reverse}
use mathlib.Core.Option
use arqvenger_os.BlockCache.{
  Disk, Chunk, Cache, update, modify, mark_access, write_page, flush_chunk, release_chunk,
  may_release, try_release, evict_from, evict, sync_chunk, sync_from, must_flush, cache_sync,
  cache_evict, cache_init, cache_list_remove,
}
use arqvenger_os.BlockCache.View.{
  Shows, Carried-none, Carried-some, flushed, kept, update_self, update_other,
}

-- `release_chunk` changes nothing of the disk that the cache shows.
pub release_chunk-Shows :
    (c : Cache) (v : Disk) (i : ℕ) (entry : Chunk)
    → Shows c v
    → c.table i ≡ some entry
    → Shows (release_chunk c i entry) v
unfolding release_chunk flush_chunk
release_chunk-Shows c v i entry s e =
    let c' = release_chunk c i entry in
    let from = Carried-none c c' i refl in
    elim (Bool-cases entry.dirty) [
      | inl dirty ↦
          flushed c v i entry c' s e from (λ j ne. update_other c.table i j none ne) (rw dirty)
      | inr clean ↦
          kept c c' v i s from (λ j ne. update_other c.table i j none ne)
            (λ ch f dirty. let same : entry ≡ ch = eq_of_some (sym e ∙ f) in absurd (cc)) (rw clean)
    ]

-- A write through the pointer to a chunk that leaves its page and `dirty` alone.
pub modify-Shows :
    (c : Cache) (v : Disk) (i : ℕ) (f : Chunk → Chunk) (l : List ℕ)
    → Shows c v
    → ((ch : Chunk)
        → ((f ch).dirty ≡ ch.dirty)
          × ((f ch).initial_sector ≡ ch.initial_sector)
          × ((k : ℕ) → (f ch).buffer k ≡ ch.buffer k))
    → Shows (record (modify c i f) { list = l }) v
modify-Shows c v i f l s keeps = elim (Option-cases (c.table i)) [
  | inl free ↦
      let c' = record (modify c i f) { list = l } in
      kept c c' v i s (Carried-none c c' i (ap (λ o. update c.table i (Option.map f o)) free))
        (λ j ne. update_other c.table i j (Option.map f (c.table i)) ne) (λ ch e d. absurd (cc))
        refl
  | inr (entry, e) ↦
      let c' = record (modify c i f) { list = l } in
      let now : c'.table ≡ update c.table i (some (f entry)) =
        ap (λ o. update c.table i (Option.map f o)) e in
      kept c c' v i s (Carried-some c c' i entry (f entry) now e (keeps entry).1 (keeps entry).2)
        (λ j ne. update_other c.table i j (Option.map f (c.table i)) ne)
        (λ ch e' d.
          let same : entry ≡ ch = eq_of_some (sym e ∙ e') in
          (
            f ch,
            update_self c.table i (Option.map f (c.table i)) ∙ ap (Option.map f) e',
            (keeps ch).0 ∙ d,
            (keeps ch).1,
          ))
        refl
]

pub mark_access-Shows :
    (now : ℕ) (c : Cache) (v : Disk) (i : ℕ) → Shows c v → Shows (mark_access now c i) v
unfolding mark_access
mark_access-Shows now c v i s =
    modify-Shows c v i (λ ch. record ch { accesses = ch.accesses + 1; last_access_time = now })
      (i ∷ cache_list_remove c.list i) s (λ ch. (refl, refl, λ k. refl))

evict_from-Shows :
    (now : ℕ) (force : Bool) (c : Cache) (v : Disk) (l : List ℕ)
    → Shows c v
    → Shows (evict_from now force c l).1 v
unfolding evict_from try_release
evict_from-Shows now force c v [] s = s
evict_from-Shows now force c v (i ∷ l) s = elim (Option-cases (c.table i)) [
  | inl free ↦ rw free (evict_from-Shows now force c v l s)
  | inr (entry, e) ↦ elim (Bool-cases (may_release now force entry)) [
    | inl go ↦ rw (e, go) (release_chunk-Shows c v i entry s e)
    | inr stay ↦ rw (e, stay) (evict_from-Shows now force c v l s)
  ]
]

pub evict-Shows :
    (now : ℕ) (c : Cache) (v : Disk) (min : ℕ) (force : Bool)
    → Shows c v
    → Shows (evict now c min force).1 v
unfolding evict
evict-Shows now c v min force s = elim (Bool-cases (min == 0)) [
  | inl none_wanted ↦ rw none_wanted s
  | inr wanted ↦ rw wanted (evict_from-Shows now force c v (reverse c.list) s)
]

sync_chunk-Shows :
    (now : ℕ) (force : Bool) (c : Cache) (v : Disk) (i : ℕ) (o : Option Chunk)
    → c.table i ≡ o
    → Shows c v
    → Shows (sync_chunk now force c i o) v
unfolding sync_chunk
sync_chunk-Shows now force c v i none e s = s
sync_chunk-Shows now force c v i (some entry) e s = elim (Bool-cases (must_flush now force entry)) [
  | inl go ↦
      let clean = record entry { dirty = false } in
      let c' = record c {
        table = update c.table i (some clean);
        disk = write_page c.disk entry.initial_sector entry.buffer;
      } in
      rw go (
        flushed c v i entry c' s e (Carried-some c c' i entry clean refl e refl (λ k. refl))
          (λ j ne. update_other c.table i j (some clean) ne) refl)
  | inr stay ↦ rw stay s
]

sync_from-Shows :
    (now : ℕ) (force : Bool) (n : ℕ) (c : Cache) (v : Disk) (i : ℕ)
    → Shows c v
    → Shows (sync_from now force n c i) v
unfolding sync_from
sync_from-Shows now force zero c v i s = s
sync_from-Shows now force (suc n) c v i s =
    sync_from-Shows now force n (sync_chunk now force c i (c.table i)) v (i + 1)
      (sync_chunk-Shows now force c v i (c.table i) refl s)

-- `cache_sync` changes nothing of the disk that the cache shows.
pub cache_sync-Shows :
    (now : ℕ) (c : Cache) (v : Disk) (force : Bool) → Shows c v → Shows (cache_sync now c force) v
unfolding cache_sync
cache_sync-Shows now c v force s = sync_from-Shows now force 8 c v 0 s

-- `cache_evict` changes nothing of the disk that the cache shows.
pub cache_evict-Shows :
    (now : ℕ) (c : Cache) (v : Disk) (min : ℕ) → Shows c v → Shows (cache_evict now c min).1 v
unfolding cache_evict
cache_evict-Shows now c v min s =
    let first = evict now c min false in
    let s1 = evict-Shows now c v min false s in
    let synced = cache_sync now first.1 true in
    let s2 =
      evict-Shows now synced v (min - first.0) false (cache_sync-Shows now first.1 v true s1) in
    let second = evict now synced (min - first.0) false in
    let s3 = evict-Shows now second.1 v (min - (first.0 + second.0)) true s2 in
    elim (Bool-cases (ltb first.0 min)) [
      | inl more ↦ elim (Bool-cases (ltb (first.0 + second.0) min)) [
        | inl still ↦ rw (more, still) s3
        | inr enough ↦ rw (more, enough) s2
      ]
      | inr enough ↦ rw enough s1
    ]

pub cache_init-Shows : (disk : Disk) → Shows (cache_init disk) disk
unfolding cache_init
cache_init-Shows disk = record {
  cached = λ i ch k e lt. absurd (cc);
  stored = λ x away. refl;
  aligned = λ i ch e. absurd (cc);
  unique = λ i j a b e f same. absurd (cc);
  within = λ i ch e. absurd (cc);
}
