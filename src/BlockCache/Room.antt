-- ===== src/BlockCache/Room.antt =====
-- Eviction and the free slots of the table.
use arqvenger_os.Base.{
  ℕ, ◌+◌, ◌-◌, ◌≤◌, ◌<◌, ◌≡◌, sym, subst, ap, ◌∙◌, ◌⊎◌, inl, inr, true, false, ◌||◌, none, some,
  List, [], ◌∷◌, arith, Bool-cases, Option-cases, ◌==◌, ltb, ℕ_discrete,
}
use mathlib.Core.List.{reverse, reverse_aux}
use arqvenger_os.BlockCache.{
  Disk, Chunk, Cache, release_chunk, may_release, try_release, evict_from, evict, cache_sync,
  cache_evict,
}
use arqvenger_os.BlockCache.View.{Shows, update_self}
use arqvenger_os.BlockCache.Flush.{evict-Shows, cache_sync-Shows}
use arqvenger_os.BlockCache.Lru.{
  occurrences, occupied, IsLinked, IsClean, Evicted, evict-Evicted, Evicted-IsLinked,
  cache_sync-IsLinked, list-cache_sync, cache_sync-IsClean,
}

occurrences-reverse_aux :
    (l acc : List ℕ) (i : ℕ)
    → occurrences i (reverse_aux l acc) ≡ occurrences i l + occurrences i acc
unfolding occurrences
occurrences-reverse_aux [] acc i = omega arith
occurrences-reverse_aux (j ∷ l) acc i = occurrences-reverse_aux l (j ∷ acc) i ∙ ground arith

occurrences-reverse : (l : List ℕ) (i : ℕ) → occurrences i (reverse l) ≡ occurrences i l
unfolding occurrences
occurrences-reverse l i = omega (arith, occurrences-reverse_aux l [] i)

-- With force, the first clean chunk in the way is released.
any_released :
    (now : ℕ) (c : Cache) (l : List ℕ) (j : ℕ) (entry : Chunk)
    → 1 ≤ occurrences j l
    → c.table j ≡ some entry
    → entry.dirty ≡ false
    → (evict_from now true c l).0 ≡ 1
unfolding occurrences evict_from try_release may_release
any_released now c [] j entry h e clean = absurd (omega (arith, h))
any_released now c (i ∷ l) j entry h e clean = elim (ℕ_discrete i j) [
  | yes p ↦
      let any : (ltb entry.last_access_time now || true) ≡ true = ground arith in
      let there : c.table i ≡ some entry = ap c.table p ∙ e in rw (there, clean, any)
  | no p ↦
      let miss : (i == j) ≡ false = ground arith in
      let h' : 1 ≤ occurrences j l = ground (arith, h, miss) in
      elim (Option-cases (c.table i)) [
        | inl free ↦ rw free (any_released now c l j entry h' e clean)
        | inr (other, e') ↦ elim (Bool-cases (may_release now true other)) [
          | inl go ↦ rw (e', go)
          | inr stay ↦ rw (e', stay) (any_released now c l j entry h' e clean)
        ]
      ]
]

-- Something was released, and there is a free slot.
abbrev pub Freed : ℕ × Cache → Type 0
Freed (n, c) = (n ≡ 1) × IsLinked c × ((i : ℕ) × (i < 8) × (c.table i ≡ none))

Evicted-cases :
    (c : Cache) (v : Disk) (out : ℕ × Cache)
    → Shows c v
    → IsLinked c
    → Evicted c out
    → ((out.0 ≡ 0) × (out.1 ≡ c)) ⊎ Freed out
unfolding release_chunk
Evicted-cases c v (n, c') s h (inl same) = inl same
Evicted-cases c v (n, c') s h (inr (i, entry, one, e, is)) = inr (
  one,
  Evicted-IsLinked c (n, c') (inr (i, entry, one, e, is)) h,
  (i, s.within i entry e, ap (λ (d : Cache). d.table i) is ∙ update_self c.table i none),
)

-- The third pass of `cache_evict` finds a clean chunk when all are.
forced :
    (now : ℕ) (c : Cache) (min i : ℕ)
    → ((j : ℕ) → j < 8 → IsClean (c.table j))
    → IsLinked c
    → i < 8
    → occupied (c.table i) ≡ 1
    → (min == 0) ≡ false
    → (evict now c min true).0 ≡ 1
unfolding evict
forced now c min i clean h small full wanted = elim (Option-cases (c.table i)) [
  | inl free ↦ absurd (omega (arith, sym full ∙ ap occupied free))
  | inr (entry, e) ↦
      let one : 1 ≤ occurrences i (reverse c.list) =
        omega (arith, occurrences-reverse c.list i ∙ h i ∙ full) in
      rw wanted
        (any_released now c (reverse c.list) i entry one e (subst IsClean e (clean i small)))
]

-- On a sound cache that holds a chunk and that the list of chunks matches, `cache_evict(1)`
-- releases one chunk: a slot of the table is free then, and the list matches the table.
pub cache_evict-Freed :
    (now : ℕ) (c : Cache) (v : Disk) (i : ℕ) (entry : Chunk)
    → Shows c v
    → IsLinked c
    → c.table i ≡ some entry
    → Freed (cache_evict now c 1)
unfolding cache_evict
cache_evict-Freed now c v i entry s h e =
    let first = evict now c 1 false in
    let synced = cache_sync now first.1 true in
    let second = evict now synced (1 - first.0) false in
    let third = evict now second.1 (1 - (first.0 + second.0)) true in
    let s1 : Shows synced v = cache_sync-Shows now first.1 v true (evict-Shows now c v 1 false s) in
    let h0 : IsLinked first.1 = Evicted-IsLinked c first (evict-Evicted now c 1 false) h in
    let h1 : IsLinked synced = cache_sync-IsLinked now first.1 true h0 in
    elim (Evicted-cases c v first s h (evict-Evicted now c 1 false)) [
      | inr freed ↦ let enough : ltb first.0 1 ≡ false = ground (arith, freed.0) in rw enough freed
      | inl (none1, same1) ↦
          let more : ltb first.0 1 ≡ true = ground (arith, none1) in
          elim (Evicted-cases synced v second s1 h1
            (evict-Evicted now synced (1 - first.0) false)) [
              | inr freed ↦
                  let enough : ltb (first.0 + second.0) 1 ≡ false = ground (arith, freed.0) in
                  let one : first.0 + second.0 ≡ 1 = omega (arith, none1, freed.0) in
                  rw (more, enough) (one, freed.1, freed.2)
              | inl (none2, same2) ↦
                  let still : ltb (first.0 + second.0) 1 ≡ true = ground (arith, none1, none2) in
                  let wanted : ((1 - (first.0 + second.0)) == 0) ≡ false =
                    ground (arith, none1, none2) in
                  let full : occupied (second.1.table i) ≡ 1 =
                    ap (λ (d : Cache). occupied (d.table i)) same2
                    ∙ sym (h1 i)
                    ∙ ap (occurrences i) (list-cache_sync now first.1 true h0)
                    ∙ ap (λ (d : Cache). occurrences i d.list) same1
                    ∙ h i
                    ∙ ap occupied e in
                  let all_clean : (j : ℕ) → j < 8 → IsClean (second.1.table j) = λ j small.
                    subst (λ (d : Cache). IsClean (d.table j)) (sym same2)
                      (cache_sync-IsClean now first.1 j small) in
                  let h2 = subst IsLinked (sym same2) h1 in
                  let s2 = subst (λ (d : Cache). Shows d v) (sym same2) s1 in
                  let some_released : third.0 ≡ 1 =
                    forced now second.1 (1 - (first.0 + second.0)) i all_clean h2
                      (s.within i entry e) full wanted in
                  elim (Evicted-cases second.1 v third s2 h2
                    (evict-Evicted now second.1 (1 - (first.0 + second.0)) true)) [
                      | inr freed ↦
                          let one : first.0 + second.0 + third.0 ≡ 1 =
                            omega (arith, none1, none2, some_released) in
                          rw (more, still) (one, freed.1, freed.2)
                      | inl (none3, same3) ↦ absurd (omega (arith, some_released, none3))
                    ]
            ]
    ]
