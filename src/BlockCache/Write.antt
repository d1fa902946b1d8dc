-- ===== src/BlockCache/Write.antt =====
-- `cache_write` and the disk that the cache shows, and what `cache_read` and `cache_sync` do behind it.
use arqvenger_os.Base.{
  ℕ, zero, suc, ◌+◌, ◌-◌, ◌*◌, ◌/◌, ◌^◌, ◌≤◌, ◌<◌, ◌≡◌, ◌≢◌, refl, sym, subst, ap, ◌∙◌, Bool, true,
  false, not, ◌&&◌, Option, none, some, arith, eq_of_some, ◌==◌, ==_iff, leb, ltb, if◌then◌else◌,
  ℕ_discrete,
}
use mathlib.Core.Option
use arqvenger_os.BlockCache.{
  Sector, Disk, Chunk, Cache, update, modify, mark_access, find_chunk, copy_in, copy_out, part_of,
  write_chunk, write_found, write_from, cache_write, cache_read, cache_sync,
}
use arqvenger_os.BlockCache.View.{Shows}
use arqvenger_os.BlockCache.Flush.{mark_access-Shows, cache_sync-Shows}
use arqvenger_os.BlockCache.Lru.{IsLinked, IsClean, cache_sync-IsClean}
use arqvenger_os.BlockCache.Find.{Loaded, find_chunk-Loaded}
use arqvenger_os.BlockCache.Parts.{place, rest, part_of-IsPart, copy_in-append, copy_out-ext}
use arqvenger_os.BlockCache.Read.{marked, mark_access-at, mark_access-IsLinked, cache_read-Reads}
use arqvenger_os.BlockCache.Store.{Shows-ext, written}

occupied-update :
    (c : Cache) (i : ℕ) (ch new : Chunk)
    → c.table i ≡ some ch
    → IsLinked c
    → IsLinked (record c { table = update c.table i (some new) })
occupied-update c i ch new e h j = h j ∙ elim (ℕ_discrete j i) [
  | yes p ↦
      let hit : (j == i) ≡ true = (==_iff j i).1 p in
      let there : c.table j ≡ some ch = ap c.table p ∙ e in rw (hit, there)
  | no p ↦ let miss : (j == i) ≡ false = ground arith in rw miss
]

-- a round of the loop
write_chunk-lem :
    (now : ℕ) (c : Cache) (v : Disk) (i sector count block : ℕ) (buff : ℕ → Sector) (counter : ℕ)
    (ch : Chunk)
    → Shows c v
    → IsLinked c
    → c.table i ≡ some ch
    → ch.initial_sector ≡ block * 8
    → sector / 8 ≤ block
    → block ≤ (sector + count) / 8
    → let part = part_of sector count block in
      let out = write_chunk now c i sector count block buff counter in
      Shows out.1 (copy_in v (block * 8 + part.0) buff counter part.1) × IsLinked out.1
unfolding write_chunk
write_chunk-lem now c v i sector count block buff counter ch s h e first le le' =
    let part = part_of sector count block in
    let (start, fits, left, follows) = part_of-IsPart sector count block le le' in
    let c1 = mark_access now c i in
    let ch1 = marked now ch in
    let at : c1.table i ≡ some ch1 = mark_access-at now c i ch e in
    let s1 = mark_access-Shows now c v i s in
    let h1 = mark_access-IsLinked now c i ch e h in
    let fill : Chunk → Chunk = λ a. record a {
      first_write_time = if not a.dirty then now else a.first_write_time;
      dirty = true;
      buffer = copy_in a.buffer part.0 buff counter part.1;
    } in
    let is : record c1 { table = update c1.table i (some (fill ch1)) } ≡ modify c1 i fill =
      ap (λ o. record c1 { table = update c1.table i (Option.map fill o) }) (sym at) in
    (
      subst (λ (d : Cache). Shows d (copy_in v (block * 8 + part.0) buff counter part.1)) is
          (written c1 v i block part.0 part.1 counter ch1 (fill ch1) buff s1 at first fits refl refl
            (λ j. refl)),
      subst IsLinked is (occupied-update c1 i ch1 (fill ch1) at h1),
    )

abbrev pub Writes : Disk → Bool × Cache → Type 0
Writes v (ok, c) = (ok ≡ true) × Shows c v × IsLinked c

write_found-Writes :
    (now sector count block : ℕ) (v : Disk) (buff : ℕ → Sector) (counter : ℕ)
    (out : Option ℕ × Cache) (next : ℕ → Cache → Bool × Cache)
    → Loaded v (block * 8) out
    → sector / 8 ≤ block
    → block ≤ (sector + count) / 8
    → ((c : Cache) (w : Disk) (counter' : ℕ)
        → Shows c w
        → IsLinked c
        → Writes
            (copy_in w (place sector (block + 1)) buff counter' (rest sector count (block + 1)))
            (next counter' c))
    → Writes
        (copy_in v (place sector block) buff counter (rest sector count block))
        (write_found now sector count block buff counter out next)
unfolding write_found write_chunk
write_found-Writes now sector count block v buff counter (none, c) next (i, ch, is, s, h, e, first)
      le le' later =
    absurd (cc)
write_found-Writes now sector count block v buff counter (some i', c) next
      (i, ch, is, s, h, e, first) le le' later =
    let part = part_of sector count block in
    let at : c.table i' ≡ some ch = ap c.table (eq_of_some is) ∙ e in
    let (start, fits, left, follows) = part_of-IsPart sector count block le le' in
    let (s1, h1) =
      write_chunk-lem now c v i' sector count block buff counter ch s h at first le le' in
    let c1 = (write_chunk now c i' sector count block buff counter).1 in
    let w = copy_in v (block * 8 + part.0) buff counter part.1 in
    let (ok, s2, h2) = later c1 w (counter + part.1) s1 h1 in
    (
      ok,
      Shows-ext (next (counter + part.1) c1).1
          (copy_in w (place sector (block + 1)) buff (counter + part.1)
            (rest sector count (block + 1)))
          (copy_in v (place sector block) buff counter (rest sector count block))
          (λ x.
            copy_in-append v buff (block * 8 + part.0) (place sector (block + 1)) counter part.1
              (rest sector count (block + 1)) (rest sector count block) x left follows
            ∙ ap (λ a. copy_in v a buff counter (rest sector count block) x) start)
          s2,
      h2,
    )

write_from-Writes :
    (now sector count : ℕ) (buff : ℕ → Sector) (n : ℕ) (c : Cache) (v : Disk) (block counter : ℕ)
    → Shows c v
    → IsLinked c
    → (sector + count) / 8 * 8 < 2 ^ 32
    → sector / 8 ≤ block
    → block + n ≡ (sector + count) / 8 + 1
    → Writes
        (copy_in v (place sector block) buff counter (rest sector count block))
        (write_from now sector count buff n c block counter)
unfolding write_from
write_from-Writes now sector count buff zero c v block counter s h small le e = (
  refl,
  Shows-ext c v (copy_in v (place sector block) buff counter (rest sector count block))
      (λ x.
        let away : (leb (place sector block) x
              && ltb x (place sector block + rest sector count block))
            ≡ false =
          ground (arith, e) in
        rw away)
      s,
  h,
)
write_from-Writes now sector count buff (suc n) c v block counter s h small le e =
    let le' : block ≤ (sector + count) / 8 = omega (arith, e) in
    write_found-Writes now sector count block v buff counter (find_chunk now c block)
      (λ counter' c1. write_from now sector count buff n c1 (block + 1) counter')
      (find_chunk-Loaded now c v block s h (omega (arith, small, le'))) le le'
      (λ c1 w counter' s1 h1.
        write_from-Writes now sector count buff n c1 w (block + 1) counter' s1 h1 small
          (omega (arith, le)) (omega (arith, e)))

-- On a sound cache that the list of chunks matches, `cache_write` succeeds and puts the `count`
-- sectors of the buffer into the disk that the cache shows, from `sector` on, and changes no other
-- sector, where the pages have numbers below 2 ^ 32. The cache stays sound, and the list matches
-- it.
pub cache_write-Writes :
    (now : ℕ) (c : Cache) (v : Disk) (sector count : ℕ) (buff : ℕ → Sector)
    → Shows c v
    → IsLinked c
    → (sector + count) / 8 * 8 < 2 ^ 32
    → Writes (copy_in v sector buff 0 count) (cache_write now c sector count buff)
unfolding cache_write
cache_write-Writes now c v sector count buff s h small =
    let at : place sector (sector / 8) ≡ sector = omega arith in
    let all_left : sector + count - sector ≡ count = omega arith in
    let out =
      write_from-Writes now sector count buff ((sector + count) / 8 + 1 - sector / 8) c v
        (sector / 8) 0 s h small (omega arith) (omega arith) in
    rw (at, all_left) at out

-- On a sound cache that the list of chunks matches, `cache_read` gives back the sectors that
-- `cache_write` was given at the same place, where the pages have numbers below 2 ^ 32.
pub cache_read-cache_write :
    (now later : ℕ) (c : Cache) (v : Disk) (sector count : ℕ) (buff : ℕ → Sector)
    → Shows c v
    → IsLinked c
    → (sector + count) / 8 * 8 < 2 ^ 32
    → (cache_read later (cache_write now c sector count buff).1 sector count).0
      ≡ some (copy_out buff 0 count)
cache_read-cache_write now later c v sector count buff s h small =
    let (ok, s1, h1) = cache_write-Writes now c v sector count buff s h small in
    let c1 = (cache_write now c sector count buff).1 in
    let v1 = copy_in v sector buff 0 count in
    (cache_read-Reads later c1 v1 sector count s1 h1 small).0
    ∙ ap some (
        copy_out-ext v1 buff sector 0 count (λ j lt.
          let there : (leb sector (sector + j) && ltb (sector + j) (sector + count)) ≡ true =
            ground (arith, lt) in
          rw there (ap buff (omega arith))))

-- `cache_sync` with force on a sound cache brings every sector of the disk up to the one that the
-- cache shows.
pub cache_sync-disk :
    (now : ℕ) (c : Cache) (v : Disk) (x : ℕ) → Shows c v → (cache_sync now c true).disk x ≡ v x
cache_sync-disk now c v x s =
    let s1 = cache_sync-Shows now c v true s in
    s1.stored x (λ i ch e dirty.
      absurd
        (dirty_clean ch dirty (subst IsClean e (cache_sync-IsClean now c i (s1.within i ch e)))))
  where
    dirty_clean : (ch : Chunk) → ch.dirty ≡ true → ch.dirty ≢ false
    dirty_clean ch p q = cc
