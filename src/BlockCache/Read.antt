-- ===== src/BlockCache/Read.antt =====
-- `cache_read` and the disk that the cache shows.
use arqvenger_os.Base.{
  ℕ, zero, suc, ◌+◌, ◌-◌, ◌*◌, ◌/◌, ◌^◌, ◌≤◌, ◌<◌, ◌≡◌, refl, sym, ap, ◌∙◌, true, false, Option,
  none, some, List, ◌++◌, arith, eq_of_some, ◌==◌, ==_iff, ℕ_discrete,
}
use mathlib.Core.Option
use arqvenger_os.BlockCache.{
  Sector, Disk, Chunk, Cache, mark_access, cache_list_remove, find_chunk, copy_out, part_of,
  buffer_of, read_chunk, read_found, read_from, cache_read,
}
use arqvenger_os.BlockCache.View.{Shows, update_self}
use arqvenger_os.BlockCache.Flush.{mark_access-Shows}
use arqvenger_os.BlockCache.Lru.{occurrences, occupied, IsLinked, occurrences-remove}
use arqvenger_os.BlockCache.Find.{Loaded, find_chunk-Loaded}
use arqvenger_os.BlockCache.Parts.{place, rest, part_of-IsPart, copy_out-ext, copy_out-append}

abbrev pub marked : ℕ → Chunk → Chunk
marked now ch = record ch { accesses = ch.accesses + 1; last_access_time = now }

pub mark_access-at :
    (now : ℕ) (c : Cache) (i : ℕ) (ch : Chunk)
    → c.table i ≡ some ch
    → (mark_access now c i).table i ≡ some (marked now ch)
unfolding mark_access
mark_access-at now c i ch e =
    update_self c.table i (Option.map (marked now) (c.table i)) ∙ ap (Option.map (marked now)) e

pub mark_access-IsLinked :
    (now : ℕ) (c : Cache) (i : ℕ) (ch : Chunk)
    → c.table i ≡ some ch
    → IsLinked c
    → IsLinked (mark_access now c i)
unfolding mark_access occurrences
mark_access-IsLinked now c i ch e h j =
    let new = Option.map (marked now) (c.table i) in
    let left = occurrences-remove c.list i j in
    let old = h j in
    elim (ℕ_discrete i j) [
      | yes p ↦
          let hit : (i == j) ≡ true = (==_iff i j).1 p in
          let hit' : (j == i) ≡ true = (==_iff j i).1 (sym p) in
          let one : occurrences j c.list ≡ 1 =
            h j ∙ ap (λ k. occupied (c.table k)) (sym p) ∙ ap occupied e in
          let left' : occurrences j (cache_list_remove c.list i) ≡ occurrences j c.list - 1 =
            rw hit at left in
          rw (hit, hit', e) (omega (arith, left', one))
      | no p ↦
          let miss : (i == j) ≡ false = ground arith in
          let miss' : (j == i) ≡ false = ground arith in rw (miss, miss') (rw miss at left ∙ old)
    ]

-- what a round of the loop copies out
read_chunk-lem :
    (now : ℕ) (c : Cache) (v : Disk) (i sector count block : ℕ) (ch : Chunk)
    → Shows c v
    → IsLinked c
    → c.table i ≡ some ch
    → ch.initial_sector ≡ block * 8
    → sector / 8 ≤ block
    → block ≤ (sector + count) / 8
    → let part = part_of sector count block in
      let out = read_chunk now c i sector count block in
      (out.0 ≡ copy_out v (block * 8 + part.0) part.1) × Shows out.1 v × IsLinked out.1
unfolding read_chunk
read_chunk-lem now c v i sector count block ch s h e first le le' =
    let part = part_of sector count block in
    let (start, small, left, follows) = part_of-IsPart sector count block le le' in
    let at = mark_access-at now c i ch e in
    (
      ap (λ o. copy_out (buffer_of o) part.0 part.1) at
          ∙ copy_out-ext ch.buffer v part.0 (block * 8 + part.0) part.1 (λ j lt.
            s.cached i ch (part.0 + j) e (omega (arith, small, lt))
            ∙ ap (λ b. v (b + (part.0 + j))) first
            ∙ ap v (omega arith)),
      mark_access-Shows now c v i s,
      mark_access-IsLinked now c i ch e h,
    )

abbrev pub Reads : Disk → ℕ → ℕ → Option (List Sector) × Cache → Type 0
Reads v start n (o, c) = (o ≡ some (copy_out v start n)) × Shows c v × IsLinked c

read_found-Reads :
    (now sector count block : ℕ) (v : Disk) (out : Option ℕ × Cache)
    (next : Cache → Option (List Sector) × Cache)
    → Loaded v (block * 8) out
    → sector / 8 ≤ block
    → block ≤ (sector + count) / 8
    → ((c : Cache)
        → Shows c v
        → IsLinked c
        → Reads v (place sector (block + 1)) (rest sector count (block + 1)) (next c))
    → Reads v
        (place sector block)
        (rest sector count block)
        (read_found now sector count block out next)
unfolding read_found read_chunk
read_found-Reads now sector count block v (none, c) next (i, ch, is, s, h, e, first) le le' later =
    absurd (cc)
read_found-Reads now sector count block v (some i', c) next (i, ch, is, s, h, e, first) le le'
      later =
    let part = part_of sector count block in
    let at : c.table i' ≡ some ch = ap c.table (eq_of_some is) ∙ e in
    let (text, s1, h1) = read_chunk-lem now c v i' sector count block ch s h at first le le' in
    let (more, s2, h2) = later (mark_access now c i') s1 h1 in
    let (start, fits, left, follows) = part_of-IsPart sector count block le le' in
    (
      ap
            (Option.map
              (λ r. copy_out (buffer_of ((mark_access now c i').table i')) part.0 part.1 ++ r))
            more
          ∙ ap
              (λ t.
                some (t ++ copy_out v (place sector (block + 1)) (rest sector count (block + 1))))
              text
          ∙ ap some (
              copy_out-append v (block * 8 + part.0) (place sector (block + 1)) part.1
                (rest sector count (block + 1)) (rest sector count block) left follows)
          ∙ ap (λ a. some (copy_out v a (rest sector count block))) start,
      s2,
      h2,
    )

read_from-Reads :
    (now sector count n : ℕ) (c : Cache) (v : Disk) (block : ℕ)
    → Shows c v
    → IsLinked c
    → (sector + count) / 8 * 8 < 2 ^ 32
    → sector / 8 ≤ block
    → block + n ≡ (sector + count) / 8 + 1
    → Reads v (place sector block) (rest sector count block) (read_from now sector count n c block)
unfolding read_from copy_out
read_from-Reads now sector count zero c v block s h small le e =
    let done : rest sector count block ≡ 0 = omega (arith, e) in rw done (refl, s, h)
read_from-Reads now sector count (suc n) c v block s h small le e =
    let le' : block ≤ (sector + count) / 8 = omega (arith, e) in
    read_found-Reads now sector count block v (find_chunk now c block)
      (λ c1. read_from now sector count n c1 (block + 1))
      (find_chunk-Loaded now c v block s h (omega (arith, small, le'))) le le'
      (λ c1 s1 h1.
        read_from-Reads now sector count n c1 v (block + 1) s1 h1 small (omega (arith, le))
          (omega (arith, e)))

-- On a sound cache that the list of chunks matches, `cache_read` succeeds and gives the `count`
-- sectors of the disk that the cache shows, from `sector` on, where the pages have numbers below 2
-- ^ 32. The cache stays sound, shows the same disk, and the list matches it.
pub cache_read-Reads :
    (now : ℕ) (c : Cache) (v : Disk) (sector count : ℕ)
    → Shows c v
    → IsLinked c
    → (sector + count) / 8 * 8 < 2 ^ 32
    → Reads v sector count (cache_read now c sector count)
unfolding cache_read
cache_read-Reads now c v sector count s h small =
    let at : place sector (sector / 8) ≡ sector = omega arith in
    let all_left : sector + count - sector ≡ count = omega arith in
    let out =
      read_from-Reads now sector count ((sector + count) / 8 + 1 - sector / 8) c v (sector / 8) s h
        small (omega arith) (omega arith) in
    rw (at, all_left) at out
