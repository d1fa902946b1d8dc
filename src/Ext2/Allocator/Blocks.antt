-- ===== src/Ext2/Allocator/Blocks.antt =====
-- What `allocate_in_group` and `deallocate_block` do to the bitmap on the disk and to the counters.
use native.Mathlib.Nat.{mul-add-div_right, mul-add-mod_self_right, div-eq_of_lt, mod-eq_of_lt}
use arqvenger_os.Base.{
  ℕ, zero, suc, ◌+◌, ◌-◌, ◌*◌, ◌/◌, ◌%◌, ◌^◌, ◌≤◌, ◌<◌, ◌≡◌, refl, ap, ap₂, ◌∙◌, true, Option, none,
  some, List, [], ◌∷◌, sym, inl, inr, ◌==◌, ==_iff, false, ◌&&◌, ltb, leb, Bool-cases, arith,
  length, get_or, set,
}
use arqvenger_os.Bitmap.{Bitmap, bitmap_set, bitmap_clear, bitmap_first_clear}
use arqvenger_os.Bitmap.Laws.{bitmap_test-set, bitmap_test-clear}
use arqvenger_os.Bitmap.FirstClear.{bitmap_first_clear-IsFirstClear, IsFirstClear}
use arqvenger_os.Base.Words.{inc32, dec32, inc16, dec16}
use arqvenger_os.Ext2.{
  BlockGroup, no_group, write_disk, Fs, group_at, superblock_block, table_start, table_blocks,
  superblock_write, write_blockgroup_table,
}
use arqvenger_os.Ext2.Allocator.{
  count_blocks, block_offset, take_clear, allocate_in_group, release_block, deallocate_block,
}
use arqvenger_os.Ext2.Allocator.Reserve.{
  IsCoherent, loaded, saved, map_block, IsMeta, Changed, saved-Changed, count_blocks-keeps,
  reserve_block-saved, allocate_in_group-eq, release_block-saved,
}

-- the number of bit `b` of group `g` as a block of the file system
abbrev pub block_number : Fs → ℕ → ℕ → ℕ
block_number fs g b = block_offset fs + g * fs.sb.blocks_per_block_group + b

-- The whole group table is on the disk.
abbrev pub HasTable : Fs → Type 0
HasTable fs = table_start fs + table_blocks fs ≤ fs.sb.total_blocks

-- The counters after one block of group `g` has been taken or given back, in the state and on the
-- disk.
pub record Counted (fs fs' : Fs) (g : ℕ) (all here : ℕ → ℕ) : Type 0 where
  pub in_all : fs'.sb.unallocated_blocks ≡ all fs.sb.unallocated_blocks
  pub in_group : (group_at fs' g).unallocated_blocks ≡ here (group_at fs g).unallocated_blocks
  pub superblock :
      fs'.disk (superblock_block fs)
      ≡ fs.images.of_superblock fs'.sb (fs.disk (superblock_block fs))
  pub table :
      (i : ℕ)
      → i < table_blocks fs
      → fs'.disk (table_start fs + i) ≡ fs.images.of_table fs'.group_table i

pub get_or-set_self :
    (t : List BlockGroup) (g : ℕ) (d : BlockGroup)
    → g < length t
    → get_or (set t g d) g no_group ≡ d
get_or-set_self [] g d h = absurd (omega arith)
get_or-set_self (x ∷ t) zero d h = refl
get_or-set_self (x ∷ t) (suc g) d h = get_or-set_self t g d (omega arith)

superblock_block-lt : (fs : Fs) → superblock_block fs < table_start fs
superblock_block-lt fs = ground arith

-- The table is written to its blocks and leaves the superblock.
table_written :
    (s : Fs)
    → HasTable s
    → ((i : ℕ)
        → i < table_blocks s
        → (write_blockgroup_table s).disk (table_start s + i) ≡ s.images.of_table s.group_table i)
      × ((write_blockgroup_table s).disk (superblock_block s) ≡ s.disk (superblock_block s))
      × ((write_blockgroup_table s).sb ≡ s.sb)
      × ((write_blockgroup_table s).group_table ≡ s.group_table)
unfolding write_blockgroup_table
table_written s h =
    let room : ltb s.sb.total_blocks (table_start s + table_blocks s) ≡ false = ground (arith, h) in
    let before = superblock_block-lt s in
    let out : (leb (table_start s) (superblock_block s)
          && ltb (superblock_block s) (table_start s + table_blocks s))
        ≡ false =
      elim (Bool-cases (leb (table_start s) (superblock_block s))) [
        | inl e ↦ absurd (ground (arith, e, before))
        | inr e ↦ rw e
      ] in
    (
      λ i lt.
          let in_table : (leb (table_start s) (table_start s + i)
                && ltb (table_start s + i) (table_start s + table_blocks s))
              ≡ true =
            ground (arith, lt) in
          rw (room, in_table) (ap (s.images.of_table s.group_table) (omega arith)),
      rw (room, out),
      rw room,
      rw room,
    )

superblock_written :
    (s : Fs)
    → (superblock_write s).disk (superblock_block s)
      ≡ s.images.of_superblock s.sb (s.disk (superblock_block s))
unfolding superblock_write
superblock_written s =
    let hit : (superblock_block s == superblock_block s) ≡ true = (==_iff _ _).1 refl in rw hit

-- another block than the one written
write_disk-other :
    (disk : ℕ → Bitmap) (a b : ℕ) (map : Bitmap) → (a ≡ b → ⊥) → write_disk disk a map b ≡ disk b
write_disk-other disk a b map ne = elim (Bool-cases (b == a)) [
  | inl e ↦ absurd (ne (sym ((==_iff _ _).0 e)))
  | inr e ↦ rw e
]

count_blocks-Counted :
    (fs : Fs) (g : ℕ) (map : Bitmap) (all here : ℕ → ℕ)
    → g < length fs.group_table
    → (IsMeta fs (map_block fs g) → ⊥)
    → HasTable fs
    → Counted fs (count_blocks all here (saved fs (map_block fs g) map) g) g all here
unfolding count_blocks superblock_write
count_blocks-Counted fs g map all here h apart has =
    let s = saved fs (map_block fs g) map in
    let counted = record s {
      sb = record s.sb { unallocated_blocks = all s.sb.unallocated_blocks };
    } in
    let fs1 = superblock_write counted in
    let d = record (group_at fs g) {
      unallocated_blocks = here (group_at fs g).unallocated_blocks;
    } in
    let (table, kept, same, groups) =
      table_written (record fs1 { group_table = set fs.group_table g d }) has in
    record {
      in_all = ap (λ sb. sb.unallocated_blocks) same;
      in_group =
          ap (λ t. (get_or t g no_group).unallocated_blocks) groups
          ∙ ap (λ e. e.unallocated_blocks) (get_or-set_self fs.group_table g d h);
      superblock =
          kept
          ∙ superblock_written counted
          ∙ ap (fs.images.of_superblock counted.sb) (
              write_disk-other fs.disk (map_block fs g) (superblock_block fs) map
                (λ e. apart (inl e)))
          ∙ (ap (λ sb. fs.images.of_superblock sb (fs.disk (superblock_block fs))) (sym same));
      table = λ i lt. table i lt ∙ ap (λ t. fs.images.of_table t i) (sym groups);
    }

-- What `allocate_in_group` gives: 0 and no change of the disk if the group is full, and otherwise
-- the number of the group's first clear bit, which is set on the disk and counted.
abbrev pub Allocates : Fs → ℕ → Option ℕ → ℕ → Fs → Type 0
Allocates fs g none n fs' = (n ≡ 0) × (fs' ≡ loaded fs (map_block fs g))
Allocates fs g (some b) n fs' =
    (n ≡ block_number fs g b % 2 ^ 32)
    × Changed fs fs' (map_block fs g) b 1
    × Counted fs fs' g dec32 dec16

take_clear-Allocates :
    (fs : Fs) (g : ℕ) (r : Option ℕ)
    → map_block fs g ≤ fs.sb.total_blocks
    → g < length fs.group_table
    → (IsMeta fs (map_block fs g) → ⊥)
    → HasTable fs
    → fs.sb.blocks_per_block_group ≤ length (fs.disk (map_block fs g)) * 32
    → IsFirstClear (fs.disk (map_block fs g)) 0 (fs.sb.blocks_per_block_group / 32 * 32) r
    → let (n, fs') = take_clear (loaded fs (map_block fs g)) g r in Allocates fs g r n fs'
unfolding take_clear
take_clear-Allocates fs g none h lt apart has fits first = (refl, refl)
take_clear-Allocates fs g (some b) h lt apart has fits (ge, below, clear, ones) =
    let map = fs.disk (map_block fs g) in
    let to = reserve_block-saved fs g b h in
    (
      refl,
      rw to (
          saved-Changed fs (map_block fs g) b 1 (bitmap_set map b)
            (λ s. count_blocks dec32 dec16 s g) (count_blocks-keeps dec32 dec16 g) apart
            (λ c. bitmap_test-set map b c (omega arith))),
      rw to (count_blocks-Counted fs g (bitmap_set map b) dec32 dec16 lt apart has),
    )

-- `allocate_in_group` of a group of the table, where the buffer agrees with the disk, the group
-- table is on the disk, and the group's bitmap is on the disk, long enough and in no block of the
-- superblock or of that table, takes the lowest clear bit of the group's whole slots: the bit is
-- set on the disk, the counters go down by one, and the superblock and the table are written with
-- them. No other bit of that bitmap and no block but these changes. It fails, and changes nothing
-- on the disk, only if all the bits are set.
pub allocate_in_group-Allocates :
    (fs : Fs) (g : ℕ)
    → IsCoherent fs
    → map_block fs g ≤ fs.sb.total_blocks
    → g < length fs.group_table
    → (IsMeta fs (map_block fs g) → ⊥)
    → HasTable fs
    → fs.sb.blocks_per_block_group ≤ length (fs.disk (map_block fs g)) * 32
    → (r : Option ℕ) × IsFirstClear
        (fs.disk (map_block fs g))
        0
        (fs.sb.blocks_per_block_group / 32 * 32)
        r
      × Allocates fs g r (allocate_in_group fs g).0 (allocate_in_group fs g).1
allocate_in_group-Allocates fs g c h lt apart has fits =
    let map = fs.disk (map_block fs g) in
    let r = bitmap_first_clear map fs.sb.blocks_per_block_group in
    let first = bitmap_first_clear-IsFirstClear map fs.sb.blocks_per_block_group in
    (
      r,
      first,
      rw (allocate_in_group-eq fs g c h) (take_clear-Allocates fs g r h lt apart has fits first),
    )

group_of :
    (fs : Fs) (g b : ℕ)
    → b < fs.sb.blocks_per_block_group
    → ((block_number fs g b - block_offset fs) / fs.sb.blocks_per_block_group ≡ g)
      × ((block_number fs g b - block_offset fs) % fs.sb.blocks_per_block_group ≡ b)
group_of fs g b h =
    let m = fs.sb.blocks_per_block_group in
    let cut : block_number fs g b - block_offset fs ≡ g * m + b = omega arith in
    (
      ap (λ x. x / m) cut ∙ mul-add-div_right (omega arith) g b ∙ omega (arith, div-eq_of_lt h),
      ap (λ x. x % m) cut ∙ mul-add-mod_self_right g m b ∙ mod-eq_of_lt h,
    )

-- `deallocate_block` of the block with bit `b` of group `g`, where the buffer agrees with the disk,
-- the group table is on the disk, and the group's bitmap is on the disk, long enough and in no
-- block of the superblock or of that table, clears that bit on the disk, counts it up, and writes
-- the superblock and the table. No other bit of that bitmap and no block but these changes.
pub deallocate_block-Changed :
    (fs : Fs) (g b : ℕ)
    → IsCoherent fs
    → map_block fs g ≤ fs.sb.total_blocks
    → g < length fs.group_table
    → (IsMeta fs (map_block fs g) → ⊥)
    → HasTable fs
    → fs.sb.blocks_per_block_group ≤ length (fs.disk (map_block fs g)) * 32
    → b < fs.sb.blocks_per_block_group
    → let (done, fs') = deallocate_block fs (block_number fs g b) in
      (done ≡ true) × Changed fs fs' (map_block fs g) b 0 × Counted fs fs' g inc32 inc16
unfolding deallocate_block
deallocate_block-Changed fs g b c h lt apart has fits small =
    let (group, index) = group_of fs g b small in
    let map = bitmap_clear (fs.disk (map_block fs g)) b in
    let to = ap₂ (λ g i. release_block fs g i) group index ∙ release_block-saved fs g b c h in
    rw to (
      refl,
      saved-Changed fs (map_block fs g) b 0 map (λ s. count_blocks inc32 inc16 s g)
          (count_blocks-keeps inc32 inc16 g) apart
          (λ i. bitmap_test-clear (fs.disk (map_block fs g)) b i (omega arith)),
      count_blocks-Counted fs g map inc32 inc16 lt apart has,
    )
