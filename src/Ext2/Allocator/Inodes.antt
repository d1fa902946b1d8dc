-- ===== src/Ext2/Allocator/Inodes.antt =====
-- Which bitmap `deallocate_inode` changes for an inode that `allocate_inode` has given out.
use native.Mathlib.Nat.{
  mul-add-div_right, mul-add-mod_self_right, div-eq_of_lt, mod-eq_of_lt, mul-div_cancel,
}
use arqvenger_os.Base.{
  ℕ, ◌+◌, ◌-◌, ◌*◌, ◌/◌, ◌%◌, ◌≤◌, ◌<◌, ◌≡◌, ◌≢◌, refl, ap, ap₂, ◌∙◌, true, arith, set, length,
}
use arqvenger_os.Bitmap.{bitmap_clear}
use arqvenger_os.Bitmap.Laws.{bitmap_test-clear}
use arqvenger_os.Base.Words.{inc32, inc16}
use arqvenger_os.Ext2.{Fs, group_at, superblock_write}
use arqvenger_os.Ext2.Allocator.{
  read_inode_bitmap, write_inode_bitmap, count_inodes, release_inode, deallocate_inode,
}
use arqvenger_os.Ext2.Allocator.Reserve.{
  IsCoherent, saved, Changed, KeepsBitmaps, IsMeta, rewritten-keeps, saved-Changed,
  read_bitmap_at-loaded, write_bitmap_at-saved,
}

-- the block that holds the inode bitmap of group `g`
abbrev pub inode_block : Fs → ℕ → ℕ
inode_block fs g = (group_at fs g).inode_bitmap_address

-- the number of inode `e` of group `g`
abbrev pub inode_number : Fs → ℕ → ℕ → ℕ
inode_number fs g e = e + g * fs.sb.inodes_per_block_group + 1

count_inodes-keeps : (all here : ℕ → ℕ) (g : ℕ) → KeepsBitmaps (λ s. count_inodes all here s g)
unfolding count_inodes superblock_write
count_inodes-keeps all here g s =
    let fs1 = record s { sb = record s.sb { unallocated_inodes = all s.sb.unallocated_inodes } } in
    let fs2 = record (superblock_write fs1) {
      group_table =
          set (superblock_write fs1).group_table g (record (group_at (superblock_write fs1) g) {
            unallocated_inodes = here (group_at (superblock_write fs1) g).unallocated_inodes;
          });
    } in
    rewritten-keeps s fs1 fs2 (λ d. refl) refl (λ d m. m) (λ d m. m) refl refl

release_inode-saved :
    (fs : Fs) (g e : ℕ)
    → IsCoherent fs
    → inode_block fs g ≤ fs.sb.total_blocks
    → release_inode fs g e ≡ (
      true,
      count_inodes inc32 inc16
          (saved fs (inode_block fs g) (bitmap_clear (fs.disk (inode_block fs g)) e))
          g,
    )
unfolding release_inode read_inode_bitmap write_inode_bitmap
release_inode-saved fs g e c h = rw (
  read_bitmap_at-loaded fs (inode_block fs g) c h,
  write_bitmap_at-saved fs (inode_block fs g) (bitmap_clear (fs.disk (inode_block fs g)) e) h,
)

release_inode-Changed :
    (fs : Fs) (g e : ℕ)
    → IsCoherent fs
    → inode_block fs g ≤ fs.sb.total_blocks
    → (IsMeta fs (inode_block fs g) → ⊥)
    → e / 32 < length (fs.disk (inode_block fs g))
    → let (done, fs') = release_inode fs g e in
      (done ≡ true) × Changed fs fs' (inode_block fs g) e 0
release_inode-Changed fs g e c h apart fits =
    let map = bitmap_clear (fs.disk (inode_block fs g)) e in
    rw (release_inode-saved fs g e c h) (
      refl,
      saved-Changed fs (inode_block fs g) e 0 map (λ s. count_inodes inc32 inc16 s g)
          (count_inodes-keeps inc32 inc16 g) apart
          (λ i. bitmap_test-clear (fs.disk (inode_block fs g)) e i fits),
    )

inode_group : (m g e : ℕ) → e + 1 < m → ((e + g * m + 1) / m ≡ g) × ((e + g * m + 1 - 1) % m ≡ e)
inode_group m g e h =
    let up : e + g * m + 1 ≡ g * m + (e + 1) = omega arith in
    let at : e + g * m + 1 - 1 ≡ g * m + e = omega arith in
    (
      ap (λ x. x / m) up
          ∙ mul-add-div_right (omega arith) g (e + 1)
          ∙ omega (arith, div-eq_of_lt h),
      ap (λ x. x % m) at ∙ mul-add-mod_self_right g m e ∙ mod-eq_of_lt (omega arith),
    )

last_inode_group :
    (m g : ℕ) → 0 < m → ((m - 1 + g * m + 1) / m ≡ g + 1) × ((m - 1 + g * m + 1 - 1) % m ≡ m - 1)
last_inode_group m g h =
    let up : m - 1 + g * m + 1 ≡ (g + 1) * m = omega arith in
    let at : m - 1 + g * m + 1 - 1 ≡ g * m + (m - 1) = omega arith in
    (
      ap (λ x. x / m) up ∙ mul-div_cancel (g + 1) h,
      ap (λ x. x % m) at ∙ mul-add-mod_self_right g m (m - 1) ∙ mod-eq_of_lt (omega arith),
    )

-- `deallocate_inode` of an inode that is not the last one of its group, where the buffer agrees
-- with the disk and the bitmap is on the disk, apart from the superblock and the group table, and
-- long enough, clears the inode's bit in the bitmap
-- of its group, and no other bit.
pub deallocate_inode-Changed :
    (fs : Fs) (g e : ℕ)
    → IsCoherent fs
    → inode_block fs g ≤ fs.sb.total_blocks
    → (IsMeta fs (inode_block fs g) → ⊥)
    → fs.sb.inodes_per_block_group ≤ length (fs.disk (inode_block fs g)) * 32
    → e + 1 < fs.sb.inodes_per_block_group
    → let (done, fs') = deallocate_inode fs (inode_number fs g e) in
      (done ≡ true) × Changed fs fs' (inode_block fs g) e 0
unfolding deallocate_inode
deallocate_inode-Changed fs g e c h apart fits small =
    let (group, index) = inode_group fs.sb.inodes_per_block_group g e small in
    rw (ap₂ (λ g i. release_inode fs g i) group index)
      (release_inode-Changed fs g e c h apart (omega arith))

-- `deallocate_inode` of the last inode of a group, where the buffer agrees with the disk and the
-- next group has its own bitmap on the disk, long enough, and both bitmaps are apart from the
-- superblock and the group table, clears the last bit of the next group
-- instead: the bitmap of the inode's own group keeps all its bits.
pub deallocate_inode_last :
    (fs : Fs) (g : ℕ)
    → IsCoherent fs
    → inode_block fs (g + 1) ≤ fs.sb.total_blocks
    → (IsMeta fs (inode_block fs (g + 1)) → ⊥)
    → (IsMeta fs (inode_block fs g) → ⊥)
    → fs.sb.inodes_per_block_group ≤ length (fs.disk (inode_block fs (g + 1))) * 32
    → 0 < fs.sb.inodes_per_block_group
    → inode_block fs g ≢ inode_block fs (g + 1)
    → let last = fs.sb.inodes_per_block_group - 1 in
      let (done, fs') = deallocate_inode fs (inode_number fs g last) in
      (done ≡ true)
      × Changed fs fs' (inode_block fs (g + 1)) last 0
      × (fs'.disk (inode_block fs g) ≡ fs.disk (inode_block fs g))
unfolding deallocate_inode
deallocate_inode_last fs g c h apart own fits pos ne =
    let last = fs.sb.inodes_per_block_group - 1 in
    let (group, index) = last_inode_group fs.sb.inodes_per_block_group g pos in
    let (done, changed) = release_inode-Changed fs (g + 1) last c h apart (omega arith) in
    rw (ap₂ (λ g i. release_inode fs g i) group index) (done, changed, changed.others _ ne own)
