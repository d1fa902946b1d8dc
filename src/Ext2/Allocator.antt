-- ===== src/Ext2/Allocator.antt =====
-- Blocks and inodes are given out and taken back: drivers/ext2/allocator.c.
-- A failure that a function returns as 0 or -1 is `none` or `false`, beside the state it leaves.
pub mod Reserve
pub mod Blocks
pub mod Inodes
use arqvenger_os.Base.{
  ℕ, zero, suc, ◌+◌, ◌-◌, ◌*◌, ◌/◌, ◌%◌, ◌^◌, Bool, true, false, not, ◌&&◌, Option, none, some,
  List, ◌==◌, ltb, leb, if◌then◌else◌, set,
}
use arqvenger_os.Bitmap.{Bitmap, bitmap_set, bitmap_clear, bitmap_first_clear}
use arqvenger_os.Base.Words.{inc32, dec32, inc16, dec16}
use arqvenger_os.Ext2.{
  BlockGroup, Superblock, Fs, group_at, read_block, write_block, superblock_write,
  write_blockgroup_table,
}

-- The last lines of `read_block_bitmap` and `read_inode_bitmap`, from what `read_block` gave.
unfoldable pub load_bitmap : Fs → Option Bitmap → Bool × Fs
load_bitmap fs none = (false, fs)
load_bitmap fs (some map) = (true, record fs { bitmap_buffer = map })

unfoldable pub read_bitmap_at : Fs → ℕ → Bool × Fs
read_bitmap_at fs b =
    if fs.bitmap_block == b
    then (true, fs)
    else load_bitmap (record fs { bitmap_block = b }) (read_block fs b)

unfoldable pub read_block_bitmap : Fs → ℕ → Bool × Fs
read_block_bitmap fs g = read_bitmap_at fs (group_at fs g).block_bitmap_address

unfoldable pub read_inode_bitmap : Fs → ℕ → Bool × Fs
read_inode_bitmap fs g = read_bitmap_at fs (group_at fs g).inode_bitmap_address

unfoldable pub write_bitmap_at : Fs → ℕ → Bool × Fs
write_bitmap_at fs b =
    if not (fs.bitmap_block == b)
    then (false, fs)
    else write_block fs fs.bitmap_block fs.bitmap_buffer

unfoldable pub write_block_bitmap : Fs → ℕ → Bool × Fs
write_block_bitmap fs g = write_bitmap_at fs (group_at fs g).block_bitmap_address

unfoldable pub write_inode_bitmap : Fs → ℕ → Bool × Fs
write_inode_bitmap fs g = write_bitmap_at fs (group_at fs g).inode_bitmap_address

-- The counters of the superblock and of group `g` are changed, each with a write to the disk.
unfoldable pub count_blocks : (ℕ → ℕ) → (ℕ → ℕ) → Fs → ℕ → Fs
count_blocks all here fs g =
    let sb = fs.sb in
    let fs1 =
      superblock_write
        (record fs { sb = record sb { unallocated_blocks = all sb.unallocated_blocks } }) in
    let d = group_at fs1 g in
    write_blockgroup_table (record fs1 {
      group_table =
          set fs1.group_table g (record d { unallocated_blocks = here d.unallocated_blocks });
    })

unfoldable pub count_inodes : (ℕ → ℕ) → (ℕ → ℕ) → Fs → ℕ → Fs
count_inodes all here fs g =
    let sb = fs.sb in
    let fs1 =
      superblock_write
        (record fs { sb = record sb { unallocated_inodes = all sb.unallocated_inodes } }) in
    let d = group_at fs1 g in
    write_blockgroup_table (record fs1 {
      group_table =
          set fs1.group_table g (record d { unallocated_inodes = here d.unallocated_inodes });
    })

-- The result of `write_block_bitmap` is not looked at.
unfoldable pub reserve_block : Fs → ℕ → ℕ → Fs
reserve_block fs g b =
    let fs1 = record fs { bitmap_buffer = bitmap_set fs.bitmap_buffer b } in
    count_blocks dec32 dec16 (write_block_bitmap fs1 g).1 g

-- With blocks of 1024 bytes the first block is empty.
abbrev pub block_offset : Fs → ℕ
block_offset fs = if fs.sb.block_size == 0 then 1 else 0

unfoldable pub take_clear : Fs → ℕ → Option ℕ → ℕ × Fs
take_clear fs g none = (0, fs)
take_clear fs g (some b) =
    ((block_offset fs + g * fs.sb.blocks_per_block_group + b) % 2 ^ 32, reserve_block fs g b)

unfoldable pub allocate_in_group : Fs → ℕ → ℕ × Fs
allocate_in_group fs g =
    let (done, fs1) = read_block_bitmap fs g in
    if not done
    then (0, fs1)
    else take_clear fs1 g (bitmap_first_clear fs1.bitmap_buffer fs1.sb.blocks_per_block_group)

-- the loop of `allocate_block`, over `n` more groups from `i` on
unfoldable pub allocate_from : ℕ → Fs → ℕ → ℕ × Fs
allocate_from zero fs i = (0, fs)
allocate_from (suc n) fs i =
    let (block, fs1) = allocate_in_group fs i in
    let rest = allocate_from n fs1 (i + 1) in if not (block == 0) then (block, fs1) else rest

unfoldable pub allocate_block : Fs → ℕ → ℕ × Fs
allocate_block fs hint =
    let (block, fs1) = allocate_in_group fs hint in
    if not (block == 0) then (block, fs1) else allocate_from fs1.block_group_count fs1 0

-- `deallocate_block` behind the computation of the group and of the index in it
unfoldable pub release_block : Fs → ℕ → ℕ → Bool × Fs
release_block fs g index =
    let (done, fs1) = read_block_bitmap fs g in
    if not done
    then (false, fs1)
    else let fs2 = record fs1 { bitmap_buffer = bitmap_clear fs1.bitmap_buffer index } in
      (true, count_blocks inc32 inc16 (write_block_bitmap fs2 g).1 g)

unfoldable pub deallocate_block : Fs → ℕ → Bool × Fs
deallocate_block fs block =
    release_block fs ((block - block_offset fs) / fs.sb.blocks_per_block_group)
      ((block - block_offset fs) % fs.sb.blocks_per_block_group)

abbrev pub first_usable_inode : ℕ
first_usable_inode = 11

-- `none` is the end of a round of the loop of `allocate_inode` that gives nothing.
unfoldable pub take_inode : Fs → ℕ → Option ℕ → Option (ℕ × Fs)
take_inode fs g none = none
take_inode fs g (some entry) =
    let inode = (entry + g * fs.sb.inodes_per_block_group + 1) % 2 ^ 32 in
    let fs1 = record fs { bitmap_buffer = bitmap_set fs.bitmap_buffer entry } in
    let (done, fs2) = write_inode_bitmap fs1 g in
    if leb first_usable_inode inode
    then (if not done
        then some (0, record fs2 { bitmap_block = 0 })
        else some (inode, count_inodes dec32 dec16 fs2 g))
    else none

abbrev pub or_continue : Option (ℕ × Fs) → ℕ × Fs → ℕ × Fs
or_continue none rest = rest
or_continue (some out) rest = out

unfoldable pub allocate_inode_from : ℕ → Fs → ℕ → ℕ × Fs
allocate_inode_from zero fs i = (0, fs)
allocate_inode_from (suc n) fs i =
    let (done, fs1) = read_inode_bitmap fs i in
    let rest = allocate_inode_from n fs1 (i + 1) in
    let entry = bitmap_first_clear fs1.bitmap_buffer fs.sb.inodes_per_block_group in
    if not done then (0, fs1) else or_continue (take_inode fs1 i entry) rest

unfoldable pub allocate_inode : Fs → ℕ × Fs
allocate_inode fs = allocate_inode_from fs.block_group_count fs 0

-- `deallocate_inode` behind the computation of the group and of the index in it
unfoldable pub release_inode : Fs → ℕ → ℕ → Bool × Fs
release_inode fs g index =
    let (done, fs1) = read_inode_bitmap fs g in
    if not done
    then (false, fs1)
    else let fs2 = record fs1 { bitmap_buffer = bitmap_clear fs1.bitmap_buffer index } in
      let (kept, fs3) = write_inode_bitmap fs2 g in
      if not kept then (false, fs3) else (true, count_inodes inc32 inc16 fs3 g)

-- An inode number is at least 1.
unfoldable pub deallocate_inode : Fs → ℕ → Bool × Fs
deallocate_inode fs inode =
    release_inode fs (inode / fs.sb.inodes_per_block_group)
      ((inode - 1) % fs.sb.inodes_per_block_group)
