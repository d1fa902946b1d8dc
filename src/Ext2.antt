-- ===== src/Ext2.antt =====
-- The ext2 driver: drivers/ext2. `Fs` is `struct ext2` with the fields of the superblock that the
-- allocator uses and the blocks of the disk, as the block cache shows them.
pub mod Allocator
pub mod BlockMap
pub mod DataBuffers
mod Examples
use arqvenger_os.Base.{
  ℕ, suc, ◌+◌, ◌-◌, ◌*◌, ◌/◌, ◌%◌, ◌^◌, Bool, true, false, Option, none, some, List, ◌==◌, ◌&&◌,
  ltb, leb, if◌then◌else◌, get_or, set,
}
use arqvenger_os.Bitmap.{Bitmap}

-- `struct BlockGroupDescriptor`
pub record BlockGroup : Type 0 where
  pub block_bitmap_address : ℕ
  pub inode_bitmap_address : ℕ
  pub unallocated_blocks : ℕ
  pub unallocated_inodes : ℕ

-- `struct Superblock`; `block_size` is log2 of the size in kilobytes.
pub record Superblock : Type 0 where
  pub total_blocks : ℕ
  pub unallocated_blocks : ℕ
  pub unallocated_inodes : ℕ
  pub block_size : ℕ
  pub blocks_per_block_group : ℕ
  pub inodes_per_block_group : ℕ

-- How the compiler lays out the structures: the block that holds the superblock, from what it held
-- before, and each block of the memory that the group table is in.
pub record Images : Type 0 where
  pub of_superblock : Superblock → Bitmap → Bitmap
  pub of_table : List BlockGroup → ℕ → Bitmap

-- `disk` is the contents of each block as an array of words.
pub record Fs : Type 0 where
  pub sb : Superblock
  pub group_table : List BlockGroup
  pub block_group_count : ℕ
  pub bitmap_block : ℕ
  pub bitmap_buffer : Bitmap
  pub disk : ℕ → Bitmap
  pub images : Images

abbrev pub no_group : BlockGroup
no_group = record {
  block_bitmap_address = 0;
  inode_bitmap_address = 0;
  unallocated_blocks = 0;
  unallocated_inodes = 0;
}

-- `fs->groupTable[group]`
abbrev pub group_at : Fs → ℕ → BlockGroup
group_at fs g = get_or fs.group_table g no_group

abbrev pub write_disk : (ℕ → Bitmap) → ℕ → Bitmap → ℕ → Bitmap
write_disk disk b map c = if c == b then map else disk c

-- `read_block` of drivers/ext2/internal.c, with `none` for -1
unfoldable pub read_block : Fs → ℕ → Option Bitmap
read_block fs b = if ltb fs.sb.total_blocks b then none else some (fs.disk b)

-- `write_block`: whether it succeeded, and the disk then
unfoldable pub write_block : Fs → ℕ → Bitmap → Bool × Fs
write_block fs b map =
    if ltb fs.sb.total_blocks b
    then (false, fs)
    else (true, record fs { disk = write_disk fs.disk b map })

-- The block of the sectors 2 and 3, where a block of 1024 bytes has two sectors.
abbrev pub superblock_block : Fs → ℕ
superblock_block fs = if fs.sb.block_size == 0 then 1 else 0

-- `ext2_superblock_write`, which writes the sectors without a test
unfoldable pub superblock_write : Fs → Fs
superblock_write fs =
    let b = superblock_block fs in
    record fs { disk = write_disk fs.disk b (fs.images.of_superblock fs.sb (fs.disk b)) }

-- the blocks of the group table, with 32 bytes for each group
abbrev pub table_start : Fs → ℕ
table_start fs = if fs.sb.block_size == 0 then 2 else 1

abbrev pub table_blocks : Fs → ℕ
table_blocks fs = fs.block_group_count * 32 / (1024 * 2 ^ fs.sb.block_size) + 1

abbrev pub write_table : (ℕ → Bitmap) → ℕ → ℕ → (ℕ → Bitmap) → ℕ → Bitmap
write_table disk start n table c =
    if leb start c && ltb c (start + n) then table (c - start) else disk c

-- `ext2_write_blockgroup_table` with `write_blocks`, whose failure is not looked at
unfoldable pub write_blockgroup_table : Fs → Fs
write_blockgroup_table fs =
    let start = table_start fs in
    let n = table_blocks fs in
    if ltb fs.sb.total_blocks (start + n)
    then fs
    else record fs { disk = write_table fs.disk start n (fs.images.of_table fs.group_table) }
