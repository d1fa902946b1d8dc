-- ===== src/Ext2/Examples.antt =====
-- The theorems on the allocator at a file system of two groups.
use arqvenger_os.Base.{ℕ, List, inl, inr, ◌≡◌, refl, true, Option, [], ◌∷◌, arith}
use arqvenger_os.Bitmap.{Bitmap}
use arqvenger_os.Bitmap.FirstClear.{IsFirstClear}
use arqvenger_os.Base.Words.{inc32, inc16}
use arqvenger_os.Ext2.{BlockGroup, Superblock, Images, Fs}
use arqvenger_os.Ext2.Allocator.{allocate_in_group, deallocate_block}
use arqvenger_os.Ext2.Allocator.Reserve.{IsMeta, Changed}
use arqvenger_os.Ext2.Allocator.Blocks.{
  Counted, Allocates, allocate_in_group-Allocates, deallocate_block-Changed,
}
use arqvenger_os.Ext2.DataBuffers.{Buffers, load_buffer}
use arqvenger_os.Ext2.DataBuffers.Loading.{HasBlock, load_buffer-HasBlock}
use arqvenger_os.Ext2.BlockMap.{Pointers, Indexes}

abbrev group : ℕ → ℕ → BlockGroup
group blocks inodes = record {
  block_bitmap_address = blocks;
  inode_bitmap_address = inodes;
  unallocated_blocks = 29;
  unallocated_inodes = 29;
}

abbrev superblock : Superblock
superblock = record {
  total_blocks = 65;
  unallocated_blocks = 58;
  unallocated_inodes = 58;
  block_size = 0;
  blocks_per_block_group = 32;
  inodes_per_block_group = 32;
}

-- The free blocks stand in the first word of the superblock's block, and the bitmaps' addresses in the
-- table's.
abbrev words_of_table : List BlockGroup → Bitmap
words_of_table [] = []
words_of_table (d ∷ t) = d.block_bitmap_address ∷ d.inode_bitmap_address ∷ words_of_table t

abbrev some_images : Images
some_images = record {
  of_superblock = λ sb old. sb.unallocated_blocks ∷ old;
  of_table = λ t i. words_of_table t;
}

-- The bitmaps stand in the blocks 3, 4, 35 and 36, each with its lowest three bits set.
abbrev two_groups : Fs
two_groups = record {
  sb = superblock;
  group_table = group 3 4 ∷ group 35 36 ∷ [];
  block_group_count = 2;
  bitmap_block = 3;
  bitmap_buffer = 7 ∷ [];
  disk = λ b. 7 ∷ [];
  images = some_images;
}

apart : IsMeta two_groups 35 → ⊥
apart (inl e) = absurd (omega arith)
apart (inr (ge, lt)) = absurd (omega arith)

allocate_in_group-Allocates_example :
    (r : Option ℕ) × IsFirstClear (7 ∷ []) 0 32 r
    × Allocates two_groups 1 r (allocate_in_group two_groups 1).0 (allocate_in_group two_groups 1).1
allocate_in_group-Allocates_example =
    allocate_in_group-Allocates two_groups 1 refl (omega arith) (omega arith) apart (omega arith)
      (omega arith)

-- the block 1 + 32 + 2
deallocate_block-Changed_example :
    ((deallocate_block two_groups 35).0 ≡ true)
    × Changed two_groups (deallocate_block two_groups 35).1 35 2 0
    × Counted two_groups (deallocate_block two_groups 35).1 1 inc32 inc16
deallocate_block-Changed_example =
    deallocate_block-Changed two_groups 1 2 refl (omega arith) (omega arith) apart (omega arith)
      (omega arith) (omega arith)

-- A file whose 16th block stands behind the second pointer, with two pointers to a block.
abbrev file : Pointers
file = record { direct = λ i. i; singly = 5; doubly = 6; triply = 8 }

abbrev no_index : Indexes
no_index = record { address = λ l. 0; buffer = λ l. [] }

-- No inode owns a buffer yet.
abbrev no_buffers : Buffers
no_buffers = record { owner = λ i. 0; address = λ i. 0; contents = λ i. []; evict = 0 }

load_buffer-HasBlock_example : HasBlock two_groups 12 40 (load_buffer two_groups no_buffers 12 40)
load_buffer-HasBlock_example =
    load_buffer-HasBlock two_groups no_buffers 12 40
      (record { held = λ i ne. absurd (ne refl); single = λ i j hi hj ne is. absurd (ne refl) })
      (λ e. omega (arith, e)) (omega arith)
