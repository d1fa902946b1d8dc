-- ===== src/Ext2/DataBuffers.antt =====
-- The buffers of data blocks that the inodes share: `load_buffer` of drivers/ext2/inode.c.
pub mod Loading
use arqvenger_os.Base.{ℕ, zero, suc, ◌+◌, ◌%◌, Bool, Option, none, some, List, ◌==◌, if◌then◌else◌}
use arqvenger_os.Ext2.{Fs, read_block}
use arqvenger_os.Ext2.BlockMap.{at_level}

abbrev pub block_buffer_count : ℕ
block_buffer_count = 10

-- `blockBufferOwner`, `blockBufferAddress`, `blockBuffer` and `evictBlockBuffer`
pub record Buffers : Type 0 where
  pub owner : ℕ → ℕ
  pub address : ℕ → ℕ
  pub contents : ℕ → List ℕ
  pub evict : ℕ

-- The loops that look for an owner, over `n` more buffers from `i` on.
unfoldable pub find_owner : Buffers → ℕ → ℕ → ℕ → Option ℕ
find_owner b number zero i = none
find_owner b number (suc n) i =
    let later = find_owner b number n (i + 1) in if b.owner i == number then some i else later

-- a buffer made the inode's own
abbrev pub reset : Buffers → ℕ → ℕ → Buffers
reset b number i = record b { owner = at_level b.owner i number; address = at_level b.address i 0 }

abbrev pub free_or_evict : Buffers → ℕ → Option ℕ → ℕ × Buffers
free_or_evict b number (some i) = (i, reset b number i)
free_or_evict b number none =
    let i = (b.evict + 1) % block_buffer_count in (i, reset (record b { evict = i }) number i)

abbrev pub own_or_other : Buffers → ℕ → Option ℕ → ℕ × Buffers
own_or_other b number (some i) = (i, b)
own_or_other b number none = free_or_evict b number (find_owner b 0 block_buffer_count 0)

-- the buffer that `load_buffer` uses
unfoldable pub choose_buffer : Buffers → ℕ → ℕ × Buffers
choose_buffer b number = own_or_other b number (find_owner b number block_buffer_count 0)

abbrev pub loaded : Buffers → ℕ → Option (List ℕ) → Option ℕ × Buffers
loaded b i none = (none, b)
loaded b i (some words) = (some i, record b { contents = at_level b.contents i words })

-- `none` is the result -1.
unfoldable pub load_buffer : Fs → Buffers → ℕ → ℕ → Option ℕ × Buffers
load_buffer fs b number block =
    let (i, b1) = choose_buffer b number in
    if b1.address i == block
    then (some i, b1)
    else loaded (record b1 { address = at_level b1.address i block }) i (read_block fs block)
