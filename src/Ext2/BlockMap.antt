-- ===== src/Ext2/BlockMap.antt =====
-- The map from the blocks of a file to those of the disk: drivers/ext2/inode.c.
-- `p` is the number of pointers in a block, and a block the list of its words.
pub mod Tree
pub mod Blocks
use arqvenger_os.Base.{
  ℕ, ◌+◌, ◌-◌, ◌*◌, ◌/◌, ◌%◌, Bool, true, false, Option, none, some, List, ◌==◌, ltb, if◌then◌else◌,
  get_or,
}
use arqvenger_os.Ext2.{Fs, read_block, write_block}

-- the block pointers of `struct ext2_Inode`
pub record Pointers : Type 0 where
  pub direct : ℕ → ℕ
  pub singly : ℕ
  pub doubly : ℕ
  pub triply : ℕ

-- `blockIndexAddress` and `blockIndexBuffer`, by the level
pub record Indexes : Type 0 where
  pub address : ℕ → ℕ
  pub buffer : ℕ → List ℕ

abbrev pub at_level {ℓ} : {A : Type ℓ} → (ℕ → A) → ℕ → A → ℕ → A
at_level f level a l = if l == level then a else f l

-- the index with what `read_block` gives, if it does
abbrev pub filled : Indexes → ℕ → Option (List ℕ) → Bool × Indexes
filled ix level none = (false, ix)
filled ix level (some words) = (true, record ix { buffer = at_level ix.buffer level words })

unfoldable pub read_block_index : Fs → Indexes → ℕ → ℕ → Bool × Indexes
read_block_index fs ix level block =
    if ix.address level == block
    then (true, ix)
    else filled (record ix { address = at_level ix.address level block }) level
        (read_block fs block)

-- `fs->blockIndexBuffer[level][i]`
abbrev pub entry : Indexes → ℕ → ℕ → ℕ
entry ix level i = get_or (ix.buffer level) i 0

-- The last, the two last and the three last steps of the way down, from the pointer `block` to an
-- index of the level given. The result of `read_block_index` is not tested.
unfoldable pub last_step : Fs → Indexes → ℕ → ℕ → ℕ → ℕ × Indexes
last_step fs ix level block i =
    let ix1 = (read_block_index fs ix level block).1 in
    if block == 0 then (0, ix) else (entry ix1 level i, ix1)

unfoldable pub two_steps : Fs → Indexes → ℕ → ℕ → ℕ → ℕ → ℕ × Indexes
two_steps fs ix level block i j =
    let ix1 = (read_block_index fs ix level block).1 in
    if block == 0 then (0, ix) else last_step fs ix1 (level + 1) (entry ix1 level i) j

unfoldable pub three_steps : Fs → Indexes → ℕ → ℕ → ℕ → ℕ → ℕ × Indexes
three_steps fs ix block i j k =
    let ix1 = (read_block_index fs ix 0 block).1 in
    if block == 0 then (0, ix) else two_steps fs ix1 1 (entry ix1 0 i) j k

unfoldable pub block_index_to_block : ℕ → Fs → Indexes → Pointers → ℕ → ℕ × Indexes
block_index_to_block p fs ix inode index =
    let double = index - 12 - p in
    let triple = index - 12 - p - p * p in
    if ltb index 12
    then (inode.direct index, ix)
    else if ltb (index - 12) p
    then last_step fs ix 0 inode.singly (index - 12)
    else if ltb double (p * p)
    then two_steps fs ix 0 inode.doubly (double / p) (double % p)
    else three_steps fs ix inode.triply (triple / (p * p)) (triple / p % p) (triple % p)
