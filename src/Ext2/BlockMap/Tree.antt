-- ===== src/Ext2/BlockMap/Tree.antt =====
-- The tree of index blocks on the disk, and the index buffers.
use arqvenger_os.Base.{
  ℕ, ◌+◌, ◌*◌, ◌≤◌, ◌<◌, ◌≡◌, ◌≢◌, refl, sym, subst, ap, ◌∙◌, inl, inr, true, false, List, arith,
  ◌==◌, ==_iff, ltb, if◌then◌else◌, get_or, Bool-cases,
}
use arqvenger_os.Ext2.{Fs, read_block}
use arqvenger_os.Ext2.BlockMap.{
  Pointers, Indexes, read_block_index, entry, last_step, two_steps, three_steps,
}

-- the pointer in a block of the disk
abbrev pub child : Fs → ℕ → ℕ → ℕ
child fs block i = get_or (fs.disk block) i 0

-- The pointers at the end of a way down the tree, 0 where it ends early.
abbrev pub leaf1 : Fs → ℕ → ℕ → ℕ
leaf1 fs block i = if block == 0 then 0 else child fs block i

abbrev pub leaf2 : Fs → ℕ → ℕ → ℕ → ℕ
leaf2 fs block i j = if block == 0 then 0 else leaf1 fs (child fs block i) j

abbrev pub leaf3 : Fs → ℕ → ℕ → ℕ → ℕ → ℕ
leaf3 fs block i j k = if block == 0 then 0 else leaf2 fs (child fs block i) j k

-- The index buffers hold what the disk has at their addresses.
abbrev pub IsCoherent : Fs → Indexes → Type 0
IsCoherent fs ix = (l : ℕ) → ix.address l ≢ 0 → ix.buffer l ≡ fs.disk (ix.address l)

read_block_index-IsCoherent :
    (fs : Fs) (ix : Indexes) (level block : ℕ)
    → IsCoherent fs ix
    → block ≢ 0
    → block ≤ fs.sb.total_blocks
    → let ix1 = (read_block_index fs ix level block).1 in
      IsCoherent fs ix1 × (ix1.buffer level ≡ fs.disk block)
unfolding read_block_index read_block
read_block_index-IsCoherent fs ix level block coherent some_block valid =
    elim (Bool-cases (ix.address level == block)) [
      | inl there ↦
          let at : ix.address level ≡ block = (==_iff (ix.address level) block).0 there in
          rw there (coherent, coherent level (λ e. some_block (sym at ∙ e)) ∙ ap fs.disk at)
      | inr elsewhere ↦
          let in_range : ltb fs.sb.total_blocks block ≡ false = ground (arith, valid) in
          let self : (level == level) ≡ true = ground arith in
          rw (elsewhere, in_range)
            (
              (λ l. elim (Bool-cases (l == level)) [
                | inl same ↦ rw same (λ ne. refl)
                | inr other ↦ rw other (coherent l)
              ]),
              rw self refl,
            )
    ]

pub last_step-leaf1 :
    (fs : Fs) (ix : Indexes) (level block i : ℕ)
    → IsCoherent fs ix
    → block ≤ fs.sb.total_blocks
    → ((last_step fs ix level block i).0 ≡ leaf1 fs block i)
      × IsCoherent fs (last_step fs ix level block i).1
unfolding last_step
last_step-leaf1 fs ix level block i coherent valid = elim (Bool-cases (block == 0)) [
  | inl empty ↦ rw empty (refl, coherent)
  | inr some_block ↦
      let (coherent', words) =
        read_block_index-IsCoherent fs ix level block coherent (λ e. ground (arith, some_block, e))
          valid in
      rw some_block (ap (λ (l : List ℕ). get_or l i 0) words, coherent')
]

pub two_steps-leaf2 :
    (fs : Fs) (ix : Indexes) (level block i j : ℕ)
    → IsCoherent fs ix
    → block ≤ fs.sb.total_blocks
    → (block ≢ 0 → child fs block i ≤ fs.sb.total_blocks)
    → ((two_steps fs ix level block i j).0 ≡ leaf2 fs block i j)
      × IsCoherent fs (two_steps fs ix level block i j).1
unfolding two_steps
two_steps-leaf2 fs ix level block i j coherent valid valid1 = elim (Bool-cases (block == 0)) [
  | inl empty ↦ rw empty (refl, coherent)
  | inr some_block ↦
      let ne : block ≢ 0 = λ e. ground (arith, some_block, e) in
      let (coherent', words) = read_block_index-IsCoherent fs ix level block coherent ne valid in
      let ix1 = (read_block_index fs ix level block).1 in
      let down : entry ix1 level i ≡ child fs block i = ap (λ (l : List ℕ). get_or l i 0) words in
      let (leaf, coherent'') =
        last_step-leaf1 fs ix1 (level + 1) (entry ix1 level i) j coherent'
          (subst (λ b. b ≤ fs.sb.total_blocks) (sym down) (valid1 ne)) in
      rw some_block (leaf ∙ ap (λ b. leaf1 fs b j) down, coherent'')
]

pub three_steps-leaf3 :
    (fs : Fs) (ix : Indexes) (block i j k : ℕ)
    → IsCoherent fs ix
    → block ≤ fs.sb.total_blocks
    → (block ≢ 0 → child fs block i ≤ fs.sb.total_blocks)
    → (block ≢ 0 → child fs block i ≢ 0 → child fs (child fs block i) j ≤ fs.sb.total_blocks)
    → ((three_steps fs ix block i j k).0 ≡ leaf3 fs block i j k)
      × IsCoherent fs (three_steps fs ix block i j k).1
unfolding three_steps
three_steps-leaf3 fs ix block i j k coherent valid valid1 valid2 = elim (Bool-cases (block == 0)) [
  | inl empty ↦ rw empty (refl, coherent)
  | inr some_block ↦
      let ne : block ≢ 0 = λ e. ground (arith, some_block, e) in
      let (coherent', words) = read_block_index-IsCoherent fs ix 0 block coherent ne valid in
      let ix1 = (read_block_index fs ix 0 block).1 in
      let down : entry ix1 0 i ≡ child fs block i = ap (λ (l : List ℕ). get_or l i 0) words in
      let (leaf, coherent'') =
        two_steps-leaf2 fs ix1 1 (entry ix1 0 i) j k coherent'
          (subst (λ b. b ≤ fs.sb.total_blocks) (sym down) (valid1 ne))
          (λ e.
            subst (λ b. child fs b j ≤ fs.sb.total_blocks) (sym down)
              (valid2 ne (λ z. e (down ∙ z)))) in
      rw some_block (leaf ∙ ap (λ b. leaf2 fs b j k) down, coherent'')
]

-- The pointers to the index blocks are numbers of blocks.
pub record IsWithin (fs : Fs) (inode : Pointers) : Type 0 where
  pub singly : inode.singly ≤ fs.sb.total_blocks
  pub doubly : inode.doubly ≤ fs.sb.total_blocks
  pub triply : inode.triply ≤ fs.sb.total_blocks
  pub under_doubly : (i : ℕ) → inode.doubly ≢ 0 → child fs inode.doubly i ≤ fs.sb.total_blocks
  pub under_triply : (i : ℕ) → inode.triply ≢ 0 → child fs inode.triply i ≤ fs.sb.total_blocks
  pub below :
      (i j : ℕ)
      → inode.triply ≢ 0
      → child fs inode.triply i ≢ 0
      → child fs (child fs inode.triply i) j ≤ fs.sb.total_blocks

-- The `n`-th block of a file: twelve direct ones, then `p` behind the first pointer, `p * p` behind
-- the second, and `p * p * p` behind the third.
pub record IsBlockOf (p : ℕ) (fs : Fs) (inode : Pointers) (n b : ℕ) : Type 0 where
  pub direct : n < 12 → b ≡ inode.direct n
  pub singly : (i : ℕ) → i < p → n ≡ 12 + i → b ≡ leaf1 fs inode.singly i
  pub doubly : (i j : ℕ) → i < p → j < p → n ≡ 12 + p + (i * p + j) → b ≡ leaf2 fs inode.doubly i j
  pub triply :
      (i j k : ℕ)
      → i < p
      → j < p
      → k < p
      → n ≡ 12 + p + p * p + ((i * p + j) * p + k)
      → b ≡ leaf3 fs inode.triply i j k
