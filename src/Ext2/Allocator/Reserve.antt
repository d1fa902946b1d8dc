-- ===== src/Ext2/Allocator/Reserve.antt =====
-- `allocate_in_group` and `deallocate_block` against the block bitmaps on the disk.
use arqvenger_os.Base.{
  set, leb, if_cases, ◌+◌, ◌<◌, ◌⊎◌, ◌&&◌, ℕ, ◌≤◌, ◌≡◌, ◌≢◌, refl, sym, ap, ◌∙◌, true, false, arith,
  inl, inr, Bool-cases, ◌==◌, ==_iff, ltb, if◌then◌else◌,
}
use arqvenger_os.Bitmap.{Bitmap, bitmap_set, bitmap_clear, bitmap_first_clear, bitmap_test}
use arqvenger_os.Base.Words.{inc32, dec32, inc16, dec16}
use arqvenger_os.Ext2.{
  Fs, group_at, read_block, write_block, write_disk, superblock_block, superblock_write,
  table_start, table_blocks, write_blockgroup_table,
}
use arqvenger_os.Ext2.Allocator.{
  load_bitmap, read_bitmap_at, read_block_bitmap, write_bitmap_at, write_block_bitmap, count_blocks,
  reserve_block, take_clear, allocate_in_group, release_block,
}

-- The bitmap buffer holds what the disk has in its block.
abbrev pub IsCoherent : Fs → Type 0
IsCoherent fs = fs.disk fs.bitmap_block ≡ fs.bitmap_buffer

-- the state with the bitmap of block `b` in the buffer
abbrev pub loaded : Fs → ℕ → Fs
loaded fs b = record fs { bitmap_block = b; bitmap_buffer = fs.disk b }

already_loaded : (fs : Fs) (b : ℕ) → IsCoherent fs → fs.bitmap_block ≡ b → fs ≡ loaded fs b
already_loaded fs b c e =
    λ i. record fs { bitmap_block = e i; bitmap_buffer = (sym c ∙ ap fs.disk e) i }

pub read_bitmap_at-loaded :
    (fs : Fs) (b : ℕ)
    → IsCoherent fs
    → b ≤ fs.sb.total_blocks
    → read_bitmap_at fs b ≡ (true, loaded fs b)
unfolding read_bitmap_at read_block load_bitmap
read_bitmap_at-loaded fs b c h = elim (Bool-cases (fs.bitmap_block == b)) [
  | inl hit ↦ rw hit (ap (λ s. (true, s)) (already_loaded fs b c ((==_iff _ _).0 hit)))
  | inr miss ↦ let small : ltb fs.sb.total_blocks b ≡ false = ground arith in rw (miss, small)
]

-- the state after `map` has become the bitmap in block `b`
abbrev pub saved : Fs → ℕ → Bitmap → Fs
saved fs b map = record fs {
  bitmap_block = b;
  bitmap_buffer = map;
  disk = write_disk fs.disk b map;
}

pub write_bitmap_at-saved :
    (fs : Fs) (b : ℕ) (map : Bitmap)
    → b ≤ fs.sb.total_blocks
    → write_bitmap_at (record (loaded fs b) { bitmap_buffer = map }) b ≡ (true, saved fs b map)
unfolding write_bitmap_at write_block
write_bitmap_at-saved fs b map h =
    let here : (b == b) ≡ true = ground arith in
    let small : ltb fs.sb.total_blocks b ≡ false = ground arith in rw (here, small)

-- the block that holds the block bitmap of group `g`
abbrev pub map_block : Fs → ℕ → ℕ
map_block fs g = (group_at fs g).block_bitmap_address

-- The block holds the superblock or a part of the group table.
abbrev pub IsMeta : Fs → ℕ → Type 0
IsMeta fs d =
    (d ≡ superblock_block fs) ⊎ ((table_start fs ≤ d) × (d < table_start fs + table_blocks fs))

-- What a change of bit `b` of the bitmap in block `a` to `v` leaves: that bit on the disk, and no
-- other bit and no block other than those of the superblock and of the group table, has changed, and the buffer still agrees with the disk.
pub record Changed (fs fs' : Fs) (a b v : ℕ) : Type 0 where
  pub bits :
      (c : ℕ) → bitmap_test (fs'.disk a) c ≡ (if c == b then v else bitmap_test (fs.disk a) c)
  pub others : (d : ℕ) → d ≢ a → (IsMeta fs d → ⊥) → fs'.disk d ≡ fs.disk d
  pub coherent : IsCoherent fs'

-- a change of the counters touches neither the blocks other than the superblock's and the table's nor
-- the buffer
abbrev pub KeepsBitmaps : (Fs → Fs) → Type 0
KeepsBitmaps count =
    (s : Fs)
    → ((d : ℕ) → (IsMeta s d → ⊥) → (count s).disk d ≡ s.disk d)
      × ((count s).bitmap_block ≡ s.bitmap_block)
      × ((count s).bitmap_buffer ≡ s.bitmap_buffer)

pub saved-Changed :
    (fs : Fs) (a b v : ℕ) (map : Bitmap) (count : Fs → Fs)
    → KeepsBitmaps count
    → (IsMeta fs a → ⊥)
    → ((c : ℕ) → bitmap_test map c ≡ (if c == b then v else bitmap_test (fs.disk a) c))
    → Changed fs (count (saved fs a map)) a b v
saved-Changed fs a b v map count keeps apart bits =
    let (disk, block, buffer) = keeps (saved fs a map) in
    let here : (a == a) ≡ true = ground arith in
    let at : write_disk fs.disk a map a ≡ map = rw here in
    record {
      bits = λ c. ap (λ m. bitmap_test m c) (disk a apart) ∙ ap (λ m. bitmap_test m c) at ∙ bits c;
      others = λ d ne out. disk d out ∙ ground arith;
      coherent = ap (count (saved fs a map)).disk block ∙ disk a apart ∙ at ∙ sym buffer;
    }

superblock_written-other :
    (s : Fs) (c : ℕ) → (IsMeta s c → ⊥) → (superblock_write s).disk c ≡ s.disk c
unfolding superblock_write
superblock_written-other s c out =
    let miss : (c == superblock_block s) ≡ false = elim (Bool-cases (c == superblock_block s)) [
      | inl e ↦ absurd (out (inl ((==_iff _ _).0 e)))
      | inr e ↦ e
    ] in
    rw miss

table_written-other :
    (s : Fs) (c : ℕ) → (IsMeta s c → ⊥) → (write_blockgroup_table s).disk c ≡ s.disk c
unfolding write_blockgroup_table
table_written-other s c out =
    elim (Bool-cases (ltb s.sb.total_blocks (table_start s + table_blocks s))) [
      | inl e ↦ rw e
      | inr e ↦
          elim (Bool-cases (leb (table_start s) c && ltb c (table_start s + table_blocks s))) [
            | inl f ↦ absurd (out (inr (ground (arith, f), ground (arith, f))))
            | inr f ↦ rw (e, f)
          ]
    ]

table_written-block : (s : Fs) → (write_blockgroup_table s).bitmap_block ≡ s.bitmap_block
unfolding write_blockgroup_table
table_written-block s =
    if_cases (λ (t : Fs). t.bitmap_block ≡ s.bitmap_block)
      (ltb s.sb.total_blocks (table_start s + table_blocks s)) (λ e. refl) (λ e. refl)

table_written-buffer : (s : Fs) → (write_blockgroup_table s).bitmap_buffer ≡ s.bitmap_buffer
unfolding write_blockgroup_table
table_written-buffer s =
    if_cases (λ (t : Fs). t.bitmap_buffer ≡ s.bitmap_buffer)
      (ltb s.sb.total_blocks (table_start s + table_blocks s)) (λ e. refl) (λ e. refl)

-- A change of the superblock and of the group table, each written to the disk.
pub rewritten-keeps :
    (s fs1 fs2 : Fs)
    → ((d : ℕ) → fs1.disk d ≡ s.disk d)
    → fs2.disk ≡ (superblock_write fs1).disk
    → ((d : ℕ) → IsMeta fs1 d → IsMeta s d)
    → ((d : ℕ) → IsMeta fs2 d → IsMeta s d)
    → fs2.bitmap_block ≡ s.bitmap_block
    → fs2.bitmap_buffer ≡ s.bitmap_buffer
    → ((d : ℕ) → (IsMeta s d → ⊥) → (write_blockgroup_table fs2).disk d ≡ s.disk d)
      × ((write_blockgroup_table fs2).bitmap_block ≡ s.bitmap_block)
      × ((write_blockgroup_table fs2).bitmap_buffer ≡ s.bitmap_buffer)
rewritten-keeps s fs1 fs2 first second meta1 meta2 block buffer = (
  λ d out.
      table_written-other fs2 d (λ m. out (meta2 d m))
      ∙ ap (λ f. f d) second
      ∙ superblock_written-other fs1 d (λ m. out (meta1 d m))
      ∙ first d,
  table_written-block fs2 ∙ block,
  table_written-buffer fs2 ∙ buffer,
)

pub count_blocks-keeps : (all here : ℕ → ℕ) (g : ℕ) → KeepsBitmaps (λ s. count_blocks all here s g)
unfolding count_blocks superblock_write
count_blocks-keeps all here g s =
    let fs1 = record s { sb = record s.sb { unallocated_blocks = all s.sb.unallocated_blocks } } in
    let fs2 = record (superblock_write fs1) {
      group_table =
          set (superblock_write fs1).group_table g (record (group_at (superblock_write fs1) g) {
            unallocated_blocks = here (group_at (superblock_write fs1) g).unallocated_blocks;
          });
    } in
    rewritten-keeps s fs1 fs2 (λ d. refl) refl (λ d m. m) (λ d m. m) refl refl

pub reserve_block-saved :
    (fs : Fs) (g b : ℕ)
    → map_block fs g ≤ fs.sb.total_blocks
    → reserve_block (loaded fs (map_block fs g)) g b
      ≡ count_blocks dec32 dec16
          (saved fs (map_block fs g) (bitmap_set (fs.disk (map_block fs g)) b))
          g
unfolding reserve_block write_block_bitmap
reserve_block-saved fs g b h =
    ap (λ r. count_blocks dec32 dec16 r.1 g)
      (write_bitmap_at-saved fs (map_block fs g) (bitmap_set (fs.disk (map_block fs g)) b) h)

pub allocate_in_group-eq :
    (fs : Fs) (g : ℕ)
    → IsCoherent fs
    → map_block fs g ≤ fs.sb.total_blocks
    → allocate_in_group fs g
      ≡ take_clear
          (loaded fs (map_block fs g))
          g
          (bitmap_first_clear (fs.disk (map_block fs g)) fs.sb.blocks_per_block_group)
unfolding allocate_in_group read_block_bitmap
allocate_in_group-eq fs g c h = rw (read_bitmap_at-loaded fs (map_block fs g) c h)

pub release_block-saved :
    (fs : Fs) (g b : ℕ)
    → IsCoherent fs
    → map_block fs g ≤ fs.sb.total_blocks
    → release_block fs g b ≡ (
      true,
      count_blocks inc32 inc16
          (saved fs (map_block fs g) (bitmap_clear (fs.disk (map_block fs g)) b))
          g,
    )
unfolding release_block read_block_bitmap write_block_bitmap
release_block-saved fs g b c h = rw (read_bitmap_at-loaded fs (map_block fs g) c h) (
    ap (λ r. (true, count_blocks inc32 inc16 r.1 g))
      (write_bitmap_at-saved fs (map_block fs g) (bitmap_clear (fs.disk (map_block fs g)) b) h))
