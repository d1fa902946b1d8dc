-- ===== src/Ext2/DataBuffers/Loading.antt =====
-- `load_buffer`, the blocks in the buffers and their owners.
use arqvenger_os.Base.{
  ℕ, zero, suc, ◌+◌, ◌%◌, ◌≤◌, ◌<◌, ◌≡◌, ◌≢◌, refl, sym, ap, ◌∙◌, inl, inr, true, false, Option,
  none, some, arith, ◌==◌, ==_iff, ltb, Bool-cases, ℕ_discrete,
}
use arqvenger_os.Ext2.{Fs, read_block}
use arqvenger_os.Ext2.DataBuffers.{
  Buffers, find_owner, reset, free_or_evict, own_or_other, choose_buffer, load_buffer,
}

-- The buffers hold what the disk has at their addresses, and an inode owns at most one of them.
pub record IsSound (fs : Fs) (b : Buffers) : Type 0 where
  pub held : (i : ℕ) → b.address i ≢ 0 → b.contents i ≡ fs.disk (b.address i)
  pub single : (i j : ℕ) → i < 10 → j < 10 → b.owner i ≢ 0 → b.owner i ≡ b.owner j → i ≡ j

abbrev pub IsOwner : Buffers → ℕ → ℕ → Option ℕ → Type 0
IsOwner b number n none = (j : ℕ) → j < n → b.owner j ≢ number
IsOwner b number n (some i) = (i < n) × (b.owner i ≡ number)

find_owner-IsOwner :
    (b : Buffers) (number n i : ℕ)
    → ((j : ℕ) → j < i → b.owner j ≢ number)
    → IsOwner b number (i + n) (find_owner b number n i)
unfolding find_owner
find_owner-IsOwner b number zero i before = λ j lt. before j (omega (arith, lt))
find_owner-IsOwner b number (suc n) i before = elim (Bool-cases (b.owner i == number)) [
  | inl e ↦ rw e (omega arith, (==_iff (b.owner i) number).0 e)
  | inr e ↦
      let next : i + suc n ≡ i + 1 + n = omega arith in
      rw (e, next)
        (find_owner-IsOwner b number n (i + 1) (λ j lt. elim (ℕ_discrete j i) [
          | yes same ↦ λ is. ground (arith, e, ap b.owner (sym same) ∙ is)
          | no other ↦ before j (omega arith)
        ]))
]

-- The chosen buffer is the inode's.
abbrev pub Chosen : Fs → ℕ → ℕ × Buffers → Type 0
Chosen fs number (i, b) = (i < 10) × (b.owner i ≡ number) × IsSound fs b

reset-Chosen :
    (fs : Fs) (b : Buffers) (number i e : ℕ)
    → IsSound fs b
    → ((j : ℕ) → j < 10 → b.owner j ≢ number)
    → i < 10
    → Chosen fs number (i, reset (record b { evict = e }) number i)
reset-Chosen fs b number i e s nobody small =
    let self : (i == i) ≡ true = ground arith in
    (
      small,
      rw self refl,
      record {
        held = λ j. elim (Bool-cases (j == i)) [
          | inl same ↦ rw same (λ ne. absurd (ne refl))
          | inr other ↦ rw other (s.held j)
        ];
        single = λ j k hj hk. elim (Bool-cases (j == i)) [
          | inl same ↦ elim (Bool-cases (k == i)) [
            | inl same' ↦ λ ne is. (==_iff j i).0 same ∙ sym ((==_iff k i).0 same')
            | inr other ↦ rw (same, other) (λ ne is. absurd (nobody k hk (sym is)))
          ]
          | inr other ↦ elim (Bool-cases (k == i)) [
            | inl same ↦ rw (other, same) (λ ne is. absurd (nobody j hj is))
            | inr other' ↦ rw (other, other') (s.single j k hj hk)
          ]
        ];
      },
    )

choose_buffer-Chosen :
    (fs : Fs) (b : Buffers) (number : ℕ) → IsSound fs b → Chosen fs number (choose_buffer b number)
unfolding choose_buffer
choose_buffer-Chosen fs b number s =
    own (find_owner b number 10 0) (find_owner-IsOwner b number 10 0 (λ j lt. absurd (omega arith)))
  where
    free :
        (o : Option ℕ)
        → ((j : ℕ) → j < 10 → b.owner j ≢ number)
        → IsOwner b 0 10 o
        → Chosen fs number (free_or_evict b number o)
    free none nobody full =
        reset-Chosen fs b number ((b.evict + 1) % 10) ((b.evict + 1) % 10) s nobody (omega arith)
    free (some i) nobody (small, is) = reset-Chosen fs b number i b.evict s nobody small

    own : (o : Option ℕ) → IsOwner b number 10 o → Chosen fs number (own_or_other b number o)
    own none nobody =
        free (find_owner b 0 10 0) nobody
          (find_owner-IsOwner b 0 10 0 (λ j lt. absurd (omega arith)))
    own (some i) (small, is) = (small, is, s)

-- A buffer of the inode has the block.
abbrev pub HasBlock : Fs → ℕ → ℕ → Option ℕ × Buffers → Type 0
HasBlock fs number block (o, b) =
    (i : ℕ) × (o ≡ some i)
    × (i < 10)
    × (b.owner i ≡ number)
    × (b.contents i ≡ fs.disk block)
    × IsSound fs b

-- `load_buffer` of a block that the disk has, other than block 0, where the buffers hold what the
-- disk has at their addresses and an inode owns at most one of them, succeeds with a buffer that
-- the inode owns and that holds the block. What was assumed of the buffers stays true.
pub load_buffer-HasBlock :
    (fs : Fs) (b : Buffers) (number block : ℕ)
    → IsSound fs b
    → block ≢ 0
    → block ≤ fs.sb.total_blocks
    → HasBlock fs number block (load_buffer fs b number block)
unfolding load_buffer read_block
load_buffer-HasBlock fs b number block s some_block valid =
    let i = (choose_buffer b number).0 in
    let b1 = (choose_buffer b number).1 in
    let (small, mine, s1) = choose_buffer-Chosen fs b number s in
    elim (Bool-cases (b1.address i == block)) [
      | inl e ↦
          let at : b1.address i ≡ block = (==_iff (b1.address i) block).0 e in
          rw e (i, refl, small, mine, s1.held i (λ z. some_block (sym at ∙ z)) ∙ ap fs.disk at, s1)
      | inr e ↦
          let in_range : ltb fs.sb.total_blocks block ≡ false = ground (arith, valid) in
          let self : (i == i) ≡ true = ground arith in
          rw (e, in_range)
            (
              i,
              refl,
              small,
              mine,
              rw self refl,
              record {
                held = λ j. elim (Bool-cases (j == i)) [
                  | inl same ↦ rw same (λ ne. refl)
                  | inr other ↦ rw other (s1.held j)
                ];
                single = s1.single;
              },
            )
    ]
