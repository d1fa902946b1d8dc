-- ===== src/BlockCache/View.antt =====
-- The disk that the cache shows.
use arqvenger_os.Base.{
  ℕ, ◌+◌, ◌-◌, ◌*◌, ◌/◌, ◌%◌, ◌<◌, ◌≡◌, ◌≢◌, refl, sym, subst, ap, ◌∙◌, ◌⊎◌, inl, inr, true, false,
  ◌&&◌, Option, none, some, arith, Bool-cases, eq_of_some, ◌==◌, ==_iff, ltb, leb, ℕ_discrete,
}
use arqvenger_os.BlockCache.{Disk, Chunk, Cache, update, write_page}

-- The cache shows the disk `v`: a chunk holds what `v` has in its page, and the disk itself has the
-- rest, but for the pages of dirty chunks. Each page has at most one chunk.
pub record Shows (c : Cache) (v : Disk) : Type 0 where
  pub cached :
      (i : ℕ) (ch : Chunk) (k : ℕ)
      → c.table i ≡ some ch
      → k < 8
      → ch.buffer k ≡ v (ch.initial_sector + k)
  pub stored :
      (x : ℕ)
      → ((i : ℕ) (ch : Chunk)
          → c.table i ≡ some ch
          → ch.dirty ≡ true
          → ch.initial_sector ≢ x / 8 * 8)
      → c.disk x ≡ v x
  pub aligned : (i : ℕ) (ch : Chunk) → c.table i ≡ some ch → ch.initial_sector % 8 ≡ 0
  pub unique :
      (i j : ℕ) (a b : Chunk)
      → c.table i ≡ some a
      → c.table j ≡ some b
      → a.initial_sector ≡ b.initial_sector
      → i ≡ j
  pub within : (i : ℕ) (ch : Chunk) → c.table i ≡ some ch → i < 8

-- the page of a sector
in_page :
    (s x : ℕ)
    → s % 8 ≡ 0
    → (leb s x && ltb x (s + 8)) ≡ true
    → (x / 8 * 8 ≡ s) × (s + (x - s) ≡ x) × (x - s < 8)
in_page s x a e = ground arith

out_of_page : (s x : ℕ) → s % 8 ≡ 0 → (leb s x && ltb x (s + 8)) ≡ false → s ≢ x / 8 * 8
out_of_page s x a e = ground arith

-- The chunk that a table has at `j` after an update at `i`.
pub at_update :
    (t : ℕ → Option Chunk) (i j : ℕ) (o : Option Chunk) {ch : Chunk}
    → update t i o j ≡ some ch
    → ((j ≡ i) × (o ≡ some ch)) ⊎ ((j ≢ i) × (t j ≡ some ch))
at_update t i j o e = elim (ℕ_discrete j i) [
  | yes p ↦ let hit : (j == i) ≡ true = (==_iff j i).1 p in inl (p, rw hit at e)
  | no p ↦ let miss : (j == i) ≡ false = ground arith in inr (p, rw miss at e)
]

-- Every chunk of `c'` was in `c` at the same index, with the same page in it.
pub record Carried (c c' : Cache) : Type 0 where
  pub old :
      (j : ℕ) (ch : Chunk)
      → c'.table j ≡ some ch
      → (ch0 : Chunk) × (c.table j ≡ some ch0)
        × (ch.initial_sector ≡ ch0.initial_sector)
        × ((k : ℕ) → ch.buffer k ≡ ch0.buffer k)

Shows-Carried :
    (c c' : Cache) (v : Disk)
    → Shows c v
    → Carried c c'
    → ((x : ℕ)
        → ((i : ℕ) (ch : Chunk)
            → c'.table i ≡ some ch
            → ch.dirty ≡ true
            → ch.initial_sector ≢ x / 8 * 8)
        → c'.disk x ≡ v x)
    → Shows c' v
Shows-Carried c c' v s from stored = record {
  cached = λ j ch k f h.
      let (ch0, e, first, same) = from.old j ch f in
      same k ∙ s.cached j ch0 k e h ∙ ap (λ a. v (a + k)) (sym first);
  stored = stored;
  aligned = λ j ch f.
      let (ch0, e, first, same) = from.old j ch f in ap (λ a. a % 8) first ∙ s.aligned j ch0 e;
  unique = λ j k a b f g q.
      let (a0, e, first, same) = from.old j a f in
      let (b0, e', first', same') = from.old k b g in
      s.unique j k a0 b0 e e' (sym first ∙ q ∙ first');
  within = λ j ch f. let (ch0, e, first, same) = from.old j ch f in s.within j ch0 e;
}

-- A chunk is written to the disk, and then taken off the table or marked as clean.
pub flushed :
    (c : Cache) (v : Disk) (i : ℕ) (entry : Chunk) (c' : Cache)
    → Shows c v
    → c.table i ≡ some entry
    → Carried c c'
    → ((j : ℕ) → j ≢ i → c'.table j ≡ c.table j)
    → c'.disk ≡ write_page c.disk entry.initial_sector entry.buffer
    → Shows c' v
flushed c v i entry c' s e from other d = Shows-Carried c c' v s from (λ x h.
    ap (λ (disk : Disk). disk x) d
    ∙ elim (Bool-cases (leb entry.initial_sector x && ltb x (entry.initial_sector + 8))) [
      | inl here ↦
          let (page, back, small) = in_page entry.initial_sector x (s.aligned i entry e) here in
          rw here (s.cached i entry (x - entry.initial_sector) e small ∙ ap v back)
      | inr away ↦ rw away (
          s.stored x (λ j ch f dirty. elim (ℕ_discrete j i) [
            | yes p ↦
                let same : entry ≡ ch = eq_of_some (sym e ∙ ap c.table (sym p) ∙ f) in
                subst (λ (a : Chunk). a.initial_sector ≢ x / 8 * 8) same
                  (out_of_page entry.initial_sector x (s.aligned i entry e) away)
            | no p ↦ h j ch (other j p ∙ f) dirty
          ]))
    ])

pub Carried-none : (c c' : Cache) (i : ℕ) → c'.table ≡ update c.table i none → Carried c c'
Carried-none c c' i e = record {
  old = λ j ch f.
      elim (at_update c.table i j none (ap (λ (t : ℕ → Option Chunk). t j) (sym e) ∙ f)) [
        | inl (p, q) ↦ absurd (cc)
        | inr (p, q) ↦ (ch, q, refl, λ k. refl)
      ];
}

-- The chunk at `i` changes, but not its page.
pub Carried-some :
    (c c' : Cache) (i : ℕ) (entry new : Chunk)
    → c'.table ≡ update c.table i (some new)
    → c.table i ≡ some entry
    → new.initial_sector ≡ entry.initial_sector
    → ((k : ℕ) → new.buffer k ≡ entry.buffer k)
    → Carried c c'
Carried-some c c' i entry new e here first same = record {
  old = λ j ch f.
      elim (at_update c.table i j (some new) (ap (λ (t : ℕ → Option Chunk). t j) (sym e) ∙ f)) [
        | inl (p, q) ↦
            let is : new ≡ ch = eq_of_some q in
            (
              entry,
              ap c.table p ∙ here,
              ap (λ (a : Chunk). a.initial_sector) (sym is) ∙ first,
              λ k. ap (λ (a : Chunk). a.buffer k) (sym is) ∙ same k,
            )
        | inr (p, q) ↦ (ch, q, refl, λ k. refl)
      ];
}

pub update_other :
    (t : ℕ → Option Chunk) (i j : ℕ) (o : Option Chunk) → j ≢ i → update t i o j ≡ t j
update_other t i j o ne = let miss : (j == i) ≡ false = ground arith in rw miss

pub update_self : (t : ℕ → Option Chunk) (i : ℕ) (o : Option Chunk) → update t i o i ≡ o
update_self t i o = let hit : (i == i) ≡ true = ground arith in rw hit

-- The disk and the dirty pages are as they were.
pub kept :
    (c c' : Cache) (v : Disk) (i : ℕ)
    → Shows c v
    → Carried c c'
    → ((j : ℕ) → j ≢ i → c'.table j ≡ c.table j)
    → ((ch : Chunk)
        → c.table i ≡ some ch
        → ch.dirty ≡ true
        → (ch' : Chunk) × (c'.table i ≡ some ch')
          × (ch'.dirty ≡ true)
          × (ch'.initial_sector ≡ ch.initial_sector))
    → c'.disk ≡ c.disk
    → Shows c' v
kept c c' v i s from other self d = Shows-Carried c c' v s from (λ x h.
    ap (λ (disk : Disk). disk x) d
    ∙ s.stored x (λ j ch f dirty. elim (ℕ_discrete j i) [
      | yes p ↦
          let (ch', f', dirty', first) = self ch (ap c.table (sym p) ∙ f) dirty in
          subst (λ a. a ≢ x / 8 * 8) first (h i ch' f' dirty')
      | no p ↦ h j ch (other j p ∙ f) dirty
    ]))
