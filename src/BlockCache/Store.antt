-- ===== src/BlockCache/Store.antt =====
-- A write into a chunk, and the disk that the cache shows.
use arqvenger_os.Base.{
  ℕ, ◌+◌, ◌-◌, ◌*◌, ◌/◌, ◌%◌, ◌≤◌, ◌≡◌, ◌≢◌, refl, sym, subst, ap, ◌∙◌, inl, inr, true, false, ◌&&◌,
  some, arith, Bool-cases, eq_of_some, leb, ltb, ℕ_discrete,
}
use arqvenger_os.BlockCache.{Sector, Disk, Chunk, Cache, update, copy_in}
use arqvenger_os.BlockCache.View.{Shows, at_update, update_self, update_other}

pub Shows-ext : (c : Cache) (v w : Disk) → ((x : ℕ) → v x ≡ w x) → Shows c v → Shows c w
Shows-ext c v w same s = record {
  cached = λ i ch k e lt. s.cached i ch k e lt ∙ same (ch.initial_sector + k);
  stored = λ x away. s.stored x away ∙ same x;
  aligned = s.aligned;
  unique = s.unique;
  within = s.within;
}

-- a copy inside a page changes no other page
copy_in-other :
    (v buff : ℕ → Sector) (block first n k x : ℕ)
    → first + n ≤ 8
    → x / 8 * 8 ≢ block * 8
    → copy_in v (block * 8 + first) buff k n x ≡ v x
copy_in-other v buff block first n k x fits ne =
    let away : (leb (block * 8 + first) x && ltb x (block * 8 + first + n)) ≡ false =
      ground (arith, fits, ne) in
    rw away

copy_in-same :
    (b v buff : ℕ → Sector) (block first n k j : ℕ)
    → b j ≡ v (block * 8 + j)
    → copy_in b first buff k n j ≡ copy_in v (block * 8 + first) buff k n (block * 8 + j)
copy_in-same b v buff block first n k j e =
    let same : (leb (block * 8 + first) (block * 8 + j)
          && ltb (block * 8 + j) (block * 8 + first + n))
        ≡ (leb first j && ltb j (first + n)) =
      ground arith in
    let at : block * 8 + j - (block * 8 + first) ≡ j - first = omega arith in
    rw (same, at)
      (elim (Bool-cases (leb first j && ltb j (first + n))) [
        | inl there ↦ rw there
        | inr away ↦ rw away e
      ])

-- A chunk is written to, and marked as dirty.
pub written :
    (c : Cache) (v : Disk) (i block first n k : ℕ) (ch new : Chunk) (buff : ℕ → Sector)
    → Shows c v
    → c.table i ≡ some ch
    → ch.initial_sector ≡ block * 8
    → first + n ≤ 8
    → new.initial_sector ≡ ch.initial_sector
    → new.dirty ≡ true
    → ((j : ℕ) → new.buffer j ≡ copy_in ch.buffer first buff k n j)
    → Shows
        (record c { table = update c.table i (some new) })
        (copy_in v (block * 8 + first) buff k n)
written c v i block first n k ch new buff s e at fits first_same dirty bytes = record {
  cached = λ j a m f lt. elim (at_update c.table i j (some new) f) [
    | inl p ↦
        ap (λ (b : Chunk). b.buffer m) (sym (eq_of_some p.1))
        ∙ bytes m
        ∙ copy_in-same ch.buffer v buff block first n k m
            (s.cached i ch m e lt ∙ ap (λ b. v (b + m)) at)
        ∙ ap (λ b. copy_in v (block * 8 + first) buff k n (b + m)) (sym (first_same ∙ at))
        ∙ ap (λ (b : Chunk). copy_in v (block * 8 + first) buff k n (b.initial_sector + m))
            (eq_of_some p.1)
    | inr (ne, f') ↦
        s.cached j a m f' lt
        ∙ sym (
            copy_in-other v buff block first n k (a.initial_sector + m) fits (λ same.
              ne (s.unique j i a ch f' e (omega (arith, s.aligned j a f', lt, same) ∙ sym at))))
  ];
  stored = λ x away.
      let here : new.initial_sector ≢ x / 8 * 8 =
        away i new (update_self c.table i (some new)) dirty in
      s.stored x (λ j a f dirty_a. elim (ℕ_discrete j i) [
        | yes p ↦
            let is : ch ≡ a = eq_of_some (sym e ∙ ap c.table (sym p) ∙ f) in
            subst (λ (b : Chunk). b.initial_sector ≢ x / 8 * 8) is (λ q. here (first_same ∙ q))
        | no p ↦ away j a (update_other c.table i j (some new) p ∙ f) dirty_a
      ])
      ∙ sym
          (copy_in-other v buff block first n k x fits (λ same. here (first_same ∙ at ∙ sym same)));
  aligned = λ j a f. elim (at_update c.table i j (some new) f) [
    | inl p ↦
        ap (λ (b : Chunk). b.initial_sector % 8) (sym (eq_of_some p.1))
        ∙ ap (λ b. b % 8) first_same
        ∙ s.aligned i ch e
    | inr (ne, f') ↦ s.aligned j a f'
  ];
  unique = λ j l a b f g same.
      let (a', f', is) = old j a f in
      let (b', g', is') = old l b g in s.unique j l a' b' f' g' (is ∙ same ∙ sym is');
  within = λ j a f. let (a', f', is) = old j a f in s.within j a' f';
}
  where
    old :
        (j : ℕ) (a : Chunk)
        → update c.table i (some new) j ≡ some a
        → (a' : Chunk) × (c.table j ≡ some a') × (a'.initial_sector ≡ a.initial_sector)
    old j a f = elim (at_update c.table i j (some new) f) [
      | inl p ↦ (
        ch,
        ap c.table p.0 ∙ e,
        sym first_same ∙ ap (λ (b : Chunk). b.initial_sector) (eq_of_some p.1),
      )
      | inr (ne, f') ↦ (a, f', refl)
    ]
