-- ===== src/BlockCache/Parts.antt =====
-- The parts of the pages that a transfer of `count` sectors goes through, and `memcpy` over them.
use arqvenger_os.Base.{
  ℕ, zero, suc, ◌+◌, ◌-◌, ◌*◌, ◌/◌, ◌%◌, ◌≤◌, ◌<◌, ◌≡◌, refl, ap, ◌∙◌, ◌⊎◌, inl, inr, true, false,
  ◌&&◌, ◌∷◌, ◌++◌, arith, Bool-cases, ◌==◌, ltb, leb, ℕ_discrete,
}
use arqvenger_os.BlockCache.{Sector, copy_out, copy_in, part_of}

-- where the transfer stands when the loop comes to `block`
abbrev pub place : ℕ → ℕ → ℕ
place sector block = sector + (block * 8 - sector)

abbrev pub rest : ℕ → ℕ → ℕ → ℕ
rest sector count block = sector + count - place sector block

-- The part of a block, `(first, n)`: it starts at the place that the transfer has come to, stays in the
-- page, and what it leaves starts at the next block.
abbrev pub IsPart : ℕ → ℕ → ℕ → ℕ × ℕ → Type 0
IsPart sector count block (first, n) =
    (block * 8 + first ≡ place sector block)
    × (first + n ≤ 8)
    × (n + rest sector count (block + 1) ≡ rest sector count block)
    × ((rest sector count (block + 1) ≡ 0) ⊎ (block * 8 + first + n ≡ place sector (block + 1)))

pub part_of-IsPart :
    (sector count block : ℕ)
    → sector / 8 ≤ block
    → block ≤ (sector + count) / 8
    → IsPart sector count block (part_of sector count block)
unfolding part_of
part_of-IsPart sector count block le le' = elim (ℕ_discrete block (sector / 8)) [
  | yes p ↦
      let hit : (block == sector / 8) ≡ true = ground arith in
      elim (Bool-cases (ltb 8 (count + sector % 8))) [
        | inl more ↦
            let over : 8 < count + sector % 8 = ground (arith, more) in
            rw (hit, more) (omega arith, omega arith, omega arith, inr (omega arith))
        | inr fits ↦
            let within : count + sector % 8 ≤ 8 = ground (arith, fits) in
            rw (hit, fits) (omega arith, omega arith, omega arith, inl (omega arith))
      ]
  | no p ↦
      let miss : (block == sector / 8) ≡ false = ground arith in
      elim (ℕ_discrete block ((sector + count) / 8)) [
        | yes q ↦
            let last : (block == (sector + count) / 8) ≡ true = ground arith in
            rw (miss, last) (omega arith, omega arith, omega arith, inl (omega arith))
        | no q ↦
            let middle : (block == (sector + count) / 8) ≡ false = ground arith in
            rw (miss, middle) (omega arith, omega arith, omega arith, inr (omega arith))
      ]
]

pub copy_out-ext :
    (f g : ℕ → Sector) (a b n : ℕ)
    → ((j : ℕ) → j < n → f (a + j) ≡ g (b + j))
    → copy_out f a n ≡ copy_out g b n
unfolding copy_out
copy_out-ext f g a b zero h = refl
copy_out-ext f g a b (suc n) h =
    let now : f a ≡ g b = ap f (omega arith) ∙ h 0 (omega arith) ∙ ap g (omega arith) in
    let later =
      copy_out-ext f g (a + 1) (b + 1) n
        (λ j lt. ap f (omega arith) ∙ h (suc j) (omega arith) ∙ ap g (omega arith)) in
    rw (now, later)

pub copy_out-append :
    (f : ℕ → Sector) (a b n r m : ℕ)
    → n + r ≡ m
    → (r ≡ 0) ⊎ (a + n ≡ b)
    → copy_out f a n ++ copy_out f b r ≡ copy_out f a m
unfolding copy_out
copy_out-append f a b zero r m e (inl none_left) =
    let e' : r ≡ 0 = none_left in let e'' : m ≡ 0 = omega (arith, e, none_left) in rw (e', e'')
copy_out-append f a b zero r m e (inr next) =
    let e' : b ≡ a = omega (arith, next) in let e'' : m ≡ r = omega (arith, e) in rw (e', e'')
copy_out-append f a b (suc n) r zero e h = absurd (omega (arith, e))
copy_out-append f a b (suc n) r (suc m) e h =
    ap (λ l. f a ∷ l)
      (copy_out-append f (a + 1) b n r m (omega (arith, e))
        (elim h [ inl none_left ↦ inl none_left | inr next ↦ inr (omega (arith, next)) ]))

-- Two copies into a buffer, one behind the other, are one.
pub copy_in-append :
    (buffer src : ℕ → Sector) (a b k n r m x : ℕ)
    → n + r ≡ m
    → (r ≡ 0) ⊎ (a + n ≡ b)
    → copy_in (copy_in buffer a src k n) b src (k + n) r x ≡ copy_in buffer a src k m x
copy_in-append buffer src a b k n r m x e (inl none_left) =
    let e' : r ≡ 0 = none_left in
    let e'' : n ≡ m = omega (arith, e, none_left) in
    let away : (leb b x && ltb x (b + 0)) ≡ false = ground arith in rw (e', e'', away)
copy_in-append buffer src a b k n r m x e (inr next) =
    elim (Bool-cases (leb b x && ltb x (b + r))) [
      | inl there ↦
          let all_there : (leb a x && ltb x (a + m)) ≡ true = ground (arith, e, next, there) in
          let at : k + n + (x - b) ≡ k + (x - a) = ground (arith, e, next, there) in
          rw (there, all_there) (ap src at)
      | inr away ↦
          let same : (leb a x && ltb x (a + n)) ≡ (leb a x && ltb x (a + m)) =
            ground (arith, e, next, away) in
          rw (away, same)
    ]
