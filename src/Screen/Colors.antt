-- ===== src/Screen/Colors.antt =====
-- The attribute of the screen and its colours.
use arqvenger_os.Base.{
  ℕ, ◌+◌, ◌-◌, ◌*◌, ◌/◌, ◌%◌, ◌≤◌, ◌<◌, ◌≡◌, ◌≢◌, ap, ◌∙◌, inl, inr, true, not, ◌&&◌, arith, ◌==◌,
  ltb, leb, Bool-cases,
}
use arqvenger_os.Screen.{attribute_of, foreground}
use arqvenger_os.Screen.Control.{changed_color}

-- A byte is its foreground, its background and whether it blinks.
attribute_of-parts : (a color : ℕ) → a < 256 → color < 16 → foreground a color ≡ a - a % 16 + color
unfolding attribute_of
attribute_of-parts a color h small = elim (Bool-cases (a / 128 % 2 == 1)) [
  | inl on ↦
      let off_before : ((color % 16 + a / 16 % 8 % 16 * 16) / 128 == 0) ≡ true =
        ground (arith, h, small) in
      rw (on, off_before) (ground (arith, h, small, on))
  | inr off ↦ rw off (ground (arith, h, small, off))
]

bold :
    (a : ℕ) → a % 16 ≢ 0 → a % 16 ≢ 6 → a % 16 < 8 → changed_color a 1 ≡ foreground a (a % 16 + 8)
unfolding changed_color
bold a black brown h =
    let go : (not (a % 16 == 0) && not (a % 16 == 6) && ltb (a % 16) 8) ≡ true =
      ground (arith, black, brown, h) in
    rw go

not_bold : (a : ℕ) → 9 ≤ a % 16 → a % 16 ≢ 14 → changed_color a 22 ≡ foreground a (a % 16 - 8)
unfolding changed_color
not_bold a h yellow =
    let go : (leb 9 (a % 16) && not (a % 16 == 14)) ≡ true = ground (arith, h, yellow) in rw go

-- The sequence for bold makes the foreground of an attribute bright, and the one for not bold takes
-- that back, where the foreground is below 8 and neither black nor brown.
pub changed_color-bold :
    (a : ℕ)
    → a < 256
    → a % 16 ≢ 0
    → a % 16 ≢ 6
    → a % 16 < 8
    → (changed_color a 1 ≡ a + 8) × (changed_color (changed_color a 1) 22 ≡ a)
changed_color-bold a h black brown small =
    let brighter : changed_color a 1 ≡ a + 8 =
      bold a black brown small
      ∙ attribute_of-parts a (a % 16 + 8) h (omega (arith, small))
      ∙ omega arith in
    let fits : a + 8 < 256 = omega (arith, h, small) in
    let back : changed_color (a + 8) 22 ≡ a =
      not_bold (a + 8) (omega (arith, small, black)) (λ e. brown (omega (arith, e, small)))
      ∙ attribute_of-parts (a + 8) ((a + 8) % 16 - 8) fits (omega (arith, small))
      ∙ omega (arith, small, black) in
    (brighter, ap (λ b. changed_color b 22) brighter ∙ back)
