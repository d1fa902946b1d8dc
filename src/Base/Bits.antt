-- ===== src/Base/Bits.antt =====
-- Single bits of a word, and how `|` and `&` act on them.
use Prim.Native.Nat.{max, digits, bit_and, bit_or, bit_and-bitwise, bit_or-bitwise}
use native.Mathlib.Nat.{div-div-eq-div-mul, pow-suc, mul_comm}
use arqvenger_os.Base.Ranges.{holds_from, holds_from-at}
use arqvenger_os.Base.{
  ℕ, zero, suc, ◌+◌, ◌-◌, ◌*◌, ◌/◌, ◌%◌, ◌^◌, ◌≤◌, ◌<◌, min, ◌≡◌, refl, sym, ap, ◌∙◌, Bool, true,
  arith, ◌==◌, ==_iff, if◌then◌else◌,
}

module _ (z : ℕ → ℕ) (f : ℕ → ℕ → ℕ) where
  -- Fuel beyond the number changes nothing.
  digits_enough : (n a b : ℕ) → a ≤ n → digits z f (suc n) a b ≡ digits z f n a b
  digits_enough zero zero b h = refl
  digits_enough zero (suc a) b h = absurd (omega arith)
  digits_enough (suc n) zero b h = refl
  digits_enough (suc n) (suc a) b h =
      ap (λ d. d * 2 + f (suc a % 2) (b % 2)) (digits_enough n (suc a / 2) (b / 2) (omega arith))

  digits_level : (d n a b : ℕ) → a ≤ n → digits z f (d + n) a b ≡ digits z f n a b
  digits_level zero n a b h = ap (λ k. digits z f k a b) (omega arith)
  digits_level (suc d) n a b h =
      ap (λ k. digits z f k a b) {y = suc (d + n)} (omega arith)
      ∙ digits_enough (d + n) a b (omega arith)
      ∙ digits_level d n a b h

  digits_half :
      (a b : ℕ) → digits z f a (suc a / 2) (b / 2) ≡ digits z f (suc a / 2) (suc a / 2) (b / 2)
  digits_half a b =
      ap (λ k. digits z f k (suc a / 2) (b / 2)) (omega arith)
      ∙ digits_level (a - suc a / 2) (suc a / 2) (suc a / 2) (b / 2) (omega arith)

-- `|` and `&` on the lowest digit and on the rest
or_digit : (a b : ℕ) → bit_or a b ≡ bit_or (a / 2) (b / 2) * 2 + max (a % 2) (b % 2)
or_digit zero b = omega (arith, bit_or-bitwise 0 b, bit_or-bitwise 0 (b / 2))
or_digit (suc a) b = omega (
  arith,
  bit_or-bitwise (suc a) b,
  bit_or-bitwise (suc a / 2) (b / 2),
  digits_half (λ y. y) max a b,
)

and_digit : (a b : ℕ) → bit_and a b ≡ bit_and (a / 2) (b / 2) * 2 + min (a % 2) (b % 2)
and_digit zero b = omega (arith, bit_and-bitwise 0 b, bit_and-bitwise 0 (b / 2))
and_digit (suc a) b = omega (
  arith,
  bit_and-bitwise (suc a) b,
  bit_and-bitwise (suc a / 2) (b / 2),
  digits_half (λ y. 0) min a b,
)

-- `(w >> j) & 1`
abbrev pub bit : ℕ → ℕ → ℕ
bit w j = w / 2 ^ j % 2

pub bit-suc : (w j : ℕ) → bit w (suc j) ≡ bit (w / 2) j
bit-suc w j =
    ap (λ d. w / d % 2) (pow-suc 2 j ∙ mul_comm (2 ^ j) 2)
    ∙ ap (λ d. d % 2) (sym (div-div-eq-div-mul w 2 (2 ^ j)))

pub bit-bit_or : (j a b : ℕ) → bit (bit_or a b) j ≡ max (bit a j) (bit b j)
bit-bit_or zero a b = omega (arith, or_digit a b)
bit-bit_or (suc j) a b = omega (
  arith,
  bit-suc (bit_or a b) j,
  bit-suc a j,
  bit-suc b j,
  ap (λ w. bit w j) half,
  bit-bit_or j (a / 2) (b / 2),
)
  where
    half : bit_or a b / 2 ≡ bit_or (a / 2) (b / 2)
    half = omega (arith, or_digit a b)

pub bit-bit_and : (j a b : ℕ) → bit (bit_and a b) j ≡ min (bit a j) (bit b j)
bit-bit_and zero a b = omega (arith, and_digit a b)
bit-bit_and (suc j) a b = omega (
  arith,
  bit-suc (bit_and a b) j,
  bit-suc a j,
  bit-suc b j,
  ap (λ w. bit w j) half,
  bit-bit_and j (a / 2) (b / 2),
)
  where
    half : bit_and a b / 2 ≡ bit_and (a / 2) (b / 2)
    half = omega (arith, and_digit a b)

-- `0x1 << j`, and its complement
abbrev pub mask : ℕ → ℕ
mask j = 2 ^ j

abbrev pub unmask : ℕ → ℕ
unmask j = 2 ^ 32 - 1 - 2 ^ j

-- the test at every pair of bit numbers of a word
all_pairs : (ℕ → ℕ → Bool) → Bool
all_pairs p = holds_from (λ j. holds_from (p j) 32 0) 32 0

all_pairs-at : (p : ℕ → ℕ → Bool) (j i : ℕ) → all_pairs p ≡ true → i < 32 → j < 32 → p j i ≡ true
unfolding all_pairs
all_pairs-at p j i e hi hj =
    holds_from-at (p j) 32 0 i
      (holds_from-at (λ j. holds_from (p j) 32 0) 32 0 j e (omega arith) (omega arith))
      (omega arith) (omega arith)

mask_table : all_pairs (λ j i. bit (mask j) i == (if i == j then 1 else 0)) ≡ true
unfolding all_pairs holds_from
mask_table = refl

unmask_table : all_pairs (λ j i. bit (unmask j) i == (if i == j then 0 else 1)) ≡ true
unfolding all_pairs holds_from
unmask_table = refl

pub bit-mask : (i j : ℕ) → i < 32 → j < 32 → bit (mask j) i ≡ (if i == j then 1 else 0)
bit-mask i j hi hj =
    (==_iff _ _).0
      (all_pairs-at (λ j i. bit (mask j) i == (if i == j then 1 else 0)) j i mask_table hi hj)

pub bit-unmask : (i j : ℕ) → i < 32 → j < 32 → bit (unmask j) i ≡ (if i == j then 0 else 1)
bit-unmask i j hi hj =
    (==_iff _ _).0
      (all_pairs-at (λ j i. bit (unmask j) i == (if i == j then 0 else 1)) j i unmask_table hi hj)

ones_table : holds_from (λ j. bit 0xffff_ffff j == 1) 32 0 ≡ true
unfolding holds_from
ones_table = refl

pub bit-ones : (j : ℕ) → j < 32 → bit 0xffff_ffff j ≡ 1
bit-ones j h =
    (==_iff _ _).0
      (holds_from-at (λ j. bit 0xffff_ffff j == 1) 32 0 j ones_table (omega arith) (omega arith))
