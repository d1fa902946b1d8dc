-- ===== src/Bitmap/FirstClear.antt =====
-- `bitmap_first_clear` against its specification: the lowest clear bit.
use arqvenger_os.Base.{
  ℕ, zero, suc, ◌+◌, ◌*◌, ◌/◌, ◌%◌, ◌≤◌, ◌<◌, ◌≡◌, ap, ◌∙◌, inl, inr, true, false, Option, none,
  some, arith, ◌==◌, ==_iff, Bool-cases, get_or, dec_lt,
}
use arqvenger_os.Base.Bits.{bit, bit-ones}
use arqvenger_os.Bitmap.{
  Bitmap, all_ones, bitmap_test, clear_in_slot, or_later, clear_from, bitmap_first_clear,
}

-- The answer is the lowest clear bit from `lo` up to `hi`, or `none` if all of them are set.
abbrev pub IsFirstClear : Bitmap → ℕ → ℕ → Option ℕ → Type 0
IsFirstClear map lo hi none = (c : ℕ) → lo ≤ c → c < hi → bitmap_test map c ≡ 1
IsFirstClear map lo hi (some b) =
    (lo ≤ b)
    × (b < hi)
    × (bitmap_test map b ≡ 0)
    × ((c : ℕ) → lo ≤ c → c < b → bitmap_test map c ≡ 1)

bitmap_test-lt : (map : Bitmap) (b : ℕ) → bitmap_test map b < 2
unfolding bitmap_test
bitmap_test-lt map b = omega arith

test_one : (map : Bitmap) (b : ℕ) → (bitmap_test map b == 0) ≡ false → bitmap_test map b ≡ 1
test_one map b h = ground (arith, bitmap_test-lt map b)

later-IsFirstClear :
    (map : Bitmap) (lo mid hi : ℕ) (r : Option ℕ)
    → lo ≤ mid
    → ((c : ℕ) → lo ≤ c → c < mid → bitmap_test map c ≡ 1)
    → IsFirstClear map mid hi r
    → IsFirstClear map lo hi r
later-IsFirstClear map lo mid hi none le ones f =
    λ c h k. elim (dec_lt c mid) [ yes p ↦ ones c h p | no p ↦ f c (omega arith) k ]
later-IsFirstClear map lo mid hi (some b) le ones (ge, lt, clear, below) = (
  omega arith,
  lt,
  clear,
  λ c h k. elim (dec_lt c mid) [ yes p ↦ ones c h p | no p ↦ below c (omega arith) k ],
)

at : (map : Bitmap) (b c : ℕ) → b ≤ c → c < b + 1 → bitmap_test map b ≡ 1 → bitmap_test map c ≡ 1
at map b c h k e = let same : c ≡ b = omega arith in ap (bitmap_test map) same ∙ e

clear_in_slot-IsFirstClear :
    (map : Bitmap) (n b hi : ℕ) → hi ≡ b + n → IsFirstClear map b hi (clear_in_slot map n b)
unfolding clear_in_slot
clear_in_slot-IsFirstClear map zero b hi e = λ c h k. absurd (omega arith)
clear_in_slot-IsFirstClear map (suc n) b hi e = elim (Bool-cases (bitmap_test map b == 0)) [
  | inl clear ↦
      rw clear (omega arith, omega arith, (==_iff _ _).0 clear, λ c h k. absurd (omega arith))
  | inr set ↦ rw set (
      later-IsFirstClear map b (b + 1) hi (clear_in_slot map n (b + 1)) (omega arith)
        (λ c h k. at map b c h k (test_one map b set))
        (clear_in_slot-IsFirstClear map n (b + 1) hi (omega arith)))
]

or_later-IsFirstClear :
    (map : Bitmap) (lo mid hi : ℕ) (r s : Option ℕ)
    → lo ≤ mid
    → mid ≤ hi
    → IsFirstClear map lo mid r
    → IsFirstClear map mid hi s
    → IsFirstClear map lo hi (or_later r s)
or_later-IsFirstClear map lo mid hi none s h k f g = later-IsFirstClear map lo mid hi s h f g
or_later-IsFirstClear map lo mid hi (some b) s h k (ge, lt, clear, below) g =
    (ge, omega arith, clear, below)

-- a slot of all ones
full_slot :
    (map : Bitmap) (i c : ℕ)
    → (get_or map i 0 == all_ones) ≡ true
    → i * 32 ≤ c
    → c < (i + 1) * 32
    → bitmap_test map c ≡ 1
unfolding bitmap_test
full_slot map i c e h k =
    let slot : c / 32 ≡ i = omega arith in
    ap (λ j. bit (get_or map j 0) (c % 32)) slot
    ∙ ap (λ w. bit w (c % 32)) ((==_iff _ _).0 e)
    ∙ bit-ones (c % 32) (omega arith)

clear_from-IsFirstClear :
    (map : Bitmap) (n i hi : ℕ)
    → hi ≡ (i + n) * 32
    → IsFirstClear map (i * 32) hi (clear_from map n i)
unfolding clear_from
clear_from-IsFirstClear map zero i hi e = λ c h k. absurd (omega arith)
clear_from-IsFirstClear map (suc n) i hi e =
    let later = clear_from-IsFirstClear map n (i + 1) hi (omega arith) in
    elim (Bool-cases (get_or map i 0 == all_ones)) [
      | inl full ↦ rw full (
          later-IsFirstClear map (i * 32) ((i + 1) * 32) hi (clear_from map n (i + 1)) (omega arith)
            (λ c h k. full_slot map i c full h k) later)
      | inr some_clear ↦ rw some_clear (
          or_later-IsFirstClear map (i * 32) ((i + 1) * 32) hi (clear_in_slot map 32 (i * 32))
            (clear_from map n (i + 1)) (omega arith) (omega arith)
            (clear_in_slot-IsFirstClear map 32 (i * 32) ((i + 1) * 32) (omega arith)) later)
    ]

-- `bitmap_first_clear` finds the lowest clear bit of the whole slots among the first `entries`
-- bits, and says that there is none only if all of those are set.
pub bitmap_first_clear-IsFirstClear :
    (map : Bitmap) (entries : ℕ)
    → IsFirstClear map 0 (entries / 32 * 32) (bitmap_first_clear map entries)
unfolding bitmap_first_clear
bitmap_first_clear-IsFirstClear map entries =
    clear_from-IsFirstClear map (entries / 32) 0 (entries / 32 * 32) (omega arith)
