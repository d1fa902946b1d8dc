-- ===== src/Bitmap/Laws.antt =====
-- What setting and clearing one bit does to every bit of the map.
use Prim.Native.Nat.{bit_and, bit_or}
use arqvenger_os.Base.{
  ℕ, zero, suc, ◌/◌, ◌%◌, ◌<◌, ◌≡◌, refl, [], ◌∷◌, arith, ◌==◌, if◌then◌else◌, length, get_or, set,
}
use arqvenger_os.Base.Bits.{bit, mask, unmask, bit-bit_or, bit-bit_and, bit-mask, bit-unmask}
use arqvenger_os.Bitmap.{Bitmap, bitmap_set, bitmap_clear, bitmap_test}

get_or-set :
    (map : Bitmap) (i j v : ℕ)
    → i < length map
    → get_or (set map i v) j 0 ≡ (if j == i then v else get_or map j 0)
get_or-set [] i j v h = absurd (omega arith)
get_or-set (w ∷ map) zero zero v h = refl
get_or-set (w ∷ map) zero (suc j) v h = ground arith
get_or-set (w ∷ map) (suc i) zero v h = ground arith
get_or-set (w ∷ map) (suc i) (suc j) v h = ground (arith, get_or-set map i j v)

bit-lt : (w j : ℕ) → bit w j < 2
bit-lt w j = omega arith

-- `bitmap_set` of a bit in the map sets it and leaves every other bit of the map as it was.
pub bitmap_test-set :
    (map : Bitmap) (b c : ℕ)
    → b / 32 < length map
    → bitmap_test (bitmap_set map b) c ≡ (if c == b then 1 else bitmap_test map c)
unfolding bitmap_test bitmap_set
bitmap_test-set map b c h = ground (
  arith,
  get_or-set map (b / 32) (c / 32) (bit_or (get_or map (b / 32) 0) (mask (b % 32))) h,
  bit-bit_or (c % 32) (get_or map (b / 32) 0) (mask (b % 32)),
  bit-mask (c % 32) (b % 32),
  bit-lt (get_or map (b / 32) 0) (c % 32),
)

-- `bitmap_clear` of a bit in the map clears it and leaves every other bit of the map as it was.
pub bitmap_test-clear :
    (map : Bitmap) (b c : ℕ)
    → b / 32 < length map
    → bitmap_test (bitmap_clear map b) c ≡ (if c == b then 0 else bitmap_test map c)
unfolding bitmap_test bitmap_clear
bitmap_test-clear map b c h = ground (
  arith,
  get_or-set map (b / 32) (c / 32) (bit_and (get_or map (b / 32) 0) (unmask (b % 32))) h,
  bit-bit_and (c % 32) (get_or map (b / 32) 0) (unmask (b % 32)),
  bit-unmask (c % 32) (b % 32),
  bit-lt (get_or map (b / 32) 0) (c % 32),
)
