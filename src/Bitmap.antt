-- ===== src/Bitmap.antt =====
-- The bitmaps of bitmap.h, over an array of 32-bit words.
pub mod Laws
pub mod FirstClear
mod Examples
use Prim.Native.Nat.{bit_and, bit_or}
use arqvenger_os.Base.{
  ℕ, zero, suc, ◌+◌, ◌*◌, ◌/◌, ◌%◌, Bool, true, false, not, Option, none, some, List, ◌==◌,
  if◌then◌else◌, get_or, set,
}
use arqvenger_os.Base.Bits.{bit, mask, unmask}

-- A map is its words, each below 2 ^ 32; a bit number is not negative.
abbrev pub Bitmap : Type 0
Bitmap = List ℕ

abbrev pub all_ones : ℕ
all_ones = 0xffff_ffff

unfoldable pub bitmap_set : Bitmap → ℕ → Bitmap
bitmap_set map b = set map (b / 32) (bit_or (get_or map (b / 32) 0) (mask (b % 32)))

unfoldable pub bitmap_clear : Bitmap → ℕ → Bitmap
bitmap_clear map b = set map (b / 32) (bit_and (get_or map (b / 32) 0) (unmask (b % 32)))

unfoldable pub bitmap_test : Bitmap → ℕ → ℕ
bitmap_test map b = bit (get_or map (b / 32) 0) (b % 32)

-- The inner loop of `bitmap_first_clear`, over `n` more bits from `b` on.
unfoldable pub clear_in_slot : Bitmap → ℕ → ℕ → Option ℕ
clear_in_slot map zero b = none
clear_in_slot map (suc n) b =
    let rest = clear_in_slot map n (b + 1) in if bitmap_test map b == 0 then some b else rest

-- A bit found in this slot, or what the later slots give.
abbrev pub or_later : Option ℕ → Option ℕ → Option ℕ
or_later none later = later
or_later (some b) later = some b

-- The outer loop, over `n` more slots from `i` on.
unfoldable pub clear_from : Bitmap → ℕ → ℕ → Option ℕ
clear_from map zero i = none
clear_from map (suc n) i =
    let later = clear_from map n (i + 1) in
    if not (get_or map i 0 == all_ones)
    then or_later (clear_in_slot map 32 (i * 32)) later
    else later

-- `none` is the result -1.
unfoldable pub bitmap_first_clear : Bitmap → ℕ → Option ℕ
bitmap_first_clear map entries = clear_from map (entries / 32) 0
