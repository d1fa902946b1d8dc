-- ===== src/Bitmap/Examples.antt =====
-- The theorems on bitmaps at a map of two words.
use arqvenger_os.Base.{◌≡◌, refl, some, [], ◌∷◌}
use arqvenger_os.Bitmap.{Bitmap, bitmap_test, clear_in_slot, clear_from, bitmap_first_clear}

-- the first word is full, the second has its lowest three bits
abbrev two_words : Bitmap
two_words = 0xffff_ffff ∷ 7 ∷ []

first_clear_test : bitmap_first_clear two_words 64 ≡ some 35
unfolding bitmap_first_clear clear_from clear_in_slot bitmap_test
first_clear_test = refl
