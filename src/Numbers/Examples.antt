-- ===== src/Numbers/Examples.antt =====
-- The round trips at single numbers.
use arqvenger_os.Base.{◌≡◌, refl, [], ◌∷◌, some, none, arith}
use arqvenger_os.Numbers.{atou, utoa, parse_octal, parseoct}
use arqvenger_os.Numbers.RoundTrip.{atou-utoa}

octal_test : parseoct (b'6' ∷ b'4' ∷ b'4' ∷ []) ≡ some 420
unfolding parseoct parse_octal
octal_test = refl

octal_error_test : parseoct (b'6' ∷ b'8' ∷ []) ≡ none
unfolding parseoct parse_octal
octal_error_test = refl

atou-utoa_example : atou (utoa 4294967295).0 ≡ 4294967295
atou-utoa_example = atou-utoa 4294967295 (omega arith)
