-- ===== src/Numbers.antt =====
-- The conversions between numbers and text: library/stdlib.c, with library/ctype.c.
-- A text is the list of its characters up to the terminator, which is not in the list.
pub mod RoundTrip
mod Examples
use arqvenger_os.Base.{
  ℕ, zero, suc, ◌+◌, ◌-◌, ◌*◌, ◌/◌, ◌%◌, ◌^◌, Bool, true, false, not, ◌&&◌, ◌||◌, Option, none,
  some, List, [], ◌∷◌, ◌++◌, ◌==◌, ltb, leb, if◌then◌else◌, length,
}
use mathlib.Core.List.{reverse}
use arqvenger_os.Base.Int.{ℤ, pos, negsuc}

-- The functions of ctype.c; a character is not negative.
abbrev pub isdigit : ℕ → Bool
isdigit c = leb b'0' c && leb c b'9'

abbrev pub isspace : ℕ → Bool
isspace c = c == b' ' || c == 9 || c == 10 || c == 13 || c == 11 || c == 12

abbrev pub isupper : ℕ → Bool
isupper c = leb b'A' c && leb c b'Z'

abbrev pub islower : ℕ → Bool
islower c = leb b'a' c && leb c b'z'

abbrev pub isalpha : ℕ → Bool
isalpha c = isupper c || islower c

abbrev pub isalnum : ℕ → Bool
isalnum c = isalpha c || isdigit c

-- `while (isspace(s[i])) i++;`
unfoldable pub skip_spaces : List ℕ → List ℕ
skip_spaces [] = []
skip_spaces (c ∷ s) = let rest = skip_spaces s in if isspace c then rest else c ∷ s

-- The digit loop of `atou`; `unsigned int` wraps.
unfoldable pub digits_value : ℕ → List ℕ → ℕ
digits_value ans [] = ans
digits_value ans (c ∷ s) =
    let rest = digits_value ((ans * 10 % 2 ^ 32 + c - b'0') % 2 ^ 32) s in
    if isdigit c then rest else ans

unfoldable pub atou : List ℕ → ℕ
atou s = digits_value 0 (skip_spaces s)

-- The `do` loop of `utoa` with fuel: the digits of `n` from the lowest on. Ten rounds are enough for
-- an `unsigned int`.
unfoldable pub low_digits : ℕ → ℕ → List ℕ
low_digits zero n = []
low_digits (suc f) n =
    let rest = low_digits f (n / 10) in (n % 10 + b'0') ∷ (if ltb 0 (n / 10) then rest else [])

-- `utoa`, with its result, the length
unfoldable pub utoa : ℕ → List ℕ × ℕ
utoa n = (reverse (low_digits 10 n), length (low_digits 10 n))

-- The digit loop of `atoi`. A value beyond the range of `int` is undefined in C and not reduced here.
unfoldable pub int_value : ℕ → List ℕ → ℕ
int_value ans [] = ans
int_value ans (c ∷ s) =
    let rest = int_value (ans * 10 + c - b'0') s in if isdigit c then rest else ans

-- `negative * ans`
abbrev pub negated : ℕ → ℤ
negated zero = pos 0
negated (suc n) = negsuc n

-- `atoi` behind its first loop
unfoldable pub signed_value : List ℕ → ℤ
signed_value [] = pos 0
signed_value (c ∷ s) =
    if c == b'-' then negated (int_value 0 (skip_spaces s)) else pos (int_value 0 (c ∷ s))

unfoldable pub atoi : List ℕ → ℤ
atoi s = signed_value (skip_spaces s)

-- `itoa` of a number whose negation is an `int` too; the sign is written last and reversed with
-- the digits.
unfoldable pub itoa : ℤ → List ℕ × ℕ
itoa (pos n) = (reverse (low_digits 10 n), length (low_digits 10 n))
itoa (negsuc n) = let s = low_digits 10 (suc n) ++ (b'-' ∷ []) in (reverse s, length s)

-- The loop of `parseoct`, from the last character on; `none` is -1. `ans` and `base` are not
-- reduced: a string of more than ten digits overflows them in C.
unfoldable pub parse_octal : ℕ → ℕ → List ℕ → Option ℕ
parse_octal ans base [] = some ans
parse_octal ans base (c ∷ s) =
    let rest = parse_octal (ans + (c - b'0') * base) (base * 8) s in
    if not (isdigit c) || ltb 7 (c - b'0') then none else rest

unfoldable pub parseoct : List ℕ → Option ℕ
parseoct s = parse_octal 0 1 (reverse s)
