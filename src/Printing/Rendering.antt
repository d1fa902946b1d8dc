-- ===== src/Printing/Rendering.antt =====
-- What a format prints, against its pieces one by one.
use arqvenger_os.Base.{ℕ, ◌+◌, ◌-◌, ◌^◌, ◌<◌, ◌≢◌, List, [], ◌∷◌, ◌++◌, length, replicate}
use arqvenger_os.Base.Int.{ℤ, pos, negsuc}
use arqvenger_os.Numbers.{int_value, itoa, utoa}
use arqvenger_os.Printing.{Argument, int, unsigned, char, string}
use arqvenger_os.Printing.Directives.{AllDigits, in_format}

-- The pieces of a format, with the digits of their widths.
pub data Piece : Type 0 where
  literal : ℕ → Piece
  signed_piece : List ℕ → ℤ → Piece
  unsigned_piece : List ℕ → ℕ → Piece
  char_piece : List ℕ → ℕ → Piece
  string_piece : List ℕ → List ℕ → Piece
  percent_piece : List ℕ → Piece

abbrev pub format_of : List Piece → List ℕ
format_of [] = []
format_of (literal c ∷ ps) = c ∷ format_of ps
format_of (signed_piece ds z ∷ ps) = in_format ds b'd' (format_of ps)
format_of (unsigned_piece ds n ∷ ps) = in_format ds b'u' (format_of ps)
format_of (char_piece ds c ∷ ps) = in_format ds b'c' (format_of ps)
format_of (string_piece ds s ∷ ps) = in_format ds b's' (format_of ps)
format_of (percent_piece ds ∷ ps) = in_format ds b'%' (format_of ps)

abbrev pub arguments_of : List Piece → List Argument
arguments_of [] = []
arguments_of (literal c ∷ ps) = arguments_of ps
arguments_of (signed_piece ds z ∷ ps) = int z ∷ arguments_of ps
arguments_of (unsigned_piece ds n ∷ ps) = unsigned n ∷ arguments_of ps
arguments_of (char_piece ds c ∷ ps) = char c ∷ arguments_of ps
arguments_of (string_piece ds s ∷ ps) = string s ∷ arguments_of ps
arguments_of (percent_piece ds ∷ ps) = arguments_of ps

-- A text at the right end of a field whose width has these digits.
abbrev pub in_field : List ℕ → List ℕ → List ℕ
in_field digits s = replicate (int_value 0 digits - length s) b' ' ++ s

abbrev pub piece_text : Piece → List ℕ
piece_text (literal c) = c ∷ []
piece_text (signed_piece ds z) = in_field ds (itoa z).0
piece_text (unsigned_piece ds n) = in_field ds (utoa n).0
piece_text (char_piece ds c) = c ∷ []
piece_text (string_piece ds s) = in_field ds s
piece_text (percent_piece ds) = in_field ds (b'%' ∷ [])

abbrev pub text_of : List Piece → List ℕ
text_of [] = []
text_of (p ∷ ps) = piece_text p ++ text_of ps

-- What the result counts beyond the text: the digits of the widths, and one for each %%.
abbrev pub piece_excess : Piece → ℕ
piece_excess (literal c) = 0
piece_excess (signed_piece ds z) = length ds
piece_excess (unsigned_piece ds n) = length ds
piece_excess (char_piece ds c) = length ds
piece_excess (string_piece ds s) = length ds
piece_excess (percent_piece ds) = length ds + 1

abbrev pub excess : List Piece → ℕ
excess [] = 0
excess (p ∷ ps) = piece_excess p + excess ps

-- an `int` other than the lowest one
abbrev pub IsInt : ℤ → Type 0
IsInt (pos n) = n < 2 ^ 31
IsInt (negsuc n) = n + 1 < 2 ^ 31

-- The width is one of `int`, also while `atoi` reads it.
abbrev pub IsWidth : List ℕ → Type 0
IsWidth ds = int_value 0 ds < 2 ^ 31

abbrev pub IsPiece : Piece → Type 0
IsPiece (literal c) = c ≢ b'%'
IsPiece (signed_piece ds z) = AllDigits ds × IsWidth ds × IsInt z
IsPiece (unsigned_piece ds n) = AllDigits ds × IsWidth ds × (n < 2 ^ 32)
IsPiece (char_piece ds c) = AllDigits ds × IsWidth ds × (c ≢ 255)
IsPiece (string_piece ds s) = AllDigits ds × IsWidth ds
IsPiece (percent_piece ds) = AllDigits ds × IsWidth ds

abbrev pub ArePieces : List Piece → Type 0
ArePieces [] = Unit
ArePieces (p ∷ ps) = IsPiece p × ArePieces ps
