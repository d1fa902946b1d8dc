-- ===== src/Printing/Examples.antt =====
-- A concrete run of formatted output.
use arqvenger_os.Base.{List, [], ◌∷◌}
use arqvenger_os.Base.Int.{negsuc}
use arqvenger_os.Printing.Rendering.{Piece, literal, signed_piece, percent_piece}

-- "a%3d%%"
abbrev pieces : List Piece
pieces = literal b'a' ∷ signed_piece (b'3' ∷ []) (negsuc 4) ∷ percent_piece [] ∷ []
