-- ===== src/Printing.antt =====
-- Formatted output: `vfprintf` of library/stdio.c, with `print_padding`.
-- A file is a parameter: how many characters it takes of those that the system call `write` gives
-- it, with what it has; -1 counts as another number than all of them. `none` is an argument of
-- another type than its directive, or a format that ends in a directive, which C gives no meaning.
pub mod Rendering
mod Examples
pub mod Directives
use arqvenger_os.Base.{
  ℕ, zero, suc, ◌+◌, ◌-◌, Bool, true, false, not, ◌&&◌, ◌||◌, Option, none, some, ◌>>=◌, List, [],
  ◌∷◌, ◌++◌, ◌==◌, if◌then◌else◌, length, take,
}
use arqvenger_os.Base.Int.{ℤ, pos, negsuc}
use arqvenger_os.Numbers.{isdigit, atoi, itoa, utoa}

abbrev pub File : Type 0
File = List ℕ → List ℕ → ℕ

-- a variable argument
pub data Argument : Type 0 where
  int : ℤ → Argument
  unsigned : ℕ → Argument
  char : ℕ → Argument
  string : List ℕ → Argument

-- What has been written, the arguments that are left, and the variables `symb` and `plus`.
pub record Printer : Type 0 where
  pub out : List ℕ
  pub args : List Argument
  pub symb : ℕ
  pub plus : ℕ

-- `write`, and whether it gives the number of characters
unfoldable pub write : File → List ℕ → List ℕ → List ℕ × Bool
write file out s = (out ++ take (file out s) s, file out s == length s)

-- `fputc`, whose result is EOF for the character 255 too
unfoldable pub fputc : File → List ℕ → ℕ → List ℕ × Bool
fputc file out c = let r = write file out (c ∷ []) in (r.0, r.1 && not (c == 255))

-- The number of blanks that `print_padding` writes.
abbrev pub padding_size : ℕ → ℤ → ℕ
padding_size len (pos to) = to - len
padding_size len (negsuc to) = 0

unfoldable pub print_padding : File → List ℕ → ℕ → List ℕ
print_padding file out zero = out
print_padding file out (suc n) = print_padding file (fputc file out b' ').0 n

-- A text in a field; false is a failure.
unfoldable pub print_field : File → ℤ → List ℕ → Printer → Bool × Printer
print_field file padding s p =
    let n = padding_size (length s) padding in
    let r = write file (print_padding file p.out n) s in
    (r.1, record p { out = r.0; plus = p.plus + (length s + n); symb = p.symb + 1 })

abbrev pub print_int : File → ℤ → Printer → List Argument → Option (Bool × Printer)
print_int file padding p (int z ∷ args) =
    some (print_field file padding (itoa z).0 (record p { args = args }))
print_int file padding p _ = none

abbrev pub print_unsigned : File → ℤ → Printer → List Argument → Option (Bool × Printer)
print_unsigned file padding p (unsigned n ∷ args) =
    some (print_field file padding (utoa n).0 (record p { args = args }))
print_unsigned file padding p _ = none

abbrev pub print_char : File → Printer → List Argument → Option (Bool × Printer)
print_char file p (char c ∷ args) =
    let r = fputc file p.out c in some (r.1, record p { out = r.0; args = args })
print_char file p _ = none

abbrev pub print_string : File → ℤ → Printer → List Argument → Option (Bool × Printer)
print_string file padding p (string s ∷ args) =
    some (print_field file padding s (record p { args = args }))
print_string file padding p _ = none

abbrev pub print_percent : File → ℤ → Printer → Bool × Printer
print_percent file padding p =
    let n = padding_size 1 padding in
    let r = fputc file (print_padding file p.out n) b'%' in
    (r.1, record p { out = r.0; plus = p.plus + (1 + n) })

-- the switch on the character of a directive
unfoldable pub convert : File → ℕ → ℤ → Printer → Option (Bool × Printer)
convert file c padding p =
    if c == b'd' || c == b'i'
    then print_int file padding p p.args
    else if c == b'u'
    then print_unsigned file padding p p.args
    else if c == b'c'
    then print_char file p p.args
    else if c == b's'
    then print_string file padding p p.args
    else if c == b'%'
    then some (print_percent file padding p)
    else some (true, p)

-- Where the loop stands: in a text, of which these characters are still to be written, or in a
-- directive with its padding.
pub data Position : Type 0 where
  text : List ℕ → Position
  directive : ℤ → Position

-- what is written, and the result, unless it is -1
pub data Printed : Type 0 where
  failed : List ℕ → Printed
  printed : List ℕ → ℕ → Printed

-- the writing of the text before a directive and at the end
abbrev pub flush : File → Printer → List ℕ → Bool × Printer
flush file p s = let r = write file p.out s in (r.1, record p { out = r.0 })

-- The loop of `vfprintf` over the rest of the format, whose first character is the `i`-th.
unfoldable pub print_from : File → Position → List ℕ → ℕ → Printer → Option Printed
print_from file (text s) [] i p =
    let r = flush file p s in
    some (if r.0 then printed r.1.out (i - p.symb + p.plus) else failed r.1.out)
print_from file (text s) (c ∷ format) i p =
    let r = flush file p s in
    let in_directive =
      print_from file (directive (atoi format)) format (i + 1) (record r.1 { symb = p.symb + 1 }) in
    let in_text = print_from file (text (s ++ (c ∷ []))) format (i + 1) p in
    if c == b'%' then (if r.0 then in_directive else some (failed r.1.out)) else in_text
print_from file (directive padding) [] i p = none
print_from file (directive padding) (c ∷ format) i p =
    let skip = print_from file (directive padding) format (i + 1) p in
    if isdigit c
    then skip
    else (convert file c padding p >>= (λ r.
        if r.0 then print_from file (text []) format (i + 1) r.1 else some (failed r.1.out)))

unfoldable pub vfprintf : File → List ℕ → List Argument → Option Printed
vfprintf file format args =
    print_from file (text []) format 0 (record { out = []; args = args; symb = 0; plus = 0 })
