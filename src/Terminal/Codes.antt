-- ===== src/Terminal/Codes.antt =====
-- The scan codes of the keyboard: `process_scancode` of drivers/tty/input.c, with the code that
-- `keyboard_get_code` has given.
use arqvenger_os.Base.{
  ℕ, ◌-◌, Bool, true, false, not, ◌&&◌, ◌||◌, Option, none, some, List, [], ◌∷◌, ◌==◌, ltb, leb,
  if◌then◌else◌, length, get_or,
}
use arqvenger_os.Base.Int.{ℤ, pos, negsuc}
use arqvenger_os.Screen.{tty_screen_scroll}
use arqvenger_os.Terminal.{
  Tty, Modifiers, num_terminals, buffer_size, at_terminal, tty_change, add_input,
}

abbrev pub normal_code_table : List ℕ
normal_code_table =
    0 ∷ 27 ∷ b'1' ∷ b'2' ∷ b'3' ∷ b'4' ∷ b'5' ∷ b'6' ∷ b'7' ∷ b'8' ∷ b'9' ∷ b'0' ∷ b'-' ∷ b'=' ∷ 8
    ∷ 9 ∷ b'q' ∷ b'w' ∷ b'e' ∷ b'r' ∷ b't' ∷ b'y' ∷ b'u' ∷ b'i' ∷ b'o' ∷ b'p' ∷ b'[' ∷ b']' ∷ 10 ∷ 0
    ∷ b'a' ∷ b's' ∷ b'd' ∷ b'f' ∷ b'g' ∷ b'h' ∷ b'j' ∷ b'k' ∷ b'l' ∷ b';' ∷ 39 ∷ b'`' ∷ 0 ∷ 0 ∷ b'z'
    ∷ b'x' ∷ b'c' ∷ b'v' ∷ b'b' ∷ b'n' ∷ b'm' ∷ b',' ∷ b'.' ∷ b'/' ∷ 0 ∷ 0 ∷ 0 ∷ b' ' ∷ []

abbrev pub shift_code_table : List ℕ
shift_code_table =
    0 ∷ 27 ∷ b'!' ∷ b'@' ∷ b'#' ∷ b'$' ∷ b'%' ∷ b'^' ∷ b'&' ∷ b'*' ∷ b'(' ∷ b')' ∷ b'_' ∷ b'+' ∷ 8
    ∷ 9 ∷ b'Q' ∷ b'W' ∷ b'E' ∷ b'R' ∷ b'T' ∷ b'Y' ∷ b'U' ∷ b'I' ∷ b'O' ∷ b'P' ∷ b'{' ∷ b'}' ∷ 10 ∷ 0
    ∷ b'A' ∷ b'S' ∷ b'D' ∷ b'F' ∷ b'G' ∷ b'H' ∷ b'J' ∷ b'K' ∷ b'L' ∷ b':' ∷ b'"' ∷ b'~' ∷ 0 ∷ 0
    ∷ b'Z' ∷ b'X' ∷ b'C' ∷ b'V' ∷ b'B' ∷ b'N' ∷ b'M' ∷ b'<' ∷ b'>' ∷ b'?' ∷ 0 ∷ 0 ∷ 0 ∷ b' ' ∷ []

-- `altCodeTable` has the same characters as `normalCodeTable`.
abbrev pub alt_code_table : List ℕ
alt_code_table = normal_code_table

abbrev pub code_table : Modifiers → List ℕ
code_table m =
    if m.shift || m.caps
    then shift_code_table
    else if m.alt
    then alt_code_table
    else normal_code_table

abbrev pub last_code_in_table : ℕ
last_code_in_table = 0x39

abbrev pub with_modifiers : Tty → Modifiers → Tty
with_modifiers t m = record t { modifiers = m }

-- a key of the cursor block, which sends the sequence that ends in `c`
unfoldable pub cursor_key : Tty → Bool → ℕ → Option Tty
cursor_key t is_break c =
    if not is_break && (t.escaped || not t.modifiers.num)
    then add_input t (27 ∷ b'[' ∷ c ∷ [])
    else some t

unfoldable pub scroll_active : Tty → Bool → ℤ → Tty
scroll_active t is_break lines =
    if not is_break && t.escaped
    then record t {
      screen =
          at_terminal t.screen t.active_terminal
            (tty_screen_scroll (t.screen t.active_terminal) lines);
    }
    else t

-- The switch on the keys without a character.
unfoldable pub special_key : Tty → Bool → ℕ → Option Tty
special_key t is_break make =
    let m = t.modifiers in
    if make == 0x1D
    then some (with_modifiers t (record m { ctrl = not is_break }))
    else if make == 0x2A || make == 0x36
    then some (with_modifiers t (record m { shift = not is_break }))
    else if make == 0x38
    then some (with_modifiers t (record m { alt = not is_break }))
    else if make == 0x53
    then (if m.alt && m.ctrl && t.escaped then none else some t)
    else if make == 0x3A
    then some (if not is_break then with_modifiers t (record m { caps = not m.caps }) else t)
    else if make == 0x45
    then some (if not is_break then with_modifiers t (record m { num = not m.num }) else t)
    else if make == 0x46
    then some (if not is_break then with_modifiers t (record m { scroll = not m.scroll }) else t)
    else if make == 0x48
    then cursor_key t is_break b'A'
    else if make == 0x50
    then cursor_key t is_break b'B'
    else if make == 0x4D
    then cursor_key t is_break b'C'
    else if make == 0x4B
    then cursor_key t is_break b'D'
    else if make == 0x47
    then cursor_key t is_break b'H'
    else if make == 0x4F
    then cursor_key t is_break b'F'
    else if make == 0x49
    then some (scroll_active t is_break (negsuc 11))
    else if make == 0x51
    then some (scroll_active t is_break (pos 12))
    else if leb 0x3B make && leb make 0x44
    then some (if ltb (make - 0x3B) num_terminals then tty_change t (make - 0x3B) else t)
    else some t

abbrev pub not_escaped : Option Tty → Option Tty
not_escaped none = none
not_escaped (some t) = some (record t { escaped = false })

unfoldable pub process_scancode : Tty → ℕ → Option Tty
process_scancode t scan_code =
    let is_break = leb 0x80 scan_code in
    let make = if is_break then scan_code - 0x80 else scan_code in
    let c = get_or (code_table t.modifiers) make 0 in
    if scan_code == 0xE0
    then some (record t { escaped = true })
    else not_escaped (
        if t.escaped || ltb last_code_in_table make || c == 0
        then special_key t is_break make
        else if ltb (length t.input_buffer) buffer_size && not is_break
        then add_input t (c ∷ [])
        else some t)
