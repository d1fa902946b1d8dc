-- ===== src/Screen/Control.antt =====
-- What is written to the screen: the second part of drivers/tty/output.c, with its control sequences.
-- `none` is behaviour that C does not define: a character behind the end of `controlBuffer`, whose
-- bound is not tested, a cell behind the end of `videoBuffer`, or a number that does not fit an `int`.
use arqvenger_os.Base.{
  ℕ, zero, suc, ◌+◌, ◌-◌, ◌*◌, ◌/◌, ◌%◌, ◌^◌, true, false, not, ◌&&◌, ◌||◌, List, [], ◌∷◌, ◌++◌,
  Option, none, some, ◌>>=◌, length, ◌==◌, ltb, leb, if◌then◌else◌,
}
use arqvenger_os.Screen.{
  Screen, line_width, total_rows, buffer_rows, writable, control_buffer_len, update_cursor,
  foreground, background, blink_attribute, set_character, scroll_line, erase_line, clear_screen,
}

abbrev pub int : ℕ → Option ℕ
int n = if ltb n (2 ^ 31) then some n else none

abbrev pub end_control_sequence : Screen → Screen
end_control_sequence s = record s { escaped = false; csi = false; control_buffer = [] }

-- The loops of `parseControlBuffer`: digits up to the first semicolon, and any characters after it.
unfoldable pub parse_first : ℕ → List ℕ → ℕ × Option (List ℕ)
parse_first t [] = (t, none)
parse_first t (c ∷ l) =
    let rest = parse_first (t * 10 + (c - b'0')) l in if c == b';' then (t, some l) else rest

unfoldable pub parse_second : ℕ → List ℕ → ℕ
parse_second t [] = t
parse_second t (c ∷ l) = parse_second (t * 10 + (c - b'0')) l

abbrev pub second_or : Option (List ℕ) → ℕ → ℕ
second_or none def = def
second_or (some l) def = parse_second 0 l

unfoldable pub parse_control_buffer : List ℕ → ℕ → Option (ℕ × ℕ)
parse_control_buffer [] def = some (def, def)
parse_control_buffer (c ∷ l) def =
    let (t, rest) = parse_first 0 (c ∷ l) in
    int t >>= (λ a. int (second_or rest def) >>= (λ b. some (a, b)))

-- one more character in `controlBuffer`
unfoldable pub store_character : Screen → ℕ → Option Screen
store_character s c =
    if ltb (length s.control_buffer) control_buffer_len
    then some (record s { control_buffer = s.control_buffer ++ (c ∷ []) })
    else none

-- The sequences that move the cursor, each from its position and the two parameters.
unfoldable pub cursor_up : ℕ → ℕ → Option ℕ
cursor_up p m = int (line_width * m) >>= (λ d. some (if ltb p d then p % line_width else p - d))

unfoldable pub cursor_down : ℕ → ℕ → Option ℕ
cursor_down p m = int (p + m * line_width) >>= (λ q.
    some (
      if ltb q (line_width * total_rows)
      then q
      else (total_rows - 1) * line_width + p % line_width))

unfoldable pub cursor_right : ℕ → ℕ → Option ℕ
cursor_right p m =
    int (p % line_width + m)
    >>= (λ q. int (if leb line_width q then p + (line_width - p % line_width) else p + m))

unfoldable pub cursor_left : ℕ → ℕ → ℕ
cursor_left p m = if ltb (p % line_width) m then p - p % line_width else p - m

unfoldable pub next_line : ℕ → ℕ → Option ℕ
next_line p m =
    if leb (line_width * (total_rows - 1)) p
    then some (p - p % line_width)
    else int (p / line_width + m) >>= (λ row. some (
        if leb total_rows row
        then (total_rows - 1) * line_width
        else p + line_width * m - p % line_width))

-- A position below 0 becomes 0.
unfoldable pub previous_line : ℕ → ℕ → Option ℕ
previous_line p m = int (line_width * m + p % line_width) >>= (λ d. some (p - d))

abbrev pub at_least_one : ℕ → ℕ
at_least_one m = if ltb m 1 then 1 else m

unfoldable pub jump_column : ℕ → ℕ → ℕ
jump_column p m = p + (at_least_one m - 1) % line_width - p % line_width

unfoldable pub jump_cursor : ℕ → ℕ → ℕ
jump_cursor m1 m2 =
    line_width * ((at_least_one m1 - 1) % total_rows) + (at_least_one m2 - 1) % line_width

unfoldable pub jump_row : ℕ → ℕ → ℕ
jump_row p m = (at_least_one m - 1) % total_rows + p % line_width

-- the loop of the sequence `z`
unfoldable pub print_all : Screen → List ℕ → Screen
print_all s [] = s
print_all s (c ∷ l) = print_all (set_character s c) l

unfoldable pub print_arguments : Screen → Screen
print_arguments s =
    record (print_all (record s { cursor_position = (total_rows - 1) * line_width })
      s.control_buffer) { cursor_position = s.cursor_position }

-- `changeColor` changes the attribute only.
unfoldable pub changed_color : ℕ → ℕ → ℕ
changed_color a mod1 =
    let mod2 = a % 16 in
    if mod1 == 1
    then (if not (mod2 == 0) && not (mod2 == 6) && ltb mod2 8 then foreground a (mod2 + 8) else a)
    else if mod1 == 22
    then (if leb 9 mod2 && not (mod2 == 14) then foreground a (mod2 - 8) else a)
    else if mod1 == 37
    then background a 7
    else if mod1 == 36
    then background a 3
    else if mod1 == 35
    then background a 5
    else if mod1 == 34
    then background a 1
    else if mod1 == 32
    then background a 2
    else if mod1 == 31
    then background a 4
    else if mod1 == 39 || mod1 == 30
    then background a 0
    else if mod1 == 49 || mod1 == 47
    then foreground a 7
    else if mod1 == 46
    then foreground a 3
    else if mod1 == 45
    then foreground a 5
    else if mod1 == 44
    then foreground a 1
    else if mod1 == 43
    then foreground a 14
    else if mod1 == 42
    then foreground a 2
    else if mod1 == 41
    then foreground a 4
    else if mod1 == 40
    then foreground a 0
    else if mod1 == 25
    then blink_attribute a false
    else if mod1 == 5
    then blink_attribute a true
    else if mod1 == 0
    then background (foreground (blink_attribute a false) 0) 7
    else a

abbrev pub change_color : Screen → ℕ → Screen
change_color s mod1 = record s { attribute = changed_color s.attribute mod1 }

-- A sequence that moves the cursor, with the default `def` of its parameters, and one that changes the
-- screen.
abbrev pub move_cursor : Screen → (ℕ → ℕ → Option ℕ) → Option Screen
move_cursor s move = parse_control_buffer s.control_buffer 1 >>= (λ mods.
    move mods.0 mods.1 >>= (λ p. some (end_control_sequence (record s { cursor_position = p }))))

abbrev pub apply_to : Screen → (ℕ → Screen) → Option Screen
apply_to s f =
    parse_control_buffer s.control_buffer 0 >>= (λ mods. some (end_control_sequence (f mods.0)))

unfoldable pub handle_control_sequence : Screen → ℕ → Option Screen
handle_control_sequence s cur =
    let p = s.cursor_position in
    if cur == b'A'
    then move_cursor s (λ m1 m2. cursor_up p m1)
    else if cur == b'B'
    then move_cursor s (λ m1 m2. cursor_down p m1)
    else if cur == b'C'
    then move_cursor s (λ m1 m2. cursor_right p m1)
    else if cur == b'D'
    then move_cursor s (λ m1 m2. some (cursor_left p m1))
    else if cur == b'E'
    then move_cursor s (λ m1 m2. next_line p m1)
    else if cur == b'F'
    then move_cursor s (λ m1 m2. previous_line p m1)
    else if cur == b'G'
    then move_cursor s (λ m1 m2. some (jump_column p m1))
    else if cur == b'H'
    then move_cursor s (λ m1 m2. some (jump_cursor m1 m2))
    else if cur == b';'
    then store_character s cur
    else if cur == b'J'
    then apply_to s (λ m. clear_screen s m)
    else if cur == b'K'
    then apply_to s (λ m. erase_line s m)
    else if cur == b'd'
    then move_cursor s (λ m1 m2. some (jump_row p m1))
    else if cur == b'z'
    then some (end_control_sequence (print_arguments s))
    else if cur == b'm'
    then apply_to s (λ m. change_color s m)
    else some (end_control_sequence s)

-- the loop of a tab, over `n` more positions
unfoldable pub set_spaces : ℕ → Screen → Screen
set_spaces zero s = s
set_spaces (suc n) s = set_spaces n (set_character s b' ')

abbrev pub tab_end : ℕ → ℕ
tab_end p = if leb line_width (p % line_width + 4) then p / line_width + 1 - 1 else p + 4

-- The switch of `tty_write_to_screen` on a character outside a sequence.
unfoldable pub plain_character : Screen → ℕ → Screen
plain_character s cur =
    let p = s.cursor_position in
    if cur == 10
    then record s { cursor_position = line_width * (p / line_width + 1) }
    else if cur == 13
    then record s { cursor_position = p - p % line_width }
    else if cur == 9
    then set_spaces (tab_end p - p) s
    else if cur == 11
    then record s { cursor_position = p + line_width }
    else if cur == 8
    then (if ltb 0 p
        then record (set_character (record s { cursor_position = p - 1 }) b' ') {
          cursor_position = p - 1;
        }
        else s)
    else set_character s cur

-- the scrolling behind it
unfoldable pub keep_on_screen : Screen → Screen
keep_on_screen s =
    if leb (line_width * total_rows) s.cursor_position
    then record (scroll_line s 1) { cursor_position = s.cursor_position - line_width }
    else s

-- The end of the cells that a character outside a sequence is written to, and of those that the
-- sequences `K` and `J` blank, where they blank any.
unfoldable pub plain_end : ℕ → ℕ → ℕ
plain_end p cur =
    if cur == 10
    then 0
    else if cur == 13
    then 0
    else if cur == 9
    then (if ltb p (tab_end p) then tab_end p else 0)
    else if cur == 11
    then 0
    else if cur == 8
    then p
    else p + 1

abbrev pub blank_end : ℕ → ℕ → ℕ
blank_end start end = if ltb start end then end else 0

unfoldable pub erase_end : ℕ → ℕ → ℕ
erase_end p type =
    let line = p / line_width in
    if type == 1
    then blank_end (line * line_width) p
    else if type == 2
    then (line + 1) * line_width
    else blank_end (p + 1) ((line + 1) * line_width)

unfoldable pub clear_end : ℕ → ℕ → ℕ
clear_end p type =
    let line = p / line_width in if type == 1 then line_width * line else total_rows * line_width

-- the parameter of a sequence that blanks cells
abbrev pub first_or_zero : Option (ℕ × ℕ) → ℕ
first_or_zero none = 0
first_or_zero (some mods) = mods.0

unfoldable pub sequence_end : Screen → ℕ → ℕ
sequence_end s cur =
    let type = first_or_zero (parse_control_buffer s.control_buffer 0) in
    if cur == b'K'
    then erase_end s.cursor_position type
    else if cur == b'J'
    then clear_end s.cursor_position type
    else 0

-- the cells of `videoBuffer` from `writableBuffer` on
abbrev pub writable_cells : ℕ
writable_cells = line_width * (buffer_rows + 1) - writable

-- One round of the loop of `tty_write_to_screen`.
unfoldable pub write_byte : Screen → ℕ → Option Screen
write_byte s cur =
    if not s.escaped
    then (if not (cur == 27)
        then (if leb (plain_end s.cursor_position cur) writable_cells
            then some (keep_on_screen (plain_character s cur))
            else none)
        else some (record s { escaped = true }))
    else if s.csi
    then (if leb b'0' cur && leb cur b'9'
        then store_character s cur
        else if leb (sequence_end s cur) writable_cells
        then handle_control_sequence s cur
        else none)
    else if cur == b'['
    then some (record s { csi = true })
    else some (end_control_sequence s)

unfoldable pub write_bytes : Screen → List ℕ → Option Screen
write_bytes s [] = some s
write_bytes s (c ∷ l) = write_byte s c >>= (λ s1. write_bytes s1 l)

unfoldable pub tty_write_to_screen : Screen → List ℕ → Option Screen
tty_write_to_screen s text = write_bytes s text >>= (λ s1. some (update_cursor s1))
