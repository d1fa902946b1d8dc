-- ===== src/Screen.antt =====
-- The screen of a terminal: drivers/tty/status.h, the first part of drivers/tty/output.c, and
-- drivers/video.c.
-- A cell is the two bytes of a position, its character and its attribute. The video memory and the
-- place of the video cursor, which are the card's, stand in the terminal that the model is of. The cursor is never
-- below 0 between two operations, and is a number.
pub mod Control
pub mod Mirror
pub mod Moves
pub mod Cursor
pub mod Text
pub mod Runaway
pub mod Colors
mod Examples
use arqvenger_os.Base.{
  ℕ, zero, suc, ◌+◌, ◌-◌, ◌*◌, ◌/◌, ◌%◌, Bool, true, false, ◌&&◌, List, [], ◌∷◌, ◌==◌, ltb, leb,
  if◌then◌else◌,
}
use arqvenger_os.Base.Int.{ℤ, pos, negsuc}

pub record Cell : Type 0 where
  pub character : ℕ
  pub attribute : ℕ

abbrev pub line_width : ℕ
line_width = 80

abbrev pub total_rows : ℕ
total_rows = 25

abbrev pub buffer_rows : ℕ
buffer_rows = 75

abbrev pub control_buffer_len : ℕ
control_buffer_len = 40

-- `struct ScreenStatus` with the terminal's `active`; `controlBuffer` is the list of the
-- `controlBufferPos` characters in it. `video_buffer` has a cell for each position; the array has 76 rows,
-- and Control gives nothing for a character or a sequence that would write behind them.
pub record Screen : Type 0 where
  pub active : Bool
  pub cursor_position : ℕ
  pub escaped : Bool
  pub csi : Bool
  pub attribute : ℕ
  pub control_buffer : List ℕ
  pub visible_line : ℕ
  pub last_line : ℕ
  pub video_buffer : ℕ → Cell
  pub video_memory : ℕ → Cell
  pub video_cursor : ℕ

abbrev pub put_cell : (ℕ → Cell) → ℕ → Cell → ℕ → Cell
put_cell cells i cell j = if j == i then cell else cells j

-- where `writableBuffer` starts in `videoBuffer`
abbrev pub writable : ℕ
writable = line_width * (buffer_rows - total_rows)

unfoldable pub is_visible : Screen → ℕ → Bool
is_visible s at =
    let buffer_line = at / line_width + (buffer_rows - total_rows) in
    leb s.visible_line buffer_line && ltb buffer_line (s.visible_line + total_rows)

-- `change_character` with `video_set_char`
unfoldable pub change_character : Screen → ℕ → Cell → Screen
change_character s at cell = record s {
  video_memory =
      if s.active && is_visible s at then put_cell s.video_memory at cell else s.video_memory;
}

-- `video_flip_buffer`, whose buffer starts at the cell `from`
unfoldable pub video_flip_buffer : (ℕ → Cell) → (ℕ → Cell) → ℕ → ℕ → Cell
video_flip_buffer memory buffer from i =
    if ltb i (line_width * total_rows) then buffer (from + i) else memory i

unfoldable pub flip_buffer : Screen → Screen
flip_buffer s = record s {
  video_memory =
      if s.active
      then video_flip_buffer s.video_memory s.video_buffer (s.visible_line * line_width)
      else s.video_memory;
}

unfoldable pub update_cursor : Screen → Screen
update_cursor s = record s {
  video_cursor =
      if s.active
      then (if is_visible s s.cursor_position
          then s.cursor_position
          else total_rows * line_width + 1)
      else s.video_cursor;
}

-- `tty_screen_scroll`; a line below 0 is below `lastLine` too.
abbrev pub moved_line : ℕ → ℤ → ℕ
moved_line line (pos n) = line + n
moved_line line (negsuc n) = line - (n + 1)

unfoldable pub tty_screen_scroll : Screen → ℤ → Screen
tty_screen_scroll s line =
    let moved = moved_line s.visible_line line in
    update_cursor (
      flip_buffer (record s {
        visible_line =
            if ltb moved s.last_line
            then s.last_line
            else if ltb (buffer_rows - total_rows) moved
            then buffer_rows - total_rows
            else moved;
      }))

-- `setAttribute`: the foreground in the low four bits, the background in the high four, the highest of
-- which is also the one for blinking
unfoldable pub attribute_of : ℕ → ℕ → Bool → ℕ
attribute_of bg fg blink =
    let colors = fg % 16 + bg % 16 * 16 in
    if blink then (if colors / 128 == 0 then colors + 128 else colors) else colors

abbrev pub set_attribute : Screen → ℕ → ℕ → Bool → Screen
set_attribute s bg fg blink = record s { attribute = attribute_of bg fg blink }

abbrev pub blinks : ℕ → Bool
blinks attribute = attribute / 128 % 2 == 1

-- `setForeground`, `setBackground` and `setBlink` change nothing but the attribute.
abbrev pub foreground : ℕ → ℕ → ℕ
foreground attribute color = attribute_of (attribute / 16 % 8) color (blinks attribute)

abbrev pub background : ℕ → ℕ → ℕ
background attribute color = attribute_of color (attribute % 16) (blinks attribute)

abbrev pub blink_attribute : ℕ → Bool → ℕ
blink_attribute attribute blink = attribute_of (attribute / 16 % 8) (attribute % 16) blink

-- a cell of the writable buffer and, if it can be seen, of the video memory
abbrev pub write_cell : Screen → ℕ → Cell → Screen
write_cell s at cell =
    change_character (record s { video_buffer = put_cell s.video_buffer (writable + at) cell }) at
      cell

unfoldable pub set_character : Screen → ℕ → Screen
set_character s c =
    record (write_cell s s.cursor_position (record { character = c; attribute = s.attribute })) {
      cursor_position = s.cursor_position + 1;
    }

-- `scrollLine`: the rows go up by `delta`, into those before the writable buffer, and the last ones
-- become blank.
unfoldable pub scrolled : (ℕ → Cell) → ℕ → ℕ → ℕ → Cell
scrolled buffer attribute delta i =
    if ltb (i + delta * line_width) (line_width * buffer_rows)
    then buffer (i + delta * line_width)
    else if ltb i (line_width * buffer_rows)
    then record { character = b' '; attribute = attribute }
    else buffer i

unfoldable pub scroll_line : Screen → ℕ → Screen
scroll_line s delta' =
    let delta =
      if ltb buffer_rows delta' then buffer_rows else if ltb delta' 1 then 1 else delta' in
    flip_buffer (record s {
      last_line = s.last_line - delta;
      video_buffer = scrolled s.video_buffer s.attribute delta;
    })

-- the loop of `setBlank` over `n` positions from `start` on
unfoldable pub blank_from : ℕ → Screen → ℕ → Screen
blank_from zero s start = s
blank_from (suc n) s start =
    blank_from n (write_cell s start (record { character = b' '; attribute = s.attribute }))
      (start + 1)

abbrev pub set_blank : Screen → ℕ → ℕ → Screen
set_blank s start end = blank_from (end - start) s start

-- `eraseLine` with ERASE_ALL 2, ERASE_LEFT 1 and any other type
unfoldable pub erase_line : Screen → ℕ → Screen
erase_line s type =
    let line = s.cursor_position / line_width in
    if type == 2
    then set_blank s (line * line_width) ((line + 1) * line_width)
    else if type == 1
    then set_blank s (line * line_width) s.cursor_position
    else set_blank s (s.cursor_position + 1) ((line + 1) * line_width)

-- `clearScreen` with CLEAR_ALL 2, CLEAR_ABOVE 1 and any other type
unfoldable pub clear_screen : Screen → ℕ → Screen
clear_screen s type =
    let line = s.cursor_position / line_width in
    if type == 2
    then set_blank s 0 (total_rows * line_width)
    else if type == 1
    then set_blank s 0 (line_width * line)
    else set_blank s ((1 + line) * line_width) (total_rows * line_width)

-- `tty_screen_init` of one terminal
unfoldable pub tty_screen_init : Screen → Screen
tty_screen_init s =
    clear_screen
      (record (set_attribute s 0 7 false) {
        cursor_position = 0;
        escaped = false;
        csi = false;
        last_line = buffer_rows - total_rows;
        visible_line = buffer_rows - total_rows;
        control_buffer = [];
      })
      2
