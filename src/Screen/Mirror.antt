-- ===== src/Screen/Mirror.antt =====
-- What the user sees: the video memory and the rows of the active terminal.
use arqvenger_os.Base.{
  ℕ, zero, suc, ◌+◌, ◌-◌, ◌*◌, ◌/◌, ◌<◌, ◌≡◌, true, false, not, ◌&&◌, List, [], ◌∷◌, Option, some,
  length, arith, ◌==◌, ==_iff, ltb, leb, if_cases, OfSome, OfSome-bind, OfSome-all, ℕ_discrete,
}
use arqvenger_os.Screen.{
  Screen, Cell, writable, is_visible, change_character, video_flip_buffer, flip_buffer,
  update_cursor, write_cell, set_character, scroll_line, blank_from, erase_line, clear_screen,
}
use arqvenger_os.Screen.Control.{
  cursor_up, cursor_down, cursor_right, cursor_left, next_line, previous_line, jump_column,
  jump_cursor, jump_row, parse_control_buffer, store_character, print_all, print_arguments,
  change_color, move_cursor, apply_to, handle_control_sequence, set_spaces, plain_character,
  keep_on_screen, plain_end, sequence_end, write_byte, write_bytes, tty_write_to_screen,
}

-- The terminal is active and shows its last rows, and the video memory has them.
abbrev pub IsMirrored : Screen → Type 0
IsMirrored s =
    (s.active ≡ true)
    × (s.visible_line ≡ 50)
    × ((p : ℕ) → p < 2000 → s.video_memory p ≡ s.video_buffer (writable + p))

write_cell-IsMirrored :
    (s : Screen) (at : ℕ) (cell : Cell) → IsMirrored s → IsMirrored (write_cell s at cell)
unfolding change_character is_visible
write_cell-IsMirrored s at cell (on, line, same) = (
  on,
  line,
  λ p small. elim (ℕ_discrete p at) [
    | yes e ↦
        let seen : (leb 50 (at / 80 + 50) && ltb (at / 80 + 50) (50 + 25)) ≡ true =
          ground (arith, small, e) in
        let hit : (p == at) ≡ true = (==_iff p at).1 e in
        let hit' : (4000 + p == 4000 + at) ≡ true = ground (arith, e) in
        rw (on, line, seen, hit, hit')
    | no ne ↦
        let miss : (p == at) ≡ false = ground arith in
        let miss' : (4000 + p == 4000 + at) ≡ false = ground arith in
        rw miss' (
          if_cases (λ (memory : ℕ → Cell). memory p ≡ s.video_buffer (4000 + p))
            (s.active
              && (leb s.visible_line (at / 80 + 50) && ltb (at / 80 + 50) (s.visible_line + 25)))
            (λ e. rw miss (same p small)) (λ e. same p small))
  ],
)

set_character-IsMirrored : (s : Screen) (c : ℕ) → IsMirrored s → IsMirrored (set_character s c)
unfolding set_character
set_character-IsMirrored s c m =
    write_cell-IsMirrored s s.cursor_position (record { character = c; attribute = s.attribute }) m

pub flip_buffer-IsMirrored :
    (s : Screen) → s.active ≡ true → s.visible_line ≡ 50 → IsMirrored (flip_buffer s)
unfolding flip_buffer video_flip_buffer
flip_buffer-IsMirrored s on line = (
  on,
  line,
  λ p small. let inside : ltb p (80 * 25) ≡ true = ground (arith, small) in rw (on, line, inside),
)

scroll_line-IsMirrored : (s : Screen) (delta : ℕ) → IsMirrored s → IsMirrored (scroll_line s delta)
unfolding scroll_line
scroll_line-IsMirrored s delta (on, line, same) = flip_buffer-IsMirrored _ on line

blank_from-IsMirrored :
    (n : ℕ) (s : Screen) (start : ℕ) → IsMirrored s → IsMirrored (blank_from n s start)
unfolding blank_from
blank_from-IsMirrored zero s start m = m
blank_from-IsMirrored (suc n) s start m =
    let cell : Cell = record { character = b' '; attribute = s.attribute } in
    blank_from-IsMirrored n (write_cell s start cell) (start + 1)
      (write_cell-IsMirrored s start cell m)

erase_line-IsMirrored : (s : Screen) (type : ℕ) → IsMirrored s → IsMirrored (erase_line s type)
unfolding erase_line
erase_line-IsMirrored s type m =
    if_cases IsMirrored (type == 2) (λ e. blank_from-IsMirrored _ s _ m)
      (λ e.
        if_cases IsMirrored (type == 1) (λ e. blank_from-IsMirrored _ s _ m)
          (λ e. blank_from-IsMirrored _ s _ m))

clear_screen-IsMirrored : (s : Screen) (type : ℕ) → IsMirrored s → IsMirrored (clear_screen s type)
unfolding clear_screen
clear_screen-IsMirrored s type m =
    if_cases IsMirrored (type == 2) (λ e. blank_from-IsMirrored _ s _ m)
      (λ e.
        if_cases IsMirrored (type == 1) (λ e. blank_from-IsMirrored _ s _ m)
          (λ e. blank_from-IsMirrored _ s _ m))

print_all-IsMirrored : (s : Screen) (l : List ℕ) → IsMirrored s → IsMirrored (print_all s l)
unfolding print_all
print_all-IsMirrored s [] m = m
print_all-IsMirrored s (c ∷ l) m =
    print_all-IsMirrored (set_character s c) l (set_character-IsMirrored s c m)

set_spaces-IsMirrored : (n : ℕ) (s : Screen) → IsMirrored s → IsMirrored (set_spaces n s)
unfolding set_spaces
set_spaces-IsMirrored zero s m = m
set_spaces-IsMirrored (suc n) s m =
    set_spaces-IsMirrored n (set_character s b' ') (set_character-IsMirrored s b' ' m)

plain_character-IsMirrored :
    (s : Screen) (cur : ℕ) → IsMirrored s → IsMirrored (plain_character s cur)
unfolding plain_character
plain_character-IsMirrored s cur m =
    if_cases IsMirrored (cur == 10) (λ e. m)
      (λ e.
        if_cases IsMirrored (cur == 13) (λ e. m)
          (λ e.
            if_cases IsMirrored (cur == 9) (λ e. set_spaces-IsMirrored _ s m)
              (λ e.
                if_cases IsMirrored (cur == 11) (λ e. m)
                  (λ e.
                    if_cases IsMirrored (cur == 8)
                      (λ e.
                        if_cases IsMirrored (ltb 0 s.cursor_position)
                          (λ e.
                            set_character-IsMirrored
                              (record s { cursor_position = s.cursor_position - 1 }) b' ' m)
                          (λ e. m))
                      (λ e. set_character-IsMirrored s cur m)))))

keep_on_screen-IsMirrored : (s : Screen) → IsMirrored s → IsMirrored (keep_on_screen s)
unfolding keep_on_screen
keep_on_screen-IsMirrored s m =
    if_cases IsMirrored (leb (80 * 25) s.cursor_position) (λ e. scroll_line-IsMirrored s 1 m)
      (λ e. m)

store_character-IsMirrored :
    (s : Screen) (c : ℕ) → IsMirrored s → OfSome IsMirrored (store_character s c)
unfolding store_character
store_character-IsMirrored s c m =
    if_cases (OfSome IsMirrored) (ltb (length s.control_buffer) 40) (λ e. m) (λ e. tt)

move_cursor-IsMirrored :
    (s : Screen) (move : ℕ → ℕ → Option ℕ) → IsMirrored s → OfSome IsMirrored (move_cursor s move)
move_cursor-IsMirrored s move m =
    OfSome-bind (λ mods. Unit) IsMirrored (parse_control_buffer s.control_buffer 1) _ (OfSome-all _)
      (λ mods u.
        OfSome-bind (λ p. Unit) IsMirrored (move mods.0 mods.1) _ (OfSome-all _) (λ p u. m))

apply_to-IsMirrored :
    (s : Screen) (f : ℕ → Screen) → ((k : ℕ) → IsMirrored (f k)) → OfSome IsMirrored (apply_to s f)
apply_to-IsMirrored s f m =
    OfSome-bind (λ mods. Unit) IsMirrored (parse_control_buffer s.control_buffer 0) _ (OfSome-all _)
      (λ mods u. m mods.0)

handle_control_sequence-IsMirrored :
    (s : Screen) (cur : ℕ) → IsMirrored s → OfSome IsMirrored (handle_control_sequence s cur)
unfolding handle_control_sequence print_arguments
handle_control_sequence-IsMirrored s cur m =
    let moved = λ (move : ℕ → ℕ → Option ℕ). move_cursor-IsMirrored s move m in
    if_cases P (cur == b'A') (λ e. moved (λ m1 m2. cursor_up s.cursor_position m1))
      (λ e.
        if_cases P (cur == b'B') (λ e. moved (λ m1 m2. cursor_down s.cursor_position m1))
          (λ e.
            if_cases P (cur == b'C') (λ e. moved (λ m1 m2. cursor_right s.cursor_position m1))
              (λ e.
                if_cases P (cur == b'D')
                  (λ e. moved (λ m1 m2. some (cursor_left s.cursor_position m1)))
                  (λ e.
                    if_cases P (cur == b'E') (λ e. moved (λ m1 m2. next_line s.cursor_position m1))
                      (λ e.
                        if_cases P (cur == b'F')
                          (λ e. moved (λ m1 m2. previous_line s.cursor_position m1))
                          (λ e.
                            if_cases P (cur == b'G')
                              (λ e. moved (λ m1 m2. some (jump_column s.cursor_position m1)))
                              (λ e.
                                if_cases P (cur == b'H')
                                  (λ e. moved (λ m1 m2. some (jump_cursor m1 m2)))
                                  (λ e.
                                    if_cases P (cur == b';')
                                      (λ e. store_character-IsMirrored s cur m)
                                      (λ e.
                                        if_cases P (cur == b'J')
                                          (λ e.
                                            apply_to-IsMirrored s (λ k. clear_screen s k)
                                              (λ k. clear_screen-IsMirrored s k m))
                                          (λ e.
                                            if_cases P (cur == b'K')
                                              (λ e.
                                                apply_to-IsMirrored s (λ k. erase_line s k)
                                                  (λ k. erase_line-IsMirrored s k m))
                                              (λ e.
                                                if_cases P (cur == b'd')
                                                  (λ e.
                                                    moved (λ m1 m2.
                                                      some (jump_row s.cursor_position m1)))
                                                  (λ e.
                                                    if_cases P (cur == b'z')
                                                      (λ e.
                                                        print_all-IsMirrored
                                                          (record s { cursor_position = 24 * 80 })
                                                          s.control_buffer m)
                                                      (λ e.
                                                        if_cases P (cur == b'm')
                                                          (λ e.
                                                            apply_to-IsMirrored s
                                                            (λ k. change_color s k) (λ k. m))
                                                          (λ e. m))))))))))))))
  where
    P : Option Screen → Type 0
    P = OfSome IsMirrored

write_byte-IsMirrored : (s : Screen) (cur : ℕ) → IsMirrored s → OfSome IsMirrored (write_byte s cur)
unfolding write_byte
write_byte-IsMirrored s cur m =
    if_cases (OfSome IsMirrored) (not s.escaped)
      (λ e.
        if_cases (OfSome IsMirrored) (not (cur == 27))
          (λ e.
            if_cases (OfSome IsMirrored) (leb (plain_end s.cursor_position cur) 2080)
              (λ e.
                keep_on_screen-IsMirrored (plain_character s cur)
                  (plain_character-IsMirrored s cur m))
              (λ e. tt))
          (λ e. m))
      (λ e.
        if_cases (OfSome IsMirrored) s.csi
          (λ e.
            if_cases (OfSome IsMirrored) (leb b'0' cur && leb cur b'9')
              (λ e. store_character-IsMirrored s cur m)
              (λ e.
                if_cases (OfSome IsMirrored) (leb (sequence_end s cur) 2080)
                  (λ e. handle_control_sequence-IsMirrored s cur m) (λ e. tt)))
          (λ e. if_cases (OfSome IsMirrored) (cur == b'[') (λ e. m) (λ e. m)))

write_bytes-IsMirrored :
    (s : Screen) (text : List ℕ) → IsMirrored s → OfSome IsMirrored (write_bytes s text)
unfolding write_bytes
write_bytes-IsMirrored s [] m = m
write_bytes-IsMirrored s (c ∷ l) m =
    OfSome-bind IsMirrored IsMirrored (write_byte s c) (λ s1. write_bytes s1 l)
      (write_byte-IsMirrored s c m) (λ s1 m1. write_bytes-IsMirrored s1 l m1)

-- While the active terminal shows its last rows and the video memory has their cells, any text that
-- `tty_write_to_screen` takes, with any control sequences that write no cell behind the end of the
-- buffer, leaves the video memory with the cells of those rows.
pub tty_write_to_screen-IsMirrored :
    (s : Screen) (text : List ℕ) → IsMirrored s → OfSome IsMirrored (tty_write_to_screen s text)
unfolding tty_write_to_screen update_cursor
tty_write_to_screen-IsMirrored s text m =
    OfSome-bind IsMirrored IsMirrored (write_bytes s text) _ (write_bytes-IsMirrored s text m)
      (λ s1 m1. m1)
