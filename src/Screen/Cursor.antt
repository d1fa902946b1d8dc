-- ===== src/Screen/Cursor.antt =====
-- The place of the cursor on the screen.
use arqvenger_os.Base.{
  ℕ, zero, suc, ◌+◌, ◌-◌, ◌*◌, ◌<◌, ◌≡◌, refl, ◌∙◌, true, not, ◌&&◌, List, [], ◌∷◌, Option, none,
  some, length, arith, ◌==◌, ==_iff, ltb, leb, if_cases, OfSome, OfSome-bind, OfSome-all,
}
use arqvenger_os.Screen.{
  Screen, write_cell, change_character, set_character, scroll_line, flip_buffer, update_cursor,
  blank_from, erase_line, clear_screen,
}
use arqvenger_os.Screen.Control.{
  parse_control_buffer, store_character, cursor_up, cursor_down, cursor_right, cursor_left,
  next_line, previous_line, jump_column, jump_cursor, jump_row, print_arguments, change_color,
  move_cursor, apply_to, handle_control_sequence, tab_end, set_spaces, plain_character,
  keep_on_screen, plain_end, sequence_end, write_byte, write_bytes, tty_write_to_screen,
}
use arqvenger_os.Screen.Moves.{
  Inside, cursor_up-Inside, cursor_down-Inside, cursor_right-Inside, cursor_left-Inside,
  next_line-Inside, previous_line-Inside, jump_column-Inside, jump_cursor-Inside, jump_row-Inside,
}

abbrev pub OnScreen : Screen → Type 0
OnScreen s = s.cursor_position < 2000

cursor-blank_from :
    (n : ℕ) (s : Screen) (start : ℕ) → (blank_from n s start).cursor_position ≡ s.cursor_position
unfolding blank_from change_character
cursor-blank_from zero s start = refl
cursor-blank_from (suc n) s start =
    cursor-blank_from n (write_cell s start (record { character = b' '; attribute = s.attribute }))
      (start + 1)

erase_line-OnScreen : (s : Screen) (type : ℕ) → OnScreen s → OnScreen (erase_line s type)
unfolding erase_line
erase_line-OnScreen s type h =
    if_cases OnScreen (type == 2) (λ e. omega (arith, cursor-blank_from _ s _))
      (λ e.
        if_cases OnScreen (type == 1) (λ e. omega (arith, cursor-blank_from _ s _))
          (λ e. omega (arith, cursor-blank_from _ s _)))

clear_screen-OnScreen : (s : Screen) (type : ℕ) → OnScreen s → OnScreen (clear_screen s type)
unfolding clear_screen
clear_screen-OnScreen s type h =
    if_cases OnScreen (type == 2) (λ e. omega (arith, cursor-blank_from _ s _))
      (λ e.
        if_cases OnScreen (type == 1) (λ e. omega (arith, cursor-blank_from _ s _))
          (λ e. omega (arith, cursor-blank_from _ s _)))

cursor-set_spaces : (n : ℕ) (s : Screen) → (set_spaces n s).cursor_position ≡ s.cursor_position + n
unfolding set_spaces set_character change_character
cursor-set_spaces zero s = omega arith
cursor-set_spaces (suc n) s = cursor-set_spaces n (set_character s b' ') ∙ omega arith

-- Before the scrolling the cursor is at most one row below the screen.
plain_character-near :
    (s : Screen) (cur : ℕ) → OnScreen s → (plain_character s cur).cursor_position < 2080
unfolding plain_character set_character change_character
plain_character-near s cur h =
    if_cases Near (cur == 10) (λ e. omega (arith, h))
      (λ e.
        if_cases Near (cur == 13) (λ e. omega (arith, h))
          (λ e.
            if_cases Near (cur == 9) (λ e. spaces)
              (λ e.
                if_cases Near (cur == 11) (λ e. omega (arith, h))
                  (λ e.
                    if_cases Near (cur == 8)
                      (λ e.
                        if_cases Near (ltb 0 s.cursor_position) (λ e. omega (arith, h))
                          (λ e. omega (arith, h)))
                      (λ e. omega (arith, h))))))
  where
    Near : Screen → Type 0
    Near s = s.cursor_position < 2080

    within : (p : ℕ) → p < 2000 → tab_end p < 2080
    within p h = ground (arith, h)

    spaces : Near (set_spaces (tab_end s.cursor_position - s.cursor_position) s)
    spaces = omega (
      arith,
      cursor-set_spaces (tab_end s.cursor_position - s.cursor_position) s,
      within s.cursor_position h,
      h,
    )

keep_on_screen-OnScreen : (s : Screen) → s.cursor_position < 2080 → OnScreen (keep_on_screen s)
unfolding keep_on_screen scroll_line flip_buffer
keep_on_screen-OnScreen s h =
    if_cases OnScreen (leb (80 * 25) s.cursor_position) (λ e. omega (arith, h))
      (λ e. ground (arith, e))

move_cursor-OnScreen :
    (s : Screen) (move : ℕ → ℕ → Option ℕ)
    → ((m1 m2 : ℕ) → OfSome Inside (move m1 m2))
    → OfSome OnScreen (move_cursor s move)
move_cursor-OnScreen s move h =
    OfSome-bind (λ mods. Unit) OnScreen (parse_control_buffer s.control_buffer 1) _ (OfSome-all _)
      (λ mods u.
        OfSome-bind Inside OnScreen (move mods.0 mods.1) _ (h mods.0 mods.1) (λ p inside. inside))

apply_to-OnScreen :
    (s : Screen) (f : ℕ → Screen) → ((k : ℕ) → OnScreen (f k)) → OfSome OnScreen (apply_to s f)
apply_to-OnScreen s f h =
    OfSome-bind (λ mods. Unit) OnScreen (parse_control_buffer s.control_buffer 0) _ (OfSome-all _)
      (λ mods u. h mods.0)

store_character-OnScreen : (s : Screen) (c : ℕ) → OnScreen s → OfSome OnScreen (store_character s c)
unfolding store_character
store_character-OnScreen s c h =
    if_cases (OfSome OnScreen) (ltb (length s.control_buffer) 40) (λ e. h) (λ e. tt)

-- The character is no `C` of a sequence while the cursor is on the last line.
abbrev pub MayWrite : Screen → ℕ → Type 0
MayWrite s cur = cur ≡ b'C' → s.csi ≡ true → s.cursor_position < 1920

handle_control_sequence-OnScreen :
    (s : Screen) (cur : ℕ)
    → OnScreen s
    → (cur ≡ b'C' → s.cursor_position < 1920)
    → OfSome OnScreen (handle_control_sequence s cur)
unfolding handle_control_sequence print_arguments
handle_control_sequence-OnScreen s cur h may =
    let p = s.cursor_position in
    if_cases P (cur == b'A')
      (λ e. move_cursor-OnScreen s (λ m1 m2. cursor_up p m1) (λ m1 m2. cursor_up-Inside p m1 h))
      (λ e.
        if_cases P (cur == b'B')
          (λ e.
            move_cursor-OnScreen s (λ m1 m2. cursor_down p m1) (λ m1 m2. cursor_down-Inside p m1 h))
          (λ e.
            if_cases P (cur == b'C')
              (λ e.
                move_cursor-OnScreen s (λ m1 m2. cursor_right p m1)
                  (λ m1 m2. cursor_right-Inside p m1 (may ((==_iff cur b'C').0 e))))
              (λ e.
                if_cases P (cur == b'D')
                  (λ e.
                    move_cursor-OnScreen s (λ m1 m2. some (cursor_left p m1))
                      (λ m1 m2. cursor_left-Inside p m1 h))
                  (λ e.
                    if_cases P (cur == b'E')
                      (λ e.
                        move_cursor-OnScreen s (λ m1 m2. next_line p m1)
                          (λ m1 m2. next_line-Inside p m1 h))
                      (λ e.
                        if_cases P (cur == b'F')
                          (λ e.
                            move_cursor-OnScreen s (λ m1 m2. previous_line p m1)
                              (λ m1 m2. previous_line-Inside p m1 h))
                          (λ e.
                            if_cases P (cur == b'G')
                              (λ e.
                                move_cursor-OnScreen s (λ m1 m2. some (jump_column p m1))
                                  (λ m1 m2. jump_column-Inside p m1 h))
                              (λ e.
                                if_cases P (cur == b'H')
                                  (λ e.
                                    move_cursor-OnScreen s (λ m1 m2. some (jump_cursor m1 m2))
                                      (λ m1 m2. jump_cursor-Inside m1 m2))
                                  (λ e.
                                    if_cases P (cur == b';') (λ e. store_character-OnScreen s cur h)
                                      (λ e.
                                        if_cases P (cur == b'J')
                                          (λ e.
                                            apply_to-OnScreen s (λ k. clear_screen s k)
                                              (λ k. clear_screen-OnScreen s k h))
                                          (λ e.
                                            if_cases P (cur == b'K')
                                              (λ e.
                                                apply_to-OnScreen s (λ k. erase_line s k)
                                                  (λ k. erase_line-OnScreen s k h))
                                              (λ e.
                                                if_cases P (cur == b'd')
                                                  (λ e.
                                                    move_cursor-OnScreen s
                                                      (λ m1 m2. some (jump_row p m1))
                                                      (λ m1 m2. jump_row-Inside p m1))
                                                  (λ e.
                                                    if_cases P (cur == b'z') (λ e. h)
                                                      (λ e.
                                                        if_cases P (cur == b'm')
                                                          (λ e.
                                                            apply_to-OnScreen s
                                                            (λ k. change_color s k) (λ k. h))
                                                          (λ e. h))))))))))))))
  where
    P : Option Screen → Type 0
    P = OfSome OnScreen

write_byte-OnScreen :
    (s : Screen) (cur : ℕ) → OnScreen s → MayWrite s cur → OfSome OnScreen (write_byte s cur)
unfolding write_byte
write_byte-OnScreen s cur h may =
    if_cases (OfSome OnScreen) (not s.escaped)
      (λ e.
        if_cases (OfSome OnScreen) (not (cur == 27))
          (λ e.
            if_cases (OfSome OnScreen) (leb (plain_end s.cursor_position cur) 2080)
              (λ e. keep_on_screen-OnScreen (plain_character s cur) (plain_character-near s cur h))
              (λ e. tt))
          (λ e. h))
      (λ e.
        if_cases (OfSome OnScreen) s.csi
          (λ csi.
            if_cases (OfSome OnScreen) (leb b'0' cur && leb cur b'9')
              (λ e. store_character-OnScreen s cur h)
              (λ e.
                if_cases (OfSome OnScreen) (leb (sequence_end s cur) 2080)
                  (λ fits. handle_control_sequence-OnScreen s cur h (λ e. may e csi)) (λ e. tt)))
          (λ e. if_cases (OfSome OnScreen) (cur == b'[') (λ e. h) (λ e. h)))

-- No character of the text is such a `C` when the loop comes to it.
abbrev pub MayWriteAll : Screen → List ℕ → Type 0
MayWriteAll s [] = Unit
MayWriteAll s (c ∷ l) = MayWrite s c × OfSome (λ s1. MayWriteAll s1 l) (write_byte s c)

OfSome-both :
    (P Q : Screen → Type 0) (o : Option Screen)
    → OfSome P o
    → OfSome Q o
    → OfSome (λ s. P s × Q s) o
OfSome-both P Q none p q = tt
OfSome-both P Q (some s) p q = (p, q)

write_bytes-OnScreen :
    (s : Screen) (text : List ℕ)
    → OnScreen s
    → MayWriteAll s text
    → OfSome OnScreen (write_bytes s text)
unfolding write_bytes
write_bytes-OnScreen s [] h may = h
write_bytes-OnScreen s (c ∷ l) h (now, later) =
    OfSome-bind (λ s1. OnScreen s1 × MayWriteAll s1 l) OnScreen (write_byte s c)
      (λ s1. write_bytes s1 l)
      (OfSome-both OnScreen (λ s1. MayWriteAll s1 l) (write_byte s c)
        (write_byte-OnScreen s c h now) later)
      (λ s1 both. write_bytes-OnScreen s1 l both.0 both.1)

-- From a cursor on the screen `tty_write_to_screen` leaves it there, for a text in which no
-- sequence moves it to the right while it is on the last line, as long as no parameter overflows.
pub tty_write_to_screen-OnScreen :
    (s : Screen) (text : List ℕ)
    → OnScreen s
    → MayWriteAll s text
    → OfSome OnScreen (tty_write_to_screen s text)
unfolding tty_write_to_screen update_cursor
tty_write_to_screen-OnScreen s text h may =
    OfSome-bind OnScreen OnScreen (write_bytes s text) _ (write_bytes-OnScreen s text h may)
      (λ s1 h1. h1)
