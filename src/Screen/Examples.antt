-- ===== src/Screen/Examples.antt =====
-- Concrete runs of the screen's theorems.
use arqvenger_os.Base.{ℕ, ◌≡◌, refl, true, false, List, [], ◌∷◌, some, arith, OfSome}
use arqvenger_os.Screen.{Screen, scroll_line, flip_buffer}
use arqvenger_os.Screen.Control.{
  write_byte, plain_end, sequence_end, keep_on_screen, plain_character, handle_control_sequence,
  parse_control_buffer, cursor_up, tty_write_to_screen,
}
use arqvenger_os.Screen.Mirror.{IsMirrored, tty_write_to_screen-IsMirrored}
use arqvenger_os.Screen.Cursor.{OnScreen, tty_write_to_screen-OnScreen}
use arqvenger_os.Screen.Text.{Shown, tty_write_to_screen-Shown}

-- an empty screen with the cursor in the last line
abbrev last_line_screen : Screen
last_line_screen = record {
  active = true;
  cursor_position = 1950;
  escaped = false;
  csi = false;
  attribute = 7;
  control_buffer = [];
  visible_line = 50;
  last_line = 50;
  video_buffer = λ i. record { character = b' '; attribute = 7 };
  video_memory = λ i. record { character = b' '; attribute = 7 };
  video_cursor = 1950;
}

-- "Hi", a new line, and the jump to the first cell
abbrev greeting : List ℕ
greeting = b'H' ∷ b'i' ∷ 10 ∷ 27 ∷ b'[' ∷ b'H' ∷ []

-- a new line, and the sequence that moves the cursor up
abbrev upwards : List ℕ
upwards = 10 ∷ 27 ∷ b'[' ∷ b'A' ∷ []

tty_write_to_screen-IsMirrored_example :
    OfSome IsMirrored (tty_write_to_screen last_line_screen greeting)
tty_write_to_screen-IsMirrored_example =
    tty_write_to_screen-IsMirrored last_line_screen greeting (refl, refl, λ p h. refl)

tty_write_to_screen-OnScreen_example :
    OfSome OnScreen (tty_write_to_screen last_line_screen upwards)
unfolding write_byte plain_end sequence_end keep_on_screen plain_character handle_control_sequence
    parse_control_buffer cursor_up scroll_line flip_buffer
tty_write_to_screen-OnScreen_example =
    tty_write_to_screen-OnScreen last_line_screen upwards (omega arith) (
      (λ e csi. absurd (omega (arith, e))),
      (
        (λ e csi. absurd (omega (arith, e))),
        ((λ e csi. absurd (omega (arith, e))), ((λ e csi. absurd (omega (arith, e))), tt)),
      ),
    )

tty_write_to_screen-Shown_example :
    (s' : Screen) × (tty_write_to_screen last_line_screen (b'H' ∷ b'i' ∷ []) ≡ some s')
    × Shown last_line_screen (b'H' ∷ b'i' ∷ []) s'
tty_write_to_screen-Shown_example =
    tty_write_to_screen-Shown last_line_screen (b'H' ∷ b'i' ∷ []) refl
      (
        (
          (λ e. omega (arith, e)),
          (λ e. omega (arith, e)),
          (λ e. omega (arith, e)),
          (λ e. omega (arith, e)),
          (λ e. omega (arith, e)),
          (λ e. omega (arith, e)),
        ),
        (
          (
            (λ e. omega (arith, e)),
            (λ e. omega (arith, e)),
            (λ e. omega (arith, e)),
            (λ e. omega (arith, e)),
            (λ e. omega (arith, e)),
            (λ e. omega (arith, e)),
          ),
          tt,
        ),
      )
      (omega arith)
