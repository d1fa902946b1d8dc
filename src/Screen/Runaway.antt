-- ===== src/Screen/Runaway.antt =====
-- Moving the cursor to the right on the last line.
use arqvenger_os.Base.{
  ℕ, zero, suc, ◌+◌, ◌-◌, ◌*◌, ◌/◌, ◌%◌, ◌^◌, ◌<◌, ◌≡◌, refl, ◌∙◌, true, false, List, [], ◌∷◌, some,
  arith, ltb, leb,
}
use arqvenger_os.Screen.{Screen}
use arqvenger_os.Screen.Control.{
  parse_first, sequence_end, parse_control_buffer, store_character, cursor_right,
  handle_control_sequence, write_byte, write_bytes,
}

-- `n` times the sequence "\e[80C"
unfoldable pub rights : ℕ → List ℕ
rights zero = []
rights (suc n) = 27 ∷ b'[' ∷ b'8' ∷ b'0' ∷ b'C' ∷ rights n

one_right :
    (s : Screen) (l : List ℕ)
    → s.escaped ≡ false
    → s.csi ≡ false
    → s.control_buffer ≡ []
    → s.cursor_position + (80 - s.cursor_position % 80) < 2 ^ 31
    → write_bytes s (27 ∷ b'[' ∷ b'8' ∷ b'0' ∷ b'C' ∷ l)
      ≡ write_bytes
          (record s {
            escaped = false;
            csi = false;
            control_buffer = [];
            cursor_position = s.cursor_position + (80 - s.cursor_position % 80);
          })
          l
unfolding write_bytes write_byte store_character handle_control_sequence parse_control_buffer
    parse_first cursor_right sequence_end
one_right s l out none_open empty room =
    let small : ltb (s.cursor_position % 80 + 80) (2 ^ 31) ≡ true = ground arith in
    let over : leb 80 (s.cursor_position % 80 + 80) ≡ true = ground arith in
    let fits : ltb (s.cursor_position + (80 - s.cursor_position % 80)) (2 ^ 31) ≡ true =
      ground (arith, room) in
    rw (out, none_open, empty, small, over, fits)

rights_on :
    (s : Screen) (n : ℕ)
    → s.escaped ≡ false
    → s.csi ≡ false
    → s.control_buffer ≡ []
    → (row : ℕ) → s.cursor_position ≡ row * 80
    → (row + n) * 80 < 2 ^ 31
    → (s' : Screen) × (write_bytes s (rights n) ≡ some s') × (s'.cursor_position ≡ (row + n) * 80)
unfolding rights write_bytes
rights_on s zero out none_open empty row at room = (s, refl, omega (arith, at))
rights_on s (suc n) out none_open empty row at room =
    let s1 : Screen = record s {
      escaped = false;
      csi = false;
      control_buffer = [];
      cursor_position = s.cursor_position + (80 - s.cursor_position % 80);
    } in
    let (s', e, last) = rights_on s1 n refl refl refl (row + 1) (omega (arith, at)) (omega arith) in
    (
      s',
      one_right s (rights n) out none_open empty (omega (arith, at, room)) ∙ e,
      omega (arith, last),
    )

-- Outside a control sequence, `n + 1` sequences that move the cursor 80 to the right take it to the
-- start of the line `n + 1` lines below its own: beyond the screen, and beyond the buffer when
-- there are enough of them, while its position is an `int`.
pub write_bytes-rights :
    (s : Screen) (n : ℕ)
    → s.escaped ≡ false
    → s.csi ≡ false
    → s.control_buffer ≡ []
    → (s.cursor_position / 80 + suc n) * 80 < 2 ^ 31
    → (s' : Screen) × (write_bytes s (rights (suc n)) ≡ some s')
      × (s'.cursor_position ≡ (s.cursor_position / 80 + suc n) * 80)
unfolding rights
write_bytes-rights s n out none_open empty room =
    let s1 : Screen = record s {
      escaped = false;
      csi = false;
      control_buffer = [];
      cursor_position = s.cursor_position + (80 - s.cursor_position % 80);
    } in
    let first = one_right s (rights n) out none_open empty (omega (arith, room)) in
    let at : s1.cursor_position ≡ (s.cursor_position / 80 + 1) * 80 = omega arith in
    let (s', e, last) =
      rights_on s1 n refl refl refl (s.cursor_position / 80 + 1) at (omega (arith, room)) in
    (s', first ∙ e, omega (arith, last))
