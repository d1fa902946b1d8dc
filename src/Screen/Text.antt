-- ===== src/Screen/Text.antt =====
-- Plain text on the screen.
use arqvenger_os.Base.{
  ℕ, zero, suc, ◌+◌, ◌*◌, ◌≤◌, ◌<◌, ◌≡◌, ◌≢◌, refl, ap, ◌∙◌, true, false, List, [], ◌∷◌, some,
  ◌>>=◌, length, get_or, arith, ◌==◌, leb,
}
use arqvenger_os.Screen.{Screen, Cell, writable, change_character, set_character, update_cursor}
use arqvenger_os.Screen.Control.{
  plain_character, plain_end, keep_on_screen, write_byte, write_bytes, tty_write_to_screen,
}

-- a character that `tty_write_to_screen` has no case for
abbrev pub IsPlain : ℕ → Type 0
IsPlain c = (c ≢ 27) × (c ≢ 10) × (c ≢ 13) × (c ≢ 9) × (c ≢ 11) × (c ≢ 8)

abbrev pub AllPlain : List ℕ → Type 0
AllPlain [] = Unit
AllPlain (c ∷ l) = IsPlain c × AllPlain l

write_byte-plain :
    (s : Screen) (c : ℕ)
    → s.escaped ≡ false
    → IsPlain c
    → s.cursor_position + 1 < 2000
    → write_byte s c ≡ some (set_character s c)
unfolding write_byte plain_end plain_character keep_on_screen set_character change_character
write_byte-plain s c out (no_escape, no_line, no_return, no_tab, no_vertical, no_back) h =
    let e1 : (c == 27) ≡ false = ground arith in
    let e2 : (c == 10) ≡ false = ground arith in
    let e3 : (c == 13) ≡ false = ground arith in
    let e4 : (c == 9) ≡ false = ground arith in
    let e5 : (c == 11) ≡ false = ground arith in
    let e6 : (c == 8) ≡ false = ground arith in
    let e7 : leb (80 * 25) (s.cursor_position + 1) ≡ false = ground (arith, h) in
    let e8 : leb (s.cursor_position + 1) 2080 ≡ true = ground (arith, h) in
    rw (out, e1, e2, e3, e4, e5, e6, e7, e8)

-- The cells of a screen on which `text` has been written from `p` on.
abbrev pub Shown : Screen → List ℕ → Screen → Type 0
Shown s text s' =
    (s'.escaped ≡ false)
    × (s'.attribute ≡ s.attribute)
    × (s'.cursor_position ≡ s.cursor_position + length text)
    × ((q : ℕ)
        → q < s.cursor_position
        → s'.video_buffer (writable + q) ≡ s.video_buffer (writable + q))
    × ((q : ℕ)
        → s.cursor_position + length text ≤ q
        → s'.video_buffer (writable + q) ≡ s.video_buffer (writable + q))
    × ((i : ℕ)
        → i < length text
        → s'.video_buffer (writable + (s.cursor_position + i))
          ≡ record { character = get_or text i 0; attribute = s.attribute })

write_bytes-Shown :
    (s : Screen) (text : List ℕ)
    → s.escaped ≡ false
    → AllPlain text
    → s.cursor_position + length text < 2000
    → (s' : Screen) × (write_bytes s text ≡ some s') × Shown s text s'
unfolding write_bytes set_character change_character
write_bytes-Shown s [] out plain h = (
  s,
  refl,
  (out, refl, omega arith, (λ q lt. refl), (λ q le. refl), (λ i lt. absurd (omega arith))),
)
write_bytes-Shown s (c ∷ l) out (now, later) h =
    let s1 = set_character s c in
    let cell : Cell = record { character = c; attribute = s.attribute } in
    let (s', e, (out', same, moved, before, behind, here)) =
      write_bytes-Shown s1 l out later (omega (arith, h)) in
    let step : write_byte s c ≡ some s1 = write_byte-plain s c out now (omega (arith, h)) in
    (
      s',
      ap (λ o. o >>= (λ a. write_bytes a l)) step ∙ e,
      (
        out',
        same,
        omega (arith, moved),
        (λ q lt.
            let miss : (4000 + q == 4000 + s.cursor_position) ≡ false = ground (arith, lt) in
            before q (omega (arith, lt)) ∙ rw miss refl),
        (λ q le.
            let miss : (4000 + q == 4000 + s.cursor_position) ≡ false = ground (arith, le) in
            behind q (omega (arith, le)) ∙ rw miss refl),
        at s s' c l (before s.cursor_position (omega arith)) here,
      ),
    )
  where
    at :
        (s s' : Screen) (c : ℕ) (l : List ℕ)
        → s'.video_buffer (4000 + s.cursor_position)
          ≡ (set_character s c).video_buffer (4000 + s.cursor_position)
        → ((i : ℕ)
            → i < length l
            → s'.video_buffer (4000 + (s.cursor_position + 1 + i))
              ≡ record { character = get_or l i 0; attribute = s.attribute })
        → (i : ℕ) → i < length (c ∷ l)
        → s'.video_buffer (4000 + (s.cursor_position + i))
          ≡ record { character = get_or (c ∷ l) i 0; attribute = s.attribute }
    at s s' c l first here zero lt =
        let hit : (4000 + s.cursor_position == 4000 + s.cursor_position) ≡ true = ground arith in
        ap s'.video_buffer (omega arith) ∙ first ∙ rw hit refl
    at s s' c l first here (suc i) lt = ap s'.video_buffer (omega arith) ∙ here i (omega arith)

-- `tty_write_to_screen` of plain characters that fit before the end of the screen, outside a
-- control sequence, puts each of them with the current attribute into the cell that it belongs to,
-- changes no other cell of the screen, and moves the cursor behind them.
pub tty_write_to_screen-Shown :
    (s : Screen) (text : List ℕ)
    → s.escaped ≡ false
    → AllPlain text
    → s.cursor_position + length text < 2000
    → (s' : Screen) × (tty_write_to_screen s text ≡ some s') × Shown s text s'
unfolding tty_write_to_screen update_cursor
tty_write_to_screen-Shown s text out plain h =
    let (s', e, shown) = write_bytes-Shown s text out plain h in
    (update_cursor s', ap (λ o. o >>= (λ s1. some (update_cursor s1))) e, shown)
