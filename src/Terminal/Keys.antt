-- ===== src/Terminal/Keys.antt =====
-- What the processing of a scan code keeps when the input of characters keeps it.
use arqvenger_os.Base.{
  ℕ, ◌-◌, ◌≡◌, refl, Bool, true, false, not, ◌&&◌, ◌||◌, Option, none, some, List, [], ◌∷◌, ◌==◌,
  leb, ltb, if◌then◌else◌, OfSome, get_or, length,
}
use arqvenger_os.Base.Int.{ℤ}
use arqvenger_os.Terminal.{Tty, Modifiers, tty_change, add_input}
use arqvenger_os.Terminal.Codes.{
  cursor_key, scroll_active, special_key, not_escaped, code_table, process_scancode,
}

-- The buffer, the modes and the terminals of the processes are the same.
pub record SameBuffer (t t' : Tty) : Type 0 where
  pub input_buffer : t'.input_buffer ≡ t.input_buffer
  pub termios : t'.termios ≡ t.termios
  pub terminal : t'.terminal ≡ t.terminal

module _ (P : Tty → Type 0) (keep : (t t' : Tty) → SameBuffer t t' → P t → P t')
    (input : (t : Tty) (str : List ℕ) → P t → OfSome P (add_input t str)) where
  either : (x y : Option Tty) (b : Bool) → OfSome P x → OfSome P y → OfSome P (if b then x else y)
  either x y true h k = h
  either x y false h k = k

  toggled : (x y : Tty) (b : Bool) → P x → P y → P (if b then x else y)
  toggled x y true h k = h
  toggled x y false h k = k

  with_modifiers-P : (t : Tty) (m : Modifiers) → P t → P (record t { modifiers = m })
  with_modifiers-P t m h =
      keep t _ (record { input_buffer = refl; termios = refl; terminal = refl }) h

  cursor_key-P : (t : Tty) (b : Bool) (c : ℕ) → P t → OfSome P (cursor_key t b c)
  unfolding cursor_key
  cursor_key-P t b c h = either _ _ (not b && (t.escaped || not t.modifiers.num)) (input t _ h) h

  scroll_active-P : (t : Tty) (b : Bool) (n : ℤ) → P t → P (scroll_active t b n)
  unfolding scroll_active
  scroll_active-P t b n h =
      toggled _ _ (not b && t.escaped)
        (keep t _ (record { input_buffer = refl; termios = refl; terminal = refl }) h) h

  tty_change-P : (t : Tty) (n : ℕ) → P t → P (tty_change t n)
  unfolding tty_change
  tty_change-P t n h = keep t _ (record { input_buffer = refl; termios = refl; terminal = refl }) h

  special_key-P : (t : Tty) (b : Bool) (m : ℕ) → P t → OfSome P (special_key t b m)
  unfolding special_key
  special_key-P t b m h = either _ _ (m == 0x1D) (with_modifiers-P t _ h) (
      either _ _ (m == 0x2A || m == 0x36) (with_modifiers-P t _ h) (
        either _ _ (m == 0x38) (with_modifiers-P t _ h) (
          either _ _ (m == 0x53)
            (either _ _ (t.modifiers.alt && t.modifiers.ctrl && t.escaped) tt h)
            (either _ _ (m == 0x3A) (toggled _ _ (not b) (with_modifiers-P t _ h) h) (
              either _ _ (m == 0x45) (toggled _ _ (not b) (with_modifiers-P t _ h) h) (
                either _ _ (m == 0x46) (toggled _ _ (not b) (with_modifiers-P t _ h) h) (
                  either _ _ (m == 0x48) (cursor_key-P t b _ h) (
                    either _ _ (m == 0x50) (cursor_key-P t b _ h) (
                      either _ _ (m == 0x4D) (cursor_key-P t b _ h) (
                        either _ _ (m == 0x4B) (cursor_key-P t b _ h) (
                          either _ _ (m == 0x47) (cursor_key-P t b _ h) (
                            either _ _ (m == 0x4F) (cursor_key-P t b _ h) (
                              either _ _ (m == 0x49) (scroll_active-P t b _ h) (
                                either _ _ (m == 0x51) (scroll_active-P t b _ h) (
                                  either _ _ (leb 0x3B m && leb m 0x44)
                                    (toggled _ _ (ltb (m - 0x3B) 5) (tty_change-P t _ h) h)
                                    h)))))))))))))))

  not_escaped-P : (o : Option Tty) → OfSome P o → OfSome P (not_escaped o)
  not_escaped-P none h = tt
  not_escaped-P (some t) h =
      keep t _ (record { input_buffer = refl; termios = refl; terminal = refl }) h

  pub process_scancode-P : (t : Tty) (code : ℕ) → P t → OfSome P (process_scancode t code)
  unfolding process_scancode
  process_scancode-P t code h =
      either _ _ (code == 0xE0)
        (keep t _ (record { input_buffer = refl; termios = refl; terminal = refl }) h)
        (not_escaped-P _ (
          either _ _ (t.escaped || ltb 0x39 make || c == 0) (special_key-P t (leb 0x80 code) make h)
            (either _ _ (ltb (length t.input_buffer) 4000 && not (leb 0x80 code))
              (input t (c ∷ []) h) h)))
    where
      make : ℕ
      make = if leb 0x80 code then code - 0x80 else code

      c : ℕ
      c = get_or (code_table t.modifiers) make 0
