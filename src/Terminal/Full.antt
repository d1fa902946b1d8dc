-- ===== src/Terminal/Full.antt =====
-- A full input buffer.
use arqvenger_os.Base.{
  ℕ, ◌≡◌, refl, ap, ◌∙◌, Bool, true, false, some, List, [], ◌∷◌, ltb, OfSome, OfSome-bind, length,
  arith,
}
use arqvenger_os.Terminal.{Tty, waiting, add_characters, add_input, tty_read, wait_for_input}
use arqvenger_os.Terminal.Codes.{process_scancode}
use arqvenger_os.Terminal.Frame.{add_input-SameInput}
use arqvenger_os.Terminal.Keys.{SameBuffer, process_scancode-P}
use arqvenger_os.Terminal.Typing.{type_keys, OfSome-weaken}
use arqvenger_os.Terminal.Reading.{NoNewLine, tty_read-waiting}

full-add_characters :
    (canon : Bool) (buffer str : List ℕ)
    → length buffer ≡ 4000
    → (add_characters canon buffer str).0 ≡ buffer
unfolding add_characters
full-add_characters canon buffer [] h = refl
full-add_characters canon buffer (c ∷ str) h =
    let full : ltb (length buffer) 4000 ≡ false = ground arith in rw full

module _ (t0 : Tty) (full : length t0.input_buffer ≡ 4000) where
  add_input-full :
      (t : Tty) (str : List ℕ) → SameBuffer t0 t → OfSome (SameBuffer t0) (add_input t str)
  add_input-full t str h = OfSome-weaken _ _ (add_input t str) (add_input-SameInput t str) (λ t' s.
      record {
        input_buffer =
            s.input_buffer
            ∙ full-add_characters _ t.input_buffer str (ap length h.input_buffer ∙ full)
            ∙ h.input_buffer;
        termios = s.termios ∙ h.termios;
        terminal = s.terminal ∙ h.terminal;
      })

  type_keys-full :
      (t : Tty) (keys : List ℕ) → SameBuffer t0 t → OfSome (SameBuffer t0) (type_keys t keys)
  type_keys-full t [] h = h
  type_keys-full t (key ∷ keys) h =
      OfSome-bind (SameBuffer t0) (SameBuffer t0) (process_scancode t key) _
        (process_scancode-P (SameBuffer t0)
          (λ t t' s k. record {
            input_buffer = s.input_buffer ∙ k.input_buffer;
            termios = s.termios ∙ k.termios;
            terminal = s.terminal ∙ k.terminal;
          })
          add_input-full t key h)
        (λ t1 h1. type_keys-full t1 keys h1)

-- When the input buffer is full and has no new line, a reader in canonical mode waits whatever keys
-- are pressed, for as long as the scan codes have a meaning.
pub tty_read-full :
    (t : Tty) (p n count : ℕ) (keys : List ℕ)
    → length t.input_buffer ≡ 4000
    → NoNewLine t.input_buffer
    → t.terminal p ≡ some n
    → (t.termios n).canon ≡ true
    → OfSome (λ t'. tty_read t' p count ≡ waiting (wait_for_input t' p)) (type_keys t keys)
tty_read-full t p n count keys full h own mode =
    OfSome-weaken _ _ (type_keys t keys)
      (type_keys-full t full t keys
        (record { input_buffer = refl; termios = refl; terminal = refl }))
      (λ t' s.
        tty_read-waiting t' p n count (rw s.terminal own) (rw s.termios mode) (rw s.input_buffer h))
