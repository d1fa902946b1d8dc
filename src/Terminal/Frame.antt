-- ===== src/Terminal/Frame.antt =====
-- What the echo and the waking of a reader leave alone.
use arqvenger_os.Base.{
  ℕ, ◌-◌, ◌≡◌, refl, ◌∙◌, Option, none, some, List, [], ◌∷◌, ◌==◌, ltb, if_cases, OfSome,
  OfSome-bind, OfSome-all, get_or, take, drop,
}
use arqvenger_os.Screen.{Screen}
use arqvenger_os.Screen.Control.{tty_write_to_screen}
use arqvenger_os.Terminal.{
  Termios, Tty, add_characters, tty_write_active, wake_up, echo_input, add_input,
}

-- The input and what it depends on are the same.
pub record SameInput (t t' : Tty) : Type 0 where
  pub input_buffer : t'.input_buffer ≡ t.input_buffer
  pub termios : t'.termios ≡ t.termios
  pub active_terminal : t'.active_terminal ≡ t.active_terminal
  pub modifiers : t'.modifiers ≡ t.modifiers
  pub terminal : t'.terminal ≡ t.terminal
  pub foreground : t'.foreground ≡ t.foreground

pub SameInput-refl : (t : Tty) → SameInput t t
SameInput-refl t = record {
  input_buffer = refl;
  termios = refl;
  active_terminal = refl;
  modifiers = refl;
  terminal = refl;
  foreground = refl;
}

SameInput-trans : (t t1 t2 : Tty) → SameInput t t1 → SameInput t1 t2 → SameInput t t2
SameInput-trans t t1 t2 a b = record {
  input_buffer = b.input_buffer ∙ a.input_buffer;
  termios = b.termios ∙ a.termios;
  active_terminal = b.active_terminal ∙ a.active_terminal;
  modifiers = b.modifiers ∙ a.modifiers;
  terminal = b.terminal ∙ a.terminal;
  foreground = b.foreground ∙ a.foreground;
}

-- the same terminals, with the buffer as it is
pub at_buffer :
    (t t' : Tty) (b c : List ℕ)
    → SameInput (record t { input_buffer = b }) t'
    → t'.input_buffer ≡ c
    → SameInput (record t { input_buffer = c }) t'
at_buffer t t' b c s e = record {
  input_buffer = e;
  termios = s.termios;
  active_terminal = s.active_terminal;
  modifiers = s.modifiers;
  terminal = s.terminal;
  foreground = s.foreground;
}

tty_write_active-SameInput :
    (t : Tty) (text : List ℕ) → OfSome (SameInput t) (tty_write_active t text)
unfolding tty_write_active
tty_write_active-SameInput t text =
    OfSome-bind (λ (s : Screen). Unit) (SameInput t) _ _
      (OfSome-all (tty_write_to_screen (t.screen t.active_terminal) text))
      (λ s u. record {
        input_buffer = refl;
        termios = refl;
        active_terminal = refl;
        modifiers = refl;
        terminal = refl;
        foreground = refl;
      })

echo_input-SameInput : (t : Tty) (str : List ℕ) (i : ℕ) → OfSome (SameInput t) (echo_input t str i)
unfolding echo_input
echo_input-SameInput t str i =
    if_cases (OfSome (SameInput t)) (get_or str 0 0 == 27)
      (λ e.
        OfSome-bind (SameInput t) (SameInput t) (tty_write_active t (b'^' ∷ b'[' ∷ [])) _
          (tty_write_active-SameInput t _)
          (λ t1 s1.
            if_cases (OfSome (SameInput t)) (ltb 1 i)
              (λ e.
                OfSome-map t t1 (tty_write_active t1 (take (i - 1) (drop 1 str))) s1
                  (tty_write_active-SameInput t1 _))
              (λ e. s1)))
      (λ e. tty_write_active-SameInput t _)
  where
    OfSome-map :
        (t t1 : Tty) (o : Option Tty)
        → SameInput t t1
        → OfSome (SameInput t1) o
        → OfSome (SameInput t) o
    OfSome-map t t1 none a b = tt
    OfSome-map t t1 (some t2) a b = SameInput-trans t t1 t2 a b

pub wake_up-SameInput : (t : Tty) → SameInput t (wake_up t)
unfolding wake_up
wake_up-SameInput t = record {
  input_buffer = refl;
  termios = refl;
  active_terminal = refl;
  modifiers = refl;
  terminal = refl;
  foreground = refl;
}

-- `addInput` comes to the buffer of its loop, and leaves the rest of the input alone.
pub add_input-SameInput :
    (t : Tty) (str : List ℕ)
    → OfSome
        (SameInput (record t {
          input_buffer = (add_characters (t.termios t.active_terminal).canon t.input_buffer str).0;
        }))
        (add_input t str)
unfolding add_input
add_input-SameInput t str =
    OfSome-bind (SameInput t1) (SameInput t1) _ _
      (if_cases (OfSome (SameInput t1)) mode.echo (λ e. echo_input-SameInput t1 str r.1)
        (λ e. SameInput-refl t1))
      (λ t2 s. SameInput-trans t1 t2 (wake_up t2) s (wake_up-SameInput t2))
  where
    mode : Termios
    mode = t.termios t.active_terminal

    r : List ℕ × ℕ
    r = add_characters mode.canon t.input_buffer str

    t1 : Tty
    t1 = record t { input_buffer = r.0 }
