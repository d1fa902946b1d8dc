-- ===== src/Terminal/Examples.antt =====
-- Concrete runs of the terminals' theorems.
use arqvenger_os.Base.{
  ℕ, zero, suc, ◌≤◌, ◌≡◌, refl, true, false, List, [], ◌∷◌, ◌++◌, some, none, arith, OfSome,
  replicate, length-replicate, ◌==◌, length,
}
use arqvenger_os.Scheduler.{Kernel, ready}
use arqvenger_os.ProcessQueue
use arqvenger_os.Screen.{Screen}
use arqvenger_os.Terminal.{Tty, returned, waiting, set_io_wait, wait_for_input, wake_up, tty_read}
use arqvenger_os.Terminal.Codes.{process_scancode}
use arqvenger_os.Terminal.Bounds.{process_scancode-Fits}
use arqvenger_os.Terminal.Typing.{type_keys}
use arqvenger_os.Terminal.Reading.{Reads, NoNewLine, tty_read-Reads}
use arqvenger_os.Terminal.Line.{tty_read-type_keys}
use arqvenger_os.Terminal.Full.{tty_read-full}
use arqvenger_os.Terminal.Waking.{wake_up-wait_for_input}

abbrev idle : Kernel
idle = record {
  schedule = λ p. record {
    status = ready;
    priority = 0;
    in_wait = false;
    io_wait = false;
    asleep = false;
    is_done = false;
  };
  queue = [];
  sleep_list = [];
  curr = none;
}

abbrev empty_screen : ℕ → Screen
empty_screen n = record {
  active = n == 0;
  cursor_position = 0;
  escaped = false;
  csi = false;
  attribute = 7;
  control_buffer = [];
  visible_line = 50;
  last_line = 50;
  video_buffer = λ i. record { character = b' '; attribute = 7 };
  video_memory = λ i. record { character = b' '; attribute = 7 };
  video_cursor = 0;
}

-- the terminals with a shell, process 1, in the foreground of the first
abbrev terminals : List ℕ → Tty
terminals buffer = record {
  modifiers = record {
    ctrl = false;
    alt = false;
    shift = false;
    caps = false;
    scroll = false;
    num = false;
  };
  escaped = false;
  input_buffer = buffer;
  active_terminal = 0;
  termios = λ n. record { canon = true; echo = true };
  screen = empty_screen;
  wait = λ n. none ∷ none ∷ [];
  kernel = idle;
  foreground = λ p. p == 1;
  terminal = λ p. some 0;
}

-- the keys "a", "s", backspace
abbrev keys : List ℕ
keys = 0x1E ∷ 0x1F ∷ 0x0E ∷ []

process_scancode-Fits_example :
    OfSome (λ t. length t.input_buffer ≤ 4000) (process_scancode (terminals (b'x' ∷ [])) 0x1E)
process_scancode-Fits_example = process_scancode-Fits (terminals (b'x' ∷ [])) 0x1E (omega arith)

tty_read-type_keys_example :
    OfSome
      (λ t'.
        tty_read t' 1 80
        ≡ returned
            (b'a' ∷ 10 ∷ [])
            (record t' { input_buffer = []; kernel = set_io_wait t'.kernel 1 false }))
      (type_keys (terminals []) (keys ++ (0x1C ∷ [])))
tty_read-type_keys_example =
    tty_read-type_keys (terminals []) 1 80 keys refl refl refl refl refl
      (
        omega arith,
        (λ e. absurd (omega (arith, e))),
        (
          omega arith,
          (λ e. absurd (omega (arith, e))),
          (omega arith, (λ e. absurd (omega (arith, e))), tt),
        ),
      )
      (
        (λ e. absurd (omega (arith, e))),
        ((λ e. absurd (omega (arith, e))), ((λ e. absurd (omega (arith, e))), tt)),
      )
      (omega arith) (omega arith) (omega arith)

tty_read-Reads_example :
    Reads (terminals (b'a' ∷ 10 ∷ [])) 1 0 80 (tty_read (terminals (b'a' ∷ 10 ∷ [])) 1 80)
tty_read-Reads_example = tty_read-Reads (terminals (b'a' ∷ 10 ∷ [])) 1 0 80 refl (omega arith)

NoNewLine-replicate : (n : ℕ) → NoNewLine (replicate n b'a')
NoNewLine-replicate zero = tt
NoNewLine-replicate (suc n) = ((λ e. absurd (omega (arith, e))), NoNewLine-replicate n)

tty_read-full_example :
    OfSome
      (λ t'. tty_read t' 1 80 ≡ waiting (wait_for_input t' 1))
      (type_keys (terminals (replicate 4000 b'a')) (0x1C ∷ []))
tty_read-full_example =
    tty_read-full (terminals (replicate 4000 b'a')) 1 0 80 (0x1C ∷ [])
      (length-replicate {A = ℕ} 4000 b'a') (NoNewLine-replicate 4000) refl refl

wake_up-wait_for_input_example :
    ((n : ℕ) → (wake_up (wait_for_input (terminals []) 1)).wait n ≡ none ∷ none ∷ [])
    × (((wake_up (wait_for_input (terminals []) 1)).kernel.schedule 1).status ≡ ready)
    × ((wake_up (wait_for_input (terminals []) 1)).kernel.queue
        ≡ ProcessQueue.push (ProcessQueue.remove [] 1) 1)
wake_up-wait_for_input_example = wake_up-wait_for_input (terminals []) 1 refl refl refl tt tt
