-- ===== src/Keyboard/Examples.antt =====
-- The theorems on the keyboard's buffer at one with two codes.
use arqvenger_os.Base.{refl, false, none, [], ◌∷◌, arith, ◌==◌, if◌then◌else◌, replicate}
use arqvenger_os.Scheduler.{blocked, Kernel}
use arqvenger_os.Keyboard.{Keyboard, keyboard_read}
use arqvenger_os.Keyboard.Ring.{Holds, keyboard_read-Holds}

abbrev idle : Kernel
idle = record {
  schedule = λ p. record {
    status = blocked;
    priority = 0;
    in_wait = false;
    io_wait = false;
    asleep = false;
    is_done = false;
  };
  queue = [];
  sleep_list = [];
  curr = none;
}

-- two codes, at the last index and at the first
abbrev two_codes : Keyboard
two_codes = record {
  buffer = λ i. if i == 0 then 31 else 30;
  buffer_pos = 1;
  buffer_start = 3999;
  consumer = 1;
  kernel = idle;
}

two_codes-Holds : Holds two_codes (30 ∷ 31 ∷ [])
two_codes-Holds = record { start = omega arith; fits = omega arith; pos = refl; content = refl }

keyboard_read-Holds_example : Holds (keyboard_read two_codes 32) (30 ∷ 31 ∷ 32 ∷ [])
keyboard_read-Holds_example =
    keyboard_read-Holds two_codes (30 ∷ 31 ∷ []) 32 two_codes-Holds (omega arith)

-- a buffer with 3999 codes
abbrev full : Keyboard
full = record { buffer = λ i. 30; buffer_pos = 3999; buffer_start = 0; consumer = 1; kernel = idle }

full-Holds : Holds full (replicate 3999 30)
full-Holds = record { start = omega arith; fits = omega arith; pos = refl; content = refl }
