-- ===== src/Terminal.antt =====
-- The terminals and their input: drivers/tty/tty.c and drivers/tty/input.c.
-- `inputBuffer` is the list of the `bufferEnd` characters in it; all terminals share it. The video
-- memory, which is the card's, stands in the screen of the active terminal. `none` is a control
-- sequence of the echo that C gives no meaning, as on the screen, or a reboot.
pub mod Codes
mod Examples
pub mod Switch
pub mod Waking
pub mod Keys
pub mod Full
pub mod Line
pub mod Reading
pub mod Typing
pub mod Bounds
pub mod Frame
use arqvenger_os.Base.{
  ℕ, zero, suc, ◌+◌, ◌-◌, ◌^◌, Bool, true, false, ◌&&◌, Option, none, some, ◌>>=◌, List, [], ◌∷◌,
  ◌++◌, ◌==◌, ltb, if◌then◌else◌, length, take, drop, set, get_or,
}
use arqvenger_os.Scheduler.{Kernel, set_schedule, process_table_block, process_table_unblock}
use arqvenger_os.Screen.{Screen, flip_buffer, update_cursor}
use arqvenger_os.Screen.Control.{tty_write_to_screen}

-- `termios`
pub record Termios : Type 0 where
  pub canon : Bool
  pub echo : Bool

-- `struct ModifierStatus`
pub record Modifiers : Type 0 where
  pub ctrl : Bool
  pub alt : Bool
  pub shift : Bool
  pub caps : Bool
  pub scroll : Bool
  pub num : Bool

-- the slots in which processes wait for input, NULL or a pid
abbrev pub Waiting : Type 0
Waiting = List (Option ℕ)

abbrev pub num_terminals : ℕ
num_terminals = 5

abbrev pub buffer_size : ℕ
buffer_size = 4000

-- The terminals by their numbers; `foreground` and `terminal` are the fields `active` and `terminal`
-- of a process, with `none` for NO_TERMINAL.
pub record Tty : Type 0 where
  pub modifiers : Modifiers
  pub escaped : Bool
  pub input_buffer : List ℕ
  pub active_terminal : ℕ
  pub termios : ℕ → Termios
  pub screen : ℕ → Screen
  pub wait : ℕ → Waiting
  pub kernel : Kernel
  pub foreground : ℕ → Bool
  pub terminal : ℕ → Option ℕ

abbrev pub at_terminal {ℓ} : {A : Type ℓ} → (ℕ → A) → ℕ → A → ℕ → A
at_terminal f n a m = if m == n then a else f m

-- `tty_current`, with the result the number: a process without a terminal has the first one
abbrev pub or_first_terminal : Option ℕ → ℕ
or_first_terminal none = 0
or_first_terminal (some n) = n

abbrev pub tty_current : Tty → ℕ → ℕ
tty_current t p = or_first_terminal (t.terminal p)

-- `tty_change` with `tty_screen_change`: the card goes over to the screen of the other terminal.
abbrev pub take_card : Screen → Screen → Screen
take_card s from = record s {
  active = true;
  video_memory = from.video_memory;
  video_cursor = from.video_cursor;
}

unfoldable pub tty_change : Tty → ℕ → Tty
tty_change t number =
    let old = t.screen t.active_terminal in
    let screens = at_terminal t.screen t.active_terminal (record old { active = false }) in
    record t {
      active_terminal = number;
      screen =
          at_terminal screens number (update_cursor (flip_buffer (take_card (screens number) old)));
    }

-- `tty_write_active`
unfoldable pub tty_write_active : Tty → List ℕ → Option Tty
tty_write_active t text =
    tty_write_to_screen (t.screen t.active_terminal) text
    >>= (λ s. some (record t { screen = at_terminal t.screen t.active_terminal s }))

abbrev write_to : Tty → ℕ → List ℕ → Option Tty
write_to t n text =
    tty_write_to_screen (t.screen n) text
    >>= (λ s. some (record t { screen = at_terminal t.screen n s }))

-- `tty_write` of the process `p`, and `tty_write_to_terminal`
unfoldable pub tty_write : Tty → ℕ → List ℕ → Option Tty
tty_write t p text = write_to t (tty_current t p) text

unfoldable pub tty_write_to_terminal : Tty → Option ℕ → List ℕ → Option Tty
tty_write_to_terminal t none text = tty_write_active t text
tty_write_to_terminal t (some n) text = write_to t n text

-- The search of `wake_up`: the slots, and the process that is woken.
unfoldable pub wake_first : (ℕ → Bool) → Waiting → Waiting × Option ℕ
wake_first foreground [] = ([], none)
wake_first foreground (none ∷ w) =
    let (rest, found) = wake_first foreground w in (none ∷ rest, found)
wake_first foreground (some p ∷ w) =
    let (rest, found) = wake_first foreground w in
    if foreground p then (none ∷ w, some p) else (some p ∷ rest, found)

abbrev pub unblock_found : Kernel → Option ℕ → Kernel
unblock_found k none = k
unblock_found k (some p) = process_table_unblock k p

unfoldable pub wake_up : Tty → Tty
wake_up t =
    let (slots, found) = wake_first t.foreground (t.wait t.active_terminal) in
    record t {
      wait = at_terminal t.wait t.active_terminal slots;
      kernel = unblock_found t.kernel found;
    }

-- The search of `wait_for_input` for a free slot, and whether there is one.
unfoldable pub wait_in_slot : Waiting → ℕ → Waiting × Bool
wait_in_slot [] p = ([], false)
wait_in_slot (none ∷ w) p = (some p ∷ w, true)
wait_in_slot (some q ∷ w) p = let (rest, ok) = wait_in_slot w p in (some q ∷ rest, ok)

abbrev pub set_io_wait : Kernel → ℕ → Bool → Kernel
set_io_wait k p b = set_schedule k p (record (k.schedule p) { io_wait = b })

-- `tty_terminal`, with the result the number: NO_TERMINAL is the active one
abbrev pub or_active : Tty → Option ℕ → ℕ
or_active t none = t.active_terminal
or_active t (some n) = n

-- `wait_for_input` up to its call of `scheduler_do`; with no free slot it does nothing.
unfoldable pub wait_for_input : Tty → ℕ → Tty
wait_for_input t p =
    let n = or_active t (t.terminal p) in
    let (slots, ok) = wait_in_slot (t.wait n) p in
    if ok
    then record t {
      wait = at_terminal t.wait n slots;
      kernel = process_table_block (set_io_wait t.kernel p true) p;
    }
    else t

-- `tty_detach_process`
unfoldable pub detach_slots : Waiting → ℕ → Waiting
detach_slots [] p = []
detach_slots (none ∷ w) p = none ∷ detach_slots w p
detach_slots (some q ∷ w) p =
    let rest = detach_slots w p in if q == p then none ∷ rest else some q ∷ rest

unfoldable pub detach_from : Tty → ℕ → Option ℕ → Tty
detach_from t p none = t
detach_from t p (some n) =
    if (t.kernel.schedule p).io_wait
    then record t { wait = at_terminal t.wait n (detach_slots (t.wait n) p) }
    else t

unfoldable pub tty_detach_process : Tty → ℕ → Tty
tty_detach_process t p = detach_from t p (t.terminal p)

-- The loop of `addInput`: the buffer, and how many characters it has gone through.
unfoldable pub add_characters : Bool → List ℕ → List ℕ → List ℕ × ℕ
add_characters canon buffer [] = (buffer, 0)
add_characters canon buffer (c ∷ str) =
    let next = if canon && c == 8 then take (length buffer - 1) buffer else buffer ++ (c ∷ []) in
    let (buffer', i) = add_characters canon next str in
    if ltb (length buffer) buffer_size then (buffer', i + 1) else (buffer, 0)

-- the echo of `i` characters of `str`
unfoldable pub echo_input : Tty → List ℕ → ℕ → Option Tty
echo_input t str i =
    if get_or str 0 0 == 27
    then tty_write_active t (b'^' ∷ b'[' ∷ [])
      >>= (λ t1. if ltb 1 i then tty_write_active t1 (take (i - 1) (drop 1 str)) else some t1)
    else tty_write_active t (take i str)

unfoldable pub add_input : Tty → List ℕ → Option Tty
add_input t str =
    let mode = t.termios t.active_terminal in
    let (buffer, i) = add_characters mode.canon t.input_buffer str in
    let t1 = record t { input_buffer = buffer } in
    (if mode.echo then echo_input t1 str i else some t1) >>= (λ t2. some (wake_up t2))

-- `ioctlKeyboard` of the commands TCGETS and TCSETS
abbrev pub tcgets : Tty → ℕ → Termios
tcgets t p = t.termios (tty_current t p)

abbrev pub tcsets : Tty → ℕ → Termios → Tty
tcsets t p mode = record t { termios = at_terminal t.termios (tty_current t p) mode }

-- What one round of the loops of `tty_read` comes to. `overflowed` is a read that takes `count` as an
-- `int` it does not fit: C then goes on with a negative number.
pub data Outcome : Type 0 where
  returned : List ℕ → Tty → Outcome
  waiting : Tty → Outcome
  overflowed : Outcome

-- The index of the first new line, and the number of characters where there is none.
unfoldable pub line_end : List ℕ → ℕ
line_end [] = 0
line_end (c ∷ l) = let rest = line_end l in if c == 10 then 0 else suc rest

-- The end of `tty_read`, with `c` characters to take.
unfoldable pub take_input : Tty → ℕ → ℕ → Outcome
take_input t p c =
    returned (take c t.input_buffer)
      (record t { input_buffer = drop c t.input_buffer; kernel = set_io_wait t.kernel p false })

unfoldable pub read_terminal : Tty → ℕ → ℕ → Option ℕ → Outcome
read_terminal t p count none = returned [] t
read_terminal t p count (some n) =
    let i = line_end t.input_buffer in
    if t.foreground p
    then (if (t.termios n).canon
        then (if i == length t.input_buffer
            then waiting (wait_for_input t p)
            else if ltb count (2 ^ 31)
            then take_input t p (if ltb (i + 1) count then i + 1 else count)
            else overflowed)
        else if ltb count (2 ^ 31)
        then (if ltb (length t.input_buffer) count
            then waiting (wait_for_input t p)
            else take_input t p count)
        else overflowed)
    else waiting (wait_for_input t p)

-- One round of `tty_read` by the process `p`.
unfoldable pub tty_read : Tty → ℕ → ℕ → Outcome
tty_read t p count = read_terminal t p count (t.terminal p)
