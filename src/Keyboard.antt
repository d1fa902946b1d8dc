-- ===== src/Keyboard.antt =====
-- The keyboard's ring buffer: drivers/keyboard.c, with the scan code as read from the port.
pub mod Ring
mod Examples
use arqvenger_os.Base.{ℕ, ◌+◌, Bool, true, false, not, ◌==◌, if◌then◌else◌}
use arqvenger_os.Scheduler.{Kernel, set_schedule, process_table_block, process_table_unblock}

abbrev pub buffer_size : ℕ
buffer_size = 4000

pub record Keyboard : Type 0 where
  pub buffer : ℕ → ℕ
  pub buffer_pos : ℕ
  pub buffer_start : ℕ
  pub consumer : ℕ
  pub kernel : Kernel

-- an index goes on, and back to 0 at the end
abbrev pub next_index : ℕ → ℕ
next_index i = if i + 1 == buffer_size then 0 else i + 1

abbrev pub put_code : (ℕ → ℕ) → ℕ → ℕ → ℕ → ℕ
put_code buffer i code j = if j == i then code else buffer j

unfoldable pub keyboard_read : Keyboard → ℕ → Keyboard
keyboard_read kb scan_code =
    let kb1 = record kb {
      buffer = put_code kb.buffer kb.buffer_pos scan_code;
      buffer_pos = next_index kb.buffer_pos;
    } in
    if (kb.kernel.schedule kb.consumer).io_wait
    then record kb1 { kernel = process_table_unblock kb.kernel kb.consumer }
    else kb1

-- What one round of the loop of `keyboard_get_code` comes to: a code, or a wait for one.
pub data Outcome : Type 0 where
  code : ℕ → Keyboard → Outcome
  waiting : Keyboard → Outcome

abbrev set_io_wait : Kernel → ℕ → Bool → Kernel
set_io_wait k p b = set_schedule k p (record (k.schedule p) { io_wait = b })

-- the state of a consumer that waits, up to `yield`, and of one that takes a code
abbrev pub waiting_state : Keyboard → Keyboard
waiting_state kb = record kb {
  kernel = process_table_block (set_io_wait kb.kernel kb.consumer true) kb.consumer;
}

abbrev pub taken_state : Keyboard → Keyboard
taken_state kb = record kb {
  buffer_start = next_index kb.buffer_start;
  kernel = set_io_wait kb.kernel kb.consumer false;
}

-- One round of `keyboard_get_code` by the process `p`.
unfoldable pub keyboard_get_code : Keyboard → ℕ → Outcome
keyboard_get_code kb p =
    if not (p == kb.consumer)
    then code 0 kb
    else if kb.buffer_pos == kb.buffer_start
    then waiting (waiting_state kb)
    else code (kb.buffer kb.buffer_start) (taken_state kb)
