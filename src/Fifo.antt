-- ===== src/Fifo.antt =====
-- The FIFO between processes: system/fifo.c.
-- The first `used` bytes of the buffer are the list `bytes`; the rest of it is never read. An
-- operation that calls `wait` gives the processor away in `scheduler_do` and goes on when its process
-- is elected again: one round of a loop is a function, whose outcome says whether it has returned.
pub mod Stream
pub mod Waking
mod Examples
use Prim.Native.Nat.{bit_and}
use arqvenger_os.Base.{
  ℕ, ◌+◌, ◌-◌, Bool, true, false, ◌&&◌, Option, none, some, List, [], ◌∷◌, ◌++◌, ◌==◌, ltb,
  if◌then◌else◌, length, take, drop,
}
use arqvenger_os.Base.Words.{inc32, dec32, sub32}
use arqvenger_os.ProcessQueue.{ProcessQueue, push}
use arqvenger_os.Scheduler.{Kernel, set_schedule, process_table_block, process_table_unblock}

-- `struct FIFO`
pub record Fifo : Type 0 where
  pub readers : ℕ
  pub writers : ℕ
  pub read_wait : ProcessQueue
  pub write_wait : ProcessQueue
  pub bytes : List ℕ
  pub size : ℕ

pub record State : Type 0 where
  pub fifo : Fifo
  pub kernel : Kernel

abbrev pub set_io_wait : Kernel → ℕ → Bool → Kernel
set_io_wait k p b = set_schedule k p (record (k.schedule p) { io_wait = b })

-- `wait` up to its call of `scheduler_do`, on each of the two queues
unfoldable pub wait_to_read : State → ℕ → State
wait_to_read s p = record {
  fifo = record (s.fifo) { read_wait = push s.fifo.read_wait p };
  kernel = process_table_block (set_io_wait s.kernel p true) p;
}

unfoldable pub wait_to_write : State → ℕ → State
wait_to_write s p = record {
  fifo = record (s.fifo) { write_wait = push s.fifo.write_wait p };
  kernel = process_table_block (set_io_wait s.kernel p true) p;
}

-- `wake_all`: what it does to the kernel; the queue is empty then.
unfoldable pub wake_all : ProcessQueue → Kernel → Kernel
wake_all [] k = k
wake_all (n ∷ q) k = wake_all q (process_table_unblock k n.process)

unfoldable pub wake_writers : State → State
wake_writers s = record {
  fifo = record (s.fifo) { write_wait = [] };
  kernel = wake_all s.fifo.write_wait s.kernel;
}

unfoldable pub wake_readers : State → State
wake_readers s = record {
  fifo = record (s.fifo) { read_wait = [] };
  kernel = wake_all s.fifo.read_wait s.kernel;
}

-- constants.h
abbrev pub o_rdonly : ℕ
o_rdonly = 0

abbrev pub o_wronly : ℕ
o_wronly = 1

abbrev pub fifo_buffer_size : ℕ
fifo_buffer_size = 1024

-- the FIFO of the inode, or a new one
unfoldable pub fifo_of : Option Fifo → Fifo
fifo_of (some f) = f
fifo_of none = record {
  readers = 0;
  writers = 0;
  read_wait = [];
  write_wait = [];
  bytes = [];
  size = fifo_buffer_size;
}

-- `fifo_open` by the process `p` up to the end of its `if`, and whether it has called `wait` there.
unfoldable pub open_begin : Option Fifo → Kernel → ℕ → ℕ → Bool × State
open_begin extra k p flags =
    let f = fifo_of extra in
    let mode = bit_and flags 0x3 in
    let as_reader : State = record { fifo = record f { readers = inc32 f.readers }; kernel = k } in
    let as_writer : State = record { fifo = record f { writers = inc32 f.writers }; kernel = k } in
    if mode == o_rdonly
    then (if f.writers == 0 then (true, wait_to_read as_reader p) else (false, as_reader))
    else if mode == o_wronly
    then (if f.readers == 0 then (true, wait_to_write as_writer p) else (false, as_writer))
    else (
      false,
      record {
        fifo = record f { readers = inc32 f.readers; writers = inc32 f.writers };
        kernel = k;
      },
    )

-- the last lines of `fifo_open`
unfoldable pub open_end : State → State
open_end s = wake_readers (wake_writers s)

-- What one round of a loop comes to.
pub data Outcome {ℓ} (A : Type ℓ) : Type ℓ where
  returned : A → State → Outcome A
  waiting : State → Outcome A

-- `scheduler_current()->schedule.ioWait = 0`
abbrev pub stop_waiting : State → ℕ → State
stop_waiting s p = record s { kernel = set_io_wait s.kernel p false }

-- The end of `fifo_write`, with the room for the data.
unfoldable pub append : State → List ℕ → Outcome ℕ
append s text =
    if s.fifo.readers == 0
    then returned 0 s
    else returned (length text)
        (wake_readers (record s { fifo = record (s.fifo) { bytes = s.fifo.bytes ++ text } }))

-- One round of `fifo_write` by the process `p`.
unfoldable pub fifo_write : State → ℕ → List ℕ → Outcome ℕ
fifo_write s p text =
    if ltb (sub32 s.fifo.size (length s.fifo.bytes)) (length text)
    then (if s.fifo.readers == 0
        then returned 0 (stop_waiting s p)
        else waiting (wait_to_write s p))
    else append (stop_waiting s p) text

-- The end of `fifo_read`, with bytes to read.
unfoldable pub consume : State → ℕ → Outcome (List ℕ)
consume s len =
    let used = length s.fifo.bytes in
    let n = if ltb used len then used else len in
    if s.fifo.writers == 0
    then returned [] s
    else returned (take n s.fifo.bytes)
        (wake_writers (record s { fifo = record (s.fifo) { bytes = drop n s.fifo.bytes } }))

-- One round of `fifo_read` by the process `p`; the result is what has been read.
unfoldable pub fifo_read : State → ℕ → ℕ → Outcome (List ℕ)
fifo_read s p len =
    if length s.fifo.bytes == 0
    then (if s.fifo.writers == 0
        then returned [] (stop_waiting s p)
        else waiting (wait_to_read s p))
    else consume (stop_waiting s p) len

-- `fifo_close` of a FIFO that the inode has: `none` is the end of the FIFO.
unfoldable pub leave : Fifo → ℕ → Fifo
leave f flags =
    let mode = bit_and flags 0x3 in
    if mode == o_rdonly
    then record f { readers = dec32 f.readers }
    else if mode == o_wronly
    then record f { writers = dec32 f.writers }
    else record f { readers = dec32 f.readers; writers = dec32 f.writers }

unfoldable pub close_left : Fifo → Kernel → Option Fifo × Kernel
close_left f k =
    let s = wake_readers (wake_writers (record { fifo = f; kernel = k })) in
    if f.readers == 0 && f.writers == 0 then (none, k) else (some s.fifo, s.kernel)

unfoldable pub fifo_close : Option Fifo → Kernel → ℕ → Option Fifo × Kernel
fifo_close none k flags = (none, k)
fifo_close (some f) k flags = close_left (leave f flags) k
