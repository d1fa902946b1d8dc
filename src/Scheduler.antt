-- ===== src/Scheduler.antt =====
-- The scheduler: system/scheduler.c and its choice of the next process,
-- system/scheduler/priorityScheduler.c, with the scheduling fields of `struct Process`.
pub mod Priority
pub mod RoundRobin
mod Examples
use arqvenger_os.Base.{
  ℕ, zero, suc, ◌+◌, ◌-◌, ◌*◌, ◌/◌, Bool, true, false, Option, none, some, ◌>>=◌, List, [], ◌∷◌,
  ◌&&◌, not, ◌==◌, ltb, if◌then◌else◌, get_elem?, set,
}
use arqvenger_os.Base.Int.{ℤ, pos, negsuc}
use arqvenger_os.ProcessQueue
use arqvenger_os.ProcessQueue.{ProcessQueue, QueueNode}
use arqvenger_os.SleepList
use arqvenger_os.SleepList.{SleepList}

pub data Status : Type 0 where
  running ready blocked : Status

abbrev pub is_blocked : Status → Bool
is_blocked blocked = true
is_blocked _ = false

abbrev pub is_running : Status → Bool
is_running running = true
is_running _ = false

-- `struct ProcessSchedule`. The priority has two bits.
pub record Schedule : Type 0 where
  pub status : Status
  pub priority : ℕ
  pub in_wait : Bool
  pub io_wait : Bool
  pub asleep : Bool
  pub is_done : Bool

-- The scheduler's global variables, with the schedule of each process by its pid.
pub record Kernel : Type 0 where
  pub schedule : ℕ → Schedule
  pub queue : ProcessQueue
  pub sleep_list : SleepList
  pub curr : Option ℕ

-- a write through the pointer to process `p`
abbrev pub update : (ℕ → Schedule) → ℕ → Schedule → ℕ → Schedule
update f p s q = if p == q then s else f q

abbrev pub set_schedule : Kernel → ℕ → Schedule → Kernel
set_schedule k p s = record k { schedule = update k.schedule p s }

abbrev pub set_status : Kernel → ℕ → Status → Kernel
set_status k p st = set_schedule k p (record (k.schedule p) { status = st })

unfoldable pub add : Kernel → ℕ → Kernel
add k p = record k { queue = ProcessQueue.push k.queue p }

unfoldable pub unblock : Kernel → ℕ → Kernel
unblock k p =
    if not (k.schedule p).is_done then record k { queue = ProcessQueue.push k.queue p } else k

unfoldable pub block : Kernel → ℕ → Kernel
block k p = record k { queue = ProcessQueue.remove k.queue p }

abbrev pub is_curr : Option ℕ → ℕ → Bool
is_curr none p = false
is_curr (some c) p = p == c

unfoldable pub remove : Kernel → ℕ → Kernel
remove k p =
    let k1 = if is_curr k.curr p then record k { curr = none } else k in
    let k2 =
      if (k1.schedule p).asleep
      then record k1 { sleep_list = SleepList.remove k1.sleep_list p }
      else k1 in
    record k2 { queue = ProcessQueue.remove k2.queue p }

-- `process_table_block` and `process_table_unblock` of system/process/table.c
unfoldable pub process_table_block : Kernel → ℕ → Kernel
process_table_block k p = block (set_status k p blocked) p

unfoldable pub process_table_unblock : Kernel → ℕ → Kernel
process_table_unblock k p = unblock (set_status k p ready) p

-- What `sleep_list_update` does to a process whose time has come.
unfoldable pub wake : ℕ → Kernel → Kernel
wake p k =
    let s = k.schedule p in
    unblock (set_schedule k p (record s { status = ready; asleep = false })) p

-- `scheduler_tick`. Waking reads and writes neither the sleep list nor `curr`.
unfoldable pub tick : Kernel → Kernel
tick k = let (l, k') = SleepList.update wake k.sleep_list k in record k' { sleep_list = l }

-- `seconds*1000/MILLISECONDS_PER_TICK`: C division rounds towards zero.
abbrev pub negated : ℕ → ℤ
negated zero = pos 0
negated (suc n) = negsuc n

unfoldable pub ticks_of : ℤ → ℤ
ticks_of (pos s) = pos (s * 1000 / 55)
ticks_of (negsuc n) = negated ((n + 1) * 1000 / 55)

-- `scheduler_sleep` up to its loop
unfoldable pub sleep : Kernel → ℕ → ℤ → Option Kernel
sleep k p seconds = SleepList.add k.sleep_list p (ticks_of seconds) >>= (λ l.
    some (set_schedule (record k { sleep_list = l }) p (record (k.schedule p) { asleep = true })))

-- One round of the loop of `scheduler_sleep`, up to its call of `scheduler_do`; `none` is the end
-- of the loop.
unfoldable pub sleep_round : Kernel → ℕ → Option Kernel
sleep_round k p = if (k.schedule p).asleep then some (block (set_status k p blocked) p) else none
