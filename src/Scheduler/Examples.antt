-- ===== src/Scheduler/Examples.antt =====
-- The theorems on the two schedulers at a kernel with two or three processes.
use arqvenger_os.Base.{ℕ, ◌+◌, ◌*◌, refl, false, none, some, [], ◌∷◌, ◌==◌, arith, if◌then◌else◌}
use arqvenger_os.ProcessQueue.{queue_node}
use arqvenger_os.Scheduler.{Status, running, ready, blocked, Schedule, Kernel}
use arqvenger_os.Scheduler.Priority
use arqvenger_os.Scheduler.Priority.Choice.{AllUnblocked}
use arqvenger_os.Scheduler.Priority.Effect.{OneRunning}
use arqvenger_os.Scheduler.Priority.Fair.{total, TakenWithin, no_starvation}
use arqvenger_os.Scheduler.RoundRobin
use arqvenger_os.Scheduler.RoundRobin.{AllBlocked, choose_next-AllBlocked}

abbrev schedule_of : Status → ℕ → Schedule
schedule_of st p = record {
  status = st;
  priority = p;
  in_wait = false;
  io_wait = false;
  asleep = false;
  is_done = false;
}

-- Process 1 runs with priority 3, and process 2 is ready with priority 0.
abbrev two : Kernel
two = record {
  schedule = λ p. if p == 1 then schedule_of running 3 else schedule_of ready 0;
  queue = queue_node 1 1 ∷ queue_node 2 1 ∷ [];
  sleep_list = [];
  curr = some 1;
}

two-AllUnblocked : AllUnblocked two.schedule two.queue
two-AllUnblocked = (refl, (refl, tt))

two-OneRunning : OneRunning two
two-OneRunning p e = ground arith

no_starvation_example : TakenWithin (total two.queue + (4 * 2 + 1) * (4 * 2 + 1)) two 2
no_starvation_example = no_starvation two 1 refl two-AllUnblocked (λ p. ground arith)

-- Process 1 is blocked, and process 2 is ready.
abbrev one_blocked : Kernel
one_blocked = record {
  schedule = λ p. if p == 1 then schedule_of blocked 0 else schedule_of ready 0;
  queue = queue_node 1 1 ∷ queue_node 2 1 ∷ [];
  sleep_list = [];
  curr = none;
}

-- both processes are blocked
abbrev all_blocked : Kernel
all_blocked = record one_blocked { schedule = λ p. schedule_of blocked 0 }
