-- ===== src/Fifo/Examples.antt =====
-- The theorems on the FIFO at one with a reader and a writer.
use arqvenger_os.Base.{ℕ, ◌≡◌, refl, false, none, List, [], ◌∷◌, ◌++◌, arith, ◌==◌, if◌then◌else◌}
use arqvenger_os.ProcessQueue.{queue_node}
use arqvenger_os.ProcessQueue.Laws.{count}
use arqvenger_os.Scheduler.{ready, blocked, Kernel}
use arqvenger_os.Fifo.{
  State, wake_all, wake_readers, wake_writers, append, consume, fifo_write, fifo_read,
}
use arqvenger_os.Fifo.Stream.{IsBounded, Op, write, read, step, run, run-flow}
use arqvenger_os.Fifo.Waking.{queue-wake_all}

-- all processes are blocked, and the scheduler's queue is empty
abbrev idle : Kernel
idle = record {
  schedule = λ p. record {
    status = blocked;
    priority = 0;
    in_wait = false;
    io_wait = false;
    asleep = false;
    is_done = false;
  };
  queue = [];
  sleep_list = [];
  curr = none;
}

-- a buffer of four bytes that holds one
abbrev small : State
small = record {
  fifo = record {
    readers = 1;
    writers = 1;
    read_wait = queue_node 7 1 ∷ [];
    write_wait = [];
    bytes = b'a' ∷ [];
    size = 4;
  };
  kernel = idle;
}

abbrev rounds : List Op
rounds = write 1 (b'b' ∷ b'c' ∷ []) ∷ read 2 2 ∷ read 2 9 ∷ []

small-IsBounded : IsBounded small
small-IsBounded = (omega arith, omega arith)

run_test : (run small rounds).given ≡ b'a' ∷ b'b' ∷ b'c' ∷ []
unfolding run step fifo_write append fifo_read consume wake_readers wake_writers
run_test = refl

run-flow_example :
    ((b'a' ∷ []) ++ (run small rounds).taken
      ≡ (run small rounds).given ++ (run small rounds).state.fifo.bytes)
    × IsBounded (run small rounds).state
run-flow_example = run-flow rounds small small-IsBounded

queue-wake_all_example :
    ((wake_all (queue_node 7 1 ∷ []) idle).queue ≡ queue_node 7 1 ∷ [])
    × ((r : ℕ)
        → ((wake_all (queue_node 7 1 ∷ []) idle).schedule r).status
          ≡ (if count r (queue_node 7 1 ∷ []) == 0 then (idle.schedule r).status else ready))
queue-wake_all_example = queue-wake_all (queue_node 7 1 ∷ []) idle
