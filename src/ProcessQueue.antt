-- ===== src/ProcessQueue.antt =====
-- The queue of processes that are ready to run: system/processQueue.c.
-- A `struct ProcessQueue` is the list of its nodes from `first` on. A process is named by its pid,
-- by which `process_queue_remove` compares.
pub mod Laws
use arqvenger_os.Base.{ℕ, Option, none, some, List, [], ◌∷◌, ◌++◌, ◌==◌, if◌then◌else◌}

-- `struct QueueNode`. `acum_priority` is an `int` that starts at 1 and only grows until it is reset.
pub record QueueNode : Type 0 where
  pub process : ℕ
  pub acum_priority : ℕ

abbrev pub queue_node : ℕ → ℕ → QueueNode
queue_node p a = record { process = p; acum_priority = a }

abbrev pub ProcessQueue : Type 0
ProcessQueue = List QueueNode

unfoldable pub push : ProcessQueue → ℕ → ProcessQueue
push q p = q ++ (queue_node p 1 ∷ [])

-- `none` is the NULL of an empty queue.
unfoldable pub pop : ProcessQueue → Option ℕ × ProcessQueue
pop [] = (none, [])
pop (n ∷ q) = (some n.process, q)

-- The first node of the process goes.
unfoldable pub remove : ProcessQueue → ℕ → ProcessQueue
remove [] p = []
remove (n ∷ q) p = let rest = n ∷ remove q p in if n.process == p then q else rest
