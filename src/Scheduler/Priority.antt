-- ===== src/Scheduler/Priority.antt =====
-- `choose_next` of system/scheduler/priorityScheduler.c.
pub mod Choice
pub mod Step
pub mod Effect
pub mod Fair
use arqvenger_os.Base.{
  ℕ, suc, ◌+◌, Bool, true, false, Option, none, some, List, [], ◌∷◌, ◌&&◌, not, ltb, if◌then◌else◌,
  get_elem?, set,
}
use arqvenger_os.ProcessQueue.{ProcessQueue, QueueNode}
use arqvenger_os.Scheduler.{
  Status, running, ready, blocked, is_blocked, is_running, Schedule, Kernel, update, set_status,
}

-- What the loop of `updateAcumPriorities` adds to a node: nothing while its process is blocked.
unfoldable pub boost : (ℕ → Schedule) → QueueNode → QueueNode
boost sch n =
    if is_blocked (sch n.process).status
    then n
    else record n { acum_priority = n.acum_priority + ((sch n.process).priority + 1) }

-- The loop from the node at index `i` on: the nodes with their new priorities, and the index of
-- `top_priority`. `top` is its index so far and `best` its `acumPriority`.
unfoldable pub scan : (ℕ → Schedule) → ℕ → ℕ → ℕ → ProcessQueue → ProcessQueue × ℕ
scan sch i top best [] = ([], top)
scan sch i top best (n ∷ q) =
    let n' = boost sch n in
    let better = not (is_blocked (sch n.process).status) && ltb best n'.acum_priority in
    let (q', t) =
      scan sch (i + 1) (if better then i else top) (if better then n'.acum_priority else best) q in
    (n' ∷ q', t)

-- `updateAcumPriorities`. The first node is `top_priority` from the start, so it is compared with
-- itself, which changes nothing.
unfoldable pub update_acum_priorities : (ℕ → Schedule) → ProcessQueue → ProcessQueue × Option ℕ
update_acum_priorities sch [] = ([], none)
update_acum_priorities sch (n ∷ q) =
    let n' = boost sch n in let (q', t) = scan sch 1 0 n'.acum_priority q in (n' ∷ q', some t)

-- the first statement of `choose_next`
unfoldable pub yield_curr : Option ℕ → Kernel → Kernel
yield_curr none k = k
yield_curr (some c) k = if is_running (k.schedule c).status then set_status k c ready else k

-- the assignments through `top_priority`, which is the node `n` at index `i`
unfoldable pub elect : Kernel → ℕ → QueueNode → Kernel
elect k i n =
    let k' = record k {
      queue = set k.queue i (record n { acum_priority = 1 });
      curr = some n.process;
    } in
    set_status k' n.process running

unfoldable pub elect_at : Kernel → ℕ → Option QueueNode → Kernel
elect_at k i none = k
elect_at k i (some n) = elect k i n

-- The rest of `choose_next`, from the queue and the `top_priority` that `updateAcumPriorities` has
-- left. With an empty queue `scheduler_curr` stays as it is.
unfoldable pub assign_top : Kernel → ProcessQueue → Option ℕ → Kernel
assign_top k q none = record k { queue = q }
assign_top k q (some i) = elect_at (record k { queue = q }) i (get_elem? q i)

unfoldable pub choose_next : Kernel → Kernel
choose_next k =
    let k1 = yield_curr k.curr k in
    let (q, top) = update_acum_priorities k1.schedule k1.queue in assign_top k1 q top
