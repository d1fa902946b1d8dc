-- ===== src/Scheduler/RoundRobin.antt =====
-- `choose_next` of system/scheduler/scheduler.c, the round-robin scheduler that a build may select in
-- place of the priority scheduler.
use arqvenger_os.Base.{
  ℕ, zero, suc, ◌≡◌, ◌≢◌, refl, ap, ◌∙◌, true, Option, none, some, List, [], ◌∷◌, ◌++◌, arith,
  if◌then◌else◌,
}
use arqvenger_os.ProcessQueue.{ProcessQueue, QueueNode, queue_node, push, pop}
use arqvenger_os.Scheduler.{running, ready, is_blocked, is_running, Schedule, Kernel, set_status}

-- the `if` that stands before the loop
unfoldable pub yield_curr : Option ℕ → Kernel → Kernel
yield_curr none k = k
yield_curr (some c) k = if is_running (k.schedule c).status then set_status k c ready else k

-- what follows the loop
unfoldable pub run_process : Kernel → ℕ → Kernel
run_process k p = set_status (record k { curr = some p }) p running

-- One round of the `do` loop, from what `process_queue_pop` gave; `again` is the loop from there on.
unfoldable pub rotate : Kernel → Option ℕ × ProcessQueue → (Kernel → Option Kernel) → Option Kernel
rotate k (none, q) again = some (record k { queue = q; curr = none })
rotate k (some p, q) again =
    let k' = record k { queue = push q p } in
    let rest = again k' in
    if is_blocked (k.schedule p).status then rest else some (run_process k' p)

-- The loop with fuel; `none` means that it is still running.
unfoldable pub choose_loop : ℕ → Kernel → Option Kernel
choose_loop zero k = none
choose_loop (suc f) k = rotate k (pop k.queue) (choose_loop f)

unfoldable pub choose_next : ℕ → Kernel → Option Kernel
choose_next fuel k = choose_loop fuel (yield_curr k.curr k)

-- every process of the queue is blocked
abbrev pub AllBlocked : (ℕ → Schedule) → ProcessQueue → Type 0
AllBlocked sch [] = Unit
AllBlocked sch (n ∷ q) = (is_blocked (sch n.process).status ≡ true) × AllBlocked sch q

-- the nodes that `process_queue_push` makes for the same processes
abbrev pub renewed : ProcessQueue → ProcessQueue
renewed [] = []
renewed (n ∷ q) = queue_node n.process 1 ∷ renewed q

-- one round on a blocked process
step_blocked :
    (f : ℕ) (k : Kernel) (n : QueueNode) (q : ProcessQueue)
    → k.queue ≡ n ∷ q
    → is_blocked (k.schedule n.process).status ≡ true
    → choose_loop (suc f) k
      ≡ choose_loop f (record k { queue = q ++ (queue_node n.process 1 ∷ []) })
unfolding choose_loop rotate push pop
step_blocked f k n q e h = ap (λ r. rotate k (pop r) (choose_loop f)) e ∙ rw h

schedule-yield :
    (c : Option ℕ) (k : Kernel) (p : ℕ)
    → is_blocked ((yield_curr c k).schedule p).status ≡ is_blocked (k.schedule p).status
unfolding yield_curr
schedule-yield none k p = refl
schedule-yield (some c) k p = ground arith

queue-yield : (c : Option ℕ) (k : Kernel) → (yield_curr c k).queue ≡ k.queue
unfolding yield_curr
queue-yield none k = refl
queue-yield (some c) k = ground arith

AllBlocked-yield :
    (c : Option ℕ) (k : Kernel) (xs : ProcessQueue)
    → AllBlocked k.schedule xs
    → AllBlocked (yield_curr c k).schedule xs
AllBlocked-yield c k [] b = tt
AllBlocked-yield c k (x ∷ xs) b = (schedule-yield c k x.process ∙ b.0, AllBlocked-yield c k xs b.1)

AllBlocked-append :
    (sch : ℕ → Schedule) (q : ProcessQueue) (n : QueueNode)
    → is_blocked (sch n.process).status ≡ true
    → AllBlocked sch q
    → AllBlocked sch (q ++ (queue_node n.process 1 ∷ []))
AllBlocked-append sch [] n h b = (h, tt)
AllBlocked-append sch (m ∷ q) n h b = (b.0, AllBlocked-append sch q n h b.1)

append-ne : {A : Type 0} (q : List A) (x : A) → q ++ (x ∷ []) ≢ []
append-ne [] x e = cc
append-ne (y ∷ q) x e = cc

spins :
    (f : ℕ) (k : Kernel) (q : ProcessQueue)
    → k.queue ≡ q
    → q ≢ []
    → AllBlocked k.schedule q
    → choose_loop f k ≡ none
spins zero k q e ne b = unfold choose_loop in refl
spins (suc f) k [] e ne b = absurd (ne refl)
spins (suc f) k (n ∷ q) e ne b =
    let q' = q ++ (queue_node n.process 1 ∷ []) in
    step_blocked f k n q e b.0
    ∙ spins f (record k { queue = q' }) q' refl (append-ne q (queue_node n.process 1))
        (AllBlocked-append k.schedule q n b.0 b.1)

-- While every process of a queue that is not empty is blocked the round-robin loop goes on for
-- ever.
pub choose_next-AllBlocked :
    (fuel : ℕ) (k : Kernel)
    → k.queue ≢ []
    → AllBlocked k.schedule k.queue
    → choose_next fuel k ≡ none
unfolding choose_next
choose_next-AllBlocked fuel k ne b =
    spins fuel (yield_curr k.curr k) k.queue (queue-yield k.curr k) ne
      (AllBlocked-yield k.curr k k.queue b)
