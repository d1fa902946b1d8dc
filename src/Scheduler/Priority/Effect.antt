-- ===== src/Scheduler/Priority/Effect.antt =====
-- What `choose_next` leaves behind: the elected process, the statuses and the queue.
use arqvenger_os.Base.{
  ℕ, zero, suc, ◌+◌, ◌≡◌, ◌≢◌, refl, sym, subst, ap, ap₂, ◌∙◌, false, Option, none, some, [], ◌∷◌,
  arith, get_elem?, set,
}
use arqvenger_os.ProcessQueue.{ProcessQueue, QueueNode, queue_node}
use arqvenger_os.Scheduler.{running, is_blocked, Schedule, Kernel}
use arqvenger_os.Scheduler.Priority.{boost, yield_curr, elect, choose_next}
use arqvenger_os.Scheduler.Priority.Choice.{
  NoneBlocked, AllUnblocked, AllAtMost, boosted, processes,
}
use arqvenger_os.Scheduler.Priority.Step.{
  Alike, yield_curr-Alike, NoneBlocked-Alike, choose_next-Chosen,
}

pub process-boost : (sch : ℕ → Schedule) (n : QueueNode) → (boost sch n).process ≡ n.process
unfolding boost
process-boost sch n = ground arith

processes-boosted :
    (sch : ℕ → Schedule) (q : ProcessQueue) → processes (boosted sch q) ≡ processes q
processes-boosted sch [] = refl
processes-boosted sch (n ∷ q) = ap₂ ◌∷◌ (process-boost sch n) (processes-boosted sch q)

processes-set :
    (q : ProcessQueue) (i a : ℕ) (n : QueueNode)
    → get_elem? q i ≡ some n
    → processes (set q i (record n { acum_priority = a })) ≡ processes q
processes-set [] i a n e = refl
processes-set (m ∷ q) zero a n e = ground arith
processes-set (m ∷ q) (suc i) a n e = ap (λ r. m.process ∷ r) (processes-set q i a n e)

-- At most the current process is running.
abbrev pub OneRunning : Kernel → Type 0
OneRunning k = (p : ℕ) → (k.schedule p).status ≡ running → k.curr ≡ some p

none_running :
    (c : Option ℕ) (k : Kernel)
    → k.curr ≡ c
    → OneRunning k
    → (p : ℕ) → ((yield_curr c k).schedule p).status ≢ running
unfolding yield_curr
none_running none k e h p r = cc (h p r)
none_running (some c) k e h p r = ground (arith, h p, h c)

elect-OneRunning :
    (k : Kernel) (i : ℕ) (n : QueueNode)
    → ((p : ℕ) → (k.schedule p).status ≢ running)
    → OneRunning (elect k i n)
unfolding elect
elect-OneRunning k i n h p r = ground (arith, h p)

-- `choose_next` keeps at most the current process running, on a queue that is not empty and has no
-- blocked process.
pub choose_next-OneRunning :
    (k : Kernel)
    → k.queue ≢ []
    → AllUnblocked k.schedule k.queue
    → OneRunning k
    → OneRunning (choose_next k)
choose_next-OneRunning k h u one =
    let c = choose_next-Chosen k h u in
    rw c.result (elect-OneRunning _ c.index c.node (none_running k.curr k refl one))

-- the queue with its priority and one added to every node
abbrev pub raised : (ℕ → Schedule) → ProcessQueue → ProcessQueue
raised sch [] = []
raised sch (n ∷ q) =
    queue_node n.process (n.acum_priority + (sch n.process).priority + 1) ∷ raised sch q

pub boosted-raised :
    (sch : ℕ → Schedule) (q : ProcessQueue) → AllUnblocked sch q → boosted sch q ≡ raised sch q
unfolding boost
boosted-raised sch [] u = refl
boosted-raised sch (n ∷ q) u =
    let more : n.acum_priority + ((sch n.process).priority + 1)
        ≡ n.acum_priority + (sch n.process).priority + 1 =
      omega arith in
    rw u.0 (ap₂ ◌∷◌ (ap (queue_node n.process) more) (boosted-raised sch q u.1))

-- the current process, its status and the queue after `choose_next` has taken `node` at `index`
pub record Elected (k k' : Kernel) (index : ℕ) (node : QueueNode) : Type 0 where
  pub here : get_elem? (raised k.schedule k.queue) index ≡ some node
  pub highest : AllAtMost node.acum_priority (raised k.schedule k.queue)
  pub curr : k'.curr ≡ some node.process
  pub status : (k'.schedule node.process).status ≡ running
  pub queue : k'.queue ≡ set (raised k.schedule k.queue) index (queue_node node.process 1)
  pub sleep_list : k'.sleep_list ≡ k.sleep_list

elect-status :
    (k : Kernel) (i : ℕ) (n : QueueNode) → ((elect k i n).schedule n.process).status ≡ running
unfolding elect
elect-status k i n = ground arith

sleep_list-yield_curr : (c : Option ℕ) (k : Kernel) → (yield_curr c k).sleep_list ≡ k.sleep_list
unfolding yield_curr
sleep_list-yield_curr none k = refl
sleep_list-yield_curr (some c) k = ground arith

pub choose_next-Elected :
    (k : Kernel)
    → k.queue ≢ []
    → AllUnblocked k.schedule k.queue
    → (index : ℕ) × (node : QueueNode) × Elected k (choose_next k) index node
unfolding elect
choose_next-Elected k h u =
    let c = choose_next-Chosen k h u in
    let k2 = record (yield_curr k.curr k) { queue = boosted k.schedule k.queue } in
    let more = boosted-raised k.schedule k.queue u in
    (
      c.index,
      c.node,
      record {
        here = rw more at c.here;
        highest = rw more at c.bound;
        curr = rw c.result refl;
        status = rw c.result (elect-status k2 c.index c.node);
        queue = rw (c.result, more) refl;
        sleep_list = rw c.result (sleep_list-yield_curr k.curr k);
      },
    )

elect-Alike :
    (k : Kernel) (i : ℕ) (n : QueueNode)
    → is_blocked (k.schedule n.process).status ≡ false
    → Alike k.schedule (elect k i n).schedule
unfolding elect
elect-Alike k i n h p = ground arith

pub NoneBlocked-get :
    (sch : ℕ → Schedule) (q : ProcessQueue) (i : ℕ) {n : QueueNode}
    → get_elem? q i ≡ some n
    → NoneBlocked sch (processes q)
    → is_blocked (sch n.process).status ≡ false
NoneBlocked-get sch [] i e u = cc
NoneBlocked-get sch (m ∷ q) zero {n} e u = ground arith
NoneBlocked-get sch (m ∷ q) (suc i) e u = NoneBlocked-get sch q i e u.1

processes-raised : (sch : ℕ → Schedule) (q : ProcessQueue) → processes (raised sch q) ≡ processes q
processes-raised sch [] = refl
processes-raised sch (n ∷ q) = ap (λ r. n.process ∷ r) (processes-raised sch q)

pub processes-Elected :
    {k k' : Kernel} {i : ℕ} {n : QueueNode}
    → Elected k k' i n
    → processes k'.queue ≡ processes k.queue
processes-Elected {k} {i} {n} e =
    ap processes e.queue
    ∙ processes-set (raised k.schedule k.queue) i 1 n e.here
    ∙ processes-raised k.schedule k.queue

-- `choose_next` blocks no process and changes no priority.
pub choose_next-Alike :
    (k : Kernel)
    → k.queue ≢ []
    → AllUnblocked k.schedule k.queue
    → Alike k.schedule (choose_next k).schedule
choose_next-Alike k h u p =
    let c = choose_next-Chosen k h u in
    let k2 = record (yield_curr k.curr k) { queue = boosted k.schedule k.queue } in
    let like = yield_curr-Alike k.curr k in
    let u1 = NoneBlocked-Alike k.schedule k2.schedule (processes k.queue) like u in
    let u2 = subst (NoneBlocked k2.schedule) (sym (processes-boosted k.schedule k.queue)) u1 in
    let free = NoneBlocked-get k2.schedule (boosted k.schedule k.queue) c.index c.here u2 in
    let like2 = elect-Alike k2 c.index c.node free in
    rw c.result ((like2 p).0 ∙ (like p).0, (like2 p).1 ∙ (like p).1)

-- `choose_next` keeps the queue free of blocked processes.
pub choose_next-AllUnblocked :
    (k : Kernel)
    → k.queue ≢ []
    → AllUnblocked k.schedule k.queue
    → AllUnblocked (choose_next k).schedule (choose_next k).queue
choose_next-AllUnblocked k h u =
    let (i, n, e) = choose_next-Elected k h u in
    let same = processes-Elected e in
    let like = choose_next-Alike k h u in
    subst (NoneBlocked (choose_next k).schedule) (sym same)
      (NoneBlocked-Alike k.schedule (choose_next k).schedule (processes k.queue) like u)
