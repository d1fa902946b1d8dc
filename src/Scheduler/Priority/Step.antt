-- ===== src/Scheduler/Priority/Step.antt =====
-- One call of `choose_next` on a queue with no blocked process.
use arqvenger_os.Base.{
  ℕ, ◌≡◌, ◌≢◌, refl, ap, ap₂, ◌∙◌, Option, none, some, List, [], ◌∷◌, arith, get_elem?,
}
use arqvenger_os.ProcessQueue.{ProcessQueue, QueueNode}
use arqvenger_os.Scheduler.{is_blocked, Schedule, Kernel}
use arqvenger_os.Scheduler.Priority.{
  boost, update_acum_priorities, yield_curr, elect, elect_at, assign_top, choose_next,
}
use arqvenger_os.Scheduler.Priority.Choice.{
  NoneBlocked, AllUnblocked, AllAtMost, boosted, processes, Top, update_acum_priorities-Top,
  update_acum_priorities-boosted,
}

abbrev pub Alike : (ℕ → Schedule) → (ℕ → Schedule) → Type 0
Alike f g =
    (p : ℕ)
    → (is_blocked (g p).status ≡ is_blocked (f p).status) × ((g p).priority ≡ (f p).priority)

pub yield_curr-Alike : (c : Option ℕ) (k : Kernel) → Alike k.schedule (yield_curr c k).schedule
unfolding yield_curr
yield_curr-Alike none k p = (refl, refl)
yield_curr-Alike (some c) k p = ground arith

pub NoneBlocked-Alike :
    (f g : ℕ → Schedule) (ps : List ℕ) → Alike f g → NoneBlocked f ps → NoneBlocked g ps
NoneBlocked-Alike f g [] a u = tt
NoneBlocked-Alike f g (p ∷ ps) a u = ((a p).0 ∙ u.0, NoneBlocked-Alike f g ps a u.1)

boost-Alike : (f g : ℕ → Schedule) (n : QueueNode) → Alike f g → boost g n ≡ boost f n
unfolding boost
boost-Alike f g n a = rw ((a n.process).0, (a n.process).1)

boosted-Alike : (f g : ℕ → Schedule) (q : ProcessQueue) → Alike f g → boosted g q ≡ boosted f q
boosted-Alike f g [] a = refl
boosted-Alike f g (n ∷ q) a = ap₂ ◌∷◌ (boost-Alike f g n a) (boosted-Alike f g q a)

queue-yield_curr : (c : Option ℕ) (k : Kernel) → (yield_curr c k).queue ≡ k.queue
unfolding yield_curr
queue-yield_curr none k = refl
queue-yield_curr (some c) k = ground arith

-- what one call of `choose_next` does on a queue with no blocked process
pub record Chosen (k : Kernel) : Type 0 where
  pub index : ℕ
  pub node : QueueNode
  pub here : get_elem? (boosted k.schedule k.queue) index ≡ some node
  pub bound : AllAtMost node.acum_priority (boosted k.schedule k.queue)
  pub result :
      choose_next k
      ≡ elect (record (yield_curr k.curr k) { queue = boosted k.schedule k.queue }) index node

update_acum_priorities-some :
    (sch : ℕ → Schedule) (q : ProcessQueue)
    → q ≢ []
    → AllUnblocked sch q
    → Top (boosted sch q) (update_acum_priorities sch q).1
update_acum_priorities-some sch [] h u = absurd (h refl)
update_acum_priorities-some sch (n ∷ q) h u = update_acum_priorities-Top sch n q u

choose_next-assign_top :
    (k : Kernel)
    → choose_next k
      ≡ assign_top
          (yield_curr k.curr k)
          (update_acum_priorities (yield_curr k.curr k).schedule (yield_curr k.curr k).queue).0
          (update_acum_priorities (yield_curr k.curr k).schedule (yield_curr k.curr k).queue).1
unfolding choose_next
choose_next-assign_top k = refl

assign_top-elect :
    (k : Kernel) (q : ProcessQueue) (i : ℕ) {n : QueueNode}
    → get_elem? q i ≡ some n
    → assign_top k q (some i) ≡ elect (record k { queue = q }) i n
unfolding assign_top elect_at
assign_top-elect k q i e = rw e

pub choose_next-Chosen : (k : Kernel) → k.queue ≢ [] → AllUnblocked k.schedule k.queue → Chosen k
choose_next-Chosen k h u =
    let k1 = yield_curr k.curr k in
    let like = yield_curr-Alike k.curr k in
    let same = queue-yield_curr k.curr k in
    let top =
      update_acum_priorities-some k1.schedule k.queue h
        (NoneBlocked-Alike k.schedule k1.schedule (processes k.queue) like u) in
    let lift = update_acum_priorities-boosted k1.schedule k.queue in
    let eq = boosted-Alike k.schedule k1.schedule k.queue like in
    record {
      index = top.index;
      node = top.node;
      here = rw (← eq) top.here;
      bound = rw (← eq) top.bound;
      result =
          choose_next-assign_top k
          ∙ ap₂ (λ q t. assign_top k1 q t)
              (ap (λ q. (update_acum_priorities k1.schedule q).0) same ∙ lift)
              (ap (λ q. (update_acum_priorities k1.schedule q).1) same ∙ top.found)
          ∙ assign_top-elect k1 (boosted k1.schedule k.queue) top.index top.here
          ∙ ap (λ q. elect (record k1 { queue = q }) top.index top.node) eq;
    }
