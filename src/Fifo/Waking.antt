-- ===== src/Fifo/Waking.antt =====
-- Whom `wake_all` puts back on the scheduler's queue, and in which order.
use arqvenger_os.Base.{
  ℕ, ◌≡◌, refl, ap, Bool-cases, inl, inr, [], ◌∷◌, ◌++◌, arith, ◌==◌, if◌then◌else◌,
}
use arqvenger_os.ProcessQueue.{ProcessQueue, queue_node, push}
use arqvenger_os.ProcessQueue.Laws.{count}
use arqvenger_os.Scheduler.{ready, Schedule, Kernel, unblock, process_table_unblock}
use arqvenger_os.Fifo.{wake_all}

-- the new nodes for the waiting processes that are not done, in the order in which they wait
abbrev pub woken : (ℕ → Schedule) → ProcessQueue → ProcessQueue
woken sch [] = []
woken sch (n ∷ q) =
    if (sch n.process).is_done then woken sch q else queue_node n.process 1 ∷ woken sch q

unblock-is_done :
    (k : Kernel) (p r : ℕ)
    → ((process_table_unblock k p).schedule r).is_done ≡ (k.schedule r).is_done
unfolding process_table_unblock unblock
unblock-is_done k p r = ground arith

woken-unblock :
    (k : Kernel) (p : ℕ) (q : ProcessQueue)
    → woken (process_table_unblock k p).schedule q ≡ woken k.schedule q
woken-unblock k p [] = refl
woken-unblock k p (n ∷ q) = rw (unblock-is_done k p n.process, woken-unblock k p q)

append_assoc : (xs ys zs : ProcessQueue) → (xs ++ ys) ++ zs ≡ xs ++ (ys ++ zs)
append_assoc [] ys zs = refl
append_assoc (x ∷ xs) ys zs = ap (λ l. x ∷ l) (append_assoc xs ys zs)

append-nil : (xs : ProcessQueue) → xs ++ [] ≡ xs
append-nil [] = refl
append-nil (x ∷ xs) = ap (λ l. x ∷ l) (append-nil xs)

queue-unblock :
    (k : Kernel) (p : ℕ)
    → (process_table_unblock k p).queue
      ≡ (if (k.schedule p).is_done then k.queue else k.queue ++ (queue_node p 1 ∷ []))
unfolding process_table_unblock unblock push
queue-unblock k p = ground arith

status-unblock :
    (k : Kernel) (p r : ℕ)
    → ((process_table_unblock k p).schedule r).status
      ≡ (if p == r then ready else (k.schedule r).status)
unfolding process_table_unblock unblock
status-unblock k p r = ground arith

all_woken : (q : ProcessQueue) (k : Kernel) → (wake_all q k).queue ≡ k.queue ++ woken k.schedule q
unfolding wake_all
all_woken [] k = rw (append-nil k.queue)
all_woken (n ∷ q) k =
    let rest = all_woken q (process_table_unblock k n.process) in
    let later = woken-unblock k n.process q in
    let here = queue-unblock k n.process in
    elim (Bool-cases (k.schedule n.process).is_done) [
      | inl e ↦ simp (rest, later, here, e) refl
      | inr e ↦ simp (rest, later, here, e, append_assoc) refl
    ]

status-wake_all :
    (q : ProcessQueue) (k : Kernel) (r : ℕ)
    → ((wake_all q k).schedule r).status ≡ (if count r q == 0 then (k.schedule r).status else ready)
unfolding wake_all count
status-wake_all [] k r = refl
status-wake_all (n ∷ q) k r =
    let st = status-wake_all q (process_table_unblock k n.process) r in
    let now = status-unblock k n.process r in ground (arith, st, now)

-- `wake_all` leaves the scheduler's queue as it was, with a new node at its end for each waiting
-- process that is not done, in the order in which they wait; it makes every waiting process ready,
-- and the other processes keep their statuses.
pub queue-wake_all :
    (q : ProcessQueue) (k : Kernel)
    → ((wake_all q k).queue ≡ k.queue ++ woken k.schedule q)
      × ((r : ℕ)
          → ((wake_all q k).schedule r).status
            ≡ (if count r q == 0 then (k.schedule r).status else ready))
queue-wake_all q k = (all_woken q k, λ r. status-wake_all q k r)
