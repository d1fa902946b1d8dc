-- ===== src/ProcessQueue/Laws.antt =====
-- How `push` and `remove` change the number of a process's nodes.
use arqvenger_os.Base.{ℕ, suc, ◌+◌, ◌-◌, ◌≡◌, ◌≢◌, refl, [], ◌∷◌, arith, ◌==◌, if◌then◌else◌}
use arqvenger_os.ProcessQueue.{ProcessQueue, push, remove}

-- how often a process stands in the queue
unfoldable pub count : ℕ → ProcessQueue → ℕ
count p [] = 0
count p (n ∷ q) = let rest = count p q in if n.process == p then suc rest else rest

-- `process_queue_push` adds one node of the process to the queue and none of another.
pub count-push :
    (q : ProcessQueue) (p r : ℕ)
    → count r (push q p) ≡ (if p == r then count r q + 1 else count r q)
unfolding count push
count-push [] p r = ground arith
count-push (n ∷ q) p r = ground (arith, count-push q p r)

-- `process_queue_remove` takes one node of the process out of the queue, if there is one.
pub count-remove_self : (q : ProcessQueue) (p : ℕ) → count p (remove q p) ≡ count p q - 1
unfolding count remove
count-remove_self [] p = refl
count-remove_self (n ∷ q) p = ground (arith, count-remove_self q p)

-- `process_queue_remove` takes no node of another process out of the queue.
pub count-remove : (q : ProcessQueue) (p r : ℕ) → p ≢ r → count r (remove q p) ≡ count r q
unfolding count remove
count-remove [] p r h = refl
count-remove (n ∷ q) p r h = ground (arith, count-remove q p r)
