-- ===== src/Scheduler/Priority/Fair.antt =====
-- No process waits for ever: a bound on the calls of `choose_next` before a queued process is taken.
use arqvenger_os.Base.{
  ℕ, zero, suc, ◌+◌, ◌*◌, ◌≤◌, ◌≡◌, ◌≢◌, refl, sym, ap, ◌∙◌, ◌⊎◌, inl, inr, false, some, [], ◌∷◌,
  arith, get_elem?, set, length, length-set, get_elem?-set_ne, ℕ_discrete, eq_of_some,
}
use arqvenger_os.ProcessQueue.{ProcessQueue, QueueNode, queue_node}
use arqvenger_os.Scheduler.{is_blocked, Schedule, Kernel}
use arqvenger_os.Scheduler.Priority.{boost, choose_next}
use arqvenger_os.Scheduler.Priority.Choice.{AllUnblocked, AllAtMost, boosted}
use arqvenger_os.Scheduler.Priority.Effect.{
  choose_next-Elected, choose_next-Alike, choose_next-AllUnblocked, boosted-raised, NoneBlocked-get,
  process-boost,
}

-- the sum of the accumulated priorities
unfoldable pub total : ProcessQueue → ℕ
total [] = 0
total (n ∷ q) = n.acum_priority + total q

-- the two bits of `priority`
abbrev pub LowPriorities : (ℕ → Schedule) → Type 0
LowPriorities sch = (p : ℕ) → (sch p).priority ≤ 3

unfoldable pub choose_nexts : ℕ → Kernel → Kernel
choose_nexts zero k = k
choose_nexts (suc r) k = choose_nexts r (choose_next k)

boost-acum :
    (sch : ℕ → Schedule) (n : QueueNode)
    → LowPriorities sch
    → (boost sch n).acum_priority ≤ n.acum_priority + 4
unfolding boost
boost-acum sch n low = ground (arith, low n.process)

boost-grows :
    (sch : ℕ → Schedule) (n : QueueNode)
    → is_blocked (sch n.process).status ≡ false
    → n.acum_priority + 1 ≤ (boost sch n).acum_priority
unfolding boost
boost-grows sch n u = ground arith

total-boosted :
    (sch : ℕ → Schedule) (q : ProcessQueue)
    → LowPriorities sch
    → total (boosted sch q) ≤ total q + 4 * length q
unfolding total
total-boosted sch [] low = omega arith
total-boosted sch (n ∷ q) low = omega (arith, boost-acum sch n low, total-boosted sch q low)

length-boosted : (sch : ℕ → Schedule) (q : ProcessQueue) → length (boosted sch q) ≡ length q
length-boosted sch [] = refl
length-boosted sch (n ∷ q) = ap suc (length-boosted sch q)

total-set :
    (q : ProcessQueue) (i : ℕ) (n m : QueueNode)
    → get_elem? q i ≡ some n
    → total (set q i m) + n.acum_priority ≡ total q + m.acum_priority
unfolding total
total-set [] i n m e = cc
total-set (x ∷ q) zero n m e = ground arith
total-set (x ∷ q) (suc i) n m e = omega (arith, total-set q i n m e)

get-boosted :
    (sch : ℕ → Schedule) (q : ProcessQueue) (i : ℕ) {n : QueueNode}
    → get_elem? q i ≡ some n
    → get_elem? (boosted sch q) i ≡ some (boost sch n)
get-boosted sch [] i e = cc
get-boosted sch (x ∷ q) zero e = cc
get-boosted sch (x ∷ q) (suc i) e = get-boosted sch q i e

get-le :
    (q : ProcessQueue) (i b : ℕ) {n : QueueNode}
    → get_elem? q i ≡ some n
    → AllAtMost b q
    → n.acum_priority ≤ b
get-le [] i b e h = cc
get-le (x ∷ q) zero b {n} e h = ground (arith, h.0)
get-le (x ∷ q) (suc i) b e h = get-le q i b e h.1

-- the process `p` waits at index `i` with at least `a`, in a queue of length `len`
record Waits (k : Kernel) (i p a len : ℕ) : Type 0 where
  node : QueueNode
  here : get_elem? k.queue i ≡ some node
  owner : node.process ≡ p
  high : a ≤ node.acum_priority
  size : length k.queue ≡ len
  free : AllUnblocked k.schedule k.queue
  low : LowPriorities k.schedule

nonempty : (q : ProcessQueue) (i : ℕ) {n : QueueNode} → get_elem? q i ≡ some n → q ≢ []
nonempty [] i e h = cc
nonempty (x ∷ q) i e h = cc

-- the process is taken, or it waits on with one more, and the total grows only by what is added
-- less what the taken node loses
abbrev Progress : Kernel → Kernel → ℕ → ℕ → ℕ → ℕ → Type 0
Progress k k' i p a len =
    (k'.curr ≡ some p)
    ⊎ (Waits k' i p (a + 1) len × (total k'.queue + (a + 1) ≤ total k.queue + 4 * len + 1))

progress : (k : Kernel) (i p a len : ℕ) → Waits k i p a len → Progress k (choose_next k) i p a len
progress k i p a len w =
    let q' = boosted k.schedule k.queue in
    let w' = boost k.schedule w.node in
    let full = nonempty k.queue i w.here in
    let (j, m, e) = choose_next-Elected k full w.free in
    let more = boosted-raised k.schedule k.queue w.free in
    let highest : AllAtMost m.acum_priority q' = rw more e.highest in
    let here : get_elem? q' j ≡ some m = rw more e.here in
    let queue : (choose_next k).queue ≡ set q' j (queue_node m.process 1) = rw more e.queue in
    let there = get-boosted k.schedule k.queue i w.here in
    let unblocked = NoneBlocked-get k.schedule k.queue i w.here w.free in
    let grown = boost-grows k.schedule w.node unblocked in
    let below = get-le q' i m.acum_priority there highest in
    let owner : w'.process ≡ p = process-boost k.schedule w.node ∙ w.owner in
    elim (ℕ_discrete j i) [
      | yes hit ↦
          let same : m ≡ w' = eq_of_some (sym here ∙ ap (get_elem? q') hit ∙ there) in
          inl (e.curr ∙ ap some (ap (λ n. n.process) same ∙ owner))
      | no miss ↦
          let sum = total-set q' j m (queue_node m.process 1) here in
          let gain = total-boosted k.schedule k.queue w.low in
          let now = ap total queue in
          inr (
            record {
              node = w';
              here =
                  ap (λ q. get_elem? q i) queue
                  ∙ get_elem?-set_ne q' (queue_node m.process 1) miss
                  ∙ there;
              owner = owner;
              high = omega (arith, grown);
              size =
                  ap length queue
                  ∙ length-set q' j (queue_node m.process 1)
                  ∙ length-boosted k.schedule k.queue
                  ∙ w.size;
              free = choose_next-AllUnblocked k full w.free;
              low = λ r. rw (choose_next-Alike k full w.free r).1 (w.low r);
            },
            omega (arith, sum, gain, now, grown, below, w.size),
          )
    ]

-- the process is taken by one of the next `bound + 1` calls
abbrev pub TakenWithin : ℕ → Kernel → ℕ → Type 0
TakenWithin bound k p = (r : ℕ) × (r ≤ bound) × ((choose_nexts (suc r) k).curr ≡ some p)

TakenWithin-now : (b : ℕ) (k : Kernel) (p : ℕ) → (choose_next k).curr ≡ some p → TakenWithin b k p
unfolding choose_nexts
TakenWithin-now b k p e = (0, omega arith, e)

TakenWithin-later :
    (b c : ℕ) (k : Kernel) (p : ℕ) → b + 1 ≤ c → TakenWithin b (choose_next k) p → TakenWithin c k p
unfolding choose_nexts
TakenWithin-later b c k p h (r, le, e) = (suc r, omega arith, e)

total-ge :
    (q : ProcessQueue) (i : ℕ) {n : QueueNode} → get_elem? q i ≡ some n → n.acum_priority ≤ total q
unfolding total
total-ge [] i e = cc
total-ge (x ∷ q) zero e = ground arith
total-ge (x ∷ q) (suc i) e = omega (arith, total-ge q i e)

-- Once it waits with more than any call can add, every call lowers the total.
falling :
    (f : ℕ) (k : Kernel) (i p a len : ℕ)
    → Waits k i p a len
    → 4 * len + 1 ≤ a
    → total k.queue ≤ f
    → TakenWithin f k p
falling zero k i p a len w big small = absurd (omega (arith, total-ge k.queue i w.here, w.high))
falling (suc f) k i p a len w big small = elim (progress k i p a len w) [
  | inl taken ↦ TakenWithin-now (suc f) k p taken
  | inr (w', sum) ↦
      TakenWithin-later f (suc f) k p (omega arith)
        (falling f (choose_next k) i p (a + 1) len w' (omega arith) (omega arith))
]

-- Until then every call raises what it waits with by one.
rising :
    (g : ℕ) (k : Kernel) (i p a len : ℕ)
    → Waits k i p a len
    → 4 * len + 1 ≤ a + g
    → TakenWithin (total k.queue + g * (4 * len + 1)) k p
rising zero k i p a len w big =
    falling (total k.queue + 0 * (4 * len + 1)) k i p a len w (omega arith) (omega arith)
rising (suc g) k i p a len w big = elim (progress k i p a len w) [
  | inl taken ↦ TakenWithin-now (total k.queue + suc g * (4 * len + 1)) k p taken
  | inr (w', sum) ↦
      TakenWithin-later (total (choose_next k).queue + g * (4 * len + 1))
        (total k.queue + suc g * (4 * len + 1)) k p (omega arith)
        (rising g (choose_next k) i p (a + 1) len w' (omega arith))
]

-- No starvation under the priority scheduler: while no queued process is blocked and every priority
-- is at most 3, `choose_next` takes the process at any index of a queue of `n` nodes within the sum
-- of the accumulated priorities plus (4 n + 1)² calls, and one more.
pub no_starvation :
    (k : Kernel) (i : ℕ) {x : QueueNode}
    → get_elem? k.queue i ≡ some x
    → AllUnblocked k.schedule k.queue
    → LowPriorities k.schedule
    → let n = length k.queue in TakenWithin (total k.queue + (4 * n + 1) * (4 * n + 1)) k x.process
no_starvation k i {x} e free low =
    rising (4 * length k.queue + 1) k i x.process 0 (length k.queue)
      (record {
        node = x;
        here = e;
        owner = refl;
        high = omega arith;
        size = refl;
        free = free;
        low = low;
      })
      (omega arith)
