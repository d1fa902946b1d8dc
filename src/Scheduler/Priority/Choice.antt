-- ===== src/Scheduler/Priority/Choice.antt =====
-- Which process `choose_next` takes.
use arqvenger_os.Base.{
  ℕ, suc, ◌+◌, ◌≤◌, ◌<◌, ◌≡◌, refl, ap, ◌⊎◌, inl, inr, false, Option, some, List, [], ◌∷◌, arith,
  Bool-cases, ltb, ltb→lt, get_elem?,
}
use arqvenger_os.ProcessQueue.{ProcessQueue, QueueNode}
use arqvenger_os.Scheduler.{is_blocked, Schedule}
use arqvenger_os.Scheduler.Priority.{boost, scan, update_acum_priorities}

abbrev pub processes : ProcessQueue → List ℕ
processes [] = []
processes (n ∷ q) = n.process ∷ processes q

abbrev pub NoneBlocked : (ℕ → Schedule) → List ℕ → Type 0
NoneBlocked sch [] = Unit
NoneBlocked sch (p ∷ ps) = (is_blocked (sch p).status ≡ false) × NoneBlocked sch ps

-- no process of the queue is blocked
abbrev pub AllUnblocked : (ℕ → Schedule) → ProcessQueue → Type 0
AllUnblocked sch q = NoneBlocked sch (processes q)

abbrev pub AllAtMost : ℕ → ProcessQueue → Type 0
AllAtMost b [] = Unit
AllAtMost b (n ∷ q) = (n.acum_priority ≤ b) × AllAtMost b q

abbrev pub boosted : (ℕ → Schedule) → ProcessQueue → ProcessQueue
boosted sch [] = []
boosted sch (n ∷ q) = boost sch n ∷ boosted sch q

pub scan-boosted :
    (sch : ℕ → Schedule) (q : ProcessQueue) (i top best : ℕ)
    → (scan sch i top best q).0 ≡ boosted sch q
unfolding scan
scan-boosted sch [] i top best = refl
scan-boosted sch (n ∷ q) i top best = ap (λ r. boost sch n ∷ r) (scan-boosted sch q _ _ _)

-- the node that the loop ends with: `top_priority` as it was before, or a node of `q`, whose first
-- node has index `i`
abbrev Place : ℕ → ℕ → ℕ → ProcessQueue → ℕ → ℕ → Type 0
Place i top best q out b =
    ((out ≡ top) × (b ≡ best))
    ⊎ ((j : ℕ) × (m : QueueNode) × (out ≡ i + j) × (get_elem? q j ≡ some m) × (m.acum_priority ≡ b))

record Best (i top best : ℕ) (q : ProcessQueue) (out : ℕ) : Type 0 where
  b : ℕ
  grows : best ≤ b
  bound : AllAtMost b q
  place : Place i top best q out b

Place-new :
    (i top best : ℕ) (n : QueueNode) (q : ProcessQueue) {out b : ℕ}
    → Place (i + 1) i n.acum_priority q out b
    → Place i top best (n ∷ q) out b
Place-new i top best n q (inl (o, e)) = inr (0, n, omega arith, refl, omega arith)
Place-new i top best n q (inr (j, m, o, g, e)) = inr (suc j, m, omega arith, g, e)

Place-old :
    (i top best : ℕ) (n : QueueNode) (q : ProcessQueue) {out b : ℕ}
    → Place (i + 1) top best q out b
    → Place i top best (n ∷ q) out b
Place-old i top best n q (inl h) = inl h
Place-old i top best n q (inr (j, m, o, g, e)) = inr (suc j, m, omega arith, g, e)

scan-Best :
    (sch : ℕ → Schedule) (i top best : ℕ) (q : ProcessQueue)
    → AllUnblocked sch q
    → Best i top best (boosted sch q) (scan sch i top best q).1
unfolding scan
scan-Best sch i top best [] u = record {
  b = best;
  grows = omega arith;
  bound = tt;
  place = inl (refl, refl);
}
scan-Best sch i top best (n ∷ q) u = elim (Bool-cases (ltb best (boost sch n).acum_priority)) [
  | inl more ↦
      let up : best < (boost sch n).acum_priority = ltb→lt _ _ more in
      let rest = scan-Best sch (i + 1) i (boost sch n).acum_priority q u.1 in
      rw (u.0, more)
        (record {
          b = rest.b;
          grows = omega (arith, rest.grows);
          bound = (rest.grows, rest.bound);
          place = Place-new i top best (boost sch n) (boosted sch q) rest.place;
        })
  | inr less ↦
      let rest = scan-Best sch (i + 1) top best q u.1 in
      rw (u.0, less)
        (record {
          b = rest.b;
          grows = rest.grows;
          bound = (ground (arith, rest.grows), rest.bound);
          place = Place-old i top best (boost sch n) (boosted sch q) rest.place;
        })
]

pub AllAtMost-mono : (q : ProcessQueue) (a b : ℕ) → a ≤ b → AllAtMost a q → AllAtMost b q
AllAtMost-mono [] a b h p = tt
AllAtMost-mono (n ∷ q) a b h p = (omega (arith, p.0), AllAtMost-mono q a b h p.1)

-- the node that `updateAcumPriorities` leaves in `top_priority`
pub record Top (q : ProcessQueue) (out : Option ℕ) : Type 0 where
  pub index : ℕ
  pub node : QueueNode
  pub found : out ≡ some index
  pub here : get_elem? q index ≡ some node
  pub bound : AllAtMost node.acum_priority q

Place-Top :
    (n : QueueNode) (q : ProcessQueue) {out b : ℕ}
    → n.acum_priority ≤ b
    → AllAtMost b q
    → Place 1 0 n.acum_priority q out b
    → Top (n ∷ q) (some out)
Place-Top n q h bound (inl (o, e)) = record {
  index = 0;
  node = n;
  found = ap some o;
  here = refl;
  bound = (omega arith, AllAtMost-mono q _ _ (omega arith) bound);
}
Place-Top n q h bound (inr (j, m, o, g, e)) = record {
  index = suc j;
  node = m;
  found = ap some (omega arith);
  here = g;
  bound = (omega arith, AllAtMost-mono q _ _ (omega arith) bound);
}

-- In a queue with no blocked process `top_priority` is a node with the highest priority.
pub update_acum_priorities-Top :
    (sch : ℕ → Schedule) (n : QueueNode) (q : ProcessQueue)
    → AllUnblocked sch (n ∷ q)
    → Top (boosted sch (n ∷ q)) (update_acum_priorities sch (n ∷ q)).1
unfolding update_acum_priorities
update_acum_priorities-Top sch n q u =
    let out = scan-Best sch 1 0 (boost sch n).acum_priority q u.1 in
    Place-Top (boost sch n) (boosted sch q) out.grows out.bound out.place

pub update_acum_priorities-boosted :
    (sch : ℕ → Schedule) (q : ProcessQueue) → (update_acum_priorities sch q).0 ≡ boosted sch q
unfolding update_acum_priorities
update_acum_priorities-boosted sch [] = refl
update_acum_priorities-boosted sch (n ∷ q) = ap (λ r. boost sch n ∷ r) (scan-boosted sch q _ _ _)
