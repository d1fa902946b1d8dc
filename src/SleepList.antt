-- ===== src/SleepList.antt =====
-- The delta queue of sleeping processes: system/sleepList.c.
-- A `struct DeltaQueue` is the list of its nodes from `first` on; nodes taken from and given back
-- to the `freeNodes` pool are not modelled, since a node is written whole before it is linked.
-- A process is named by its pid. `delta` is a C `int`, read as an
-- integer: the model is the code while the deltas stay in the range of an `int`.
pub mod Times
pub mod Add
pub mod Tick
pub mod Remove
pub mod Stuck
pub mod OnTime
mod Examples
use arqvenger_os.Base.{
  ℕ, Bool, true, false, Option, none, some, ◌>>=◌, List, [], ◌∷◌, ◌==◌, leb, if◌then◌else◌,
}
use arqvenger_os.Base.Int.{ℤ, pos, negsuc, ◌+ℤ◌, ◌-ℤ◌, ltb_ℤ}
use mathlib.Core.Bool.{not}

-- `struct Node`
pub record Node : Type 0 where
  pub process : ℕ
  pub delta : ℤ

abbrev pub node : ℕ → ℤ → Node
node p d = record { process = p; delta = d }

abbrev pub SleepList : Type 0
SleepList = List Node

-- `a <= b` on two ints
abbrev pub leb_ℤ : ℤ → ℤ → Bool
leb_ℤ a b = not (ltb_ℤ b a)

abbrev pub is_zero : ℤ → Bool
is_zero (pos n) = n == 0
is_zero (negsuc n) = false

-- `update_list`: the first node has that much less to wait.
unfoldable pub update_list : SleepList → ℤ → SleepList
update_list [] ticks = []
update_list (n ∷ l) ticks = node n.process (n.delta -ℤ ticks) ∷ l

-- The `while` loop of `sleep_list_add`, from the node `curr` on, and what follows it. It is the node
-- behind `curr` that is updated. At the end of the list `curr` is NULL, and the source reads
-- `curr->next` through it, which C does not define: `none`.
unfoldable pub add_behind : SleepList → ℕ → ℤ → Option SleepList
add_behind [] p ticks = none
add_behind (n ∷ l) p ticks =
    let rest = add_behind l p (ticks -ℤ n.delta) >>= (λ r. some (n ∷ r)) in
    if leb_ℤ n.delta ticks then rest else some (node p ticks ∷ (n ∷ update_list l ticks))

unfoldable pub add : SleepList → ℕ → ℤ → Option SleepList
add [] p ticks = some (node p ticks ∷ [])
add (n ∷ l) p ticks =
    if leb_ℤ ticks n.delta
    then some (node p ticks ∷ update_list (n ∷ l) ticks)
    else add_behind (n ∷ l) p ticks

-- The first statement of `sleep_list_update`: the first node has one tick less to wait.
unfoldable pub count_down : SleepList → SleepList
count_down [] = []
count_down (n ∷ l) = node n.process (n.delta -ℤ pos 1) ∷ l

-- The loop of `sleep_list_update`: while the first delta is 0 its process is woken, which is the
-- caller's `wake` on the rest of the kernel, and its node is taken off.
unfoldable pub expire {ℓ} : {S : Type ℓ} → (ℕ → S → S) → SleepList → S → SleepList × S
expire wake [] s = ([], s)
expire wake (n ∷ l) s =
    let rest = expire wake l (wake n.process s) in if is_zero n.delta then rest else (n ∷ l, s)

unfoldable pub update {ℓ} : {S : Type ℓ} → (ℕ → S → S) → SleepList → S → SleepList × S
update wake l s = expire wake (count_down l) s

-- `curr->next->delta += curr->delta`
unfoldable pub give_back : SleepList → ℤ → SleepList
give_back [] d = []
give_back (n ∷ l) d = node n.process (n.delta +ℤ d) ∷ l

unfoldable pub remove : SleepList → ℕ → SleepList
remove [] p = []
remove (n ∷ l) p = let rest = n ∷ remove l p in if n.process == p then give_back l n.delta else rest
