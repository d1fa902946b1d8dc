-- ===== src/SleepList/Stuck.antt =====
-- What a timer of no ticks does to the sleep list.
use arqvenger_os.Base.{
  ℕ, zero, suc, ◌^◌, ◌<◌, ◌≡◌, refl, ap, ◌∙◌, true, false, some, List, [], ◌∷◌, arith,
}
use arqvenger_os.Base.Int.{ℤ, pos, ◌-ℤ◌, ◌≤ℤ◌, int_laws}
use arqvenger_os.SleepList.{
  Node, node, SleepList, is_zero, leb_ℤ, update_list, add, count_down, expire, update,
}
use arqvenger_os.SleepList.Times.{IsArmed}

-- `k` timer ticks
unfoldable pub updates : {S : Type 0} → (ℕ → S → S) → ℕ → SleepList → S → SleepList × S
updates wake zero l s = (l, s)
updates wake (suc k) l s = let (l', s') = update wake l s in updates wake k l' s'

not_zero : (d : ℤ) → d ≤ℤ pos 0 → is_zero (d -ℤ pos 1) ≡ false
unfolding ◌-ℤ◌
not_zero d h = ground arith

abbrev pub processes : SleepList → List ℕ
processes [] = []
processes (n ∷ l) = n.process ∷ processes l

update-behind :
    {S : Type 0} (wake : ℕ → S → S) (n : Node) (l : SleepList) (s : S)
    → n.delta ≤ℤ pos 0
    → update wake (n ∷ l) s ≡ (node n.process (n.delta -ℤ pos 1) ∷ l, s)
unfolding update count_down expire
update-behind wake n l s h = rw (not_zero n.delta h)

pub updates-suc :
    {S : Type 0} (wake : ℕ → S → S) (k : ℕ) (l : SleepList) (s : S)
    → updates wake (suc k) l s ≡ updates wake k (update wake l s).0 (update wake l s).1
unfolding updates
updates-suc wake k l s = refl

updates-behind :
    {S : Type 0} (wake : ℕ → S → S) (k : ℕ) (p : ℕ) (d : ℤ) (l : SleepList) (s : S)
    → d ≤ℤ pos 0
    → (processes (updates wake k (node p d ∷ l) s).0 ≡ p ∷ processes l)
      × ((updates wake k (node p d ∷ l) s).1 ≡ s)
updates-behind wake zero p d l s h = unfold updates in (refl, refl)
updates-behind wake (suc k) p d l s h =
    let rest = updates-behind wake k p (d -ℤ pos 1) l s (omega int_laws) in
    let step = updates-suc wake k (node p d ∷ l) s in
    rw (step, update-behind wake (node p d) l s h) rest

add-zero_front :
    (l : SleepList) (p : ℕ)
    → IsArmed l
    → add l p (pos 0) ≡ some (node p (pos 0) ∷ update_list l (pos 0))
unfolding add update_list
add-zero_front [] p a = refl
add-zero_front (n ∷ l) p a = let now : leb_ℤ (pos 0) n.delta ≡ true = ground arith in rw now

processes-update_list : (l : SleepList) (t : ℤ) → processes (update_list l t) ≡ processes l
unfolding update_list
processes-update_list [] t = refl
processes-update_list (n ∷ l) t = refl

-- After `sleep_list_add` with no ticks on an armed list, no number of timer ticks below 2 ^ 31, for
-- which the first delta stays an int, wakes a process: the new timer and every process behind it
-- stay in the list.
pub zero_ticks_stick :
    {S : Type 0} (wake : ℕ → S → S) (k : ℕ) (l : SleepList) (p : ℕ) (s : S)
    → IsArmed l
    → k < 2 ^ 31
    → (l' : SleepList) × (add l p (pos 0) ≡ some l')
      × (processes (updates wake k l' s).0 ≡ p ∷ processes l)
      × ((updates wake k l' s).1 ≡ s)
zero_ticks_stick wake k l p s a small =
    let (names, same) = updates-behind wake k p (pos 0) (update_list l (pos 0)) s (omega arith) in
    (
      node p (pos 0) ∷ update_list l (pos 0),
      add-zero_front l p a,
      names ∙ ap (λ r. p ∷ r) (processes-update_list l (pos 0)),
      same,
    )
