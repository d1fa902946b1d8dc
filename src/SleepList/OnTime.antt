-- ===== src/SleepList/OnTime.antt =====
-- When each process wakes, over any number of timer ticks.
use arqvenger_os.Base.{
  ℕ, zero, suc, ◌≡◌, refl, ap, ap₂, ◌∙◌, inl, inr, true, false, List, [], ◌∷◌, ◌++◌, arith,
  Bool-cases, if◌then◌else◌,
}
use arqvenger_os.Base.Int.{ℤ, pos, ◌+ℤ◌, ◌-ℤ◌, ◌≤ℤ◌, int_laws}
use arqvenger_os.SleepList.{SleepList, leb_ℤ, update}
use arqvenger_os.SleepList.Times.{
  Timers, wake_times, IsAscending, IsArmed, AllAtLeast, AllAtLeast-wake_times,
}
use arqvenger_os.SleepList.Tick.{elapse, pending, expired, wake_each, update-elapse}
use arqvenger_os.SleepList.Stuck.{updates, updates-suc}

-- the processes whose timers run out within `t` ticks, in the order of their times
abbrev pub due_by : ℤ → Timers → List ℕ
due_by t [] = []
due_by t ((p, u) ∷ r) = let rest = due_by t r in if leb_ℤ u t then p ∷ rest else rest

abbrev IsSorted : Timers → Type 0
IsSorted [] = Unit
IsSorted ((p, u) ∷ r) = AllAtLeast u r × IsSorted r

wake_times-IsSorted : (l : SleepList) (b : ℤ) → IsAscending l → IsSorted (wake_times b l)
wake_times-IsSorted [] b a = tt
wake_times-IsSorted (n ∷ l) b a = (
  AllAtLeast-wake_times l (b +ℤ n.delta) (b +ℤ n.delta) (omega int_laws) a.1,
  wake_times-IsSorted l (b +ℤ n.delta) a.1,
)

leb-elapse : (u t : ℤ) → leb_ℤ (u -ℤ pos 1) t ≡ leb_ℤ u (t +ℤ pos 1)
unfolding ◌-ℤ◌ ◌+ℤ◌
leb-elapse u t = ground arith

due_by-elapse : (r : Timers) (t : ℤ) → due_by t (elapse r) ≡ due_by (t +ℤ pos 1) r
due_by-elapse [] t = refl
due_by-elapse ((p, u) ∷ r) t = rw (leb-elapse u t, due_by-elapse r t)

still_later :
    (u v : ℤ) → u ≤ℤ v → leb_ℤ (u -ℤ pos 1) (pos 0) ≡ false → leb_ℤ (v -ℤ pos 1) (pos 0) ≡ false
unfolding ◌-ℤ◌
still_later u v h e = ground arith

soon : (u t : ℤ) → pos 0 ≤ℤ t → leb_ℤ (u -ℤ pos 1) (pos 0) ≡ true → leb_ℤ u (t +ℤ pos 1) ≡ true
unfolding ◌-ℤ◌ ◌+ℤ◌
soon u t h e = ground arith

none_expired :
    (r : Timers) (u : ℤ)
    → AllAtLeast u r
    → leb_ℤ (u -ℤ pos 1) (pos 0) ≡ false
    → (expired (elapse r) ≡ []) × (pending (elapse r) ≡ elapse r)
none_expired [] u h e = (refl, refl)
none_expired ((q, v) ∷ r) u h e =
    let (nobody, kept) = none_expired r u h.1 e in
    let later : leb_ℤ (v -ℤ pos 1) (pos 0) ≡ false = still_later u v h.0 e in
    (rw (later, nobody), rw (later, kept))

due_by_first :
    (r : Timers) (t : ℤ)
    → pos 0 ≤ℤ t
    → IsSorted r
    → expired (elapse r) ++ due_by t (pending (elapse r)) ≡ due_by (t +ℤ pos 1) r
due_by_first [] t h s = refl
due_by_first ((p, u) ∷ r) t h s = elim (Bool-cases (leb_ℤ (u -ℤ pos 1) (pos 0))) [
  | inl now ↦
      let within : leb_ℤ u (t +ℤ pos 1) ≡ true = soon u t h now in
      rw (now, within) (ap (λ ps. p ∷ ps) (due_by_first r t h s.1))
  | inr later ↦
      let (nobody, kept) = none_expired r u s.0 later in
      rw (later, nobody, kept) (due_by-elapse ((p, u) ∷ r) t)
]

wake_each-append :
    {S : Type 0} (wake : ℕ → S → S) (ps qs : List ℕ) (s : S)
    → wake_each wake qs (wake_each wake ps s) ≡ wake_each wake (ps ++ qs) s
wake_each-append wake [] qs s = refl
wake_each-append wake (p ∷ ps) qs s = wake_each-append wake ps qs (wake p s)

pos-suc : (j : ℕ) → pos j +ℤ pos 1 ≡ pos (suc j)
unfolding ◌+ℤ◌
pos-suc j = ground arith

IsArmed-IsAscending : (l : SleepList) → IsArmed l → IsAscending l
IsArmed-IsAscending [] a = tt
IsArmed-IsAscending (n ∷ l) a = (omega arith, a.1)

none_due : (r : Timers) → AllAtLeast (pos 1) r → due_by (pos 0) r ≡ []
none_due [] h = refl
none_due ((p, u) ∷ r) h =
    let later : leb_ℤ u (pos 0) ≡ false = ground arith in rw (later, none_due r h.1)

due_by-none : (l : SleepList) → IsArmed l → due_by (pos 0) (wake_times (pos 0) l) ≡ []
due_by-none [] a = refl
due_by-none (n ∷ l) a =
    none_due (wake_times (pos 0) (n ∷ l))
      (omega int_laws, AllAtLeast-wake_times l (pos 0 +ℤ n.delta) (pos 1) (omega int_laws) a.1)

-- `j` timer ticks on an armed sleep list wake exactly the processes whose timers were set to at
-- most `j` ticks, each once, in the order of their times.
pub wakes_on_time :
    {S : Type 0} (wake : ℕ → S → S) (j : ℕ) (l : SleepList) (s : S)
    → IsArmed l
    → (updates wake j l s).1 ≡ wake_each wake (due_by (pos j) (wake_times (pos 0) l)) s
wakes_on_time wake zero l s a = unfold updates in rw (due_by-none l a)
wakes_on_time wake (suc j) l s a =
    let (times, woken, armed) = update-elapse wake l s a in
    let later = wakes_on_time wake j (update wake l s).0 (update wake l s).1 armed in
    let sorted = wake_times-IsSorted l (pos 0) (IsArmed-IsAscending l a) in
    let zero_le : pos 0 ≤ℤ pos j = omega arith in
    let all = due_by_first (wake_times (pos 0) l) (pos j) zero_le sorted in
    ap (λ x. x.1) (updates-suc wake j l s)
    ∙ later
    ∙ ap₂ (λ r t. wake_each wake (due_by (pos j) r) t) times woken
    ∙ wake_each-append wake (expired (elapse (wake_times (pos 0) l)))
        (due_by (pos j) (pending (elapse (wake_times (pos 0) l)))) s
    ∙ ap (λ ps. wake_each wake ps s) (all ∙ ap (λ t. due_by t (wake_times (pos 0) l)) (pos-suc j))
