-- ===== src/SleepList/Tick.antt =====
-- `sleep_list_update`, which runs on every timer tick, against the wake-up times.
use arqvenger_os.Base.{
  ℕ, ◌≡◌, refl, sym, inl, inr, true, false, List, [], ◌∷◌, arith, Bool-cases, if◌then◌else◌,
}
use arqvenger_os.Base.Int.{ℤ, pos, ◌+ℤ◌, ◌-ℤ◌, ◌≤ℤ◌, int_laws}
use arqvenger_os.SleepList.{SleepList, is_zero, leb_ℤ, count_down, expire, update}
use arqvenger_os.SleepList.Times.{
  Timers, wake_times, IsAscending, IsArmed, AllAtLeast, AllAtLeast-wake_times,
}

-- one tick has passed
abbrev pub elapse : Timers → Timers
elapse [] = []
elapse ((p, u) ∷ r) = (p, u -ℤ pos 1) ∷ elapse r

-- the timers that are still to come
abbrev pub pending : Timers → Timers
pending [] = []
pending ((p, u) ∷ r) = let rest = pending r in if leb_ℤ u (pos 0) then rest else (p, u) ∷ rest

-- the processes whose time has come, in the order of their times
abbrev pub expired : Timers → List ℕ
expired [] = []
expired ((p, u) ∷ r) = let rest = expired r in if leb_ℤ u (pos 0) then p ∷ rest else rest

abbrev pub wake_each {ℓ} : {S : Type ℓ} → (ℕ → S → S) → List ℕ → S → S
wake_each wake [] s = s
wake_each wake (p ∷ ps) s = wake_each wake ps (wake p s)

wake_times-elapse :
    (l : SleepList) (b c : ℤ) → c ≡ b -ℤ pos 1 → wake_times c l ≡ elapse (wake_times b l)
wake_times-elapse [] b c e = refl
wake_times-elapse (n ∷ l) b c e =
    let e' : c +ℤ n.delta ≡ (b +ℤ n.delta) -ℤ pos 1 = rw e (omega int_laws) in
    rw (wake_times-elapse l (b +ℤ n.delta) (c +ℤ n.delta) e', e')

wake_times-count_down :
    (l : SleepList) → wake_times (pos 0) (count_down l) ≡ elapse (wake_times (pos 0) l)
unfolding count_down
wake_times-count_down [] = refl
wake_times-count_down (n ∷ l) =
    let e : pos 0 +ℤ (n.delta -ℤ pos 1) ≡ (pos 0 +ℤ n.delta) -ℤ pos 1 = omega int_laws in
    rw (wake_times-elapse l (pos 0 +ℤ n.delta) (pos 0 +ℤ (n.delta -ℤ pos 1)) e, e)

late : (u : ℤ) → pos 1 ≤ℤ u → leb_ℤ u (pos 0) ≡ false
late u h = ground arith

all_pending : (r : Timers) → AllAtLeast (pos 1) r → (pending r ≡ r) × (expired r ≡ [])
all_pending [] h = (refl, refl)
all_pending ((p, u) ∷ r) h =
    let (kept, nobody) = all_pending r h.1 in (rw (late u h.0, kept), rw (late u h.0, nobody))

zero-or-positive : (d : ℤ) → pos 0 ≤ℤ d → is_zero d ≡ false → pos 1 ≤ℤ d
zero-or-positive d h e = ground arith

eq_of_is_zero : (d : ℤ) → is_zero d ≡ true → d ≡ pos 0
eq_of_is_zero d e = ground arith

-- What the loop leaves, given that no delta is negative.
record Expired {S : Type 0} (wake : ℕ → S → S) (l : SleepList) (s : S) (out : SleepList × S)
    : Type 0 where
  left : wake_times (pos 0) out.0 ≡ pending (wake_times (pos 0) l)
  woken : out.1 ≡ wake_each wake (expired (wake_times (pos 0) l)) s
  armed : IsArmed out.0

expire-Expired :
    {S : Type 0} (wake : ℕ → S → S) (l : SleepList) (s : S)
    → IsAscending l
    → Expired wake l s (expire wake l s)
unfolding expire
expire-Expired wake [] s a = record { left = refl; woken = refl; armed = tt }
expire-Expired wake (n ∷ l) s a = elim (Bool-cases (is_zero n.delta)) [
  | inl z ↦
      let e : pos 0 +ℤ n.delta ≡ pos 0 = rw (eq_of_is_zero n.delta z) (omega int_laws) in
      let rest = expire-Expired wake l (wake n.process s) a.1 in
      rw z (record { left = rw e rest.left; woken = rw e rest.woken; armed = rest.armed })
  | inr nz ↦
      let h : pos 1 ≤ℤ n.delta = zero-or-positive n.delta a.0 nz in
      let (kept, nobody) =
        all_pending (wake_times (pos 0) (n ∷ l)) (
          omega int_laws,
          AllAtLeast-wake_times l (pos 0 +ℤ n.delta) (pos 1) (omega int_laws) a.1,
        ) in
      rw nz (record { left = sym kept; woken = rw nobody; armed = (h, a.1) })
]

IsAscending-count_down : (l : SleepList) → IsArmed l → IsAscending (count_down l)
unfolding count_down
IsAscending-count_down [] a = tt
IsAscending-count_down (n ∷ l) a = (omega int_laws, a.1)

-- `sleep_list_update` on an armed list: every timer comes one tick nearer; the processes whose time
-- has come are woken, each once and in the order of their times; the others stay, and the list
-- stays armed.
pub update-elapse :
    {S : Type 0} (wake : ℕ → S → S) (l : SleepList) (s : S)
    → IsArmed l
    → (wake_times (pos 0) (update wake l s).0 ≡ pending (elapse (wake_times (pos 0) l)))
      × ((update wake l s).1 ≡ wake_each wake (expired (elapse (wake_times (pos 0) l))) s)
      × IsArmed (update wake l s).0
unfolding update
update-elapse wake l s a =
    let out = expire-Expired wake (count_down l) s (IsAscending-count_down l a) in
    (rw (← wake_times-count_down l) out.left, rw (← wake_times-count_down l) out.woken, out.armed)
