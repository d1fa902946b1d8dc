-- ===== src/SleepList/Remove.antt =====
-- `sleep_list_remove` against the wake-up times.
use arqvenger_os.Base.{ℕ, ◌≡◌, refl, inl, inr, [], ◌∷◌, Bool-cases, ◌==◌, if◌then◌else◌}
use arqvenger_os.Base.Int.{ℤ, pos, ◌+ℤ◌, ◌≤ℤ◌, int_laws}
use arqvenger_os.SleepList.{SleepList, give_back, remove}
use arqvenger_os.SleepList.Times.{Timers, wake_times, IsAscending, IsArmed}

-- the timers without the first one of `p`
abbrev pub without : ℕ → Timers → Timers
without p [] = []
without p ((q, u) ∷ r) = let rest = (q, u) ∷ without p r in if q == p then r else rest

wake_times-give_back :
    (l : SleepList) (b d : ℤ) → wake_times b (give_back l d) ≡ wake_times (b +ℤ d) l
unfolding give_back
wake_times-give_back [] b d = refl
wake_times-give_back (n ∷ l) b d =
    let e : b +ℤ (n.delta +ℤ d) ≡ b +ℤ d +ℤ n.delta = omega int_laws in rw e

-- `sleep_list_remove` takes the first timer of the process out and moves no other wake-up time.
pub wake_times-remove :
    (l : SleepList) (p : ℕ) (b : ℤ) → wake_times b (remove l p) ≡ without p (wake_times b l)
unfolding remove
wake_times-remove [] p b = refl
wake_times-remove (n ∷ l) p b = elim (Bool-cases (n.process == p)) [
  | inl hit ↦ rw hit (wake_times-give_back l b n.delta)
  | inr miss ↦ rw (miss, wake_times-remove l p (b +ℤ n.delta))
]

IsAscending-give_back :
    (l : SleepList) (d : ℤ) → pos 0 ≤ℤ d → IsAscending l → IsAscending (give_back l d)
unfolding give_back
IsAscending-give_back [] d h a = tt
IsAscending-give_back (n ∷ l) d h a = (omega int_laws, a.1)

IsAscending-remove : (l : SleepList) (p : ℕ) → IsAscending l → IsAscending (remove l p)
unfolding remove
IsAscending-remove [] p a = tt
IsAscending-remove (n ∷ l) p a = elim (Bool-cases (n.process == p)) [
  | inl hit ↦ rw hit (IsAscending-give_back l n.delta a.0 a.1)
  | inr miss ↦ rw miss (a.0, IsAscending-remove l p a.1)
]

IsArmed-give_back : (l : SleepList) (d : ℤ) → pos 1 ≤ℤ d → IsAscending l → IsArmed (give_back l d)
unfolding give_back
IsArmed-give_back [] d h a = tt
IsArmed-give_back (n ∷ l) d h a = (omega int_laws, a.1)

-- `sleep_list_remove` keeps the list armed.
pub remove-IsArmed : (l : SleepList) (p : ℕ) → IsArmed l → IsArmed (remove l p)
unfolding remove
remove-IsArmed [] p a = tt
remove-IsArmed (n ∷ l) p a = elim (Bool-cases (n.process == p)) [
  | inl hit ↦ rw hit (IsArmed-give_back l n.delta a.0 a.1)
  | inr miss ↦ rw miss (a.0, IsAscending-remove l p a.1)
]
