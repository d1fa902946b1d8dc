-- ===== src/SleepList/Times.antt =====
-- What the delta queue stands for: the number of ticks after which each process wakes.
use arqvenger_os.Base.{ℕ, ◌≡◌, refl, true, false, List, [], ◌∷◌, arith}
use arqvenger_os.Base.Int.{ℤ, pos, ◌+ℤ◌, ◌-ℤ◌, ◌≤ℤ◌, int_laws}
use arqvenger_os.SleepList.{SleepList, leb_ℤ, update_list}

abbrev pub Timers : Type 0
Timers = List (ℕ × ℤ)

-- The absolute times, counted from `base`, at which the queue wakes its processes.
abbrev pub wake_times : ℤ → SleepList → Timers
wake_times base [] = []
wake_times base (n ∷ l) = (n.process, base +ℤ n.delta) ∷ wake_times (base +ℤ n.delta) l

-- no negative delta
abbrev pub IsAscending : SleepList → Type 0
IsAscending [] = Unit
IsAscending (n ∷ l) = (pos 0 ≤ℤ n.delta) × IsAscending l

-- between two ticks the first delta is positive
abbrev pub IsArmed : SleepList → Type 0
IsArmed [] = Unit
IsArmed (n ∷ l) = (pos 1 ≤ℤ n.delta) × IsAscending l

abbrev pub AllAtMost : ℤ → Timers → Type 0
AllAtMost t [] = Unit
AllAtMost t ((p, u) ∷ r) = (u ≤ℤ t) × AllAtMost t r

abbrev pub AllAtLeast : ℤ → Timers → Type 0
AllAtLeast t [] = Unit
AllAtLeast t ((p, u) ∷ r) = (t ≤ℤ u) × AllAtLeast t r

pub AllAtLeast-wake_times :
    (l : SleepList) (b t : ℤ) → t ≤ℤ b → IsAscending l → AllAtLeast t (wake_times b l)
AllAtLeast-wake_times [] b t h a = tt
AllAtLeast-wake_times (n ∷ l) b t h a =
    let h' : t ≤ℤ b +ℤ n.delta = omega int_laws in
    (h', AllAtLeast-wake_times l (b +ℤ n.delta) t h' a.1)

pub wake_times-update_list :
    (l : SleepList) (b t : ℤ) → wake_times (b +ℤ t) (update_list l t) ≡ wake_times b l
unfolding update_list
wake_times-update_list [] b t = refl
wake_times-update_list (n ∷ l) b t =
    let e : b +ℤ t +ℤ (n.delta -ℤ t) ≡ b +ℤ n.delta = omega int_laws in rw e

pub leb_ℤ→≤ℤ : (a b : ℤ) → leb_ℤ a b ≡ true → a ≤ℤ b
leb_ℤ→≤ℤ a b h = ground arith

pub not-leb_ℤ : (a b : ℤ) → leb_ℤ a b ≡ false → b ≤ℤ a
not-leb_ℤ a b h = ground arith
