-- ===== src/SleepList/Examples.antt =====
-- The theorems on the sleep list at a list of three timers.
use arqvenger_os.Base.{arith, ℕ, ◌≡◌, refl, inl, inr, none, some, List, [], ◌∷◌}
use arqvenger_os.Base.Int.{pos, ◌+ℤ◌, ◌-ℤ◌, int_laws}
use arqvenger_os.SleepList.{node, SleepList, update_list, add_behind, add}
use arqvenger_os.SleepList.Times.{wake_times, IsAscending, IsArmed}
use arqvenger_os.SleepList.Add.{Placed, lag, add-Placed}
use arqvenger_os.SleepList.Stuck.{updates, processes, zero_ticks_stick}
use arqvenger_os.SleepList.OnTime.{wakes_on_time}

-- process 1 wakes after two ticks, 2 with it, and 3 five ticks later
abbrev three : SleepList
three = node 1 (pos 2) ∷ node 2 (pos 0) ∷ node 3 (pos 5) ∷ []

-- notes each process that is woken
abbrev note_wake : ℕ → List ℕ → List ℕ
note_wake p woken = p ∷ woken

three-IsAscending : IsAscending three
three-IsAscending = (omega int_laws, (omega int_laws, (omega int_laws, tt)))

three-IsArmed : IsArmed three
three-IsArmed = (omega int_laws, (omega int_laws, (omega int_laws, tt)))

add_test :
    add three 4 (pos 3)
    ≡ some (node 1 (pos 2) ∷ node 2 (pos 0) ∷ node 4 (pos 1) ∷ node 3 (pos 5) ∷ [])
unfolding add add_behind update_list ◌-ℤ◌
add_test = refl

add_last_test : add three 4 (pos 8) ≡ none
unfolding add add_behind ◌-ℤ◌
add_last_test = refl

add-Placed_example :
    (l' : SleepList) × (add three 4 (pos 3) ≡ some l')
    × Placed lag 4 (pos 3) (wake_times (pos 0) three) (wake_times (pos 0) l')
add-Placed_example = add-Placed three 4 (pos 3) three-IsAscending (inr (inr (inl (omega int_laws))))

wakes_on_time_example : (updates note_wake 2 three []).1 ≡ 2 ∷ 1 ∷ []
unfolding ◌+ℤ◌
wakes_on_time_example = wakes_on_time note_wake 2 three [] three-IsArmed

zero_ticks_stick_example :
    (l' : SleepList) × (add three 4 (pos 0) ≡ some l')
    × (processes (updates note_wake 100 l' []).0 ≡ 4 ∷ 1 ∷ 2 ∷ 3 ∷ [])
    × ((updates note_wake 100 l' []).1 ≡ [])
zero_ticks_stick_example = zero_ticks_stick note_wake 100 three 4 [] three-IsArmed (omega arith)
