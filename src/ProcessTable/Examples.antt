-- ===== src/ProcessTable/Examples.antt =====
-- The lookup at a table of three slots.
use arqvenger_os.Base.{ℕ, false, none, some, [], ◌∷◌}
use arqvenger_os.ProcessTable.{Process, ProcessTable}

abbrev process : ℕ → Process
process pid = record { pid = pid; is_done = false; cycles = 0; curr_cycles = 0; prev_cycles = 0 }

-- the second slot is free
abbrev table : ProcessTable
table = some (process 1) ∷ none ∷ some (process 5) ∷ []
