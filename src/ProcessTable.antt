-- ===== src/ProcessTable.antt =====
-- The slots of the process table and the cycles of its processes: system/process/table.c, with the
-- counters of system/scheduler.c. A slot is NULL or a process.
pub mod Lookup
mod Examples
use arqvenger_os.Base.{
  ℕ, zero, suc, ◌+◌, ◌-◌, ◌%◌, ◌^◌, Bool, true, false, Option, none, some, List, [], ◌∷◌, ◌==◌,
  if◌then◌else◌, map,
}

-- the fields of `struct Process` that the table looks at
pub record Process : Type 0 where
  pub pid : ℕ
  pub is_done : Bool
  pub cycles : ℕ
  pub curr_cycles : ℕ
  pub prev_cycles : ℕ

abbrev pub ProcessTable : Type 0
ProcessTable = List (Option Process)

-- The search of `process_table_new` for a free slot, from slot `i` on; `none` is a full table.
unfoldable pub free_slot : ProcessTable → ℕ → Option ℕ
free_slot [] i = none
free_slot (none ∷ t) i = some i
free_slot (some p ∷ t) i = free_slot t (i + 1)

unfoldable pub process_table_get : ProcessTable → ℕ → Option Process
process_table_get [] pid = none
process_table_get (none ∷ t) pid = process_table_get t pid
process_table_get (some p ∷ t) pid =
    let rest = process_table_get t pid in if p.pid == pid then some p else rest

-- `process_table_entry`, from a slot on where `entry` processes have been passed
unfoldable pub process_table_entry : ProcessTable → ℕ → ℕ → Option Process
process_table_entry [] number entry = none
process_table_entry (none ∷ t) number entry = process_table_entry t number entry
process_table_entry (some p ∷ t) number entry =
    let rest = process_table_entry t number (entry + 1) in if number == entry then some p else rest

-- `waitable_child`, over the list of children
unfoldable pub waitable_child : List Process → Option Process
waitable_child [] = none
waitable_child (c ∷ cs) = let rest = waitable_child cs in if c.is_done then some c else rest

abbrev pub reset_sample : Option Process → Option Process
reset_sample none = none
reset_sample (some p) = some (record p { prev_cycles = p.curr_cycles; curr_cycles = 0 })

unfoldable pub process_table_reset_cycles : ProcessTable → ProcessTable
process_table_reset_cycles t = map reset_sample t

-- the scheduler's counters, which are 64 bits wide
pub record Counters : Type 0 where
  pub cycles : ℕ
  pub prev_cycles : ℕ
  pub curr_cycles : ℕ

abbrev pub add64 : ℕ → ℕ → ℕ
add64 a b = (a + b) % 2 ^ 64

-- `update_cycles` for the current process, at the time stamp `new_cycles`
unfoldable pub update_cycles : Counters → Process → ℕ → Counters × Process
update_cycles k p new_cycles =
    let delta = (new_cycles + 2 ^ 64 - k.cycles) % 2 ^ 64 in
    (
      record k { cycles = new_cycles; curr_cycles = add64 k.curr_cycles delta },
      record p { cycles = add64 p.cycles delta; curr_cycles = add64 p.curr_cycles delta },
    )

unfoldable pub restart_sample : Counters → Counters
restart_sample k = record k { prev_cycles = k.curr_cycles; curr_cycles = 0 }
