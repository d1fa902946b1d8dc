-- ===== src/ProcessTable/Lookup.antt =====
-- The entries of the table are its processes in order.
use arqvenger_os.Base.{
  ℕ, zero, suc, ◌+◌, ◌≡◌, refl, ap, ◌∙◌, true, false, none, some, List, [], ◌∷◌, arith, ◌==◌,
  get_elem?,
}
use arqvenger_os.ProcessTable.{Process, ProcessTable, process_table_entry}

-- the processes of the table, without the free slots
abbrev pub occupied : ProcessTable → List Process
occupied [] = []
occupied (none ∷ t) = occupied t
occupied (some p ∷ t) = p ∷ occupied t

passed :
    (t : ProcessTable) (n entry : ℕ)
    → process_table_entry t (entry + n) entry ≡ get_elem? (occupied t) n
unfolding process_table_entry
passed [] n entry = refl
passed (none ∷ t) n entry = passed t n entry
passed (some p ∷ t) zero entry = let here : (entry + 0 == entry) ≡ true = ground arith in rw here
passed (some p ∷ t) (suc n) entry =
    let away : (entry + suc n == entry) ≡ false = ground arith in
    let at : entry + suc n ≡ entry + 1 + n = omega arith in
    rw away (ap (λ m. process_table_entry t m (entry + 1)) at ∙ passed t n (entry + 1))

-- `process_table_entry` of a number gives the process with that index among the processes of the
-- table, and NULL beyond the last one.
pub process_table_entry-occupied :
    (t : ProcessTable) (number : ℕ) → process_table_entry t number 0 ≡ get_elem? (occupied t) number
process_table_entry-occupied t number =
    let at : number ≡ 0 + number = omega arith in
    ap (λ m. process_table_entry t m 0) at ∙ passed t number 0
