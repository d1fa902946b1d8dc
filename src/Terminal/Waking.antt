-- ===== src/Terminal/Waking.antt =====
-- A process that waits for input, and the key that wakes it.
use arqvenger_os.Base.{
  ℕ, ◌≡◌, refl, sym, ap, inl, inr, Bool, true, false, none, some, [], ◌∷◌, ◌==◌, ==_iff, Bool-cases,
}
use arqvenger_os.ProcessQueue
use arqvenger_os.Scheduler.{
  Kernel, ready, block, unblock, process_table_block, process_table_unblock,
}
use arqvenger_os.Terminal.{
  Tty, Waiting, at_terminal, wake_first, wake_up, wait_in_slot, set_io_wait, wait_for_input,
}

-- No process in the slots is in the foreground.
abbrev pub Behind : (ℕ → Bool) → Waiting → Type 0
Behind foreground [] = Unit
Behind foreground (none ∷ w) = Behind foreground w
Behind foreground (some q ∷ w) = (foreground q ≡ false) × Behind foreground w

abbrev pub HasFree : Waiting → Type 0
HasFree [] = ⊥
HasFree (none ∷ w) = Unit
HasFree (some q ∷ w) = HasFree w

wait_in_slot-HasFree : (w : Waiting) (p : ℕ) → HasFree w → (wait_in_slot w p).1 ≡ true
unfolding wait_in_slot
wait_in_slot-HasFree [] p h = elim h [ ]
wait_in_slot-HasFree (none ∷ w) p h = refl
wait_in_slot-HasFree (some q ∷ w) p h = wait_in_slot-HasFree w p h

wake_first-wait_in_slot :
    (foreground : ℕ → Bool) (w : Waiting) (p : ℕ)
    → HasFree w
    → Behind foreground w
    → foreground p ≡ true
    → wake_first foreground (wait_in_slot w p).0 ≡ (w, some p)
unfolding wake_first wait_in_slot
wake_first-wait_in_slot foreground [] p free h front = elim free [ ]
wake_first-wait_in_slot foreground (none ∷ w) p free h front = rw front
wake_first-wait_in_slot foreground (some q ∷ w) p free (back, h) front =
    rw (back, wake_first-wait_in_slot foreground w p free h front)

-- a process blocked and woken again
woken :
    (k : Kernel) (p : ℕ)
    → (k.schedule p).is_done ≡ false
    → (((process_table_unblock (process_table_block k p) p).schedule p).status ≡ ready)
      × ((process_table_unblock (process_table_block k p) p).queue
          ≡ ProcessQueue.push (ProcessQueue.remove k.queue p) p)
unfolding process_table_unblock process_table_block unblock block
woken k p h = let here : (p == p) ≡ true = (==_iff p p).1 refl in (simp (here, h), simp (here, h))

module _ (t : Tty) (p : ℕ) (own : t.terminal p ≡ some t.active_terminal)
    (free : HasFree (t.wait t.active_terminal)) where
  waits : wait_for_input t p ≡ record t {
    wait = at_terminal t.wait t.active_terminal (wait_in_slot (t.wait t.active_terminal) p).0;
    kernel = process_table_block (set_io_wait t.kernel p true) p;
  }
  unfolding wait_for_input
  waits = simp (own, wait_in_slot-HasFree (t.wait t.active_terminal) p free) refl

  wakes :
      Behind t.foreground (t.wait t.active_terminal)
      → t.foreground p ≡ true
      → ((n : ℕ) → (wake_up (wait_for_input t p)).wait n ≡ t.wait n)
        × ((wake_up (wait_for_input t p)).kernel
            ≡ process_table_unblock (process_table_block (set_io_wait t.kernel p true) p) p)
  unfolding wake_up
  wakes h front =
      let here : (t.active_terminal == t.active_terminal) ≡ true = (==_iff _ _).1 refl in
      let found = wake_first-wait_in_slot t.foreground (t.wait t.active_terminal) p free h front in
      simp (waits, here, found)
        (
          λ n. elim (Bool-cases (n == t.active_terminal)) [
            | inl e ↦ rw e (sym (ap t.wait ((==_iff n t.active_terminal).0 e)))
            | inr e ↦ rw e
          ],
          refl,
        )

-- A process in the foreground that waits for input at the terminal in front, where a slot is free
-- and every other waiting process is in the background, is woken by the next `wake_up`: it is ready
-- and at the end of the queue, if it is not done, and the slots are as they were.
pub wake_up-wait_for_input :
    (t : Tty) (p : ℕ)
    → t.terminal p ≡ some t.active_terminal
    → t.foreground p ≡ true
    → (t.kernel.schedule p).is_done ≡ false
    → HasFree (t.wait t.active_terminal)
    → Behind t.foreground (t.wait t.active_terminal)
    → ((n : ℕ) → (wake_up (wait_for_input t p)).wait n ≡ t.wait n)
      × (((wake_up (wait_for_input t p)).kernel.schedule p).status ≡ ready)
      × ((wake_up (wait_for_input t p)).kernel.queue
          ≡ ProcessQueue.push (ProcessQueue.remove t.kernel.queue p) p)
wake_up-wait_for_input t p own front live free h =
    let (slots, kernel) = wakes t p own free h front in
    let here : (p == p) ≡ true = (==_iff p p).1 refl in
    let (status, queue) = woken (set_io_wait t.kernel p true) p (rw here live) in
    (slots, rw kernel status, rw kernel queue)
