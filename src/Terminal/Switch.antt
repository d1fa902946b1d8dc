-- ===== src/Terminal/Switch.antt =====
-- Switching to another terminal: `tty_change`.
use arqvenger_os.Base.{ℕ, ◌≡◌, refl, ap, ◌∙◌, inl, inr, true, ◌==◌, ==_iff, Bool-cases}
use arqvenger_os.Screen.{Screen, flip_buffer, update_cursor, video_flip_buffer}
use arqvenger_os.Screen.Mirror.{IsMirrored, flip_buffer-IsMirrored}
use arqvenger_os.Terminal.{Tty, tty_change}

-- The active terminal, and no other, has its screen on the card.
abbrev pub OnlyActive : Tty → Type 0
OnlyActive t = (n : ℕ) → (t.screen n).active ≡ (n == t.active_terminal)

update_cursor-IsMirrored : (s : Screen) → IsMirrored s → IsMirrored (update_cursor s)
unfolding update_cursor
update_cursor-IsMirrored s m = m

update_cursor-active : (s : Screen) → (update_cursor s).active ≡ s.active
unfolding update_cursor
update_cursor-active s = refl

flip_buffer-active : (s : Screen) → (flip_buffer s).active ≡ s.active
unfolding flip_buffer video_flip_buffer
flip_buffer-active s = refl

tty_change-shown :
    (t : Tty) (number : ℕ)
    → (t.screen number).visible_line ≡ 50
    → IsMirrored ((tty_change t number).screen number)
unfolding tty_change
tty_change-shown t number line =
    let here : (number == number) ≡ true = (==_iff number number).1 refl in
    rw here (
      update_cursor-IsMirrored _ (
        flip_buffer-IsMirrored _ refl (elim (Bool-cases (number == t.active_terminal)) [
          | inl e ↦
              rw (e, ← ap (λ n. (t.screen n).visible_line) ((==_iff number t.active_terminal).0 e))
                line
          | inr e ↦ rw e line
        ])))

tty_change-OnlyActive : (t : Tty) (number : ℕ) → OnlyActive t → OnlyActive (tty_change t number)
unfolding tty_change
tty_change-OnlyActive t number h n = elim (Bool-cases (n == number)) [
  | inl e ↦ rw e (update_cursor-active _ ∙ flip_buffer-active _)
  | inr e ↦ elim (Bool-cases (n == t.active_terminal)) [
    | inl f ↦ rw (e, f)
    | inr f ↦ rw (e, f) (h n ∙ f)
  ]
]

-- Where the terminal in front, and no other, is active, and the terminal with the given number
-- shows its last rows, `tty_change` leaves that terminal as the only active one, and the video
-- memory has the cells of its rows.
pub tty_change-Shows :
    (t : Tty) (number : ℕ)
    → OnlyActive t
    → (t.screen number).visible_line ≡ 50
    → OnlyActive (tty_change t number) × IsMirrored ((tty_change t number).screen number)
tty_change-Shows t number h line =
    (tty_change-OnlyActive t number h, tty_change-shown t number line)
