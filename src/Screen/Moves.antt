-- ===== src/Screen/Moves.antt =====
-- The positions that the control sequences move the cursor to.
use arqvenger_os.Base.{
  ℕ, ◌+◌, ◌-◌, ◌*◌, ◌/◌, ◌%◌, ◌^◌, ◌<◌, ◌≡◌, refl, arith, ltb, leb, if_cases, if◌then◌else◌, OfSome,
  OfSome-bind, OfSome-all,
}
use arqvenger_os.Screen.Control.{
  int, cursor_up, cursor_down, cursor_right, cursor_left, next_line, previous_line, jump_column,
  jump_cursor, jump_row,
}

abbrev pub Inside : ℕ → Type 0
Inside p = p < 2000

pub int-exact : (n : ℕ) → OfSome (λ d. d ≡ n) (int n)
int-exact n = if_cases (OfSome (λ d. d ≡ n)) (ltb n (2 ^ 31)) (λ e. refl) (λ e. tt)

pub cursor_up-Inside : (p m : ℕ) → p < 2000 → OfSome Inside (cursor_up p m)
unfolding cursor_up
cursor_up-Inside p m h =
    OfSome-bind (λ d. Unit) Inside (int (80 * m)) _ (OfSome-all _) (λ d u. ground (arith, h))

pub cursor_down-Inside : (p m : ℕ) → p < 2000 → OfSome Inside (cursor_down p m)
unfolding cursor_down
cursor_down-Inside p m h =
    OfSome-bind (λ d. Unit) Inside (int (p + m * 80)) _ (OfSome-all _) (λ d u. ground (arith, h))

-- It starts above the last line.
pub cursor_right-Inside : (p m : ℕ) → p < 1920 → OfSome Inside (cursor_right p m)
unfolding cursor_right
cursor_right-Inside p m h =
    OfSome-bind (λ d. d ≡ p % 80 + m) Inside (int (p % 80 + m)) _ (int-exact (p % 80 + m))
      (λ d u.
        let q = if leb 80 d then p + (80 - p % 80) else p + m in
        let inside : Inside q = ground (arith, h, u) in
        if_cases (OfSome Inside) (ltb q (2 ^ 31)) (λ e. inside) (λ e. tt))

pub cursor_left-Inside : (p m : ℕ) → p < 2000 → Inside (cursor_left p m)
unfolding cursor_left
cursor_left-Inside p m h = ground (arith, h)

pub next_line-Inside : (p m : ℕ) → p < 2000 → OfSome Inside (next_line p m)
unfolding next_line
next_line-Inside p m h =
    if_cases (OfSome Inside) (leb (80 * (25 - 1)) p) (λ e. omega (arith, h))
      (λ e.
        OfSome-bind (λ d. d ≡ p / 80 + m) Inside (int (p / 80 + m)) _ (int-exact (p / 80 + m))
          (λ d u. ground (arith, h, u, e)))

pub previous_line-Inside : (p m : ℕ) → p < 2000 → OfSome Inside (previous_line p m)
unfolding previous_line
previous_line-Inside p m h =
    OfSome-bind (λ d. Unit) Inside (int (80 * m + p % 80)) _ (OfSome-all _)
      (λ d u. omega (arith, h))

pub jump_column-Inside : (p m : ℕ) → p < 2000 → Inside (jump_column p m)
unfolding jump_column
jump_column-Inside p m h = omega (arith, h)

pub jump_cursor-Inside : (m1 m2 : ℕ) → Inside (jump_cursor m1 m2)
unfolding jump_cursor
jump_cursor-Inside m1 m2 = omega arith

pub jump_row-Inside : (p m : ℕ) → Inside (jump_row p m)
unfolding jump_row
jump_row-Inside p m = omega arith
