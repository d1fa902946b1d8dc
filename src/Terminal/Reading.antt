-- ===== src/Terminal/Reading.antt =====
-- Reading from a terminal: `tty_read`.
use arqvenger_os.Base.{
  ℕ, suc, ◌+◌, ◌^◌, ◌≤◌, ◌<◌, ◌≡◌, ◌≢◌, refl, ap, ◌∙◌, ◌⊎◌, inl, inr, true, false, some, List, [],
  ◌∷◌, ◌++◌, ◌==◌, ltb, if◌then◌else◌, Bool-cases, length, take, drop, min, arith, ℕ_discrete,
}
use arqvenger_os.Terminal.{
  Tty, Outcome, returned, waiting, line_end, take_input, read_terminal, tty_read, wait_for_input,
  set_io_wait,
}

-- There is no new line in the characters.
abbrev pub NoNewLine : List ℕ → Type 0
NoNewLine [] = Unit
NoNewLine (c ∷ l) = (c ≢ 10) × NoNewLine l

line_end-none : (l : List ℕ) → NoNewLine l → line_end l ≡ length l
unfolding line_end
line_end-none [] h = refl
line_end-none (c ∷ l) (ne, h) =
    let miss : (c == 10) ≡ false = ground arith in rw miss (ap suc (line_end-none l h))

line_end-line : (line rest : List ℕ) → NoNewLine line → line_end (line ++ (10 ∷ rest)) ≡ length line
unfolding line_end
line_end-line [] rest h = refl
line_end-line (c ∷ line) rest (ne, h) =
    let miss : (c == 10) ≡ false = ground arith in rw miss (ap suc (line_end-line line rest h))

length-line : (line rest : List ℕ) → length (line ++ (10 ∷ rest)) ≡ suc (length line + length rest)
length-line [] rest = omega arith
length-line (c ∷ line) rest = omega (arith, length-line line rest)

split_line :
    (l : List ℕ) → NoNewLine l ⊎ ((line rest : List ℕ) × NoNewLine line × (l ≡ line ++ (10 ∷ rest)))
split_line [] = inl tt
split_line (c ∷ l) = elim (ℕ_discrete c 10) [
  | yes e ↦ inr ([], l, tt, ap (λ d. d ∷ l) e)
  | no ne ↦ elim (split_line l) [
    | inl h ↦ inl (ne, h)
    | inr (line, rest, h, e) ↦ inr (c ∷ line, rest, (ne, h), ap (λ k. c ∷ k) e)
  ]
]

-- the outcome of a read of `c` characters
abbrev pub taken : Tty → ℕ → ℕ → Outcome
taken t p c =
    returned (take c t.input_buffer)
      (record t { input_buffer = drop c t.input_buffer; kernel = set_io_wait t.kernel p false })

-- What a read of `count` characters comes to, for the process `p` of the terminal `n`.
pub data Reads (t : Tty) (p n count : ℕ) : Outcome → Type 0 where
  background : t.foreground p ≡ false → Reads t p n count (waiting (wait_for_input t p))
  whole_line :
      (line rest : List ℕ)
      → t.foreground p ≡ true
      → (t.termios n).canon ≡ true
      → NoNewLine line
      → t.input_buffer ≡ line ++ (10 ∷ rest)
      → Reads t p n count (taken t p (min count (length line + 1)))
  no_line :
      t.foreground p ≡ true
      → (t.termios n).canon ≡ true
      → NoNewLine t.input_buffer
      → Reads t p n count (waiting (wait_for_input t p))
  enough :
      t.foreground p ≡ true
      → (t.termios n).canon ≡ false
      → count ≤ length t.input_buffer
      → Reads t p n count (taken t p count)
  too_few :
      t.foreground p ≡ true
      → (t.termios n).canon ≡ false
      → length t.input_buffer < count
      → Reads t p n count (waiting (wait_for_input t p))

module _ (t : Tty) (p n count : ℕ) (own : t.terminal p ≡ some n) where
  pub tty_read-line :
      (line rest : List ℕ)
      → count < 2 ^ 31
      → t.foreground p ≡ true
      → (t.termios n).canon ≡ true
      → NoNewLine line
      → t.input_buffer ≡ line ++ (10 ∷ rest)
      → tty_read t p count ≡ taken t p (min count (length line + 1))
  unfolding tty_read read_terminal take_input
  tty_read-line line rest small front mode h e =
      let room : ltb count (2 ^ 31) ≡ true = ground arith in
      let at : line_end t.input_buffer ≡ length line = ap line_end e ∙ line_end-line line rest h in
      let size : length t.input_buffer ≡ suc (length line + length rest) =
        ap length e ∙ length-line line rest in
      let found : (line_end t.input_buffer == length t.input_buffer) ≡ false = ground arith in
      let wanted : (if ltb (line_end t.input_buffer + 1) count
            then line_end t.input_buffer + 1
            else count)
          ≡ min count (length line + 1) =
        ground arith in
      simp (own, front, mode, found, room, wanted) refl

  no_line_lem :
      t.foreground p ≡ true
      → (t.termios n).canon ≡ true
      → NoNewLine t.input_buffer
      → tty_read t p count ≡ waiting (wait_for_input t p)
  unfolding tty_read read_terminal
  no_line_lem front mode h =
      let at = line_end-none t.input_buffer h in
      let missed : (line_end t.input_buffer == length t.input_buffer) ≡ true = ground arith in
      simp (own, front, mode, missed) refl

  canonical :
      count < 2 ^ 31
      → t.foreground p ≡ true
      → (t.termios n).canon ≡ true
      → Reads t p n count (tty_read t p count)
  canonical small front mode = elim (split_line t.input_buffer) [
    | inl h ↦ rw (no_line_lem front mode h) (no_line front mode h)
    | inr (l, rest, h, e) ↦
        rw (tty_read-line l rest small front mode h e) (whole_line l rest front mode h e)
  ]

  raw :
      count < 2 ^ 31
      → t.foreground p ≡ true
      → (t.termios n).canon ≡ false
      → Reads t p n count (tty_read t p count)
  unfolding tty_read read_terminal take_input
  raw small front mode =
      let room : ltb count (2 ^ 31) ≡ true = ground arith in
      elim (Bool-cases (ltb (length t.input_buffer) count)) [
        | inl e ↦ simp (own, front, mode, room, e) (too_few front mode (ground arith))
        | inr e ↦ simp (own, front, mode, room, e) (enough front mode (ground arith))
      ]

  background_lem : t.foreground p ≡ false → tty_read t p count ≡ waiting (wait_for_input t p)
  unfolding tty_read read_terminal
  background_lem back = simp (own, back) refl

  pub tty_read-waiting :
      (t.termios n).canon ≡ true
      → NoNewLine t.input_buffer
      → tty_read t p count ≡ waiting (wait_for_input t p)
  tty_read-waiting mode h = elim (Bool-cases (t.foreground p)) [
    | inl front ↦ no_line_lem front mode h
    | inr back ↦ background_lem back
  ]

  behind : t.foreground p ≡ false → Reads t p n count (tty_read t p count)
  behind back = rw (background_lem back) (background back)

-- `tty_read` of fewer than 2 ^ 31 characters by a process of a terminal: in the background it
-- waits; in canonical mode it takes what it asks for of the first line, new line included, and
-- waits if there is none; otherwise it takes as many characters as it asks for, and waits if there
-- are fewer.
pub tty_read-Reads :
    (t : Tty) (p n count : ℕ)
    → t.terminal p ≡ some n
    → count < 2 ^ 31
    → Reads t p n count (tty_read t p count)
tty_read-Reads t p n count own small = elim (Bool-cases (t.foreground p)) [
  | inl front ↦ elim (Bool-cases (t.termios n).canon) [
    | inl mode ↦ canonical t p n count own small front mode
    | inr mode ↦ raw t p n count own small front mode
  ]
  | inr back ↦ behind t p n count own back
]
