-- ===== src/Terminal/Line.antt =====
-- A line typed at a terminal, and the reader that gets it.
use arqvenger_os.Base.{
  ℕ, zero, suc, ◌+◌, ◌-◌, ◌^◌, ◌≤◌, ◌<◌, ◌≡◌, refl, ap, ap₂, ◌∙◌, inl, inr, true, false, ◌||◌,
  length-map, some, List, [], ◌∷◌, ◌++◌, map, ◌==◌, Bool-cases, OfSome, length, length-append, take,
  drop, min, arith,
}
use arqvenger_os.Terminal.{Tty, Modifiers, returned, tty_read, set_io_wait}
use arqvenger_os.Terminal.Typing.{
  type_keys, character, HaveCharacters, remaining, edited, type_keys-SameInput, from_here,
  OfSome-weaken,
}
use arqvenger_os.Terminal.Reading.{NoNewLine, tty_read-line}

-- The scan code of the key that ends a line.
abbrev pub enter_code : ℕ
enter_code = 0x1C

NoNewLine-remaining : (l : List ℕ) → NoNewLine l → NoNewLine (remaining l).1
NoNewLine-remaining [] h = tt
NoNewLine-remaining (c ∷ l) (ne, h) = elim (Bool-cases (c == 8)) [
  | inl e ↦ rw e (NoNewLine-remaining l h)
  | inr e ↦ elim (Bool-cases ((remaining l).0 == 0)) [
    | inl f ↦ rw (e, f) (ne, NoNewLine-remaining l h)
    | inr f ↦ rw (e, f) (NoNewLine-remaining l h)
  ]
]

length-remaining : (l : List ℕ) → length (remaining l).1 ≤ length l
length-remaining [] = omega arith
length-remaining (c ∷ l) = elim (Bool-cases (c == 8)) [
  | inl e ↦ rw e (omega (arith, length-remaining l))
  | inr e ↦ elim (Bool-cases ((remaining l).0 == 0)) [
    | inl f ↦ rw (e, f) (omega (arith, length-remaining l))
    | inr f ↦ rw (e, f) (omega (arith, length-remaining l))
  ]
]

remaining-line :
    (l : List ℕ) → remaining (l ++ (10 ∷ [])) ≡ ((remaining l).0, (remaining l).1 ++ (10 ∷ []))
remaining-line [] = refl
remaining-line (c ∷ l) = elim (Bool-cases (c == 8)) [
  | inl e ↦ rw (remaining-line l, e)
  | inr e ↦ elim (Bool-cases ((remaining l).0 == 0)) [
    | inl f ↦ rw (remaining-line l, e, f)
    | inr f ↦ rw (remaining-line l, e, f)
  ]
]

take-nil : (n : ℕ) → take {A = ℕ} n [] ≡ []
take-nil zero = refl
take-nil (suc n) = refl

edited-line : (l : List ℕ) → edited [] (l ++ (10 ∷ [])) ≡ (remaining l).1 ++ (10 ∷ [])
edited-line l =
    ap (λ (r : ℕ × List ℕ). take (length {A = ℕ} [] - r.0) [] ++ r.1) (remaining-line l)
    ∙ ap (λ b. b ++ ((remaining l).1 ++ (10 ∷ []))) (take-nil (0 - (remaining l).0))

module _ {ℓ κ} {A : Type ℓ} {B : Type κ} where
  map-append : (f : A → B) (xs ys : List A) → map f (xs ++ ys) ≡ map f xs ++ map f ys
  map-append f [] ys = refl
  map-append f (x ∷ xs) ys = ap (λ r. f x ∷ r) (map-append f xs ys)

enter-character : (m : Modifiers) → character m enter_code ≡ 10
enter-character m = elim (Bool-cases (m.shift || m.caps)) [
  | inl e ↦ rw e
  | inr e ↦ elim (Bool-cases m.alt) [ inl f ↦ rw (e, f) | inr f ↦ rw (e, f) ]
]

HaveCharacters-enter :
    (m : Modifiers) (keys : List ℕ)
    → HaveCharacters m keys
    → HaveCharacters m (keys ++ (enter_code ∷ []))
HaveCharacters-enter m [] h = (omega arith, λ e. absurd (omega (arith, enter-character m, e)), tt)
HaveCharacters-enter m (key ∷ keys) (small, ne, h) = (small, ne, HaveCharacters-enter m keys h)

take-whole {ℓ} : {A : Type ℓ} (n : ℕ) (xs : List A) → n ≡ length xs → take n xs ≡ xs
take-whole zero [] e = refl
take-whole zero (x ∷ xs) e = absurd (omega arith)
take-whole (suc n) [] e = absurd (omega arith)
take-whole (suc n) (x ∷ xs) e = ap (λ r. x ∷ r) (take-whole n xs (omega arith))

drop-whole {ℓ} : {A : Type ℓ} (n : ℕ) (xs : List A) → n ≡ length xs → drop n xs ≡ []
drop-whole zero [] e = refl
drop-whole zero (x ∷ xs) e = absurd (omega arith)
drop-whole (suc n) [] e = refl
drop-whole (suc n) (x ∷ xs) e = drop-whole n xs (omega arith)

-- A read of a buffer that holds one line.
read_line :
    (t : Tty) (p n count : ℕ) (l : List ℕ)
    → t.terminal p ≡ some n
    → t.foreground p ≡ true
    → (t.termios n).canon ≡ true
    → NoNewLine l
    → t.input_buffer ≡ l ++ (10 ∷ [])
    → length l < count
    → count < 2 ^ 31
    → tty_read t p count
      ≡ returned
          (l ++ (10 ∷ []))
          (record t { input_buffer = []; kernel = set_io_wait t.kernel p false })
read_line t p n count l own front mode h e long small =
    let size : min count (length l + 1) ≡ length t.input_buffer =
      omega (arith, ap length e, length-append l (10 ∷ [])) in
    tty_read-line t p n count own l [] small front mode h e
    ∙ ap₂ (λ b d. returned b (record t { input_buffer = d; kernel = set_io_wait t.kernel p false }))
        (take-whole _ t.input_buffer size ∙ e) (drop-whole _ t.input_buffer size)

-- A line is typed at the terminal in front, in canonical mode, with an empty buffer and outside a
-- sequence of scan codes, by fewer than 4000 keys that have characters, none of them a new line,
-- and the enter key. A reader of that terminal in the foreground that asks for more characters than
-- keys, and fewer than 2 ^ 31, then gets the characters that remain when each backspace erases the
-- last one before it, and the new line, and the buffer is empty.
pub tty_read-type_keys :
    (t : Tty) (p count : ℕ) (keys : List ℕ)
    → t.escaped ≡ false
    → t.input_buffer ≡ []
    → t.terminal p ≡ some t.active_terminal
    → t.foreground p ≡ true
    → (t.termios t.active_terminal).canon ≡ true
    → HaveCharacters t.modifiers keys
    → NoNewLine (map (character t.modifiers) keys)
    → length keys < 4000
    → length keys < count
    → count < 2 ^ 31
    → OfSome
        (λ t'.
          tty_read t' p count
          ≡ returned
              ((remaining (map (character t.modifiers) keys)).1 ++ (10 ∷ []))
              (record t' { input_buffer = []; kernel = set_io_wait t'.kernel p false }))
        (type_keys t (keys ++ (enter_code ∷ [])))
tty_read-type_keys t p count keys plain empty own front mode h one_line fits long small =
    OfSome-weaken _ _ (type_keys t (keys ++ (enter_code ∷ [])))
      (type_keys-SameInput t t (keys ++ (enter_code ∷ [])) (from_here t plain) mode
        (HaveCharacters-enter t.modifiers keys h)
        (omega (arith, ap length empty, length-append keys (enter_code ∷ []))))
      (λ t' s.
        read_line t' p t.active_terminal count (remaining l).1 (rw s.terminal own)
          (rw s.foreground front) (rw s.termios mode) (NoNewLine-remaining l one_line)
          (s.input_buffer ∙ content) short small)
  where
    l : List ℕ
    l = map (character t.modifiers) keys

    content :
        edited t.input_buffer (map (character t.modifiers) (keys ++ (enter_code ∷ [])))
        ≡ (remaining l).1 ++ (10 ∷ [])
    content =
        ap₂ edited empty (
          map-append (character t.modifiers) keys (enter_code ∷ [])
          ∙ ap (λ c. l ++ (c ∷ [])) (enter-character t.modifiers))
        ∙ edited-line l

    short : length (remaining l).1 < count
    short = omega (arith, length-remaining l, length-map keys (character t.modifiers))
