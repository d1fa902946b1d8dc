-- ===== src/Terminal/Bounds.antt =====
-- The bound of the input buffer.
use arqvenger_os.Base.{
  ℕ, ◌-◌, ◌≤◌, ◌≡◌, Bool, true, ◌&&◌, Option, none, some, List, [], ◌∷◌, ◌++◌, ◌==◌, ltb,
  if◌then◌else◌, if_cases, OfSome, length, take, length-take, length-append, arith,
}
use arqvenger_os.Terminal.{Tty, add_characters, add_input}
use arqvenger_os.Terminal.Codes.{process_scancode}
use arqvenger_os.Terminal.Keys.{process_scancode-P}
use arqvenger_os.Terminal.Frame.{SameInput, add_input-SameInput}

abbrev pub Fits : Tty → Type 0
Fits t = length t.input_buffer ≤ 4000

length-add_characters :
    (canon : Bool) (buffer str : List ℕ)
    → length buffer ≤ 4000
    → length (add_characters canon buffer str).0 ≤ 4000
unfolding add_characters
length-add_characters canon buffer [] h = h
length-add_characters canon buffer (c ∷ str) h =
    if_cases (λ (r : List ℕ × ℕ). length r.0 ≤ 4000) (ltb (length buffer) 4000)
      (λ e. length-add_characters canon next str (shorter e)) (λ e. h)
  where
    next : List ℕ
    next = if canon && c == 8 then take (length buffer - 1) buffer else buffer ++ (c ∷ [])

    shorter : ltb (length buffer) 4000 ≡ true → length next ≤ 4000
    shorter e =
        if_cases (λ (l : List ℕ). length l ≤ 4000) (canon && c == 8)
          (λ f. omega (arith, length-take (length buffer - 1) buffer))
          (λ f. ground (arith, length-append buffer (c ∷ [])))

add_input-Fits : (t : Tty) (str : List ℕ) → Fits t → OfSome Fits (add_input t str)
add_input-Fits t str h = go (add_input t str) (add_input-SameInput t str)
  where
    canon : Bool
    canon = (t.termios t.active_terminal).canon

    go :
        (o : Option Tty)
        → OfSome
            (SameInput (record t { input_buffer = (add_characters canon t.input_buffer str).0 }))
            o
        → OfSome Fits o
    go none s = tt
    go (some t') s = rw s.input_buffer (length-add_characters canon t.input_buffer str h)

-- No scan code brings the input buffer, with at most 4000 characters in it, above 4000.
pub process_scancode-Fits :
    (t : Tty) (code : ℕ) → length t.input_buffer ≤ 4000 → OfSome Fits (process_scancode t code)
process_scancode-Fits t code h =
    process_scancode-P Fits (λ t t' s k. rw s.input_buffer k) add_input-Fits t code h
