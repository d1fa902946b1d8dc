-- ===== src/Fifo/Stream.antt =====
-- What goes into a FIFO comes out of it, in order.
use arqvenger_os.Base.{
  ℕ, zero, suc, ◌+◌, ◌-◌, ◌^◌, ◌≤◌, ◌<◌, ◌≡◌, refl, sym, ap, ◌∙◌, inl, inr, true, false, List, [],
  ◌∷◌, ◌++◌, arith, Bool-cases, ◌==◌, ltb, if◌then◌else◌, length, take, drop,
}
use mathlib.Core.List.{append-nil, append_assoc}
use arqvenger_os.Base.Words.{sub32}
use arqvenger_os.Fifo.{
  Fifo, State, Outcome, returned, waiting, stop_waiting, wait_to_read, wait_to_write, wake_readers,
  wake_writers, append, fifo_write, consume, fifo_read,
}

-- The buffer holds no more than its size, which is a `size_t`.
abbrev pub IsBounded : State → Type 0
IsBounded s = (length s.fifo.bytes ≤ s.fifo.size) × (s.fifo.size < 2 ^ 32)

-- one round of a read or a write by a process
pub data Op : Type 0 where
  write : ℕ → List ℕ → Op
  read : ℕ → ℕ → Op

-- What a round took in, what it gave out, and the state that it left.
pub record Moved : Type 0 where
  pub taken : List ℕ
  pub given : List ℕ
  pub state : State

-- A write that returns 0 has taken nothing.
abbrev pub of_write : List ℕ → Outcome ℕ → Moved
of_write text (returned n s) = record { taken = if n == 0 then [] else text; given = []; state = s }
of_write text (waiting s) = record { taken = []; given = []; state = s }

abbrev pub of_read : Outcome (List ℕ) → Moved
of_read (returned out s) = record { taken = []; given = out; state = s }
of_read (waiting s) = record { taken = []; given = []; state = s }

unfoldable pub step : State → Op → Moved
step s (write p text) = of_write text (fifo_write s p text)
step s (read p len) = of_read (fifo_read s p len)

unfoldable pub run : State → List Op → Moved
run s [] = record { taken = []; given = []; state = s }
run s (o ∷ os) =
    let now = step s o in
    let later = run now.state os in
    record {
      taken = now.taken ++ later.taken;
      given = now.given ++ later.given;
      state = later.state;
    }

-- nothing is lost, doubled or reordered, and the bound is kept
record Sound (f : Fifo) (m : Moved) : Type 0 where
  flow : f.bytes ++ m.taken ≡ m.given ++ m.state.fifo.bytes
  bound : IsBounded m.state

Sound-same :
    (s t : State)
    → s.fifo.bytes ≡ t.fifo.bytes
    → s.fifo.size ≡ t.fifo.size
    → IsBounded s
    → Sound s.fifo (record { taken = []; given = []; state = t })
Sound-same s t e f b = record {
  flow = append-nil s.fifo.bytes ∙ e;
  bound = (rw (← e, ← f) b.0, rw (← f) b.1);
}

take-drop : (n : ℕ) (xs : List ℕ) → take n xs ++ drop n xs ≡ xs
take-drop zero xs = refl
take-drop (suc n) [] = refl
take-drop (suc n) (x ∷ xs) = ap (λ r. x ∷ r) (take-drop n xs)

length-drop_le : (n : ℕ) (xs : List ℕ) → length (drop n xs) ≤ length xs
length-drop_le zero xs = omega arith
length-drop_le (suc n) [] = omega arith
length-drop_le (suc n) (x ∷ xs) = omega (arith, length-drop_le n xs)

length-append : (xs ys : List ℕ) → length (xs ++ ys) ≡ length xs + length ys
length-append [] ys = omega arith
length-append (x ∷ xs) ys = omega (arith, length-append xs ys)

room :
    (size used n : ℕ)
    → used ≤ size
    → size < 2 ^ 32
    → ltb (sub32 size used) n ≡ false
    → used + n ≤ size
room size used n h k e =
    let left : sub32 size used ≡ size - used = omega arith in ground (arith, left)

nothing : (xs : List ℕ) → (if length xs == 0 then [] else xs) ≡ xs
nothing [] = refl
nothing (x ∷ xs) = ground arith

append-Sound :
    (s : State) (text : List ℕ)
    → IsBounded s
    → length s.fifo.bytes + length text ≤ s.fifo.size
    → Sound s.fifo (of_write text (append s text))
unfolding append wake_readers
append-Sound s text b h = elim (Bool-cases (s.fifo.readers == 0)) [
  | inl nobody ↦ rw nobody (Sound-same s s refl refl b)
  | inr some_reader ↦ rw some_reader (record {
    flow = ap (λ r. s.fifo.bytes ++ r) (nothing text);
    bound = (omega (arith, length-append s.fifo.bytes text), b.1);
  })
]

write-Sound :
    (s : State) (p : ℕ) (text : List ℕ)
    → IsBounded s
    → Sound s.fifo (of_write text (fifo_write s p text))
unfolding fifo_write wait_to_write
write-Sound s p text b =
    elim (Bool-cases (ltb (sub32 s.fifo.size (length s.fifo.bytes)) (length text))) [
      | inl full ↦ elim (Bool-cases (s.fifo.readers == 0)) [
        | inl nobody ↦ rw (full, nobody) (Sound-same s (stop_waiting s p) refl refl b)
        | inr some_reader ↦ rw (full, some_reader) (Sound-same s (wait_to_write s p) refl refl b)
      ]
      | inr fits ↦ rw fits (
          append-Sound (stop_waiting s p) text b
            (room s.fifo.size (length s.fifo.bytes) (length text) b.0 b.1 fits))
    ]

consume-Sound : (s : State) (len : ℕ) → IsBounded s → Sound s.fifo (of_read (consume s len))
unfolding consume wake_writers
consume-Sound s len b = elim (Bool-cases (s.fifo.writers == 0)) [
  | inl nobody ↦ rw nobody (Sound-same s s refl refl b)
  | inr some_writer ↦
      let n = if ltb (length s.fifo.bytes) len then length s.fifo.bytes else len in
      rw some_writer (record {
        flow = append-nil s.fifo.bytes ∙ sym (take-drop n s.fifo.bytes);
        bound = (omega (arith, length-drop_le n s.fifo.bytes, b.0), b.1);
      })
]

read-Sound : (s : State) (p len : ℕ) → IsBounded s → Sound s.fifo (of_read (fifo_read s p len))
unfolding fifo_read wait_to_read
read-Sound s p len b = elim (Bool-cases (length s.fifo.bytes == 0)) [
  | inl empty ↦ elim (Bool-cases (s.fifo.writers == 0)) [
    | inl nobody ↦ rw (empty, nobody) (Sound-same s (stop_waiting s p) refl refl b)
    | inr some_writer ↦ rw (empty, some_writer) (Sound-same s (wait_to_read s p) refl refl b)
  ]
  | inr some_bytes ↦ rw some_bytes (consume-Sound (stop_waiting s p) len b)
]

step-Sound : (s : State) (o : Op) → IsBounded s → Sound s.fifo (step s o)
unfolding step
step-Sound s (write p text) b = write-Sound s p text b
step-Sound s (read p len) b = read-Sound s p len b

-- Over any sequence of rounds of reads and writes by any processes, what the FIFO held and then
-- took in is what it gave out and then holds, in order; and the buffer, bounded at first, never
-- holds more than its size.
pub run-flow :
    (os : List Op) (s : State)
    → IsBounded s
    → (s.fifo.bytes ++ (run s os).taken ≡ (run s os).given ++ (run s os).state.fifo.bytes)
      × IsBounded (run s os).state
unfolding run
run-flow [] s b = (append-nil s.fifo.bytes, b)
run-flow (o ∷ os) s b =
    let now = step s o in
    let first = step-Sound s o b in
    let (flow, bound) = run-flow os now.state first.bound in
    (
      sym (append_assoc s.fifo.bytes now.taken (run now.state os).taken)
          ∙ ap (λ r. r ++ (run now.state os).taken) first.flow
          ∙ append_assoc now.given now.state.fifo.bytes (run now.state os).taken
          ∙ ap (λ r. now.given ++ r) flow
          ∙ sym
              (append_assoc now.given (run now.state os).given (run now.state os).state.fifo.bytes),
      bound,
    )

-- A write of more bytes than the buffer's size waits, whatever a bounded buffer holds, while there
-- is a reader.
pub fifo_write-too_long :
    (s : State) (p : ℕ) (text : List ℕ)
    → IsBounded s
    → 0 < s.fifo.readers
    → s.fifo.size < length text
    → fifo_write s p text ≡ waiting (wait_to_write s p)
unfolding fifo_write
fifo_write-too_long s p text b h k =
    let left : sub32 s.fifo.size (length s.fifo.bytes) ≤ s.fifo.size = omega arith in
    let full : ltb (sub32 s.fifo.size (length s.fifo.bytes)) (length text) ≡ true =
      ground (arith, left) in
    let some_reader : (s.fifo.readers == 0) ≡ false = ground arith in rw (full, some_reader)
