-- ===== src/Terminal/Typing.antt =====
-- Typing a line at a terminal in canonical mode.
use arqvenger_os.Base.{
  ℕ, zero, suc, ◌+◌, ◌-◌, ◌≤◌, ◌<◌, ◌≡◌, ◌≢◌, refl, sym, subst, ap, ◌∙◌, inl, inr, Bool, true,
  false, Option, none, some, ◌>>=◌, List, [], ◌∷◌, ◌++◌, map, ◌==◌, leb, ltb, if◌then◌else◌,
  Bool-cases, OfSome, get_or, length, take, length-take, length-append, snoc-append, arith,
  OfSome-bind,
}
use arqvenger_os.Terminal.{Tty, Modifiers, add_characters}
use arqvenger_os.Terminal.Codes.{not_escaped, code_table, process_scancode}
use arqvenger_os.Terminal.Frame.{SameInput, SameInput-refl, at_buffer, add_input-SameInput}

-- The scan codes of keys, one after the other.
abbrev pub type_keys : Tty → List ℕ → Option Tty
type_keys t [] = some t
type_keys t (key ∷ keys) = process_scancode t key >>= (λ t1. type_keys t1 keys)

abbrev pub character : Modifiers → ℕ → ℕ
character m key = get_or (code_table m) key 0

-- Every key has a character.
abbrev pub HaveCharacters : Modifiers → List ℕ → Type 0
HaveCharacters m [] = Unit
HaveCharacters m (key ∷ keys) = (key ≤ 57) × (character m key ≢ 0) × HaveCharacters m keys

-- What remains of typed characters when each backspace erases the last one before it, and how many
-- backspaces erase what was there before.
abbrev pub remaining : List ℕ → ℕ × List ℕ
remaining [] = (0, [])
remaining (c ∷ l) =
    let (k, r) = remaining l in
    if c == 8 then (suc k, r) else if k == 0 then (0, c ∷ r) else (k - 1, r)

abbrev pub edited : List ℕ → List ℕ → List ℕ
edited buffer l = take (length buffer - (remaining l).0) buffer ++ (remaining l).1

-- the buffer after one character
abbrev edit : List ℕ → ℕ → List ℕ
edit buffer c = if c == 8 then take (length buffer - 1) buffer else buffer ++ (c ∷ [])

module _ {ℓ} {A : Type ℓ} where
  take-all : (xs : List A) → take (length xs) xs ≡ xs
  take-all [] = refl
  take-all (x ∷ xs) = ap (λ r. x ∷ r) (take-all xs)

  take-back_none : (xs : List A) → take (length xs - 0) xs ≡ xs
  take-back_none xs = ap (λ n. take n xs) (omega arith) ∙ take-all xs

  take-append : (n : ℕ) (xs ys : List A) → n ≤ length xs → take n (xs ++ ys) ≡ take n xs
  take-append zero xs ys h = refl
  take-append (suc n) [] ys h = elim h [ ]
  take-append (suc n) (x ∷ xs) ys h = ap (λ r. x ∷ r) (take-append n xs ys (omega arith))

  take-take : (n m : ℕ) (xs : List A) → n ≤ m → take n (take m xs) ≡ take n xs
  take-take zero m xs h = refl
  take-take (suc n) zero xs h = elim h [ ]
  take-take (suc n) (suc m) [] h = refl
  take-take (suc n) (suc m) (x ∷ xs) h = ap (λ r. x ∷ r) (take-take n m xs (omega arith))

  append-nil : (xs : List A) → xs ++ [] ≡ xs
  append-nil [] = refl
  append-nil (x ∷ xs) = ap (λ r. x ∷ r) (append-nil xs)

edited-nil : (buffer : List ℕ) → edited buffer [] ≡ buffer
edited-nil buffer = append-nil (take (length buffer - 0) buffer) ∙ take-back_none buffer

-- An edit by a backspace, and by another character, before `k` further backspaces.
take-back :
    (k : ℕ) (buffer : List ℕ)
    → take (length (take (length buffer - 1) buffer) - k) (take (length buffer - 1) buffer)
      ≡ take (length buffer - suc k) buffer
take-back k buffer =
    let n = length-take (length buffer - 1) buffer in
    let same : length (take (length buffer - 1) buffer) - k ≡ length buffer - suc k = omega arith in
    ap (λ m. take m (take (length buffer - 1) buffer)) same
    ∙ take-take (length buffer - suc k) (length buffer - 1) buffer (omega arith)

take-snoc :
    (k : ℕ) (buffer : List ℕ) (c : ℕ)
    → 0 < k
    → take (length (buffer ++ (c ∷ [])) - k) (buffer ++ (c ∷ []))
      ≡ take (length buffer - (k - 1)) buffer
take-snoc k buffer c h =
    let n = length-append buffer (c ∷ []) in
    let same : length (buffer ++ (c ∷ [])) - k ≡ length buffer - (k - 1) = omega arith in
    ap (λ m. take m (buffer ++ (c ∷ []))) same
    ∙ take-append (length buffer - (k - 1)) buffer (c ∷ []) (omega arith)

edited-edit : (buffer l : List ℕ) (c : ℕ) → edited (edit buffer c) l ≡ edited buffer (c ∷ l)
edited-edit buffer l c = elim (Bool-cases (c == 8)) [
  | inl e ↦ rw e (ap (λ b. b ++ (remaining l).1) (take-back (remaining l).0 buffer))
  | inr e ↦ elim (Bool-cases ((remaining l).0 == 0)) [
    | inl f ↦
        let z : (remaining l).0 ≡ 0 = ground arith in
        rw (e, f, z)
          (ap (λ b. b ++ (remaining l).1) (take-back_none (buffer ++ (c ∷ [])))
            ∙ snoc-append buffer c (remaining l).1
            ∙ ap (λ b. b ++ (c ∷ (remaining l).1)) (sym (take-back_none buffer)))
    | inr f ↦
        rw (e, f)
          (ap (λ b. b ++ (remaining l).1) (take-snoc (remaining l).0 buffer c (ground arith)))
  ]
]

length-edit : (buffer : List ℕ) (c : ℕ) → length (edit buffer c) ≤ suc (length buffer)
length-edit buffer c = elim (Bool-cases (c == 8)) [
  | inl e ↦ rw e (omega (arith, length-take (length buffer - 1) buffer))
  | inr e ↦ rw e (omega (arith, length-append buffer (c ∷ [])))
]

-- The terminals as they were but for these characters typed, outside a sequence of scan codes.
pub record Editing (t0 : Tty) (buffer : List ℕ) (t : Tty) : Type 0 where
  pub plain : t.escaped ≡ false
  pub same : SameInput (record t0 { input_buffer = buffer }) t

in_place :
    (t0 : Tty) (buffer : List ℕ) (t : Tty) → Editing t0 buffer t → Editing t0 t.input_buffer t
in_place t0 buffer t s = record {
  plain = s.plain;
  same = at_buffer t0 t buffer t.input_buffer s.same refl;
}

one_character :
    (canon : Bool) (buffer : List ℕ) (c : ℕ)
    → canon ≡ true
    → length buffer < 4000
    → (add_characters canon buffer (c ∷ [])).0 ≡ edit buffer c
unfolding add_characters
one_character canon buffer c mode h =
    let room : ltb (length buffer) 4000 ≡ true = ground arith in rw (mode, room)

typed :
    (t0 t : Tty) (c : ℕ) (o : Option Tty)
    → Editing t0 t.input_buffer t
    → (t0.termios t0.active_terminal).canon ≡ true
    → length t.input_buffer < 4000
    → OfSome
        (SameInput (record t {
          input_buffer =
              (add_characters (t.termios t.active_terminal).canon t.input_buffer (c ∷ [])).0;
        }))
        o
    → OfSome (Editing t0 (edit t.input_buffer c)) (not_escaped o)
typed t0 t c none h mode room s = tt
typed t0 t c (some t') h mode room s =
    let canon : (t.termios t.active_terminal).canon ≡ true =
      rw (h.same.termios, h.same.active_terminal) mode in
    record {
      plain = refl;
      same = record {
        input_buffer = s.input_buffer ∙ one_character _ t.input_buffer c canon room;
        termios = s.termios ∙ h.same.termios;
        active_terminal = s.active_terminal ∙ h.same.active_terminal;
        modifiers = s.modifiers ∙ h.same.modifiers;
        terminal = s.terminal ∙ h.same.terminal;
        foreground = s.foreground ∙ h.same.foreground;
      };
    }

type_key :
    (t0 t : Tty) (key : ℕ)
    → Editing t0 t.input_buffer t
    → (t0.termios t0.active_terminal).canon ≡ true
    → length t.input_buffer < 4000
    → key ≤ 57
    → character t.modifiers key ≢ 0
    → OfSome (Editing t0 (edit t.input_buffer (character t.modifiers key))) (process_scancode t key)
unfolding process_scancode
type_key t0 t key h mode room small ne =
    let plain_code : (key == 0xE0) ≡ false = ground arith in
    let made : leb 0x80 key ≡ false = ground arith in
    let in_table : ltb 0x39 key ≡ false = ground arith in
    let has : (character t.modifiers key == 0) ≡ false = ground arith in
    let space : ltb (length t.input_buffer) 4000 ≡ true = ground arith in
    simp (plain_code, made, h.plain, in_table, has, space)
      (typed t0 t (character t.modifiers key) _ h mode room
        (add_input-SameInput t (character t.modifiers key ∷ [])))

pub type_keys-SameInput :
    (t0 t : Tty) (keys : List ℕ)
    → Editing t0 t.input_buffer t
    → (t0.termios t0.active_terminal).canon ≡ true
    → HaveCharacters t0.modifiers keys
    → length t.input_buffer + length keys ≤ 4000
    → OfSome
        (SameInput
          (record t0 { input_buffer = edited t.input_buffer (map (character t0.modifiers) keys) }))
        (type_keys t keys)
type_keys-SameInput t0 t [] s mode h fits =
    at_buffer t0 t t.input_buffer _ s.same (sym (edited-nil t.input_buffer))
type_keys-SameInput t0 t (key ∷ keys) s mode (small, ne, h) fits =
    OfSome-bind (Editing t0 next) (After (edited t.input_buffer (c0 ∷ later)))
      (process_scancode t key) _
      (type_key t0 t key s mode (omega arith) small
        (subst (λ n. character n key ≢ 0) (sym s.same.modifiers) ne))
      (λ t1 s1.
        subst (λ b. OfSome (After b) (type_keys t1 keys)) (whole t1 s1.same.input_buffer)
          (type_keys-SameInput t0 t1 keys (in_place t0 next t1 s1) mode h (
            let n = length-edit t.input_buffer c in omega (arith, ap length s1.same.input_buffer))))
  where
    c : ℕ
    c = character t.modifiers key

    c0 : ℕ
    c0 = character t0.modifiers key

    later : List ℕ
    later = map (character t0.modifiers) keys

    next : List ℕ
    next = edit t.input_buffer c

    After : List ℕ → Tty → Type 0
    After b = SameInput (record t0 { input_buffer = b })

    whole :
        (t1 : Tty)
        → t1.input_buffer ≡ next
        → edited t1.input_buffer later ≡ edited t.input_buffer (c0 ∷ later)
    whole t1 e =
        ap (λ b. edited b later) e
        ∙ edited-edit t.input_buffer later c
        ∙ ap (λ m. edited t.input_buffer (character m key ∷ later)) s.same.modifiers

pub OfSome-weaken :
    {A : Type 0} (P Q : A → Type 0) (o : Option A) → OfSome P o → ((a : A) → P a → Q a) → OfSome Q o
OfSome-weaken P Q none h k = tt
OfSome-weaken P Q (some a) h k = k a h

pub from_here : (t : Tty) → t.escaped ≡ false → Editing t t.input_buffer t
from_here t plain = record { plain = plain; same = SameInput-refl t }

-- What remains of keys typed in canonical mode.
pub type_keys-edited :
    (t : Tty) (keys : List ℕ)
    → t.escaped ≡ false
    → (t.termios t.active_terminal).canon ≡ true
    → HaveCharacters t.modifiers keys
    → length t.input_buffer + length keys ≤ 4000
    → OfSome
        (λ t'. t'.input_buffer ≡ edited t.input_buffer (map (character t.modifiers) keys))
        (type_keys t keys)
type_keys-edited t keys plain mode h fits =
    OfSome-weaken _ _ (type_keys t keys)
      (type_keys-SameInput t t keys (from_here t plain) mode h fits) (λ t' s. s.input_buffer)
