-- ===== src/Keyboard/Ring.antt =====
-- The ring buffer as a queue of codes.
use arqvenger_os.Base.{
  ℕ, zero, suc, ◌+◌, ◌%◌, ◌<◌, ◌≡◌, refl, sym, ap, ap₂, ◌∙◌, inl, inr, true, false, List, [], ◌∷◌,
  ◌++◌, arith, Bool-cases, ◌==◌, length,
}
use arqvenger_os.Keyboard.{
  Keyboard, next_index, put_code, keyboard_read, code, taken_state, keyboard_get_code,
}

-- `n` codes from index `s` on, round the end
abbrev pub codes : (ℕ → ℕ) → ℕ → ℕ → List ℕ
codes b s zero = []
codes b s (suc n) = b (s % 4000) ∷ codes b (s + 1) n

-- The buffer holds the codes `xs`, the oldest one first.
pub record Holds (kb : Keyboard) (xs : List ℕ) : Type 0 where
  pub start : kb.buffer_start < 4000
  pub fits : length xs < 4000
  pub pos : kb.buffer_pos ≡ (kb.buffer_start + length xs) % 4000
  pub content : codes kb.buffer kb.buffer_start (length xs) ≡ xs

codes-outside :
    (b : ℕ → ℕ) (s n p c : ℕ)
    → n < 4000
    → p ≡ (s + n) % 4000
    → codes (put_code b p c) s n ≡ codes b s n
codes-outside b s zero p c h e = refl
codes-outside b s (suc n) p c h e =
    let apart : (s % 4000 == p) ≡ false = ground arith in
    ap₂ ◌∷◌ (rw apart) (codes-outside b (s + 1) n p c (omega arith) (omega arith))

codes-snoc : (b : ℕ → ℕ) (s n : ℕ) → codes b s (suc n) ≡ codes b s n ++ (b ((s + n) % 4000) ∷ [])
codes-snoc b s zero = ap (λ i. b (i % 4000) ∷ []) (omega arith)
codes-snoc b s (suc n) =
    let at : s + 1 + n ≡ s + suc n = omega arith in
    ap (λ r. b (s % 4000) ∷ r)
      (codes-snoc b (s + 1) n ∙ ap (λ i. codes b (s + 1) n ++ (b (i % 4000) ∷ [])) at)

codes-wrap : (b : ℕ → ℕ) (s t n : ℕ) → s % 4000 ≡ t % 4000 → codes b s n ≡ codes b t n
codes-wrap b s t zero e = refl
codes-wrap b s t (suc n) e = ap₂ ◌∷◌ (ap b e) (codes-wrap b (s + 1) (t + 1) n (omega arith))

length-snoc : (xs : List ℕ) (c : ℕ) → length (xs ++ (c ∷ [])) ≡ suc (length xs)
length-snoc [] c = refl
length-snoc (x ∷ xs) c = ap suc (length-snoc xs c)

-- the buffer and the indices after a read
fields :
    (kb : Keyboard) (c : ℕ)
    → ((keyboard_read kb c).buffer ≡ put_code kb.buffer kb.buffer_pos c)
      × ((keyboard_read kb c).buffer_pos ≡ next_index kb.buffer_pos)
      × ((keyboard_read kb c).buffer_start ≡ kb.buffer_start)
unfolding keyboard_read
fields kb c = elim (Bool-cases (kb.kernel.schedule kb.consumer).io_wait) [
  | inl w ↦ rw w (refl, refl, refl)
  | inr w ↦ rw w (refl, refl, refl)
]

next_index-mod : (s n p : ℕ) → p ≡ (s + n) % 4000 → next_index p ≡ (s + suc n) % 4000
next_index-mod s n p e = ground arith

pushed :
    (b : ℕ → ℕ) (s p c : ℕ) (xs : List ℕ)
    → length xs < 4000
    → p ≡ (s + length xs) % 4000
    → codes b s (length xs) ≡ xs
    → codes (put_code b p c) s (suc (length xs)) ≡ xs ++ (c ∷ [])
pushed b s p c xs h e f =
    let here : ((s + length xs) % 4000 == p) ≡ true = ground arith in
    codes-snoc (put_code b p c) s (length xs)
    ∙ ap₂ (λ r x. r ++ (x ∷ [])) (codes-outside b s (length xs) p c h e ∙ f) (rw here)

-- `keyboard_read` puts the code behind those that the buffer holds, while there are fewer than
-- 3999.
pub keyboard_read-Holds :
    (kb : Keyboard) (xs : List ℕ) (c : ℕ)
    → Holds kb xs
    → length xs < 3999
    → Holds (keyboard_read kb c) (xs ++ (c ∷ []))
keyboard_read-Holds kb xs c h k =
    let (buffer, pos, start) = fields kb c in
    let n = length-snoc xs c in
    record {
      start = omega (arith, h.start);
      fits = omega arith;
      pos =
          pos
          ∙ next_index-mod kb.buffer_start (length xs) kb.buffer_pos h.pos
          ∙ ap₂ (λ s m. (s + m) % 4000) (sym start) (sym n);
      content =
          ap₂ (λ b s. codes b s (length (xs ++ (c ∷ [])))) buffer start
          ∙ ap (codes (put_code kb.buffer kb.buffer_pos c) kb.buffer_start) n
          ∙ pushed kb.buffer kb.buffer_start kb.buffer_pos c xs h.fits h.pos h.content;
    }

-- `keyboard_read` into a buffer that holds 3999 codes loses all of them, and its own: the buffer is
-- empty then.
pub keyboard_read-overflow :
    (kb : Keyboard) (xs : List ℕ) (c : ℕ)
    → Holds kb xs
    → length xs ≡ 3999
    → Holds (keyboard_read kb c) []
keyboard_read-overflow kb xs c h k =
    let (buffer, pos, start) = fields kb c in
    let round = next_index-mod kb.buffer_start (length xs) kb.buffer_pos h.pos in
    record {
      start = omega (arith, h.start);
      fits = omega arith;
      pos = omega (arith, h.start, round);
      content = refl;
    }

-- `keyboard_get_code` by the consumer, of a buffer that holds a code, gives the oldest one, and the
-- buffer holds the others then.
pub keyboard_get_code-Holds :
    (kb : Keyboard) (x : ℕ) (xs : List ℕ)
    → Holds kb (x ∷ xs)
    → (keyboard_get_code kb kb.consumer ≡ code x (taken_state kb)) × Holds (taken_state kb) xs
unfolding keyboard_get_code
keyboard_get_code-Holds kb x xs h =
    let n = length xs in
    let small : suc n < 4000 = h.fits in
    let self : (kb.consumer == kb.consumer) ≡ true = ground arith in
    let some_code : (kb.buffer_pos == kb.buffer_start) ≡ false =
      ground (arith, h.start, h.pos, small) in
    let low : kb.buffer_start % 4000 ≡ kb.buffer_start = omega (arith, h.start) in
    let first : kb.buffer kb.buffer_start ≡ x = ap kb.buffer (sym low) ∙ head h.content in
    let rest : codes kb.buffer (kb.buffer_start + 1) n ≡ xs = tail h.content in
    let on : next_index kb.buffer_start % 4000 ≡ (kb.buffer_start + 1) % 4000 =
      ground (arith, h.start) in
    (
      rw (self, some_code) (ap (λ c. code c (taken_state kb)) first),
      record {
        start = ground (arith, h.start);
        fits = omega arith;
        pos = h.pos ∙ omega (arith, on);
        content =
            codes-wrap kb.buffer (next_index kb.buffer_start) (kb.buffer_start + 1) n on ∙ rest;
      },
    )
  where
    head : {a b : ℕ} {s t : List ℕ} → a ∷ s ≡ b ∷ t → a ≡ b
    head e = cc

    tail : {a b : ℕ} {s t : List ℕ} → a ∷ s ≡ b ∷ t → s ≡ t
    tail e = cc
