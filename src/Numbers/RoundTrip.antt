-- ===== src/Numbers/RoundTrip.antt =====
-- `atou` reads what `utoa` writes, and `atoi` what `itoa` writes.
use mathlib.Core.List.{reverse, reverse-cons, reverse-append, append_assoc, append-nil}
use native.Mathlib.Nat.{pow-suc}
use arqvenger_os.Base.{
  ℕ, zero, suc, ◌+◌, ◌-◌, ◌*◌, ◌/◌, ◌%◌, ◌^◌, ◌<◌, ◌≡◌, refl, sym, subst, ap, ◌∙◌, inl, inr, true,
  false, List, [], ◌∷◌, ◌++◌, arith, ◌==◌, Bool-cases, ltb, ltb→lt, if◌then◌else◌,
}
use arqvenger_os.Base.Int.{ℤ, pos, negsuc, ◌≤ℤ◌}
use arqvenger_os.Numbers.{
  isdigit, isspace, skip_spaces, digits_value, atou, low_digits, utoa, int_value, signed_value,
  negated, atoi, itoa,
}

-- the text starts with a digit
abbrev StartsDigit : List ℕ → Type 0
StartsDigit [] = ⊥
StartsDigit (c ∷ s) = isdigit c ≡ true

digit_char : (n : ℕ) → isdigit (n % 10 + b'0') ≡ true
digit_char n = ground arith

not_space : (c : ℕ) → isdigit c ≡ true → isspace c ≡ false
not_space c h = ground arith

skip-digit : (s : List ℕ) → StartsDigit s → skip_spaces s ≡ s
unfolding skip_spaces
skip-digit [] h = absurd h
skip-digit (c ∷ s) h = rw (not_space c h)

-- one round of the loop, with the digits before it already reversed
reverse-low_digits :
    (f n : ℕ) (t : List ℕ)
    → reverse (low_digits (suc f) n) ++ t ≡ (
        if ltb 0 (n / 10)
        then reverse (low_digits f (n / 10)) ++ ((n % 10 + b'0') ∷ t)
        else (n % 10 + b'0') ∷ t)
unfolding low_digits
reverse-low_digits f n t = elim (Bool-cases (ltb 0 (n / 10))) [
  | inl more ↦ rw more (
      ap (λ r. r ++ t) (reverse-cons (n % 10 + b'0') (low_digits f (n / 10)))
      ∙ append_assoc (reverse (low_digits f (n / 10))) ((n % 10 + b'0') ∷ []) t)
  | inr last ↦ rw last
]

starts : (f n : ℕ) (t : List ℕ) → StartsDigit t → StartsDigit (reverse (low_digits f n) ++ t)
starts zero n t h = unfold low_digits in h
starts (suc f) n t h = elim (Bool-cases (ltb 0 (n / 10))) [
  | inl more ↦
      rw (reverse-low_digits f n t, more) (starts f (n / 10) ((n % 10 + b'0') ∷ t) (digit_char n))
  | inr last ↦ rw (reverse-low_digits f n t, last) (digit_char n)
]

small_power : (f n : ℕ) → n < 10 ^ suc f → n / 10 < 10 ^ f
small_power f n h = omega (arith, pow-suc 10 f)

enough_rounds : (f m : ℕ) → m < 10 ^ f → 0 < m → 0 < f
enough_rounds zero m h p = omega arith
enough_rounds (suc f) m h p = omega arith

digits_value-digit :
    (a d : ℕ) (t : List ℕ)
    → d < 10
    → a * 10 + d < 2 ^ 32
    → digits_value a ((d + b'0') ∷ t) ≡ digits_value (a * 10 + d) t
unfolding digits_value
digits_value-digit a d t small fits =
    let yes_digit : isdigit (d + b'0') ≡ true = ground arith in
    rw yes_digit (ap (λ v. digits_value v t) (omega arith))

int_value-digit :
    (a d : ℕ) (t : List ℕ) → d < 10 → int_value a ((d + b'0') ∷ t) ≡ int_value (a * 10 + d) t
unfolding int_value
int_value-digit a d t small =
    let yes_digit : isdigit (d + b'0') ≡ true = ground arith in
    rw yes_digit (ap (λ v. int_value v t) (omega arith))

digits_value-low_digits :
    (f n : ℕ) (t : List ℕ)
    → n < 10 ^ f
    → n < 2 ^ 32
    → 0 < f
    → digits_value 0 (reverse (low_digits f n) ++ t) ≡ digits_value n t
digits_value-low_digits zero n t h k p = absurd (omega arith)
digits_value-low_digits (suc f) n t h k p = elim (Bool-cases (ltb 0 (n / 10))) [
  | inl more ↦
      let fits = small_power f n h in
      let on =
        digits_value-low_digits f (n / 10) ((n % 10 + b'0') ∷ t) fits (omega arith)
          (enough_rounds f (n / 10) fits (ltb→lt _ _ more)) in
      rw (reverse-low_digits f n t, more)
        (on
          ∙ digits_value-digit (n / 10) (n % 10) t (omega arith) (omega arith)
          ∙ ap (λ v. digits_value v t) (omega arith))
  | inr last ↦
      let done : n / 10 ≡ 0 = ground arith in
      rw (reverse-low_digits f n t, last)
        (digits_value-digit 0 (n % 10) t (omega arith) (omega arith)
          ∙ ap (λ v. digits_value v t) (omega arith))
]

int_value-low_digits :
    (f n : ℕ) (t : List ℕ)
    → n < 10 ^ f
    → 0 < f
    → int_value 0 (reverse (low_digits f n) ++ t) ≡ int_value n t
int_value-low_digits zero n t h p = absurd (omega arith)
int_value-low_digits (suc f) n t h p = elim (Bool-cases (ltb 0 (n / 10))) [
  | inl more ↦
      let fits = small_power f n h in
      let on =
        int_value-low_digits f (n / 10) ((n % 10 + b'0') ∷ t) fits
          (enough_rounds f (n / 10) fits (ltb→lt _ _ more)) in
      rw (reverse-low_digits f n t, more)
        (on
          ∙ int_value-digit (n / 10) (n % 10) t (omega arith)
          ∙ ap (λ v. int_value v t) (omega arith))
  | inr last ↦
      let done : n / 10 ≡ 0 = ground arith in
      rw (reverse-low_digits f n t, last)
        (int_value-digit 0 (n % 10) t (omega arith) ∙ ap (λ v. int_value v t) (omega arith))
]

starts_digits : (n : ℕ) → StartsDigit (reverse (low_digits 10 n))
starts_digits n = elim (Bool-cases (ltb 0 (n / 10))) [
  | inl more ↦ subst StartsDigit (append-nil (reverse (low_digits 10 n))) (
      rw (reverse-low_digits 9 n [], more)
        (starts 9 (n / 10) ((n % 10 + b'0') ∷ []) (digit_char n)))
  | inr last ↦
      subst StartsDigit (append-nil (reverse (low_digits 10 n)))
        (rw (reverse-low_digits 9 n [], last) (digit_char n))
]

-- `atou` reads every `unsigned int` back from the digits that `utoa` writes.
pub atou-utoa : (n : ℕ) → n < 2 ^ 32 → atou (utoa n).0 ≡ n
unfolding atou utoa
atou-utoa n h =
    ap (digits_value 0) (skip-digit (reverse (low_digits 10 n)) (starts_digits n))
    ∙ ap (digits_value 0) (sym (append-nil (reverse (low_digits 10 n))))
    ∙ digits_value-low_digits 10 n [] (omega arith) h (omega arith)
    ∙ unfold digits_value in refl

read_back : (n : ℕ) → n < 10 ^ 10 → int_value 0 (reverse (low_digits 10 n)) ≡ n
read_back n h =
    ap (int_value 0) (sym (append-nil (reverse (low_digits 10 n))))
    ∙ int_value-low_digits 10 n [] h (omega arith)
    ∙ unfold int_value in refl

not_minus : (s : List ℕ) → StartsDigit s → signed_value s ≡ pos (int_value 0 s)
unfolding signed_value
not_minus [] h = absurd h
not_minus (c ∷ s) h = let plain : (c == b'-') ≡ false = ground arith in rw plain

minus : (s : List ℕ) → signed_value (skip_spaces (b'-' ∷ s)) ≡ negated (int_value 0 (skip_spaces s))
unfolding signed_value skip_spaces
minus s = refl

-- `atoi` reads every `int` above the least one back from what `itoa` writes.
pub atoi-itoa : (n : ℤ) → negsuc (2 ^ 31 - 2) ≤ℤ n → n ≤ℤ pos (2 ^ 31 - 1) → atoi (itoa n).0 ≡ n
unfolding atoi itoa
atoi-itoa (pos n) lo hi =
    ap signed_value (skip-digit (reverse (low_digits 10 n)) (starts_digits n))
    ∙ not_minus (reverse (low_digits 10 n)) (starts_digits n)
    ∙ ap pos (read_back n (omega arith))
atoi-itoa (negsuc n) lo hi =
    let s = reverse (low_digits 10 (suc n)) in
    ap (λ r. signed_value (skip_spaces r)) (reverse-append (low_digits 10 (suc n)) (b'-' ∷ []))
    ∙ minus s
    ∙ ap (λ r. negated (int_value 0 r)) (skip-digit s (starts_digits (suc n)))
    ∙ ap negated (read_back (suc n) (omega arith))
