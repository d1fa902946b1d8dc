-- ===== src/Clock/Text/Shown.antt =====
-- What `asctime` writes.
use arqvenger_os.Base.{
  ℕ, ◌+◌, ◌-◌, ◌*◌, ◌/◌, ◌≤◌, ◌<◌, ◌≡◌, refl, sym, ap, ap₂, ◌∙◌, inl, inr, Bool, true, false, ◌&&◌,
  List, [], ◌∷◌, ◌++◌, arith, ◌==◌, ==_iff, ltb, ltb→lt, leb, Bool-cases, if◌then◌else◌, length,
  take,
}
use mathlib.Core.List.{append_assoc}
use arqvenger_os.Base.Int.{pos}
use arqvenger_os.Base.Ranges.{and-true, holds_from, holds_from-at}
use arqvenger_os.Numbers.{low_digits, itoa}
use arqvenger_os.Clock.{Tm}
use arqvenger_os.Clock.Text.{day_name, month_name, Line, put, put_number, put_padded, asctime}

-- the line so far: its text, with `curPos` at the end
abbrev at_end : List ℕ → Line
at_end s = record { text = s; cur_pos = length s }

take-length : (s : List ℕ) → take (length s) s ≡ s
take-length [] = refl
take-length (c ∷ s) = ap (λ r. c ∷ r) (take-length s)

length-append : (s t : List ℕ) → length (s ++ t) ≡ length s + length t
length-append [] t = omega arith
length-append (c ∷ s) t = omega (arith, length-append s t)

put-at_end : (s t : List ℕ) (n : ℕ) → length t ≡ n → put (at_end s) t n ≡ at_end (s ++ t)
unfolding put
put-at_end s t n e = λ i. record {
  text = take-length s i ++ t;
  cur_pos = (ap (λ k. length s + k) (sym e) ∙ sym (length-append s t)) i;
}

-- the two digits of a number below 100
abbrev pub two_digits : ℕ → List ℕ
two_digits n = (n / 10 + b'0') ∷ (n - n / 10 * 10 + b'0') ∷ []

-- the digits of a number below 100
abbrev pub short_digits : ℕ → List ℕ
short_digits n = if leb 10 n then two_digits n else (n + b'0') ∷ []

same : List ℕ → List ℕ → Bool
same [] [] = true
same (c ∷ s) (d ∷ t) = c == d && same s t
same _ _ = false

same-eq : (s t : List ℕ) → same s t ≡ true → s ≡ t
unfolding same
same-eq [] [] e = refl
same-eq [] (d ∷ t) e = absurd (cc)
same-eq (c ∷ s) [] e = absurd (cc)
same-eq (c ∷ s) (d ∷ t) e =
    let both = and-true (c == d) (same s t) e in
    ap₂ ◌∷◌ ((==_iff c d).0 both.0) (same-eq s t both.1)

short_table : holds_from (λ n. same (itoa (pos n)).0 (short_digits n)) 100 0 ≡ true
unfolding holds_from same itoa low_digits
short_table = refl

itoa-short_digits : (n : ℕ) → n < 100 → (itoa (pos n)).0 ≡ short_digits n
itoa-short_digits n h = same-eq (itoa (pos n)).0 (short_digits n) (
    holds_from-at (λ n. same (itoa (pos n)).0 (short_digits n)) 100 0 n short_table (omega arith)
      (omega arith))

year_table : holds_from (λ n. length (itoa (pos n)).0 == 4) 9000 1000 ≡ true
unfolding holds_from itoa low_digits
year_table = refl

length-year : (n : ℕ) → 1000 ≤ n → n < 10000 → length (itoa (pos n)).0 ≡ 4
length-year n l h =
    (==_iff _ _).0
      (holds_from-at (λ n. length (itoa (pos n)).0 == 4) 9000 1000 n year_table l (omega arith))

put_number-short :
    (s : List ℕ) (n : ℕ) → n < 100 → put_number (at_end s) n ≡ at_end (s ++ short_digits n)
unfolding put_number
put_number-short s n h =
    let digits = itoa-short_digits n h in
    let size : length (short_digits n) ≡ (if leb 10 n then 2 else 1) = ground arith in
    ap (λ t. put (at_end s) t (if leb 10 n then 2 else 1)) digits
    ∙ put-at_end s (short_digits n) (if leb 10 n then 2 else 1) size

put_padded-two_digits :
    (s : List ℕ) (n : ℕ) → n < 100 → put_padded (at_end s) n ≡ at_end (s ++ two_digits n)
unfolding put_padded
put_padded-two_digits s n h = elim (Bool-cases (ltb n 10)) [
  | inl one ↦
      let short : leb 10 n ≡ false = ground arith in
      let zero_first : b'0' ≡ n / 10 + b'0' = omega (arith, ltb→lt n 10 one) in
      let last : n + b'0' ≡ n - n / 10 * 10 + b'0' = omega (arith, ltb→lt n 10 one) in
      let digits : short_digits n ≡ (n + b'0') ∷ [] = rw short in
      rw one (
        ap (λ l. put_number l n) (put-at_end s (b'0' ∷ []) 1 refl)
        ∙ put_number-short (s ++ (b'0' ∷ [])) n h
        ∙ ap at_end (
            ap (λ t. (s ++ (b'0' ∷ [])) ++ t) digits
            ∙ append_assoc s (b'0' ∷ []) ((n + b'0') ∷ [])
            ∙ ap₂ (λ a b. s ++ (a ∷ b ∷ [])) zero_first last))
  | inr two ↦
      let long : leb 10 n ≡ true = ground arith in
      let digits : short_digits n ≡ two_digits n = rw long in
      rw two (put_number-short s n h ∙ ap (λ t. at_end (s ++ t)) digits)
]

length-day_name : (n : ℕ) → length (day_name n) ≡ 3
length-day_name n = ground arith

length-month_name : (n : ℕ) → length (month_name n) ≡ 3
length-month_name n = ground arith

-- the fields of a time that can be printed in two digits, and a year of four
pub record IsPrintable (tp : Tm) : Type 0 where
  pub mday : tp.mday < 100
  pub hour : tp.hour < 100
  pub min : tp.min < 100
  pub sec : tp.sec < 100
  pub year : (1000 ≤ tp.year) × (tp.year < 10000)

abbrev pub shown : Tm → List ℕ
shown tp =
    let date = ((day_name tp.wday ++ (b' ' ∷ [])) ++ month_name tp.mon) ++ (b' ' ∷ []) in
    let day = (date ++ short_digits tp.mday) ++ (b' ' ∷ []) in
    let hour = (day ++ two_digits tp.hour) ++ (b':' ∷ []) in
    let min = (hour ++ two_digits tp.min) ++ (b':' ∷ []) in
    ((min ++ two_digits tp.sec) ++ (b' ' ∷ [])) ++ (itoa (pos tp.year)).0

-- `asctime` gives the names of the day and the month, the day of the month, the time with two
-- digits in each place, and the year, of a time whose fields fit there.
pub asctime-shown : (tp : Tm) → IsPrintable tp → asctime tp ≡ shown tp
unfolding asctime
asctime-shown tp h =
    let s0 = day_name tp.wday in
    let s1 = s0 ++ (b' ' ∷ []) in
    let s2 = s1 ++ month_name tp.mon in
    let s3 = s2 ++ (b' ' ∷ []) in
    let s4 = s3 ++ short_digits tp.mday in
    let s5 = s4 ++ (b' ' ∷ []) in
    let s6 = s5 ++ two_digits tp.hour in
    let s7 = s6 ++ (b':' ∷ []) in
    let s8 = s7 ++ two_digits tp.min in
    let s9 = s8 ++ (b':' ∷ []) in
    let s10 = s9 ++ two_digits tp.sec in
    let s11 = s10 ++ (b' ' ∷ []) in
    rw
      (
        put-at_end [] s0 3 (length-day_name tp.wday),
        put-at_end s0 (b' ' ∷ []) 1 refl,
        put-at_end s1 (month_name tp.mon) 3 (length-month_name tp.mon),
        put-at_end s2 (b' ' ∷ []) 1 refl,
        put_number-short s3 tp.mday h.mday,
        put-at_end s4 (b' ' ∷ []) 1 refl,
        put_padded-two_digits s5 tp.hour h.hour,
        put-at_end s6 (b':' ∷ []) 1 refl,
        put_padded-two_digits s7 tp.min h.min,
        put-at_end s8 (b':' ∷ []) 1 refl,
        put_padded-two_digits s9 tp.sec h.sec,
        put-at_end s10 (b' ' ∷ []) 1 refl,
        put-at_end s11 (itoa (pos tp.year)).0 4 (length-year tp.year h.year.0 h.year.1),
      )
      (take-length (shown tp))
