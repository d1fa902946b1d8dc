-- ===== src/Clock/Text.antt =====
-- `asctime` of library/time.c. The text is the characters of `string` before its terminator.
pub mod Shown
use arqvenger_os.Base.{
  ℕ, zero, suc, ◌+◌, ◌-◌, ◌*◌, ◌/◌, ◌≤◌, ◌<◌, ◌≡◌, refl, sym, subst, ap, ap₂, ◌∙◌, inl, inr, Bool,
  true, false, not, ◌||◌, ◌&&◌, List, [], ◌∷◌, ◌++◌, arith, ◌==◌, ==_iff, ltb, ltb→lt, leb,
  Bool-cases, if◌then◌else◌, length, take,
}
use mathlib.Core.List.{append_assoc}
use arqvenger_os.Base.Int.{pos}
use arqvenger_os.Base.Ranges.{and-true, holds_from, holds_from-at}
use arqvenger_os.Numbers.{low_digits, itoa}
use arqvenger_os.Clock.{Tm}

abbrev pub day_name : ℕ → List ℕ
day_name n =
    if n == 0
    then b'S' ∷ b'u' ∷ b'n' ∷ []
    else if n == 1
    then b'M' ∷ b'o' ∷ b'n' ∷ []
    else if n == 2
    then b'T' ∷ b'u' ∷ b'e' ∷ []
    else if n == 3
    then b'W' ∷ b'e' ∷ b'd' ∷ []
    else if n == 4
    then b'T' ∷ b'h' ∷ b'u' ∷ []
    else if n == 5
    then b'F' ∷ b'r' ∷ b'i' ∷ []
    else if n == 6
    then b'S' ∷ b'a' ∷ b't' ∷ []
    else b'?' ∷ b'?' ∷ b'?' ∷ []

abbrev pub month_name : ℕ → List ℕ
month_name n =
    if n == 1
    then b'J' ∷ b'a' ∷ b'n' ∷ []
    else if n == 2
    then b'F' ∷ b'e' ∷ b'b' ∷ []
    else if n == 3
    then b'M' ∷ b'a' ∷ b'r' ∷ []
    else if n == 4
    then b'A' ∷ b'p' ∷ b'r' ∷ []
    else if n == 5
    then b'M' ∷ b'a' ∷ b'y' ∷ []
    else if n == 6
    then b'J' ∷ b'u' ∷ b'n' ∷ []
    else if n == 7
    then b'J' ∷ b'u' ∷ b'l' ∷ []
    else if n == 8
    then b'A' ∷ b'u' ∷ b'g' ∷ []
    else if n == 9
    then b'S' ∷ b'e' ∷ b'p' ∷ []
    else if n == 10
    then b'O' ∷ b'c' ∷ b't' ∷ []
    else if n == 11
    then b'N' ∷ b'o' ∷ b'v' ∷ []
    else if n == 12
    then b'D' ∷ b'e' ∷ b'c' ∷ []
    else b'?' ∷ b'?' ∷ b'?' ∷ []

-- `string` and `curPos`
pub record Line : Type 0 where
  pub text : List ℕ
  pub cur_pos : ℕ

-- A text is written at `curPos`, which goes on by `n`.
unfoldable pub put : Line → List ℕ → ℕ → Line
put l s n = record { text = take l.cur_pos l.text ++ s; cur_pos = l.cur_pos + n }

-- a number from 0 on, with `curPos` going on by the digits of a number below 100
unfoldable pub put_number : Line → ℕ → Line
put_number l n = put l (itoa (pos n)).0 (if leb 10 n then 2 else 1)

unfoldable pub put_padded : Line → ℕ → Line
put_padded l n = let l' = if ltb n 10 then put l (b'0' ∷ []) 1 else l in put_number l' n

unfoldable pub asctime : Tm → List ℕ
asctime tp =
    let l1 = put (put (record { text = []; cur_pos = 0 }) (day_name tp.wday) 3) (b' ' ∷ []) 1 in
    let l2 = put (put l1 (month_name tp.mon) 3) (b' ' ∷ []) 1 in
    let l3 = put (put_number l2 tp.mday) (b' ' ∷ []) 1 in
    let l4 = put (put_padded l3 tp.hour) (b':' ∷ []) 1 in
    let l5 = put (put_padded l4 tp.min) (b':' ∷ []) 1 in
    let l6 = put (put_padded l5 tp.sec) (b' ' ∷ []) 1 in
    let l7 = put l6 (itoa (pos tp.year)).0 4 in take l7.cur_pos l7.text
