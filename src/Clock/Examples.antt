-- ===== src/Clock/Examples.antt =====
-- The calendar at single days.
use arqvenger_os.Base.{ℕ, ◌==◌, if◌then◌else◌, ◌≡◌, refl, [], ◌∷◌, arith}
use arqvenger_os.Clock.{
  Tm, date_from_day_number, from_bcd, from_12_hours, bcd_to_binary, read_registers,
  read_rtc_registers, read_seconds, read_minutes, read_hours, read_day, read_month, read_year,
  read_century, get_time, days_since_epoch, days_of_years, days_of_months, days_of_month, localtime,
  day_of_week,
}
use arqvenger_os.Numbers.{low_digits, itoa}
use arqvenger_os.Clock.Text.{put, put_number, put_padded, asctime}
use arqvenger_os.Clock.Text.Shown.{IsPrintable}

-- day 1520 of `getTime`, 28 February 1974, is followed by a 29th
leap_day_test : date_from_day_number 1520 ≡ record { year = 1974; month = 2; day = 29 }
unfolding date_from_day_number
leap_day_test = refl

abbrev noon : Tm
noon = record { sec = 5; min = 30; hour = 12; mday = 7; mon = 9; year = 2011; wday = 3 }

asctime_test :
    asctime noon
    ≡ b'W' ∷ b'e' ∷ b'd' ∷ b' ' ∷ b'S' ∷ b'e' ∷ b'p' ∷ b' ' ∷ b'7' ∷ b' ' ∷ b'1' ∷ b'2' ∷ b':'
      ∷ b'3' ∷ b'0' ∷ b':' ∷ b'0' ∷ b'5' ∷ b' ' ∷ b'2' ∷ b'0' ∷ b'1' ∷ b'1' ∷ []
unfolding asctime put put_number put_padded itoa low_digits
asctime_test = refl

noon-IsPrintable : IsPrintable noon
noon-IsPrintable = record {
  mday = omega arith;
  hour = omega arith;
  min = omega arith;
  sec = omega arith;
  year = (omega arith, omega arith);
}

-- registers in BCD, with hours of a whole day: 2011-09-07 12:30:05
abbrev bcd_clock : ℕ → ℕ
bcd_clock r =
    if r == 0
    then 0x05
    else if r == 2
    then 0x30
    else if r == 4
    then 0x12
    else if r == 7
    then 0x07
    else if r == 8
    then 0x09
    else if r == 9
    then 0x11
    else if r == 0x32
    then 0x20
    else 0x02

clock_test :
    read_rtc_registers bcd_clock
    ≡ record { seconds = 5; minutes = 30; hours = 12; day = 7; month = 9; year = 11; century = 20 }
unfolding read_rtc_registers read_registers from_bcd from_12_hours bcd_to_binary read_seconds
    read_minutes read_hours read_day read_month read_year read_century
clock_test = refl

-- The time of those registers is shown as the same day.
today_test : localtime (get_time (read_rtc_registers bcd_clock)) ≡ noon
unfolding read_rtc_registers read_registers from_bcd from_12_hours bcd_to_binary read_seconds
    read_minutes read_hours read_day read_month read_year read_century get_time days_since_epoch
    days_of_years days_of_months days_of_month localtime date_from_day_number day_of_week
today_test = refl
