-- ===== src/Clock.antt =====
-- The clock: drivers/rtc.c reads the hardware's registers and turns them into seconds since the
-- epoch; library/time.c turns those into a calendar date.
pub mod Text
mod Examples
use Prim.Native.Nat.{bit_and}
use arqvenger_os.Base.{
  ℕ, zero, suc, ◌+◌, ◌-◌, ◌*◌, ◌/◌, ◌%◌, ◌^◌, Bool, true, false, not, ◌&&◌, ◌||◌, List, [], ◌∷◌,
  ◌==◌, ltb, leb, if◌then◌else◌, get_or,
}
use arqvenger_os.Base.Words.{sub32}

-- `RTCRegisters`
pub record Registers : Type 0 where
  pub seconds : ℕ
  pub minutes : ℕ
  pub hours : ℕ
  pub day : ℕ
  pub month : ℕ
  pub year : ℕ
  pub century : ℕ

unfoldable pub bcd_to_binary : ℕ → ℕ
bcd_to_binary x = bit_and x 0xF0 / 2 + bit_and x 0xF0 / 8 + bit_and x 0xf

abbrev pub is_leap_year : ℕ → Bool
is_leap_year i = (i % 4 == 0 && not (i % 100 == 0)) || i % 400 == 0

-- The two conversions of `readRTCRegisters`, from the format register and the registers as read
-- through the ports.
unfoldable pub from_bcd : ℕ → Registers → Registers
unfolding bcd_to_binary
from_bcd format r =
    if bit_and format 0x02 == 0x02
    then record {
      seconds = bcd_to_binary r.seconds;
      minutes = bcd_to_binary r.minutes;
      hours = bcd_to_binary r.hours;
      day = bcd_to_binary r.day;
      month = bcd_to_binary r.month;
      year = bcd_to_binary r.year;
      century = bcd_to_binary r.century;
    }
    else r

unfoldable pub from_12_hours : ℕ → Registers → Registers
from_12_hours format r =
    let h = bit_and r.hours 0x7F in
    if bit_and format 0x04 == 0x04 && bit_and r.hours 0x80 == 0x80
    then record r { hours = if h == 12 then 0 else h + 12 }
    else r

unfoldable pub read_registers : ℕ → Registers → Registers
unfolding from_bcd from_12_hours
read_registers format raw = from_12_hours format (from_bcd format raw)

-- The registers through the ports: `cmos r` is what the data port gives after `outB` of `r`.
unfoldable pub read_seconds : (ℕ → ℕ) → ℕ
read_seconds cmos = cmos 0

unfoldable pub read_minutes : (ℕ → ℕ) → ℕ
read_minutes cmos = cmos 2

unfoldable pub read_hours : (ℕ → ℕ) → ℕ
read_hours cmos = cmos 4

unfoldable pub read_day : (ℕ → ℕ) → ℕ
read_day cmos = cmos 7

unfoldable pub read_month : (ℕ → ℕ) → ℕ
read_month cmos = cmos 8

unfoldable pub read_year : (ℕ → ℕ) → ℕ
read_year cmos = cmos 9

unfoldable pub read_century : (ℕ → ℕ) → ℕ
read_century cmos = cmos 0x32

unfoldable pub read_rtc_registers : (ℕ → ℕ) → Registers
read_rtc_registers cmos =
    let format = cmos 11 in
    read_registers format (record {
      seconds = read_seconds cmos;
      minutes = read_minutes cmos;
      hours = read_hours cmos;
      day = read_day cmos;
      month = read_month cmos;
      year = read_year cmos;
      century = read_century cmos;
    })

-- the loop over the years, with `n` more years from `i` on
unfoldable pub days_of_years : ℕ → ℕ → ℕ → ℕ
days_of_years zero i days = days
days_of_years (suc n) i days =
    days_of_years n (i + 1) (days + (if is_leap_year i then 366 else 365))

-- The `switch` of the loop over the months. February's test is on the loop's counter `i`, which is
-- the month.
unfoldable pub days_of_month : ℕ → ℕ
days_of_month i =
    if i == 1 || i == 3 || i == 5 || i == 7 || i == 8 || i == 10 || i == 12
    then 31
    else if i == 4 || i == 6 || i == 9 || i == 11
    then 30
    else if i == 2
    then (if is_leap_year i then 29 else 28)
    else 0

unfoldable pub days_of_months : ℕ → ℕ → ℕ → ℕ
days_of_months zero i days = days
days_of_months (suc n) i days = days_of_months n (i + 1) (days + days_of_month i)

-- `daysSinceEpoch` of `getTime`
unfoldable pub days_since_epoch : Registers → ℕ
days_since_epoch r =
    let this_year = r.century * 100 + r.year in
    days_of_months (r.month - 1) 1 (days_of_years (this_year - 1970) 1970 0) + r.day

-- `getTime`, from the registers; `time_t` is an `unsigned int`.
unfoldable pub get_time : Registers → ℕ
get_time r = (days_since_epoch r * 86400 + r.hours * 3600 + r.minutes * 60 + r.seconds) % 2 ^ 32

-- `struct tm`
pub record Tm : Type 0 where
  pub sec : ℕ
  pub min : ℕ
  pub hour : ℕ
  pub mday : ℕ
  pub mon : ℕ
  pub year : ℕ
  pub wday : ℕ

-- a date: year, month and day
pub record Date : Type 0 where
  pub year : ℕ
  pub month : ℕ
  pub day : ℕ

abbrev pub day_table : List ℕ
day_table = 0 ∷ 3 ∷ 2 ∷ 5 ∷ 0 ∷ 3 ∷ 5 ∷ 1 ∷ 4 ∷ 6 ∷ 2 ∷ 4 ∷ []

unfoldable pub day_of_week : Date → ℕ
day_of_week d =
    let y = if ltb d.month 3 then d.year - 1 else d.year in
    (y + y / 4 - y / 100 + y / 400 + get_or day_table (d.month - 1) 0 + d.day) % 7

-- `ddd`: the bit pattern of a `long`
unfoldable pub day_of_year : ℕ → ℕ → ℕ
day_of_year days year = sub32 days (365 * year + year / 4 - year / 100 + year / 400)

-- The last lines of `dateFromDayNumber`, where `ddd` is not negative.
unfoldable pub date_of_day : ℕ → ℕ → Date
date_of_day year ddd =
    let mi = (100 * ddd + 52) / 3060 in
    record {
      year = year + (mi + 2) / 12 + 1970;
      month = (mi + 2) % 12 + 1;
      day = ddd - (mi * 306 + 5) / 10 + 1;
    }

unfoldable pub date_from_day_number : ℕ → Date
unfolding date_of_day day_of_year
date_from_day_number n =
    let days = sub32 n 60 in
    let year = (10000 * days % 2 ^ 32 + 14780) % 2 ^ 32 / 3652425 in
    let ddd = day_of_year days year in
    if ltb ddd (2 ^ 31)
    then date_of_day year ddd
    else date_of_day (year - 1) (day_of_year days (year - 1))

unfoldable pub localtime : ℕ → Tm
localtime timer =
    let d = date_from_day_number (timer / 86400) in
    let secs = timer % 86400 in
    record {
      sec = secs % 3600 % 60;
      min = secs % 3600 / 60;
      hour = secs / 3600;
      mday = d.day;
      mon = d.month;
      year = d.year;
      wday = day_of_week d;
    }
