-- ===== src/Strings.antt =====
-- library/string.c: C strings and byte buffers in a flat memory.
-- A pointer is an address, NULL is 0, and a `char` is its byte. A loop that looks for a terminator
-- takes fuel; `none` means that it is still running.
pub mod Layout
pub mod Length
pub mod Copy
pub mod Compare
pub mod Search
pub mod Buffer
pub mod Reverse
mod Examples
use arqvenger_os.Base.{
  List, [], ◌∷◌, ℕ, zero, suc, ◌+◌, ◌-◌, ◌%◌, Bool, true, false, not, ◌&&◌, ◌||◌, Option, none,
  some, ◌==◌, ltb, ◌>>=◌, if◌then◌else◌,
}
use arqvenger_os.Numbers.{isdigit}
use arqvenger_os.Base.Int.{ℤ, pos, negsuc}

abbrev pub Memory : Type 0
Memory = ℕ → ℕ

abbrev pub store : Memory → ℕ → ℕ → Memory
store m a v b = if b == a then v else m b

-- `while (*(s+i) != '\0') i++;`
unfoldable pub len_from : ℕ → Memory → ℕ → ℕ → Option ℕ
len_from zero m s i = none
len_from (suc f) m s i =
    let rest = len_from f m s (i + 1) in if m (s + i) == 0 then some i else rest

unfoldable pub strlen : ℕ → Memory → ℕ → Option ℕ
strlen fuel m s = if s == 0 then some 0 else len_from fuel m s 0

-- `while (ct[j] != '\0') { s[i] = ct[j]; i++; j++; } s[i] = '\0';`
unfoldable pub copy_from : ℕ → Memory → ℕ → ℕ → ℕ → ℕ → Option Memory
copy_from zero m s ct i j = none
copy_from (suc f) m s ct i j =
    let rest = copy_from f (store m (s + i) (m (ct + j))) s ct (i + 1) (j + 1) in
    if m (ct + j) == 0 then some (store m (s + i) 0) else rest

-- In `strcpy` one counter serves as both.
unfoldable pub strcpy : ℕ → Memory → ℕ → ℕ → Option Memory
strcpy fuel m s ct = copy_from fuel m s ct 0 0

-- The loop of `strncpy` with `n` characters left, and the write behind it.
unfoldable pub copy_at_most : ℕ → Memory → ℕ → ℕ → ℕ → Memory
copy_at_most zero m s ct i = store m (s + i) 0
copy_at_most (suc n) m s ct i =
    let rest = copy_at_most n (store m (s + i) (m (ct + i))) s ct (i + 1) in
    if m (ct + i) == 0 then store m (s + i) 0 else rest

unfoldable pub strncpy : Memory → ℕ → ℕ → ℕ → Memory
strncpy m s ct n = copy_at_most n m s ct 0

unfoldable pub strcat : ℕ → Memory → ℕ → ℕ → Option Memory
strcat fuel m s ct = do i ← len_from fuel m s 0; copy_from fuel m s ct i 0

-- The loop of `strchr`, and what is returned behind it: a pointer, with `some 0` for NULL.
unfoldable pub chr_from : ℕ → Memory → ℕ → ℕ → ℕ → Option ℕ
chr_from zero m cs c i = none
chr_from (suc f) m cs c i =
    let rest = chr_from f m cs c (i + 1) in
    if not (m (cs + i) == c) && not (m (cs + i) == 0)
    then rest
    else some (if m (cs + i) == 0 then 0 else cs + i)

unfoldable pub strchr : ℕ → Memory → ℕ → ℕ → Option ℕ
strchr fuel m cs c = chr_from fuel m cs c 0

-- A `char` is signed: the order of bytes puts 128 to 255 below 0.
abbrev pub lt_char : ℕ → ℕ → Bool
lt_char a b = ltb ((a + 128) % 256) ((b + 128) % 256)

abbrev pub sign_char : ℕ → ℕ → ℤ
sign_char a b = if lt_char a b then negsuc 0 else pos 1

-- the loop of `strncmp`, which ends at an index
unfoldable pub cmp_from : ℕ → Memory → ℕ → ℕ → ℕ → ℕ → Option ℕ
cmp_from zero m cs ct n i = none
cmp_from (suc f) m cs ct n i =
    let rest = cmp_from f m cs ct n (i + 1) in
    if m (cs + i) == m (ct + i) && not (m (cs + i) == 0) && ltb i n then rest else some i

unfoldable pub cmp_result : Memory → ℕ → ℕ → ℕ → ℕ → ℤ
cmp_result m cs ct n i =
    if i == n || m (cs + i) == m (ct + i) then pos 0 else sign_char (m (cs + i)) (m (ct + i))

unfoldable pub strncmp : ℕ → Memory → ℕ → ℕ → ℕ → Option ℤ
strncmp fuel m cs ct n = do i ← cmp_from fuel m cs ct n 0; some (cmp_result m cs ct n i)

-- `INT_MAX` of library/limits.h
abbrev pub int_max : ℕ
int_max = 4294967295

unfoldable pub strcmp : ℕ → Memory → ℕ → ℕ → Option ℤ
strcmp fuel m cs ct = strncmp fuel m cs ct int_max

-- the loops of `memset` and `memcpy` with `n` bytes left
unfoldable pub set_from : ℕ → Memory → ℕ → ℕ → ℕ → Memory
set_from zero m s c i = m
set_from (suc n) m s c i = set_from n (store m (s + i) c) s c (i + 1)

unfoldable pub memset : Memory → ℕ → ℕ → ℕ → Memory
memset m s c n = set_from n m s c 0

unfoldable pub move_from : ℕ → Memory → ℕ → ℕ → ℕ → Memory
move_from zero m s ct i = m
move_from (suc n) m s ct i = move_from n (store m (s + i) (m (ct + i))) s ct (i + 1)

unfoldable pub memcpy : Memory → ℕ → ℕ → ℕ → Memory
memcpy m s ct n = move_from n m s ct 0

-- The loop of `memchr` with `n` bytes left, and what is returned behind it; 0 is NULL.
unfoldable pub memchr_from : ℕ → Memory → ℕ → ℕ → ℕ → ℕ
memchr_from zero m cs c i = if m (cs + i) == c then cs + i else 0
memchr_from (suc n) m cs c i =
    let rest = memchr_from n m cs c (i + 1) in
    if not (m (cs + i) == c) then rest else if m (cs + i) == c then cs + i else 0

unfoldable pub memchr : Memory → ℕ → ℕ → ℕ → ℕ
memchr m cs c n = memchr_from n m cs c 0

-- The loop of `memcmp` with `n` bytes left, and what is returned behind it.
unfoldable pub memcmp_end : Memory → ℕ → ℕ → ℕ → ℤ
memcmp_end m cs ct i =
    if m (cs + i) == m (ct + i) then pos 0 else sign_char (m (cs + i)) (m (ct + i))

unfoldable pub memcmp_from : ℕ → Memory → ℕ → ℕ → ℕ → ℤ
memcmp_from zero m cs ct i = memcmp_end m cs ct i
memcmp_from (suc n) m cs ct i =
    let rest = memcmp_from n m cs ct (i + 1) in
    if m (cs + i) == m (ct + i) then rest else memcmp_end m cs ct i

unfoldable pub memcmp : Memory → ℕ → ℕ → ℕ → ℤ
memcmp m cs ct n = memcmp_from n m cs ct 0

-- The second loop of `strncat`, with `n` more characters to copy, and the terminator.
unfoldable pub append_at_most : ℕ → Memory → ℕ → ℕ → ℕ → ℕ → Memory
append_at_most zero m s ct i j = store m (s + i) 0
append_at_most (suc n) m s ct i j =
    let rest = append_at_most n (store m (s + i) (m (ct + j))) s ct (i + 1) (j + 1) in
    if m (ct + j) == 0 then store m (s + i) 0 else rest

unfoldable pub strncat : ℕ → Memory → ℕ → ℕ → ℕ → Option Memory
strncat f m s ct n = len_from f m s 0 >>= λ i. some (append_at_most n m s ct i 0)

-- the result of `strrchr`, from `last`, with `none` for -1
abbrev pub last_address : ℕ → Option ℕ → ℕ
last_address cs none = 0
last_address cs (some i) = cs + i

unfoldable pub rchr_from : ℕ → Memory → ℕ → ℕ → ℕ → Option ℕ → Option ℕ
rchr_from zero m cs c i last = none
rchr_from (suc f) m cs c i last =
    let rest = rchr_from f m cs c (i + 1) (if m (cs + i) == c then some i else last) in
    if m (cs + i) == 0 then some (last_address cs last) else rest

unfoldable pub strrchr : ℕ → Memory → ℕ → ℕ → Option ℕ
strrchr f m cs c = rchr_from f m cs c 0 none

-- The loop of `reverse`: `buff`, from `n` more characters of `s` on, the last one first.
unfoldable pub backwards : Memory → ℕ → ℕ → List ℕ
backwards m s zero = []
backwards m s (suc n) = m (s + n) ∷ backwards m s n

-- `strcpy` of a text that is not in the memory
unfoldable pub write_text : Memory → ℕ → List ℕ → Memory
write_text m s [] = store m s 0
write_text m s (c ∷ cs) = write_text (store m s c) (s + 1) cs

unfoldable pub reverse : ℕ → Memory → ℕ → Option Memory
reverse f m s = strlen f m s >>= λ n. some (write_text m s (backwards m s n))

-- The loops of `is_a_number`.
unfoldable pub skip_blanks : ℕ → Memory → ℕ → Option ℕ
skip_blanks zero m s = none
skip_blanks (suc f) m s = let rest = skip_blanks f m (s + 1) in if m s == b' ' then rest else some s

unfoldable pub count_digits : ℕ → Memory → ℕ → ℕ → Option ℕ
count_digits zero m s i = none
count_digits (suc f) m s i =
    let rest = count_digits f m s (i + 1) in
    if not (m (s + i) == 0) && isdigit (m (s + i)) then rest else some i

-- `is_a_number` behind its first loop
unfoldable pub is_signed_digits : ℕ → Memory → ℕ → Option Bool
is_signed_digits f m a =
    let b = if m a == b'-' then a + 1 else a in
    count_digits f m b 0 >>= λ i. some (m (b + i) == 0 && not (i == 0))

unfoldable pub is_a_number : ℕ → Memory → ℕ → Option Bool
is_a_number f m str = skip_blanks f m str >>= is_signed_digits f m
