-- ===== src/Strings/Buffer.antt =====
-- `memset`, `memcpy`, `memchr` and `memcmp` on byte buffers.
use arqvenger_os.Base.{
  ℕ, zero, suc, ◌+◌, ◌-◌, ◌≤◌, ◌<◌, ◌≡◌, ◌≢◌, ◌↔◌, sym, ap, ◌∙◌, ◌⊎◌, true, false, ◌&&◌, arith,
  ◌==◌, ==_iff, ltb, leb, if◌then◌else◌,
}
use arqvenger_os.Base.Int.{pos}
use arqvenger_os.Strings.{
  Memory, store, set_from, memset, move_from, memcpy, memchr_from, memchr, memcmp_end, memcmp_from,
  memcmp,
}

set_from-eq :
    (n : ℕ) (m : Memory) (s c i b : ℕ)
    → set_from n m s c i b ≡ (if leb (s + i) b && ltb b (s + i + n) then c else m b)
unfolding set_from
set_from-eq zero m s c i b = ground arith
set_from-eq (suc n) m s c i b = ground (arith, set_from-eq n (store m (s + i) c) s c (i + 1) b)

-- `memset` sets the `n` bytes at `s` and no others.
pub memset-eq :
    (m : Memory) (s c n b : ℕ) → memset m s c n b ≡ (if leb s b && ltb b (s + n) then c else m b)
unfolding memset
memset-eq m s c n b = ground (arith, set_from-eq n m s c 0 b)

move_from-eq :
    (n : ℕ) (m : Memory) (s ct i b : ℕ)
    → (s ≤ ct) ⊎ (ct + i + n ≤ s)
    → move_from n m s ct i b
      ≡ (if leb (s + i) b && ltb b (s + i + n) then m (ct + (b - s)) else m b)
unfolding move_from
move_from-eq zero m s ct i b h = ground arith
move_from-eq (suc n) m s ct i b h =
    ground
      (arith, move_from-eq n (store m (s + i) (m (ct + i))) s ct (i + 1) b (omega arith), moved)
  where
    moved : ct + (s + i - s) ≡ ct + i
    moved = omega arith

-- `memcpy` to a place below its source, overlapping it or not, or wholly above it, copies the `n`
-- bytes as they were and changes no others.
pub memcpy-eq :
    (m : Memory) (s ct n b : ℕ)
    → (s ≤ ct) ⊎ (ct + n ≤ s)
    → memcpy m s ct n b ≡ (if leb s b && ltb b (s + n) then m (ct + (b - s)) else m b)
unfolding memcpy
memcpy-eq m s ct n b h = ground (arith, move_from-eq n m s ct 0 b (omega arith))

-- the bytes before index `n` are equal
abbrev pub SameBytes : Memory → ℕ → ℕ → ℕ → Type 0
SameBytes m cs ct n = (j : ℕ) → j < n → m (cs + j) ≡ m (ct + j)

memcmp_from-same :
    (n : ℕ) (m : Memory) (cs ct i : ℕ)
    → ((j : ℕ) → i ≤ j → j < i + n → m (cs + j) ≡ m (ct + j))
    → memcmp_from n m cs ct i ≡ memcmp_end m cs ct (i + n)
unfolding memcmp_from
memcmp_from-same zero m cs ct i h = ap (memcmp_end m cs ct) (omega arith)
memcmp_from-same (suc n) m cs ct i h =
    let here : (m (cs + i) == m (ct + i)) ≡ true =
      (==_iff _ _).1 (h i (omega arith) (omega arith)) in
    let rest = memcmp_from-same n m cs ct (i + 1) (λ j p q. h j (omega arith) (omega arith)) in
    rw here (rest ∙ ap (memcmp_end m cs ct) (omega arith))

end_zero : (m : Memory) (cs ct i : ℕ) → memcmp_end m cs ct i ≡ pos 0 → m (cs + i) ≡ m (ct + i)
unfolding memcmp_end
end_zero m cs ct i h = ground arith

end_same : (m : Memory) (cs ct i : ℕ) → m (cs + i) ≡ m (ct + i) → memcmp_end m cs ct i ≡ pos 0
unfolding memcmp_end
end_same m cs ct i h = ground arith

-- `memcmp` of buffers that agree in their first `n` bytes goes on to the byte behind them: it gives
-- 0 only if that byte agrees too.
pub memcmp_past_end :
    (m : Memory) (cs ct n : ℕ)
    → SameBytes m cs ct n
    → (memcmp m cs ct n ≡ pos 0) ↔ (m (cs + n) ≡ m (ct + n))
unfolding memcmp
memcmp_past_end m cs ct n h =
    let run =
      memcmp_from-same n m cs ct 0 (λ j p q. h j (omega arith))
      ∙ ap (memcmp_end m cs ct) (omega arith) in
    (λ e. end_zero m cs ct n (sym run ∙ e), λ e. run ∙ end_same m cs ct n e)

ne→false : (a b : ℕ) → a ≢ b → (a == b) ≡ false
ne→false a b h = ground arith

memchr_from-none :
    (n : ℕ) (m : Memory) (cs c i : ℕ)
    → ((j : ℕ) → i ≤ j → j < i + n → m (cs + j) ≢ c)
    → memchr_from n m cs c i ≡ (if m (cs + (i + n)) == c then cs + (i + n) else 0)
unfolding memchr_from
memchr_from-none zero m cs c i h =
    let e : cs + i ≡ cs + (i + 0) = omega arith in ap (λ a. if m a == c then a else 0) e
memchr_from-none (suc n) m cs c i h =
    let miss : (m (cs + i) == c) ≡ false = ne→false _ _ (h i (omega arith) (omega arith)) in
    let rest = memchr_from-none n m cs c (i + 1) (λ j p q. h j (omega arith) (omega arith)) in
    let e : cs + (i + 1 + n) ≡ cs + (i + suc n) = omega arith in
    rw miss (rest ∙ ap (λ a. if m a == c then a else 0) e)

-- `memchr` on a buffer whose `n` bytes do not hold `c` looks at the byte behind them, and returns
-- its address if that is `c`.
pub memchr_past_end :
    (m : Memory) (cs c n : ℕ)
    → ((j : ℕ) → j < n → m (cs + j) ≢ c)
    → memchr m cs c n ≡ (if m (cs + n) == c then cs + n else 0)
unfolding memchr
memchr_past_end m cs c n h =
    memchr_from-none n m cs c 0 (λ j p q. h j (omega arith))
    ∙ ap (λ a. if m (cs + a) == c then cs + a else 0) (omega arith)
