-- ===== src/Strings/Copy.antt =====
-- `strcpy`, `strcat` and `strncpy` write the string that they should, and nothing else.
use arqvenger_os.Base.{
  ℕ, zero, suc, ◌+◌, ◌≤◌, ◌<◌, ◌≡◌, refl, sym, subst, ap, ◌∙◌, ◌⊎◌, false, some, List, [], ◌∷◌,
  ◌++◌, arith, ◌==◌, length, length-take, take,
}
use arqvenger_os.Strings.{Memory, store, copy_from, strcpy, strcat, copy_at_most, strncpy}
use arqvenger_os.Strings.Layout.{
  StrAt, put, Apart, put-outside, frame, put_back, NoNul, NoNul-StrAt, put-StrAt,
}
use arqvenger_os.Strings.Length.{len_from-length}

copy_from-put :
    (f : ℕ) (m : Memory) (s ct i j : ℕ) (cs : List ℕ)
    → StrAt m (ct + j) cs
    → Apart (s + i) (length cs) (ct + j) (length cs)
    → length cs < f
    → copy_from f m s ct i j ≡ some (put m (s + i) cs)
unfolding copy_from
copy_from-put zero m s ct i j cs h apart k = absurd (omega arith)
copy_from-put (suc f) m s ct i j [] h apart k = ground arith
copy_from-put (suc f) m s ct i j (c ∷ cs) (e, ne, h) apart k =
    let m1 = store m (s + i) c in
    let same : StrAt m1 (ct + j + 1) cs = frame m m1 (ct + j + 1) cs (λ b p q. ground arith) h in
    let next : StrAt m1 (ct + (j + 1)) cs = subst (λ a. StrAt m1 a cs) (omega arith) same in
    let rest = copy_from-put f m1 s ct (i + 1) (j + 1) cs next (omega arith) (omega arith) in
    let at : s + (i + 1) ≡ s + i + 1 = omega arith in
    let more : (m (ct + j) == 0) ≡ false = ground arith in
    rw (more, e) (rest ∙ ap (λ a. some (put m1 a cs)) at)

-- `strcpy` between places that do not meet ends, leaves the string at `s`, and changes only the
-- bytes that it takes there.
pub strcpy-put :
    (f : ℕ) (m : Memory) (s ct : ℕ) (cs : List ℕ)
    → StrAt m ct cs
    → Apart s (length cs) ct (length cs)
    → length cs < f
    → (m' : Memory) × (strcpy f m s ct ≡ some m')
      × StrAt m' s cs
      × ((b : ℕ) → (b < s) ⊎ (s + length cs < b) → m' b ≡ m b)
unfolding strcpy
strcpy-put f m s ct cs h apart k =
    let here : StrAt m (ct + 0) cs = subst (λ a. StrAt m a cs) (omega arith) h in
    let run = copy_from-put f m s ct 0 0 cs here (omega arith) k in
    let at : s + 0 ≡ s = omega arith in
    (
      put m s cs,
      run ∙ ap (λ a. some (put m a cs)) at,
      put_back m m s ct cs h,
      λ b out. put-outside m s cs b out,
    )

-- Two pieces of a string in a memory `m'` that keeps the characters of the first.
StrAt-append :
    (m m' : Memory) (s : ℕ) (xs ys : List ℕ)
    → StrAt m s xs
    → ((b : ℕ) → s ≤ b → b < s + length xs → m' b ≡ m b)
    → StrAt m' (s + length xs) ys
    → StrAt m' s (xs ++ ys)
StrAt-append m m' s [] ys h same k = subst (λ a. StrAt m' a ys) (omega arith) k
StrAt-append m m' s (x ∷ xs) ys (e, ne, h) same k = (
  same s (omega arith) (omega arith) ∙ e,
  ne,
  StrAt-append m m' (s + 1) xs ys h (λ b p q. same b (omega arith) (omega arith))
      (subst (λ a. StrAt m' a ys) (omega arith) k),
)

-- `strcat` appends the string at `ct` to the one at `s`, where the places do not meet, and changes
-- only the bytes behind it.
pub strcat-append :
    (f : ℕ) (m : Memory) (s ct : ℕ) (xs ys : List ℕ)
    → StrAt m s xs
    → StrAt m ct ys
    → Apart s (length xs + length ys) ct (length ys)
    → length xs + length ys < f
    → (m' : Memory) × (strcat f m s ct ≡ some m')
      × StrAt m' s (xs ++ ys)
      × ((b : ℕ) → (b < s + length xs) ⊎ (s + length xs + length ys < b) → m' b ≡ m b)
unfolding strcat
strcat-append f m s ct xs ys hx hy apart k =
    let m' = put m (s + length xs) ys in
    let here : StrAt m (s + 0) xs = subst (λ a. StrAt m a xs) (omega arith) hx in
    let from : StrAt m (ct + 0) ys = subst (λ a. StrAt m a ys) (omega arith) hy in
    let found = len_from-length f m s 0 xs here (omega arith) in
    let run = copy_from-put f m s ct (0 + length xs) 0 ys from (omega arith) (omega arith) in
    let at : s + (0 + length xs) ≡ s + length xs = omega arith in
    (
      m',
      rw found (run ∙ ap (λ a. some (put m a ys)) at),
      StrAt-append m m' s xs ys hx (λ b p q. put-outside m (s + length xs) ys b (omega arith))
          (put_back m m (s + length xs) ct ys hy),
      λ b out. put-outside m (s + length xs) ys b out,
    )

copy_at_most-put :
    (n : ℕ) (m : Memory) (s ct i : ℕ) (cs : List ℕ)
    → StrAt m (ct + i) cs
    → Apart (s + i) (length cs) (ct + i) (length cs)
    → copy_at_most n m s ct i ≡ put m (s + i) (take n cs)
unfolding copy_at_most
copy_at_most-put zero m s ct i cs h apart = refl
copy_at_most-put (suc n) m s ct i [] h apart = ground arith
copy_at_most-put (suc n) m s ct i (c ∷ cs) (e, ne, h) apart =
    let m1 = store m (s + i) c in
    let same : StrAt m1 (ct + i + 1) cs = frame m m1 (ct + i + 1) cs (λ b p q. ground arith) h in
    let next : StrAt m1 (ct + (i + 1)) cs = subst (λ a. StrAt m1 a cs) (omega arith) same in
    let rest = copy_at_most-put n m1 s ct (i + 1) cs next (omega arith) in
    let at : s + (i + 1) ≡ s + i + 1 = omega arith in
    let more : (m (ct + i) == 0) ≡ false = ground arith in
    rw (more, e) (rest ∙ ap (λ a. put m1 a (take n cs)) at)

NoNul-take : (n : ℕ) (cs : List ℕ) → NoNul cs → NoNul (take n cs)
NoNul-take zero cs h = tt
NoNul-take (suc n) [] h = tt
NoNul-take (suc n) (c ∷ cs) h = (h.0, NoNul-take n cs h.1)

-- `strncpy` between places that do not meet leaves the first `n` characters of the string at `s`
-- with a terminator behind them: it may write `n + 1` bytes, and changes no others.
pub strncpy-take :
    (m : Memory) (s ct n : ℕ) (cs : List ℕ)
    → StrAt m ct cs
    → Apart s (length cs) ct (length cs)
    → StrAt (strncpy m s ct n) s (take n cs)
      × ((b : ℕ) → (b < s) ⊎ (s + n < b) → strncpy m s ct n b ≡ m b)
unfolding strncpy
strncpy-take m s ct n cs h apart =
    let here : StrAt m (ct + 0) cs = subst (λ a. StrAt m a cs) (omega arith) h in
    let at : s + 0 ≡ s = omega arith in
    let run =
      copy_at_most-put n m s ct 0 cs here (omega arith) ∙ ap (λ a. put m a (take n cs)) at in
    let clean = NoNul-take n cs (NoNul-StrAt m ct cs h) in
    (
      subst (λ m'. StrAt m' s (take n cs)) (sym run) (put-StrAt m s (take n cs) clean),
      λ b out.
          ap (λ (m' : Memory). m' b) run
          ∙ put-outside m s (take n cs) b (omega (arith, length-take n cs)),
    )
