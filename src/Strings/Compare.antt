-- ===== src/Strings/Compare.antt =====
-- `strcmp` and `strncmp` compare the strings as lists of signed characters.
use arqvenger_os.Base.{
  ℕ, zero, suc, ◌+◌, ◌<◌, ◌≡◌, ◌≢◌, ◌↔◌, refl, sym, subst, ap, ap₂, ◌∙◌, inl, inr, some, List, [],
  ◌∷◌, arith, ◌==◌, ==_iff, Bool-cases, eq_of_some, ◌>>=◌, if◌then◌else◌, length,
}
use arqvenger_os.Base.Int.{ℤ, pos}
use arqvenger_os.Strings.{Memory, sign_char, cmp_from, cmp_result, strncmp, strcmp, int_max}
use arqvenger_os.Strings.Layout.{StrAt}

-- the comparison of two strings of bytes
unfoldable pub compare_strings : List ℕ → List ℕ → ℤ
compare_strings [] [] = pos 0
compare_strings [] (y ∷ ys) = sign_char 0 y
compare_strings (x ∷ xs) [] = sign_char x 0
compare_strings (x ∷ xs) (y ∷ ys) =
    let rest = compare_strings xs ys in if x == y then rest else sign_char x y

StrAt-next :
    (m : Memory) (s i : ℕ) (cs : List ℕ) → StrAt m (s + i + 1) cs → StrAt m (s + (i + 1)) cs
StrAt-next m s i cs h = subst (λ a. StrAt m a cs) (omega arith) h

cmp_from-compare :
    (f : ℕ) (m : Memory) (cs ct n i : ℕ) (xs ys : List ℕ)
    → StrAt m (cs + i) xs
    → StrAt m (ct + i) ys
    → length xs < f
    → i + length xs < n
    → (cmp_from f m cs ct n i >>= λ j. some (cmp_result m cs ct n j)) ≡ some (compare_strings xs ys)
unfolding cmp_from cmp_result compare_strings
cmp_from-compare zero m cs ct n i xs ys hx hy k fits = absurd (omega arith)
cmp_from-compare (suc f) m cs ct n i [] [] hx hy k fits = ground arith
cmp_from-compare (suc f) m cs ct n i [] (y ∷ ys) hx (ey, ny, hy) k fits = ground arith
cmp_from-compare (suc f) m cs ct n i (x ∷ xs) [] (ex, nx, hx) hy k fits = ground arith
cmp_from-compare (suc f) m cs ct n i (x ∷ xs) (y ∷ ys) (ex, nx, hx) (ey, ny, hy) k fits = ground (
  arith,
  cmp_from-compare f m cs ct n (i + 1) xs ys (StrAt-next m cs i xs hx) (StrAt-next m ct i ys hy)
      (omega arith) (omega arith),
)

-- `strcmp` of two strings, the first of them shorter than INT_MAX, ends and gives their comparison.
pub strcmp-compare :
    (f : ℕ) (m : Memory) (cs ct : ℕ) (xs ys : List ℕ)
    → StrAt m cs xs
    → StrAt m ct ys
    → length xs < f
    → length xs < int_max
    → strcmp f m cs ct ≡ some (compare_strings xs ys)
unfolding strcmp strncmp
strcmp-compare f m cs ct xs ys hx hy k fits =
    let x0 : StrAt m (cs + 0) xs = subst (λ a. StrAt m a xs) (omega arith) hx in
    let y0 : StrAt m (ct + 0) ys = subst (λ a. StrAt m a ys) (omega arith) hy in
    cmp_from-compare f m cs ct int_max 0 xs ys x0 y0 k (omega arith)

sign_char-ne : (a b : ℕ) → sign_char a b ≢ pos 0
sign_char-ne a b e = ground arith

compare_strings-eq : (xs ys : List ℕ) → compare_strings xs ys ≡ pos 0 → xs ≡ ys
unfolding compare_strings
compare_strings-eq [] [] h = refl
compare_strings-eq [] (y ∷ ys) h = absurd (sign_char-ne 0 y h)
compare_strings-eq (x ∷ xs) [] h = absurd (sign_char-ne x 0 h)
compare_strings-eq (x ∷ xs) (y ∷ ys) h = elim (Bool-cases (x == y)) [
  | inl same ↦ ap₂ ◌∷◌ ((==_iff x y).0 same) (compare_strings-eq xs ys (rw same at h))
  | inr other ↦ absurd (sign_char-ne x y (rw other at h))
]

compare_strings_self : (xs : List ℕ) → compare_strings xs xs ≡ pos 0
unfolding compare_strings
compare_strings_self [] = refl
compare_strings_self (x ∷ xs) = ground (arith, compare_strings_self xs)

-- `strcmp` gives 0 exactly for equal strings, the first of them shorter than INT_MAX.
pub strcmp-zero_iff :
    (f : ℕ) (m : Memory) (cs ct : ℕ) (xs ys : List ℕ)
    → StrAt m cs xs
    → StrAt m ct ys
    → length xs < f
    → length xs < int_max
    → (strcmp f m cs ct ≡ some (pos 0)) ↔ (xs ≡ ys)
strcmp-zero_iff f m cs ct xs ys hx hy k fits =
    let run = strcmp-compare f m cs ct xs ys hx hy k fits in
    (
      λ e. compare_strings-eq xs ys (eq_of_some (sym run ∙ e)),
      λ e. run ∙ ap some (subst (λ r. compare_strings xs r ≡ pos 0) e (compare_strings_self xs)),
    )
