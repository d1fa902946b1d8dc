-- ===== src/Strings/Search.antt =====
-- `strchr` against the position of a character in the string.
use arqvenger_os.Base.{
  ℕ, zero, suc, ◌+◌, ◌<◌, ◌≡◌, sym, subst, ap, ◌∙◌, some, List, [], ◌∷◌, arith, ◌==◌, if◌then◌else◌,
  length,
}
use arqvenger_os.Strings.{Memory, chr_from, strchr}
use arqvenger_os.Strings.Layout.{StrAt}

-- the address of the first `c` in a string at `s`, and 0 if there is none
unfoldable pub address_of : ℕ → ℕ → List ℕ → ℕ
address_of c s [] = 0
address_of c s (x ∷ xs) = let rest = address_of c (s + 1) xs in if x == c then s else rest

chr_from-address_of :
    (f : ℕ) (m : Memory) (cs c i : ℕ) (xs : List ℕ)
    → StrAt m (cs + i) xs
    → length xs < f
    → chr_from f m cs c i ≡ some (address_of c (cs + i) xs)
unfolding chr_from address_of
chr_from-address_of zero m cs c i xs h k = absurd (omega arith)
chr_from-address_of (suc f) m cs c i [] h k = ground arith
chr_from-address_of (suc f) m cs c i (x ∷ xs) (e, ne, h) k =
    let at : cs + (i + 1) ≡ cs + i + 1 = omega arith in
    let next : StrAt m (cs + (i + 1)) xs = subst (λ a. StrAt m a xs) (sym at) h in
    let rest =
      chr_from-address_of f m cs c (i + 1) xs next (omega arith)
      ∙ ap (λ a. some (address_of c a xs)) at in
    ground (arith, rest)

-- `strchr` ends and gives the address of the first such character of the string, or NULL. The
-- terminator is not among them: for the character 0 the answer is NULL.
pub strchr-address_of :
    (f : ℕ) (m : Memory) (cs c : ℕ) (xs : List ℕ)
    → StrAt m cs xs
    → length xs < f
    → strchr f m cs c ≡ some (address_of c cs xs)
unfolding strchr
strchr-address_of f m cs c xs h k =
    let at : cs + 0 ≡ cs = omega arith in
    chr_from-address_of f m cs c 0 xs (subst (λ a. StrAt m a xs) (sym at) h) k
    ∙ ap (λ a. some (address_of c a xs)) at
