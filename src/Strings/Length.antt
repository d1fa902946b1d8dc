-- ===== src/Strings/Length.antt =====
-- `strlen` measures the string in memory.
use arqvenger_os.Base.{ℕ, zero, suc, ◌+◌, ◌<◌, ◌≡◌, ◌≢◌, subst, some, List, [], ◌∷◌, arith, length}
use arqvenger_os.Strings.{Memory, len_from, strlen}
use arqvenger_os.Strings.Layout.{StrAt}

pub len_from-length :
    (f : ℕ) (m : Memory) (s i : ℕ) (cs : List ℕ)
    → StrAt m (s + i) cs
    → length cs < f
    → len_from f m s i ≡ some (i + length cs)
unfolding len_from
len_from-length zero m s i cs h k = absurd (omega arith)
len_from-length (suc f) m s i [] h k = ground arith
len_from-length (suc f) m s i (c ∷ cs) (e, ne, h) k =
    let next : StrAt m (s + (i + 1)) cs = subst (λ a. StrAt m a cs) (omega arith) h in
    ground (arith, len_from-length f m s (i + 1) cs next (omega arith))

-- `strlen` of a string at an address other than NULL ends and gives the number of characters.
pub strlen-length :
    (f : ℕ) (m : Memory) (s : ℕ) (cs : List ℕ)
    → s ≢ 0
    → StrAt m s cs
    → length cs < f
    → strlen f m s ≡ some (length cs)
unfolding strlen
strlen-length f m s cs ne h k =
    let here : StrAt m (s + 0) cs = subst (λ a. StrAt m a cs) (omega arith) h in
    ground (arith, len_from-length f m s 0 cs here k)
