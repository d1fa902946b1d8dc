-- ===== src/Strings/Layout.antt =====
-- A string in memory: its characters, none of them 0, and the terminator.
use arqvenger_os.Base.{ℕ, ◌+◌, ◌≤◌, ◌<◌, ◌≡◌, ◌≢◌, ◌∙◌, ◌⊎◌, List, [], ◌∷◌, arith, length}
use arqvenger_os.Strings.{Memory, store}

abbrev pub StrAt : Memory → ℕ → List ℕ → Type 0
StrAt m s [] = m s ≡ 0
StrAt m s (c ∷ cs) = (m s ≡ c) × (c ≢ 0) × StrAt m (s + 1) cs

-- `m` with the string written at `s`
abbrev pub put : Memory → ℕ → List ℕ → Memory
put m s [] = store m s 0
put m s (c ∷ cs) = put (store m s c) (s + 1) cs

-- the addresses from `s` on that a string of `n` characters takes do not meet those from `t` on
abbrev pub Apart : ℕ → ℕ → ℕ → ℕ → Type 0
Apart s n t k = (s + n < t) ⊎ (t + k < s)

pub put-outside :
    (m : Memory) (s : ℕ) (cs : List ℕ) (b : ℕ) → (b < s) ⊎ (s + length cs < b) → put m s cs b ≡ m b
put-outside m s [] b h = ground arith
put-outside m s (c ∷ cs) b h = put-outside (store m s c) (s + 1) cs b (omega arith) ∙ ground arith

abbrev pub NoNul : List ℕ → Type 0
NoNul [] = Unit
NoNul (c ∷ cs) = (c ≢ 0) × NoNul cs

pub NoNul-StrAt : (m : Memory) (s : ℕ) (cs : List ℕ) → StrAt m s cs → NoNul cs
NoNul-StrAt m s [] h = tt
NoNul-StrAt m s (c ∷ cs) (e, ne, h) = (ne, NoNul-StrAt m (s + 1) cs h)

pub put-StrAt : (m : Memory) (s : ℕ) (cs : List ℕ) → NoNul cs → StrAt (put m s cs) s cs
put-StrAt m s [] h = ground arith
put-StrAt m s (c ∷ cs) h = (
  put-outside (store m s c) (s + 1) cs s (omega arith) ∙ ground arith,
  h.0,
  put-StrAt (store m s c) (s + 1) cs h.1,
)

-- A string survives a change elsewhere.
pub frame :
    (m m' : Memory) (s : ℕ) (cs : List ℕ)
    → ((b : ℕ) → s ≤ b → b ≤ s + length cs → m' b ≡ m b)
    → StrAt m s cs
    → StrAt m' s cs
frame m m' s [] same h = same s (omega arith) (omega arith) ∙ h
frame m m' s (c ∷ cs) same (e, ne, h) = (
  same s (omega arith) (omega arith) ∙ e,
  ne,
  frame m m' (s + 1) cs (λ b p q. same b (omega arith) (omega arith)) h,
)

pub put_back : (m m' : Memory) (s t : ℕ) (cs : List ℕ) → StrAt m t cs → StrAt (put m' s cs) s cs
put_back m m' s t cs h = put-StrAt m' s cs (NoNul-StrAt m t cs h)
