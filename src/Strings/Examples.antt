-- ===== src/Strings/Examples.antt =====
-- The theorems on strings and buffers at a memory with two short strings.
use arqvenger_os.Base.{ℕ, ◌+◌, ◌<◌, ◌≡◌, ◌⊎◌, refl, some, List, [], ◌∷◌, arith, length}
use arqvenger_os.Strings.{Memory, strcpy}
use arqvenger_os.Strings.Layout.{StrAt, put}
use arqvenger_os.Strings.Copy.{strcpy-put}

abbrev ab : List ℕ
ab = b'a' ∷ b'b' ∷ []

abbrev ac : List ℕ
ac = b'a' ∷ b'c' ∷ []

-- "ab" stands at 10 and "ac" at 20.
abbrev memory : Memory
memory = put (put (λ b. 1) 10 ab) 20 ac

ab-StrAt : StrAt memory 10 ab
ab-StrAt = (refl, (λ e. omega arith), (refl, (λ e. omega arith), refl))

ac-StrAt : StrAt memory 20 ac
ac-StrAt = (refl, (λ e. omega arith), (refl, (λ e. omega arith), refl))

strcpy-put_example :
    (m' : Memory) × (strcpy 3 memory 30 10 ≡ some m')
    × StrAt m' 30 ab
    × ((b : ℕ) → (b < 30) ⊎ (30 + length ab < b) → m' b ≡ memory b)
strcpy-put_example = strcpy-put 3 memory 30 10 ab ab-StrAt (omega arith) (omega arith)
