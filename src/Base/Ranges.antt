-- ===== src/Base/Ranges.antt =====
-- A test at every number of a range, to be decided by evaluation.
use Prim.Native.Nat.{ℕ, zero, suc, ◌+◌, ◌≤◌, ◌<◌}
use mathlib.Core.Path.{◌≡◌, refl, sym, ap, ◌∙◌}
use mathlib.Core.Logic.{◌⊎◌, inl, inr}
use mathlib.Core.Bool.{Bool, true, false, ◌&&◌}
use native.Mathlib.Omega.{arith}

pub and-true : (a b : Bool) → (a && b) ≡ true → (a ≡ true) × (b ≡ true)
and-true true b e = (refl, e)
and-true false b e = absurd (cc)

-- the test `p` at `k` numbers from `n` on
unfoldable pub holds_from : (ℕ → Bool) → ℕ → ℕ → Bool
holds_from p zero n = true
holds_from p (suc k) n = p n && holds_from p k (n + 1)

first_or_later : (n m : ℕ) → n ≤ m → (n ≡ m) ⊎ (n + 1 ≤ m)
first_or_later n m l = ground arith

pub holds_from-at :
    (p : ℕ → Bool) (k n m : ℕ) → holds_from p k n ≡ true → n ≤ m → m < n + k → p m ≡ true
unfolding holds_from
holds_from-at p zero n m e l h = absurd (omega arith)
holds_from-at p (suc k) n m e l h =
    let both = and-true (p n) (holds_from p k (n + 1)) e in
    elim (first_or_later n m l) as (λ _. p m ≡ true) [
      | inl q ↦ ap p (sym q) ∙ both.0
      | inr q ↦ holds_from-at p k (n + 1) m both.1 q (omega arith)
    ]
