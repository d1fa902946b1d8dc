-- ===== src/Strings/Reverse.antt =====
-- `reverse` turns the string in memory round in its place.
use arqvenger_os.Base.{
  ℕ, zero, suc, ◌+◌, ◌<◌, ◌≡◌, ◌≢◌, refl, ap, ◌∙◌, ◌⊎◌, some, List, [], ◌∷◌, ◌++◌, arith, length,
}
use arqvenger_os.Strings
use arqvenger_os.Strings.{Memory, store, strlen, backwards, write_text}
use arqvenger_os.Strings.Layout.{StrAt, put, put-StrAt, put-outside, NoNul, NoNul-StrAt}
use arqvenger_os.Strings.Length.{strlen-length}

write_text-put : (m : Memory) (s : ℕ) (cs : List ℕ) → write_text m s cs ≡ put m s cs
unfolding write_text
write_text-put m s [] = refl
write_text-put m s (c ∷ cs) = write_text-put (store m s c) (s + 1) cs

backwards-suc : (m : Memory) (s n : ℕ) → backwards m s (suc n) ≡ backwards m (s + 1) n ++ (m s ∷ [])
unfolding backwards
backwards-suc m s zero = ap (λ a. m a ∷ []) (omega arith)
backwards-suc m s (suc n) =
    let at : s + suc n ≡ s + 1 + n = omega arith in
    ap (λ r. m (s + suc n) ∷ r) (backwards-suc m s n)
    ∙ ap (λ a. m a ∷ (backwards m (s + 1) n ++ (m s ∷ []))) at

-- the text the other way round
abbrev pub turned : List ℕ → List ℕ
turned [] = []
turned (c ∷ cs) = turned cs ++ (c ∷ [])

backwards-turned :
    (m : Memory) (s : ℕ) (cs : List ℕ) → StrAt m s cs → backwards m s (length cs) ≡ turned cs
backwards-turned m s [] h = unfold backwards in refl
backwards-turned m s (c ∷ cs) (e, ne, h) =
    backwards-suc m s (length cs)
    ∙ ap (λ r. r ++ (m s ∷ [])) (backwards-turned m (s + 1) cs h)
    ∙ ap (λ x. turned cs ++ (x ∷ [])) e

NoNul-append : (xs : List ℕ) (c : ℕ) → NoNul xs → c ≢ 0 → NoNul (xs ++ (c ∷ []))
NoNul-append [] c h ne = (ne, tt)
NoNul-append (x ∷ xs) c h ne = (h.0, NoNul-append xs c h.1 ne)

NoNul-turned : (cs : List ℕ) → NoNul cs → NoNul (turned cs)
NoNul-turned [] h = tt
NoNul-turned (c ∷ cs) h = NoNul-append (turned cs) c (NoNul-turned cs h.1) h.0

length-snoc : (xs : List ℕ) (c : ℕ) → length (xs ++ (c ∷ [])) ≡ suc (length xs)
length-snoc [] c = refl
length-snoc (x ∷ xs) c = ap suc (length-snoc xs c)

length-turned : (cs : List ℕ) → length (turned cs) ≡ length cs
length-turned [] = refl
length-turned (c ∷ cs) = length-snoc (turned cs) c ∙ ap suc (length-turned cs)

-- `reverse` of a string at an address other than NULL ends, turns the string round in its place,
-- and changes no bytes outside it.
pub reverse-turned :
    (f : ℕ) (m : Memory) (s : ℕ) (cs : List ℕ)
    → s ≢ 0
    → StrAt m s cs
    → length cs < f
    → (m' : Memory) × (Strings.reverse f m s ≡ some m')
      × StrAt m' s (turned cs)
      × ((b : ℕ) → (b < s) ⊎ (s + length cs < b) → m' b ≡ m b)
unfolding Strings.reverse
reverse-turned f m s cs ne h k =
    let text = backwards-turned m s cs h in
    let len = length-turned cs in
    (
      put m s (turned cs),
      rw (strlen-length f m s cs ne h k)
          (ap some (write_text-put m s (backwards m s (length cs)) ∙ ap (put m s) text)),
      put-StrAt m s (turned cs) (NoNul-turned cs (NoNul-StrAt m s cs h)),
      λ b out. put-outside m s (turned cs) b (omega (arith, len)),
    )
