-- ===== src/BlockCache/Lookup.antt =====
-- The two loops of `find_chunk` over the table.
use arqvenger_os.Base.{
  ℕ, zero, suc, ◌+◌, ◌≤◌, ◌<◌, ◌≡◌, ◌≢◌, refl, sym, ap, ◌∙◌, ◌⊎◌, inl, inr, Option, none, some,
  arith, Bool-cases, Option-cases, eq_of_some, ◌==◌, ==_iff, ℕ_discrete,
}
use arqvenger_os.BlockCache.{
  Chunk, Search, found, missing, or_first, search_entry, search_from, free_or, first_free,
}

-- What the first loop of `find_chunk` knows at its end.
abbrev pub Searched : (ℕ → Option Chunk) → ℕ → ℕ → ℕ → Option ℕ → Search → Type 0
Searched table sector n i first (found j) =
    (ch : Chunk) × (table j ≡ some ch) × (ch.initial_sector ≡ sector)
Searched table sector n i first (missing o) =
    ((j : ℕ) (ch : Chunk) → i ≤ j → j < i + n → table j ≡ some ch → ch.initial_sector ≢ sector)
    × ((k : ℕ) → o ≡ some k → (first ≡ some k) ⊎ ((i ≤ k) × (k < i + n) × (table k ≡ none)))
    × (o ≡ none → (j : ℕ) → i ≤ j → j < i + n → table j ≢ none)

Searched-step :
    (table : ℕ → Option Chunk) (sector n i : ℕ) (first first' : Option ℕ) (r : Search)
    → ((ch : Chunk) → table i ≡ some ch → ch.initial_sector ≢ sector)
    → ((k : ℕ) → first' ≡ some k → (first ≡ some k) ⊎ ((k ≡ i) × (table i ≡ none)))
    → (table i ≡ none → first' ≢ none)
    → ((o : Option ℕ) → r ≡ missing o → first' ≢ none → o ≢ none)
    → Searched table sector n (i + 1) first' r
    → Searched table sector (suc n) i first r
Searched-step table sector n i first first' (found j) here from free keep h = h
Searched-step table sector n i first first' (missing o) here from free keep (away, filled, full) = (
  (λ j ch le lt e. elim (ℕ_discrete j i) [
    | yes p ↦ here ch (ap table (sym p) ∙ e)
    | no p ↦ away j ch (omega arith) (omega arith) e
  ]),
  (λ k e. elim (filled k e) [
    | inl before ↦ elim (from k before) [
      | inl first ↦ inl first
      | inr (p, none_here) ↦ inr (omega (arith, p), omega (arith, p), ap table p ∙ none_here)
    ]
    | inr (le, lt, none_there) ↦ inr (omega arith, omega arith, none_there)
  ]),
  (λ e j le lt. elim (ℕ_discrete j i) [
    | yes p ↦ λ empty. keep o refl (free (ap table (sym p) ∙ empty)) e
    | no p ↦ full e j (omega arith) (omega arith)
  ]),
)

or_first-some : (o : Option ℕ) (i : ℕ) → or_first o i ≢ none
or_first-some none i = λ h. cc
or_first-some (some e) i = λ h. cc

-- Once there is a first empty entry, the loop has one at its end.
search_from-keeps :
    (table : ℕ → Option Chunk) (sector n i : ℕ) (first o : Option ℕ)
    → search_from table sector n i first ≡ missing o
    → first ≢ none
    → o ≢ none
unfolding search_from search_entry
search_from-keeps table sector zero i first o e h = λ p. h (cc)
search_from-keeps table sector (suc n) i first o e h = elim (Option-cases (table i)) [
  | inl free ↦
      search_from-keeps table sector n (i + 1) (or_first first i) o (rw free at e)
        (or_first-some first i)
  | inr (ch, there) ↦ elim (Bool-cases (ch.initial_sector == sector)) [
    | inl hit ↦ absurd (absurd_found o (rw (there, hit) at e))
    | inr miss ↦ search_from-keeps table sector n (i + 1) first o (rw (there, miss) at e) h
  ]
]
  where
    absurd_found : (o : Option ℕ) → found i ≢ missing o
    absurd_found o p = cc

pub search_from-Searched :
    (table : ℕ → Option Chunk) (sector n i : ℕ) (first : Option ℕ)
    → Searched table sector n i first (search_from table sector n i first)
unfolding search_from search_entry
search_from-Searched table sector zero i first =
    ((λ j ch le lt. absurd (omega arith)), (λ k e. inl e), (λ e j le lt. absurd (omega arith)))
search_from-Searched table sector (suc n) i first = elim (Option-cases (table i)) [
  | inl free ↦ rw free (
      Searched-step table sector n i first (or_first first i) _ (λ ch e. absurd (cc))
        (λ k e. elim (Option-cases first) [
          | inl no_first ↦ inr (sym (eq_of_some (rw no_first at e)), free)
          | inr (f, is) ↦ inl (is ∙ rw is at e)
        ])
        (λ e. or_first-some first i)
        (λ o. search_from-keeps table sector n (i + 1) (or_first first i) o)
        (search_from-Searched table sector n (i + 1) (or_first first i)))
  | inr (ch, there) ↦ elim (Bool-cases (ch.initial_sector == sector)) [
    | inl hit ↦ rw (there, hit) (ch, there, (==_iff ch.initial_sector sector).0 hit)
    | inr miss ↦
        rw (there, miss)
          (Searched-step table sector n i first first _
            (λ ch' e same.
              let is : ch.initial_sector ≡ sector =
                ap (λ (a : Chunk). a.initial_sector) (eq_of_some (sym there ∙ e)) ∙ same in
              absurd (ground (arith, is, miss)))
            (λ k e. inl e) (λ e. absurd (cc))
            (λ o. search_from-keeps table sector n (i + 1) first o)
            (search_from-Searched table sector n (i + 1) first))
  ]
]

-- The second loop of `find_chunk` finds an empty entry when there is one.
pub first_free-some :
    (table : ℕ → Option Chunk) (n i k : ℕ)
    → i ≤ k
    → k < i + n
    → table k ≡ none
    → (j : ℕ) × (first_free table n i ≡ some j) × (j < i + n) × (table j ≡ none)
unfolding first_free free_or
first_free-some table zero i k le lt e = absurd (omega arith)
first_free-some table (suc n) i k le lt e = elim (Option-cases (table i)) [
  | inl free ↦ rw free (i, refl, omega arith, free)
  | inr (ch, there) ↦ elim (ℕ_discrete k i) [
    | yes p ↦ absurd (absurd_some (sym e ∙ ap table p ∙ there))
    | no p ↦
        let (j, is, small, free) =
          first_free-some table n (i + 1) k (omega arith) (omega arith) e in
        rw there (j, is, omega arith, free)
  ]
]
  where
    absurd_some : {ch : Chunk} → none ≢ some ch
    absurd_some p = cc
