-- ===== src/SleepList/Add.antt =====
-- `sleep_list_add` against the wake-up times.
use arqvenger_os.Base.{
  ℕ, ◌≡◌, ◌⊎◌, some, refl, sym, ap, ap₂, ◌∙◌, inl, inr, true, [], ◌∷◌, ◌++◌, arith, Bool-cases,
}
use arqvenger_os.Base.Int.{ℤ, pos, ◌+ℤ◌, ◌-ℤ◌, ◌≤ℤ◌, int_laws}
use arqvenger_os.SleepList.{Node, node, SleepList, leb_ℤ, update_list, add_behind, add}
use arqvenger_os.SleepList.Times.{
  Timers, wake_times, IsAscending, IsArmed, AllAtMost, AllAtLeast, AllAtLeast-wake_times,
  wake_times-update_list, leb_ℤ→≤ℤ, not-leb_ℤ,
}

-- the first timer of the rest is `d` later
abbrev pub late : ℤ → Timers → Timers
late d [] = []
late d ((q, u) ∷ r) = (q, u +ℤ d) ∷ r

-- how long after the last of the timers, or after `u`, the time `t` is
abbrev pub lag_after : ℤ → Timers → ℤ → ℤ
lag_after u [] t = t -ℤ u
lag_after u ((q, v) ∷ r) t = lag_after v r t

-- The same where there may be no timers: nothing then.
abbrev pub lag : Timers → ℤ → ℤ
lag [] t = pos 0
lag ((q, u) ∷ r) t = lag_after u r t

-- `new` is `old` with the timer `(p, t)` put in its place in time, and with the timer behind it put off
-- by `delay` of the timers before it.
pub record Placed (delay : Timers → ℤ → ℤ) (p : ℕ) (t : ℤ) (old new : Timers) : Type 0 where
  pub before : Timers
  pub after : Timers
  pub old_split : old ≡ before ++ after
  pub new_split : new ≡ before ++ ((p, t) ∷ late (delay before t) after)
  pub earlier : AllAtMost t before
  pub later : AllAtLeast t after

Placed-cons :
    (delay : Timers → ℤ → ℤ) {p q : ℕ} {t u : ℤ} {old new : Timers}
    → ((r : Timers) → delay ((q, u) ∷ r) t ≡ lag_after u r t)
    → u ≤ℤ t
    → Placed (lag_after u) p t old new
    → Placed delay p t ((q, u) ∷ old) ((q, u) ∷ new)
Placed-cons delay {p} {q} {t} {u} step h i = record {
  before = (q, u) ∷ i.before;
  after = i.after;
  old_split = ap (λ r. (q, u) ∷ r) i.old_split;
  new_split = rw (step i.before) (ap (λ r. (q, u) ∷ r) i.new_split);
  earlier = (h, i.earlier);
  later = i.later;
}

late-zero : (r : Timers) → late (pos 0) r ≡ r
late-zero [] = refl
late-zero ((q, u) ∷ r) = let e : u +ℤ pos 0 ≡ u = omega int_laws in rw e

-- the timers behind `curr` stand where they were, and `curr` itself is late
wake_times-behind :
    (n : Node) (l : SleepList) (b t : ℤ)
    → wake_times (b +ℤ t) (n ∷ update_list l t) ≡ late t (wake_times b (n ∷ l))
unfolding update_list
wake_times-behind n [] b t = let e : b +ℤ t +ℤ n.delta ≡ b +ℤ n.delta +ℤ t = omega int_laws in rw e
wake_times-behind n (m ∷ l) b t =
    let e : b +ℤ t +ℤ n.delta ≡ b +ℤ n.delta +ℤ t = omega int_laws in
    let e2 : b +ℤ n.delta +ℤ t +ℤ (m.delta -ℤ t) ≡ b +ℤ n.delta +ℤ m.delta = omega int_laws in
    rw (e, e2)

-- a timer runs out after `t`
abbrev pub SomeAfter : ℤ → Timers → Type 0
SomeAfter t [] = ⊥
SomeAfter t ((q, u) ∷ r) = (t +ℤ pos 1 ≤ℤ u) ⊎ SomeAfter t r

-- A timer for `t` does not come to the end of a list that is not empty.
abbrev pub NotLast : ℤ → Timers → Type 0
NotLast t [] = Unit
NotLast t ((q, u) ∷ r) = (t ≤ℤ u) ⊎ SomeAfter t r

add_behind-Placed :
    (l : SleepList) (p : ℕ) (b t : ℤ)
    → IsAscending l
    → SomeAfter (b +ℤ t) (wake_times b l)
    → (l' : SleepList) × (add_behind l p t ≡ some l')
      × Placed (lag_after b) p (b +ℤ t) (wake_times b l) (wake_times b l')
unfolding add_behind
add_behind-Placed [] p b t a f = elim f [ ]
add_behind-Placed (n ∷ l) p b t a f = elim (Bool-cases (leb_ℤ n.delta t)) [
  | inl le ↦
      let due : n.delta ≤ℤ t = leb_ℤ→≤ℤ n.delta t le in
      let e : b +ℤ n.delta +ℤ (t -ℤ n.delta) ≡ b +ℤ t = omega int_laws in
      let f' : SomeAfter (b +ℤ t) (wake_times (b +ℤ n.delta) l) = elim f [
        | inl g ↦ absurd (omega int_laws)
        | inr g ↦ g
      ] in
      let (l', found, rest) = add_behind-Placed l p (b +ℤ n.delta) (t -ℤ n.delta) a.1 (rw e f') in
      (
        n ∷ l',
        simp (le, found) refl,
        Placed-cons (lag_after b) (λ r. refl) (omega int_laws) (rw e at rest),
      )
  | inr gt ↦
      let early : t ≤ℤ n.delta = not-leb_ℤ n.delta t gt in
      let away : (b +ℤ t) -ℤ b ≡ t = omega int_laws in
      (
        node p t ∷ (n ∷ update_list l t),
        rw gt,
        record {
          before = [];
          after = wake_times b (n ∷ l);
          old_split = refl;
          new_split =
              ap (λ r. (p, b +ℤ t) ∷ r)
                (wake_times-behind n l b t ∙ ap (λ d. late d (wake_times b (n ∷ l))) (sym away));
          earlier = tt;
          later = (
            omega int_laws,
            AllAtLeast-wake_times l (b +ℤ n.delta) (b +ℤ t) (omega int_laws) a.1,
          );
        },
      )
]

add_front-Placed :
    (l : SleepList) (p : ℕ) (b t : ℤ)
    → AllAtLeast (b +ℤ t) (wake_times b l)
    → Placed lag p (b +ℤ t) (wake_times b l) (wake_times b (node p t ∷ update_list l t))
add_front-Placed l p b t h = record {
  before = [];
  after = wake_times b l;
  old_split = refl;
  new_split =
      ap (λ r. (p, b +ℤ t) ∷ r) (wake_times-update_list l b t ∙ sym (late-zero (wake_times b l)));
  earlier = tt;
  later = h;
}

≤ℤ→leb_ℤ : (a b : ℤ) → a ≤ℤ b → leb_ℤ a b ≡ true
≤ℤ→leb_ℤ a b h = ground arith

add_from_zero :
    (l : SleepList) (p : ℕ) (t : ℤ)
    → IsAscending l
    → NotLast (pos 0 +ℤ t) (wake_times (pos 0) l)
    → (l' : SleepList) × (add l p t ≡ some l')
      × Placed lag p (pos 0 +ℤ t) (wake_times (pos 0) l) (wake_times (pos 0) l')
unfolding add add_behind update_list
add_from_zero [] p t a f = (node p t ∷ [], refl, add_front-Placed [] p (pos 0) t tt)
add_from_zero (n ∷ l) p t a f = elim (Bool-cases (leb_ℤ t n.delta)) [
  | inl le ↦
      let early : t ≤ℤ n.delta = leb_ℤ→≤ℤ t n.delta le in
      (
        node p t ∷ update_list (n ∷ l) t,
        rw le,
        add_front-Placed (n ∷ l) p (pos 0) t (
          omega int_laws,
          AllAtLeast-wake_times l (pos 0 +ℤ n.delta) (pos 0 +ℤ t) (omega int_laws) a.1,
        ),
      )
  | inr gt ↦
      let due : n.delta ≤ℤ t = not-leb_ℤ t n.delta gt in
      let on : leb_ℤ n.delta t ≡ true = ≤ℤ→leb_ℤ n.delta t due in
      let e : pos 0 +ℤ n.delta +ℤ (t -ℤ n.delta) ≡ pos 0 +ℤ t = omega int_laws in
      let f' : SomeAfter (pos 0 +ℤ t) (wake_times (pos 0 +ℤ n.delta) l) = elim f [
        | inl g ↦ let le = ≤ℤ→leb_ℤ t n.delta (omega int_laws) in absurd (ground (arith, le, gt))
        | inr g ↦ g
      ] in
      let (l', found, rest) =
        add_behind-Placed l p (pos 0 +ℤ n.delta) (t -ℤ n.delta) a.1 (rw e f') in
      (
        n ∷ l',
        simp (gt, on, found) refl,
        Placed-cons lag (λ r. refl) (omega int_laws) (rw e at rest),
      )
]

-- On a list with no negative delta `sleep_list_add` puts a timer of `ticks` ticks in its place,
-- where that is not the end of a list that is not empty. The other wake-up times stay as they were
-- but one: where the timer is not the first, the process behind it wakes later, by the time between
-- the timer before and the new one.
pub add-Placed :
    (l : SleepList) (p : ℕ) (ticks : ℤ)
    → IsAscending l
    → NotLast ticks (wake_times (pos 0) l)
    → (l' : SleepList) × (add l p ticks ≡ some l')
      × Placed lag p ticks (wake_times (pos 0) l) (wake_times (pos 0) l')
add-Placed l p ticks a f =
    let e : pos 0 +ℤ ticks ≡ ticks = omega int_laws in rw e at (add_from_zero l p ticks a (rw e f))

-- A timer of at least one tick that runs out no later than all others goes to the front of an armed
-- list: no other wake-up time is moved, and the list stays armed.
pub add_first-IsArmed :
    (l : SleepList) (p : ℕ) (ticks : ℤ)
    → pos 1 ≤ℤ ticks
    → IsArmed l
    → AllAtLeast ticks (wake_times (pos 0) l)
    → (l' : SleepList) × (add l p ticks ≡ some l')
      × (wake_times (pos 0) l' ≡ (p, ticks) ∷ wake_times (pos 0) l)
      × IsArmed l'
unfolding add update_list
add_first-IsArmed [] p t h a f =
    let e : pos 0 +ℤ t ≡ t = omega int_laws in (node p t ∷ [], refl, rw e, (h, tt))
add_first-IsArmed (n ∷ l) p t h a f =
    let early : t ≤ℤ n.delta = let le = f.0 in omega (int_laws, le) in
    let on : leb_ℤ t n.delta ≡ true = ≤ℤ→leb_ℤ t n.delta early in
    let e : pos 0 +ℤ t ≡ t = omega int_laws in
    (
      node p t ∷ update_list (n ∷ l) t,
      rw on,
      ap₂ (λ u r. (p, u) ∷ r) e (wake_times-update_list (n ∷ l) (pos 0) t),
      (h, (omega int_laws, a.1)),
    )
