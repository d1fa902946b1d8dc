-- ===== src/Heap/Layout.antt =====
-- The chunks of the heap, one behind the other in their memory.
use arqvenger_os.Base.{
  ℕ, ◌+◌, ◌-◌, ◌≤◌, ◌<◌, ◌≡◌, refl, subst, ap, ◌∙◌, ◌⊎◌, inl, inr, Bool, true, false, List, [], ◌∷◌,
  ◌++◌, ◌==◌, ==_iff, arith,
}
use arqvenger_os.Heap.{Heap, write, marked}

pub record Chunk : Type 0 where
  pub used : Bool
  pub bytes : ℕ

abbrev pub free_of : ℕ → Chunk
free_of n = record { used = false; bytes = n }

abbrev pub used_of : ℕ → Chunk
used_of n = record { used = true; bytes = n }

abbrev pub total : List Chunk → ℕ
total [] = 0
total (c ∷ cs) = c.bytes + total cs

-- The header and the footer of the chunk at `a`.
pub record IsChunkAt (h : Heap) (a : ℕ) (c : Chunk) : Type 0 where
  pub enough : 8 ≤ c.bytes
  pub status : h.in_use a ≡ c.used
  pub header : h.size a ≡ c.bytes
  pub footer : h.footer (a + c.bytes - 4) ≡ c.bytes

-- The chunks lie one behind the other from `a` on.
abbrev pub Tiles : Heap → ℕ → List Chunk → Type 0
Tiles h a [] = Unit
Tiles h a (c ∷ cs) = IsChunkAt h a c × Tiles h (a + c.bytes) cs

pub total-append : (xs ys : List Chunk) → total (xs ++ ys) ≡ total xs + total ys
total-append [] ys = omega arith
total-append (x ∷ xs) ys = omega (arith, total-append xs ys)

-- A list of chunks starts where the one before it ends.
at_eq : (P : ℕ → Type 0) {x y : ℕ} → x ≡ y → P x → P y
at_eq P e t = subst P e t

pub Tiles-left : (h : Heap) (a : ℕ) (xs ys : List Chunk) → Tiles h a (xs ++ ys) → Tiles h a xs
Tiles-left h a [] ys t = tt
Tiles-left h a (x ∷ xs) ys (c, t) = (c, Tiles-left h (a + x.bytes) xs ys t)

pub Tiles-right :
    (h : Heap) (a : ℕ) (xs ys : List Chunk) → Tiles h a (xs ++ ys) → Tiles h (a + total xs) ys
Tiles-right h a [] ys t = at_eq (λ p. Tiles h p ys) (omega arith) t
Tiles-right h a (x ∷ xs) ys (c, t) =
    at_eq (λ p. Tiles h p ys) (omega arith) (Tiles-right h (a + x.bytes) xs ys t)

pub Tiles-append :
    (h : Heap) (a : ℕ) (xs ys : List Chunk)
    → Tiles h a xs
    → Tiles h (a + total xs) ys
    → Tiles h a (xs ++ ys)
Tiles-append h a [] ys t u = at_eq (λ p. Tiles h p ys) (omega arith) u
Tiles-append h a (x ∷ xs) ys (c, t) u =
    (c, Tiles-append h (a + x.bytes) xs ys t (at_eq (λ p. Tiles h p ys) (omega arith) u))

-- The headers and footers at `x` are the same.
pub record SameAt (h h' : Heap) (x : ℕ) : Type 0 where
  pub in_use : h'.in_use x ≡ h.in_use x
  pub size : h'.size x ≡ h.size x
  pub footer : h'.footer x ≡ h.footer x

pub Tiles-frame :
    (h h' : Heap) (a : ℕ) (cs : List Chunk)
    → ((x : ℕ) → a ≤ x → x < a + total cs → SameAt h h' x)
    → Tiles h a cs
    → Tiles h' a cs
Tiles-frame h h' a [] same t = tt
Tiles-frame h h' a (c ∷ cs) same (k, t) =
    let enough = k.enough in
    let first = same a (omega arith) (omega arith) in
    let last = same (a + c.bytes - 4) (omega arith) (omega arith) in
    (
      record {
        enough = k.enough;
        status = first.in_use ∙ k.status;
        header = first.size ∙ k.header;
        footer = last.footer ∙ k.footer;
      },
      Tiles-frame h h' (a + c.bytes) cs (λ x lo hi. same x (omega arith) (omega arith)) t,
    )

-- Chunks in place of others, where nothing outside their memory changes.
pub Tiles-replace :
    (h h' : Heap) (a : ℕ) (xs old new ys : List Chunk)
    → total new ≡ total old
    → ((x : ℕ) → (x < a + total xs) ⊎ (a + total xs + total old ≤ x) → SameAt h h' x)
    → Tiles h a (xs ++ (old ++ ys))
    → Tiles h' (a + total xs) new
    → Tiles h' a (xs ++ (new ++ ys))
Tiles-replace h h' a xs old new ys e same t u =
    let before = Tiles-left h a xs (old ++ ys) t in
    let behind = Tiles-right h (a + total xs) old ys (Tiles-right h a xs (old ++ ys) t) in
    Tiles-append h' a xs (new ++ ys) (Tiles-frame h h' a xs (λ x lo hi. same x (inl hi)) before) (
      Tiles-append h' (a + total xs) new ys u (
        at_eq (λ p. Tiles h' p ys) (omega arith)
          (Tiles-frame h h' (a + total xs + total old) ys (λ x lo hi. same x (inr lo)) behind)))

write-same {ℓ} : {A : Type ℓ} (f : ℕ → A) (a : ℕ) (v : A) → write f a v a ≡ v
write-same f a v = rw ((==_iff a a).1 refl)

write-other {ℓ} : {A : Type ℓ} (f : ℕ → A) (a x : ℕ) (v : A) → (x ≡ a → ⊥) → write f a v x ≡ f x
write-other f a x v ne = let miss : (x == a) ≡ false = ground arith in rw miss

pub marked-IsChunkAt :
    (h : Heap) (a : ℕ) (used : Bool) (n : ℕ)
    → 8 ≤ n
    → IsChunkAt (marked h a used n) a (record { used = used; bytes = n })
marked-IsChunkAt h a used n enough = record {
  enough = enough;
  status = write-same h.in_use a used;
  header = write-same h.size a n;
  footer = write-same h.footer (a + n - 4) n;
}

pub marked-SameAt :
    (h : Heap) (a : ℕ) (used : Bool) (n x : ℕ)
    → 8 ≤ n
    → (x < a) ⊎ (a + n ≤ x)
    → SameAt h (marked h a used n) x
marked-SameAt h a used n x enough (inl lt) = record {
  in_use = write-other h.in_use a x used (λ e. absurd (omega arith));
  size = write-other h.size a x n (λ e. absurd (omega arith));
  footer = write-other h.footer (a + n - 4) x n (λ e. absurd (omega arith));
}
marked-SameAt h a used n x enough (inr le) = record {
  in_use = write-other h.in_use a x used (λ e. absurd (omega arith));
  size = write-other h.size a x n (λ e. absurd (omega arith));
  footer = write-other h.footer (a + n - 4) x n (λ e. absurd (omega arith));
}

-- A free chunk starts at `x`.
abbrev pub FreeAt : ℕ → List Chunk → ℕ → Type 0
FreeAt a [] x = ⊥
FreeAt a (c ∷ cs) x = ((c.used ≡ false) × (x ≡ a)) ⊎ FreeAt (a + c.bytes) cs x

pub FreeAt-cases :
    (a : ℕ) (xs ys : List Chunk) (x : ℕ)
    → FreeAt a (xs ++ ys) x
    → FreeAt a xs x ⊎ FreeAt (a + total xs) ys x
FreeAt-cases a [] ys x f = inr (at_eq (λ p. FreeAt p ys x) (omega arith) f)
FreeAt-cases a (c ∷ xs) ys x (inl here) = inl (inl here)
FreeAt-cases a (c ∷ xs) ys x (inr f) = elim (FreeAt-cases (a + c.bytes) xs ys x f) [
  | inl g ↦ inl (inr g)
  | inr g ↦ inr (at_eq (λ p. FreeAt p ys x) (omega arith) g)
]

pub FreeAt-left : (a : ℕ) (xs ys : List Chunk) (x : ℕ) → FreeAt a xs x → FreeAt a (xs ++ ys) x
FreeAt-left a [] ys x f = elim f [ ]
FreeAt-left a (c ∷ xs) ys x (inl here) = inl here
FreeAt-left a (c ∷ xs) ys x (inr f) = inr (FreeAt-left (a + c.bytes) xs ys x f)

pub FreeAt-right :
    (a : ℕ) (xs ys : List Chunk) (x : ℕ) → FreeAt (a + total xs) ys x → FreeAt a (xs ++ ys) x
FreeAt-right a [] ys x f = at_eq (λ p. FreeAt p ys x) (omega arith) f
FreeAt-right a (c ∷ xs) ys x f =
    inr (FreeAt-right (a + c.bytes) xs ys x (at_eq (λ p. FreeAt p ys x) (omega arith) f))

pub FreeAt-bounds :
    (h : Heap) (a : ℕ) (cs : List Chunk) (x : ℕ)
    → Tiles h a cs
    → FreeAt a cs x
    → (a ≤ x) × (x < a + total cs)
FreeAt-bounds h a [] x t f = elim f [ ]
FreeAt-bounds h a (c ∷ cs) x (k, t) (inl (e, here)) = let n = k.enough in (omega arith, omega arith)
FreeAt-bounds h a (c ∷ cs) x (k, t) (inr f) =
    let (lo, hi) = FreeAt-bounds h (a + c.bytes) cs x t f in (omega arith, omega arith)

-- The chunks before and behind a free one.
pub FreeAt-split :
    (a : ℕ) (cs : List Chunk) (x : ℕ)
    → FreeAt a cs x
    → (xs : List Chunk) × (n : ℕ) × (ys : List Chunk) × (cs ≡ xs ++ (free_of n ∷ ys))
      × (x ≡ a + total xs)
FreeAt-split a [] x f = elim f [ ]
FreeAt-split a (c ∷ cs) x (inl (e, here)) =
    ([], c.bytes, cs, ap (λ u. record { used = u; bytes = c.bytes } ∷ cs) e, here ∙ omega arith)
FreeAt-split a (c ∷ cs) x (inr f) =
    let (xs, n, ys, e, at) = FreeAt-split (a + c.bytes) cs x f in
    (c ∷ xs, n, ys, ap (λ l. c ∷ l) e, omega arith)
