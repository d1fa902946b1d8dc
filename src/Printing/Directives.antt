-- ===== src/Printing/Directives.antt =====
-- The directives of a format: their widths, and what they write to a file that takes everything.
use arqvenger_os.Base.{
  ℕ, zero, suc, ◌+◌, ◌-◌, ◌*◌, ◌≡◌, ◌≢◌, refl, sym, ap, ap₂, ◌∙◌, true, false, some, List, [], ◌∷◌,
  ◌++◌, ◌==◌, ==_iff, length, take, replicate, arith,
}
use arqvenger_os.Base.Int.{ℤ, pos}
use arqvenger_os.Numbers.{isdigit, isspace, skip_spaces, int_value, signed_value, atoi}
use arqvenger_os.Printing.{
  File, Printer, write, fputc, print_padding, print_field, convert, text, directive, print_from,
}

abbrev pub AllDigits : List ℕ → Type 0
AllDigits [] = Unit
AllDigits (d ∷ ds) = (isdigit d ≡ true) × AllDigits ds

abbrev pub in_format : List ℕ → ℕ → List ℕ → List ℕ
in_format digits c rest = b'%' ∷ (digits ++ (c ∷ rest))

-- a character that ends the digits of a width and does not start a number
abbrev pub IsPlain : ℕ → Type 0
IsPlain c = (isdigit c ≡ false) × (isspace c ≡ false) × ((c == b'-') ≡ false)

int_value-width :
    (a : ℕ) (ds f : List ℕ) (c : ℕ)
    → AllDigits ds
    → isdigit c ≡ false
    → int_value a (ds ++ (c ∷ f)) ≡ int_value a ds
unfolding int_value
int_value-width a [] f c h plain = rw plain
int_value-width a (d ∷ ds) f c (digit, h) plain =
    rw digit (int_value-width (a * 10 + d - b'0') ds f c h plain)

atoi-plain :
    (c : ℕ) (s : List ℕ)
    → isspace c ≡ false
    → (c == b'-') ≡ false
    → atoi (c ∷ s) ≡ pos (int_value 0 (c ∷ s))
unfolding atoi skip_spaces signed_value
atoi-plain c s space sign = rw (space, sign)

digit-IsPlain : (d : ℕ) → isdigit d ≡ true → (isspace d ≡ false) × ((d == b'-') ≡ false)
digit-IsPlain d h = (ground arith, ground arith)

-- the padding of a directive
atoi-width :
    (ds f : List ℕ) (c : ℕ) → AllDigits ds → IsPlain c → atoi (ds ++ (c ∷ f)) ≡ pos (int_value 0 ds)
atoi-width [] f c h (digit, space, sign) =
    atoi-plain c f space sign ∙ ap pos (int_value-width 0 [] f c tt digit)
atoi-width (d ∷ ds) f c (is_digit, h) (digit, space, sign) =
    let (space', sign') = digit-IsPlain d is_digit in
    atoi-plain d (ds ++ (c ∷ f)) space' sign'
    ∙ ap pos (int_value-width 0 (d ∷ ds) f c (is_digit, h) digit)

print_from-digits :
    (file : File) (padding : ℤ) (ds f : List ℕ) (c i : ℕ) (p : Printer)
    → AllDigits ds
    → print_from file (directive padding) (ds ++ (c ∷ f)) i p
      ≡ print_from file (directive padding) (c ∷ f) (i + length ds) p
unfolding print_from
print_from-digits file padding [] f c i p h =
    ap (λ j. print_from file (directive padding) (c ∷ f) j p) (omega arith)
print_from-digits file padding (d ∷ ds) f c i p (digit, h) = rw digit (
    print_from-digits file padding ds f c (i + 1) p h
    ∙ ap (λ j. print_from file (directive padding) (c ∷ f) j p)
        (let e : i + 1 + length ds ≡ i + suc (length ds) = omega arith in e))

take-whole {ℓ} : {A : Type ℓ} (xs : List A) → take (length xs) xs ≡ xs
take-whole [] = refl
take-whole (x ∷ xs) = ap (λ r. x ∷ r) (take-whole xs)

pub append_assoc {ℓ} : {A : Type ℓ} (xs ys zs : List A) → (xs ++ ys) ++ zs ≡ xs ++ (ys ++ zs)
append_assoc [] ys zs = refl
append_assoc (x ∷ xs) ys zs = ap (λ r. x ∷ r) (append_assoc xs ys zs)

pub append-nil {ℓ} : {A : Type ℓ} (xs : List A) → xs ++ [] ≡ xs
append-nil [] = refl
append-nil (x ∷ xs) = ap (λ r. x ∷ r) (append-nil xs)

-- A file that takes everything.
module _ (file : File) (takes : (out s : List ℕ) → file out s ≡ length s) where
  pub write-all : (out s : List ℕ) → write file out s ≡ (out ++ s, true)
  unfolding write
  write-all out s =
      let all : (file out s == length s) ≡ true = (==_iff _ _).1 (takes out s) in
      ap₂ (λ t b. (out ++ t, b)) (ap (λ n. take n s) (takes out s) ∙ take-whole s) all

  pub fputc-all : (out : List ℕ) (c : ℕ) → c ≢ 255 → fputc file out c ≡ (out ++ (c ∷ []), true)
  unfolding fputc
  fputc-all out c ne =
      let byte : (c == 255) ≡ false = ground arith in simp (write-all out (c ∷ []), byte) refl

  pub print_padding-all :
      (out : List ℕ) (n : ℕ) → print_padding file out n ≡ out ++ replicate n b' '
  unfolding print_padding
  print_padding-all out zero = sym (append-nil out)
  print_padding-all out (suc n) =
      ap (λ r. print_padding file r.0 n) (fputc-all out b' ' (λ e. absurd (omega (arith, e))))
      ∙ print_padding-all (out ++ (b' ' ∷ [])) n
      ∙ append_assoc out (b' ' ∷ []) (replicate n b' ')

  pub print_field-all :
      (w : ℕ) (s : List ℕ) (p : Printer)
      → print_field file (pos w) s p ≡ (
        true,
        record p {
          out = p.out ++ (replicate (w - length s) b' ' ++ s);
          plus = p.plus + (length s + (w - length s));
          symb = p.symb + 1;
        },
      )
  unfolding print_field
  print_field-all w s p =
      simp
        (
          print_padding-all p.out (w - length s),
          write-all (p.out ++ replicate (w - length s) b' ') s,
          append_assoc p.out (replicate (w - length s) b' ') s,
        )
        refl

  directive_start :
      (ds f s : List ℕ) (c i : ℕ) (p : Printer)
      → AllDigits ds
      → IsPlain c
      → print_from file (text s) (in_format ds c f) i p
        ≡ print_from file
            (directive (pos (int_value 0 ds)))
            (ds ++ (c ∷ f))
            (i + 1)
            (record p { out = p.out ++ s; symb = p.symb + 1 })
  unfolding print_from
  directive_start ds f s c i p h plain = simp (write-all p.out s, atoi-width ds f c h plain) refl

  directive_end :
      (f : List ℕ) (c i : ℕ) (padding : ℤ) (p q : Printer)
      → isdigit c ≡ false
      → convert file c padding p ≡ some (true, q)
      → print_from file (directive padding) (c ∷ f) i p ≡ print_from file (text []) f (i + 1) q
  unfolding print_from
  directive_end f c i padding p q digit e = simp (digit, e) refl

  -- A directive, from the text before it to the text behind it.
  pub directive_step :
      (ds f s : List ℕ) (c i : ℕ) (p q : Printer)
      → AllDigits ds
      → IsPlain c
      → convert file c (pos (int_value 0 ds)) (record p { out = p.out ++ s; symb = p.symb + 1 })
        ≡ some (true, q)
      → print_from file (text s) (in_format ds c f) i p
        ≡ print_from file (text []) f (i + 1 + length ds + 1) q
  directive_step ds f s c i p q h plain e =
      directive_start ds f s c i p h plain
      ∙ print_from-digits file (pos (int_value 0 ds)) ds f c (i + 1)
          (record p { out = p.out ++ s; symb = p.symb + 1 }) h
      ∙ directive_end f c (i + 1 + length ds) (pos (int_value 0 ds)) _ q plain.0 e
