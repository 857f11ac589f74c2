-- ===== src/Printf/Steps.antt =====
-- One step of `printf`: what a conversion puts in front of what the rest of the format prints.
use kyro_kernel.Base.{
  leb, length, ℕ, ◌^◌, ◌<◌, ◌≡◌, refl, ap, ◌∙◌, false, Option, none, some, List, [], ◌∷◌, ◌++◌,
  arith,
}
use kyro_kernel.CString.{text}
use kyro_kernel.Printf.{
  Arg, int, str, Printed, before, printf, directive, with_string, print_string, with_number, puts,
  print_signed,
}
use kyro_kernel.Printf.Number.{numeral, print_number-value}
use kyro_kernel.Printf.Format.{IsPlain, printf-plain_step}

-- `%s` with a text.
pub printf-string :
    (name s : List ℕ) (f : ℕ) (fs : List ℕ) (args : List Arg)
    → text name ≡ some s
    → printf (b'%' ∷ b's' ∷ f ∷ fs) (str (some name) ∷ args) ≡ before s 1 (printf (f ∷ fs) args)
unfolding printf directive with_string print_string puts
printf-string name s f fs args t = rw t refl

-- `%d` with the bits of a number that is not negative: its decimal digits.
pub printf-number :
    (w : ℕ) (f : ℕ) (fs : List ℕ) (args : List Arg)
    → w < 2 ^ 31
    → (ds : List ℕ) × (numeral 10 ds ≡ some w)
      × (printf (b'%' ∷ b'd' ∷ f ∷ fs) (int w ∷ args) ≡ before ds 1 (printf (f ∷ fs) args))
unfolding printf directive with_number print_signed
printf-number w f fs args h =
    let (ds, run, is, lead) = print_number-value 10 (omega arith) (omega arith) w (omega arith) in
    let positive : leb (2 ^ 31) w ≡ false = ground arith in (ds, is, rw (positive, run) refl)

before-cons :
    (c : ℕ) (s : List ℕ) (r : Option Printed)
    → before (c ∷ []) 1 (before s (length s) r) ≡ before (c ∷ s) (length (c ∷ s)) r
before-cons c s none = refl
before-cons c s (some p) = ap (λ (n : ℕ). some (c ∷ s ++ p.0, n)) (omega arith)

-- Text with no conversion in it, in front of the rest of a format.
pub printf-prefix :
    (s : List ℕ) (f : ℕ) (fs : List ℕ) (args : List Arg)
    → IsPlain s
    → printf (s ++ f ∷ fs) args ≡ before s (length s) (printf (f ∷ fs) args)
printf-prefix [] f fs args h = before-nil (printf (f ∷ fs) args)
  where
    before-nil : (r : Option Printed) → r ≡ before [] 0 r
    before-nil none = refl
    before-nil (some p) = ap (λ (n : ℕ). some (p.0, n)) (omega arith)
printf-prefix (c ∷ []) f fs args h = printf-plain_step c f fs args h.0 h.1
printf-prefix (c ∷ d ∷ s) f fs args h =
    printf-plain_step c d (s ++ f ∷ fs) args h.0 h.1
    ∙ ap (before (c ∷ []) 1) (printf-prefix (d ∷ s) f fs args h.2)
    ∙ before-cons c (d ∷ s) (printf (f ∷ fs) args)
