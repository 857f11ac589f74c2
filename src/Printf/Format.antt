-- ===== src/Printf/Format.antt =====
-- What `printf` makes of a format, and that `vsprintf` stores what `printf` prints.
use kyro_kernel.Base.{
  ◌==◌, Bool-cases, ◌>>=◌, length, drop, length-append, length-drop, ℕ, ◌+◌, ◌≤◌, ◌<◌, ◌≡◌, refl,
  ap, subst, inl, inr, false, Option, none, some, some-injective, List, [], ◌∷◌, ◌++◌, arith,
}
use mathlib.Core.Option.{some-injective}
use mathlib.Core.Path.{subst}
use kyro_kernel.CString.Copy.{stored}
use kyro_kernel.Printf.Stored.{store_directive-directive}
use kyro_kernel.Printf.{
  printf, Arg, Piece, Printed, before, put_bytes, vsprintf_loop, vsprintf, directive,
}

-- Text with no conversion in it.
abbrev pub IsPlain : List ℕ → Type 0
IsPlain [] = Unit
IsPlain (c ∷ s) = ((c == 0) ≡ false) × ((c == b'%') ≡ false) × IsPlain s

-- What the loop does behind the first byte of a plain text.
pub printf-plain_step :
    (c d : ℕ) (fs : List ℕ) (args : List Arg)
    → (c == 0) ≡ false
    → (c == b'%') ≡ false
    → printf (c ∷ d ∷ fs) args ≡ before (c ∷ []) 1 (printf (d ∷ fs) args)
unfolding printf
printf-plain_step c d fs args e f = rw (e, f)

-- A format without `%` is printed as it is, and each byte counts one.
pub printf-plain :
    (s : List ℕ) (args : List Arg) → IsPlain s → printf (s ++ 0 ∷ []) args ≡ some (s, length s)
printf-plain [] args h = unfold printf in refl
printf-plain (c ∷ []) args h = unfold printf in rw (h.0, h.1)
printf-plain (c ∷ d ∷ s) args h =
    rw (printf-plain_step c d (s ++ 0 ∷ []) args h.0 h.1, printf-plain (d ∷ s) args h.2)
      (ap (λ (n : ℕ). some (c ∷ d ∷ s, n)) (omega arith))

-- A format that ends in a lone `%`, behind text without a conversion, is read past its end: the
-- terminator is taken for the conversion, and the loop goes on behind it.
printf-trailing_percent :
    (s : List ℕ) (args : List Arg) → IsPlain s → printf (s ++ b'%' ∷ 0 ∷ []) args ≡ none
printf-trailing_percent [] args h = unfold printf in refl
printf-trailing_percent (c ∷ []) args h =
    rw (printf-plain_step c b'%' (0 ∷ []) args h.0 h.1) (unfold printf in refl)
printf-trailing_percent (c ∷ d ∷ s) args h =
    rw
      (
        printf-plain_step c d (s ++ b'%' ∷ 0 ∷ []) args h.0 h.1,
        printf-trailing_percent (d ∷ s) args h.2,
      )
      refl

before-eq-some :
    (o : List ℕ) (k : ℕ) (r : Option Printed) {p : Printed}
    → before o k r ≡ some p
    → (q : Printed) × (r ≡ some q) × ((o ++ q.0, k + q.1) ≡ p)
before-eq-some o k none h = cc
before-eq-some o k (some q) h = (q, refl, some-injective _ _ h)

put_bytes-drop :
    (bs dest : List ℕ) → length bs ≤ length dest → put_bytes dest bs ≡ some (drop (length bs) dest)
unfolding put_bytes
put_bytes-drop [] [] h = refl
put_bytes-drop [] (d ∷ ds) h = refl
put_bytes-drop (b ∷ bs) [] h = absurd (omega arith)
put_bytes-drop (b ∷ bs) (d ∷ ds) h = put_bytes-drop bs ds (omega arith)

stored-append : (o t dest : List ℕ) → o ++ stored t (drop (length o) dest) ≡ stored (o ++ t) dest
stored-append [] t dest = refl
stored-append (x ∷ o) t [] = ap (◌∷◌ x) (nil o)
  where
    nil : (o : List ℕ) → o ++ stored t [] ≡ stored (o ++ t) []
    nil [] = refl
    nil (y ∷ o) = ap (◌∷◌ y) (nil o)
stored-append (x ∷ o) t (d ∷ dest) = ap (◌∷◌ x) (stored-append o t dest)

-- What the destination is to hold when `printf` has printed `p`.
abbrev pub Stores : List ℕ → Printed → Option Printed → Type 0
Stores dest p r = length p.0 < length dest → r ≡ some (stored p.0 dest, p.1)

-- One piece stored, then the rest.
Stores-put :
    (o : List ℕ) (k : ℕ) (dest : List ℕ) (q : Printed) (rest : List ℕ → Option Printed)
    → Stores (drop (length o) dest) q (rest (drop (length o) dest))
    → Stores dest (o ++ q.0, k + q.1) (put_bytes dest o >>= λ dest'. before o k (rest dest'))
Stores-put o k dest q rest ih room =
    let e = ih (omega (arith, length-append o q.0, length-drop (length o) dest)) in
    rw (put_bytes-drop o dest (omega (arith, length-append o q.0)), e)
      (ap (λ (t : List ℕ). some (t, k + q.1)) (stored-append o q.0 dest))

Stores-before :
    (o : List ℕ) (k : ℕ) (dest : List ℕ) (r : Option Printed) (rest : List ℕ → Option Printed)
    {p : Printed}
    → before o k r ≡ some p
    → ((q : Printed) → r ≡ some q → Stores (drop (length o) dest) q (rest (drop (length o) dest)))
    → Stores dest p (put_bytes dest o >>= λ dest'. before o k (rest dest'))
Stores-before o k dest r rest {p} h ih =
    let (q, e, same) = before-eq-some o k r h in
    subst (λ (p : Printed). Stores dest p (put_bytes dest o >>= λ dest'. before o k (rest dest')))
      same (Stores-put o k dest q rest (ih q e))

Stores-finish :
    (dest : List ℕ) {p : Printed}
    → some ([], 0) ≡ some p
    → Stores dest p (put_bytes dest (0 ∷ []) >>= λ dest'. some (0 ∷ dest', 0))
unfolding put_bytes
Stores-finish [] h room = absurd (omega arith)
Stores-finish (d ∷ ds) {p} h room = rw (← some-injective _ _ h)

-- Stores-before for a conversion, which may fault.
Stores-directive :
    (dest : List ℕ) (m : Option Piece) (r : List Arg → Option Printed)
    (rest : List Arg → List ℕ → Option Printed) {p : Printed}
    → (m >>= λ x. before x.out x.count (r x.args)) ≡ some p
    → ((args : List Arg) (dest' : List ℕ) (q : Printed)
        → r args ≡ some q
        → Stores dest' q (rest args dest'))
    → Stores dest p
        (m >>= λ x. put_bytes dest x.out >>= λ dest'. before x.out x.count (rest x.args dest'))
Stores-directive dest none r rest h ih = cc
Stores-directive dest (some x) r rest h ih =
    Stores-before x.out x.count dest (r x.args) (rest x.args) h (λ q e. ih x.args _ q e)

vsprintf_loop-Stores :
    (fs : List ℕ) (args : List Arg) (dest : List ℕ) (p : Printed)
    → printf fs args ≡ some p
    → Stores dest p (vsprintf_loop dest fs args)
unfolding printf vsprintf_loop put_bytes
vsprintf_loop-Stores [] args dest p h = cc
vsprintf_loop-Stores (c ∷ []) args [] p h = λ room. absurd (omega arith)
vsprintf_loop-Stores (c ∷ []) args (d ∷ ds) p h = elim (Bool-cases (c == 0)) [
  | inl e ↦ rw e (Stores-finish (d ∷ ds) (rw e at h))
  | inr e ↦ let fault : none ≡ some p = rw e at h in absurd (cc)
]
vsprintf_loop-Stores (c ∷ d ∷ fs) args dest p h = elim (Bool-cases (c == 0)) [
  | inl e ↦ rw e (Stores-finish dest (rw e at h))
  | inr e ↦ elim (Bool-cases (c == b'%')) [
    | inl f ↦
        rw (e, f, store_directive-directive d args)
          (Stores-directive dest (directive d args) (printf fs)
            (λ args' dest'. vsprintf_loop dest' fs args') (rw (e, f) at h)
            (λ args' dest' q g. vsprintf_loop-Stores fs args' dest' q g))
    | inr f ↦
        rw (e, f)
          (Stores-before (c ∷ []) 1 dest (printf (d ∷ fs) args)
            (λ dest'. vsprintf_loop dest' (d ∷ fs) args) (rw (e, f) at h)
            (λ q g. vsprintf_loop-Stores (d ∷ fs) args _ q g))
  ]
]

-- Where `printf` prints some bytes, `vsprintf` with a destination that has room for them and a NUL
-- stores the same bytes and a NUL, leaves the rest of the destination, and returns the same count.
pub vsprintf-printf :
    (dest fs : List ℕ) (args : List Arg) {p : Printed}
    → printf fs args ≡ some p
    → length p.0 < length dest
    → vsprintf dest fs args ≡ some (stored p.0 dest, p.1)
unfolding vsprintf
vsprintf-printf dest fs args {p} h room = vsprintf_loop-Stores fs args dest p h room
