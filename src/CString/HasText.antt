-- ===== src/CString/HasText.antt =====
-- The text of a buffer as a relation, for induction.
use kyro_kernel.Base.{
  ◌==◌, Bool-cases, length, set, take, drop, ℕ, zero, suc, ◌≤◌, ◌<◌, ◌≡◌, refl, subst, inl, inr,
  true, false, Option, none, some, some-injective, List, [], ◌∷◌, ◌++◌, arith,
}
use mathlib.Core.Option
use mathlib.Core.Option.{some-injective}
use mathlib.Core.Path.{subst}
use kyro_kernel.CString.{text}

pub data HasText : List ℕ → List ℕ → Type 0 where
  finish : {c : ℕ} {rest : List ℕ} → (c == 0) ≡ true → HasText (c ∷ rest) []
  more : {c : ℕ} {cs s : List ℕ} → (c == 0) ≡ false → HasText cs s → HasText (c ∷ cs) (c ∷ s)

HasText-cons :
    (c : ℕ) (cs s : List ℕ) (o : Option (List ℕ))
    → ((t : List ℕ) → o ≡ some t → HasText cs t)
    → (c == 0) ≡ false
    → Option.map (◌∷◌ c) o ≡ some s
    → HasText (c ∷ cs) s
HasText-cons c cs s none h e p = cc
HasText-cons c cs s (some t) h e p =
    subst (HasText (c ∷ cs)) (some-injective _ _ p) (more e (h t refl))

pub HasText-text : (b : List ℕ) {s : List ℕ} → text b ≡ some s → HasText b s
unfolding text
HasText-text [] h = cc
HasText-text (c ∷ cs) {s} h = elim (Bool-cases (c == 0)) [
  | inl e ↦ subst (HasText (c ∷ cs)) (some-injective _ _ (rw e at h)) (finish e)
  | inr e ↦ HasText-cons c cs s (text cs) (λ t p. HasText-text cs p) e (rw e at h)
]

pub text_of_HasText : {b s : List ℕ} → HasText b s → text b ≡ some s
unfolding text
text_of_HasText (finish e) = rw e
text_of_HasText (more e h) = rw (e, text_of_HasText h)

-- The text and its NUL lie inside the buffer.
pub length-lt_of_HasText : {b s : List ℕ} → HasText b s → length s < length b
length-lt_of_HasText (finish e) = omega arith
length-lt_of_HasText (more e h) = omega (arith, length-lt_of_HasText h)

-- A text and its NUL, whatever stands behind them.
pub HasText-append : {b s : List ℕ} → HasText b s → (rest : List ℕ) → HasText (s ++ 0 ∷ rest) s
HasText-append (finish e) rest = finish refl
HasText-append (more e h) rest = more e (HasText-append h rest)

-- A store behind the NUL does not change the text.
pub HasText-set : {b s : List ℕ} (n v : ℕ) → HasText b s → length s < n → HasText (set b n v) s
HasText-set zero v h lt = absurd (omega arith)
HasText-set (suc n) v (finish e) lt = finish e
HasText-set (suc n) v (more e h) lt = more e (HasText-set n v h (omega arith))

-- The first `n` bytes of a longer text, closed by a NUL.
pub HasText-cut :
    {b s : List ℕ} (n : ℕ) (c : List ℕ)
    → HasText b s
    → n ≤ length s
    → n < length c
    → HasText (set (take n s ++ drop n c) n 0) (take n s)
HasText-cut n [] h le lt = absurd (omega arith)
HasText-cut zero (x ∷ c) h le lt = finish refl
HasText-cut (suc n) (x ∷ c) (finish e) le lt = absurd (omega arith)
HasText-cut (suc n) (x ∷ c) (more e h) le lt =
    more e (HasText-cut n c h (omega arith) (omega arith))
