-- ===== src/Table/Model.antt =====
-- The arrays as lists of entries: what the two loops do to them.
use kyro_kernel.Base.{
  if◌then◌else◌, Bool-cases, ◌>>=◌, length, get_elem?, set, ℕ, zero, suc, ◌+◌, ◌≤◌, ◌<◌, ◌≡◌, refl,
  ap, ◌∙◌, subst, subst₂, inl, inr, Option, none, some, some-injective, List, [], ◌∷◌, ◌++◌, arith,
}
use mathlib.Core.Option
use kyro_kernel.CString.{text}
use kyro_kernel.CString.Compare.{same_text, same_text_iff, strcmp-branch}
use kyro_kernel.Table.{shift, find}

abbrev pub All {ℓ κ} : {A : Type ℓ} → (A → Type κ) → List A → Type κ
All P [] = Unit
All P (x ∷ xs) = P x × All P xs

module _ {A : Type 0} (P : A → Type 0) where
  pub All-get_elem? : (l : List A) (i : ℕ) {x : A} → All P l → get_elem? l i ≡ some x → P x
  All-get_elem? [] i h e = cc
  All-get_elem? (y ∷ l) zero h e = subst P (some-injective _ _ e) h.0
  All-get_elem? (y ∷ l) (suc i) h e = All-get_elem? l i h.1 e

  pub All-set : (l : List A) (i : ℕ) (x : A) → All P l → P x → All P (set l i x)
  All-set [] i x h p = tt
  All-set (y ∷ l) zero x h p = (p, h.1)
  All-set (y ∷ l) (suc i) x h p = (h.0, All-set l i x h.1 p)

-- What the entries are named, and how an element of the array stands for an entry.
module _ {E : Type 0} (name_of : E → List ℕ) where
  -- The index of the first entry of that name.
  unfoldable pub position : List ℕ → List E → Option ℕ
  position name [] = none
  position name (e ∷ es) =
      if same_text (name_of e) name then some 0 else Option.map suc (position name es)

module _ {E : Type 0} where
  unfoldable pub remove_at : ℕ → List E → List E
  remove_at i [] = []
  remove_at zero (e ∷ es) = es
  remove_at (suc i) (e ∷ es) = e ∷ remove_at i es

  pub length-remove_at :
      (i : ℕ) (es : List E) → i < length es → length (remove_at i es) + 1 ≡ length es
  unfolding remove_at
  length-remove_at i [] h = absurd (omega arith)
  length-remove_at zero (e ∷ es) h = omega arith
  length-remove_at (suc i) (e ∷ es) h = omega (arith, length-remove_at i es (omega arith))

module _ {A E : Type 0} (R : A → E → Type 0) where
  -- The first elements of the array stand for the entries.
  abbrev pub Holds : List A → List E → Type 0
  Holds l [] = Unit
  Holds [] (e ∷ es) = ⊥
  Holds (x ∷ l) (e ∷ es) = R x e × Holds l es

  pub Holds-get :
      (l : List A) (es : List E) (i : ℕ) {x : A} {e : E}
      → Holds l es
      → get_elem? l i ≡ some x
      → get_elem? es i ≡ some e
      → R x e
  Holds-get l [] i h p q = absurd (cc)
  Holds-get [] (e ∷ es) i h p q = absurd h
  Holds-get (x ∷ l) (e ∷ es) zero h p q = subst₂ R (some-injective _ _ p) (some-injective _ _ q) h.0
  Holds-get (x ∷ l) (e ∷ es) (suc i) h p q = Holds-get l es i h.1 p q

  pub Holds-set :
      (l : List A) (es : List E) (i : ℕ) (x : A) (e : E)
      → Holds l es
      → R x e
      → Holds (set l i x) (set es i e)
  Holds-set l [] i x e h r = tt
  Holds-set [] (f ∷ es) i x e h r = absurd h
  Holds-set (y ∷ l) (f ∷ es) zero x e h r = (r, h.1)
  Holds-set (y ∷ l) (f ∷ es) (suc i) x e h r = (h.0, Holds-set l es i x e h.1 r)

  -- One more element behind the entries.
  pub Holds-push :
      (l : List A) (es : List E) (x : A) (e : E)
      → length es < length l
      → Holds l es
      → R x e
      → Holds (set l (length es) x) (es ++ e ∷ [])
  Holds-push [] es x e lt h r = absurd (omega arith)
  Holds-push (y ∷ l) [] x e lt h r = (r, tt)
  Holds-push (y ∷ l) (f ∷ es) x e lt h r = (h.0, Holds-push l es x e (omega arith) h.1 r)

  pub length-le_of_Holds : (l : List A) (es : List E) → Holds l es → length es ≤ length l
  length-le_of_Holds l [] h = omega arith
  length-le_of_Holds [] (e ∷ es) h = absurd h
  length-le_of_Holds (x ∷ l) (e ∷ es) h = omega (arith, length-le_of_Holds l es h.1)

bind-cons :
    {A : Type 0} (x : A) (o : Option A) (f g : A → Option (List A))
    → ((y : A) → f y ≡ Option.map (◌∷◌ x) (g y))
    → (o >>= f) ≡ Option.map (◌∷◌ x) (o >>= g)
bind-cons x none f g h = refl
bind-cons x (some y) f g h = h y

module _ {A : Type 0} where
  -- A shift that begins behind the first element leaves it alone.
  shift-cons :
      (n j : ℕ) (x : A) (l : List A) → shift (suc j) n (x ∷ l) ≡ Option.map (◌∷◌ x) (shift j n l)
  unfolding shift
  shift-cons zero j x l = refl
  shift-cons (suc n) j x l =
      let e : suc j + 1 ≡ suc (j + 1) = omega arith in
      rw e (bind-cons x (get_elem? l (j + 1)) _ _ (λ y. shift-cons n (j + 1) x (set l j y)))

-- What a shift leaves: an array of the same size, whose elements still satisfy `P`.
pub record IsShift {A : Type 0} (P : A → Type 0) (l out : List A) : Type 0 where
  pub same_length : length out ≡ length l
  pub kept : All P out

module _ {A E : Type 0} (R : A → E → Type 0) (P : A → Type 0) where
  -- The gap is at the front.
  shift-front :
      (l : List A) (x : A) (es : List E)
      → All P (x ∷ l)
      → Holds R l es
      → (out : List A) × (shift 0 (length es) (x ∷ l) ≡ some out)
        × IsShift P (x ∷ l) out
        × Holds R out es
  unfolding shift
  shift-front l x [] all h = (x ∷ l, refl, record { same_length = refl; kept = all }, tt)
  shift-front [] x (e ∷ es) all h = absurd h
  shift-front (y ∷ l) x (e ∷ es) all h =
      let (out, run, is, rest) = shift-front l y es all.1 h.1 in
      (
        y ∷ out,
        rw (shift-cons (length es) 0 y (y ∷ l), run) refl,
        record { same_length = ap suc is.same_length; kept = (all.1.0, is.kept) },
        (h.0, rest),
      )

  -- The shift from an entry's index up to the last entry removes that entry.
  pub shift-remove_at :
      (l : List A) (es : List E) (i n : ℕ)
      → i + suc n ≡ length es
      → All P l
      → Holds R l es
      → (out : List A) × (shift i n l ≡ some out) × IsShift P l out × Holds R out (remove_at i es)
  unfolding remove_at
  shift-remove_at l [] i n e all h = absurd (omega arith)
  shift-remove_at [] (f ∷ es) i n e all h = absurd h
  shift-remove_at (x ∷ l) (f ∷ es) zero n e all h =
      let same : n ≡ length es = omega arith in rw same (shift-front l x es all h.1)
  shift-remove_at (x ∷ l) (f ∷ es) (suc i) n e all h =
      let (out, run, is, rest) = shift-remove_at l es i n (omega arith) all.1 h.1 in
      (
        x ∷ out,
        rw (shift-cons n i x l, run) refl,
        record { same_length = ap suc is.same_length; kept = (all.0, is.kept) },
        (h.0, rest),
      )

module _ {A E : Type 0} (R : A → E → Type 0) (key : A → List ℕ) (name_of : E → List ℕ)
    (reads : (x : A) (e : E) → R x e → text (key x) ≡ some (name_of e)) where
  -- The search finds the first entry of the name.
  pub find-position :
      (l : List A) (es : List E) (name : List ℕ) {s : List ℕ}
      → text name ≡ some s
      → Holds R l es
      → find key l (length es) name ≡ some (position name_of s es)
  unfolding find position
  find-position l [] name t h = refl
  find-position [] (e ∷ es) name t h = absurd h
  find-position (x ∷ l) (e ∷ es) name {s} t h =
      strcmp-branch (key x) name _ _ (reads x e h.0) t
      ∙ ground (arith, find-position l es name t h.1)

module _ {E : Type 0} (name_of : E → List ℕ) (name : List ℕ) where
  -- Entry `i` exists and bears the name.
  abbrev pub IsNamed : List E → ℕ → Type 0
  IsNamed es i = (e : E) × (get_elem? es i ≡ some e) × (name_of e ≡ name) × (i < length es)

  IsNamed-cons :
      (e : E) (es : List E) (o : Option ℕ) {i : ℕ}
      → ((j : ℕ) → o ≡ some j → IsNamed es j)
      → Option.map suc o ≡ some i
      → IsNamed (e ∷ es) i
  IsNamed-cons e es none h p = cc
  IsNamed-cons e es (some j) {i} h p =
      let (f, at, same, lt) = h j refl in
      subst (IsNamed (e ∷ es)) (some-injective _ _ p) (f, at, same, omega arith)

  -- The entry at the position that is found bears the name.
  pub position-IsNamed : (es : List E) (i : ℕ) → position name_of name es ≡ some i → IsNamed es i
  unfolding position
  position-IsNamed [] i h = cc
  position-IsNamed (e ∷ es) i h = elim (Bool-cases (same_text (name_of e) name)) [
    | inl same ↦
        subst (IsNamed (e ∷ es)) (some-injective 0 i (rw same at h))
          (e, refl, (same_text_iff (name_of e) name).0 same, omega arith)
    | inr other ↦
        IsNamed-cons e es (position name_of name es) (λ j p. position-IsNamed es j p)
          (rw other at h)
  ]
