-- ===== src/Process/Linked.antt =====
-- How the list of processes changes when one is added or removed.
use kyro_kernel.Base.{
  ◌==◌, ==_iff, Bool-cases, get_elem?, set, get_elem?-set_ne, get_elem?-set_self, ℕ, ◌≡◌, refl, sym,
  ap, ◌∙◌, subst, ◌≢◌, inl, inr, Option, some, some-injective, List, [], ◌∷◌, ◌++◌, arith,
}
use kyro_kernel.Table.Model.{All}
use kyro_kernel.Process.{Process, System}
use kyro_kernel.Process.Chain.{Chain, link, end}

-- No place occurs twice.
abbrev pub IsDistinct : List ℕ → Type 0
IsDistinct [] = Unit
IsDistinct (p ∷ l) = All (λ q. q ≢ p) l × IsDistinct l

-- Every process of the list is still there, with the same `next`.
abbrev pub SameNext : System → System → List ℕ → Type 0
SameNext s s' l =
    All
      (λ p.
        (proc : Process)
        → get_elem? s.processes p ≡ some proc
        → (proc' : Process) × (get_elem? s'.processes p ≡ some proc') × (proc'.next ≡ proc.next))
      l

pub SameNext-Chain :
    (s s' : System) (o : Option ℕ) (l : List ℕ) → SameNext s s' l → Chain s o l → Chain s' o l
SameNext-Chain s s' _ _ same end = end
SameNext-Chain s s' _ _ same (link {proc} {l} e c) =
    let (proc', e', n) = same.0 proc e in
    link e'
      (subst (λ (o : Option ℕ). Chain s' o l) (sym n) (SameNext-Chain s s' proc.next l same.1 c))

-- A store to a process that is not in the list.
store-SameNext :
    (s : System) (q : ℕ) (new : Process) (l : List ℕ)
    → All (λ p. p ≢ q) l
    → SameNext s (record s { processes = set s.processes q new }) l
store-SameNext s q new [] h = tt
store-SameNext s q new (p ∷ l) h = (
  λ proc e. (proc, get_elem?-set_ne s.processes q p new (λ x. h.0 (sym x)) ∙ e, refl),
  store-SameNext s q new l h.1,
)

pub store-Chain :
    (s : System) (q : ℕ) (new : Process) (o : Option ℕ) (l : List ℕ)
    → All (λ p. p ≢ q) l
    → Chain s o l
    → Chain (record s { processes = set s.processes q new }) o l
store-Chain s q new o l h c = SameNext-Chain s _ o l (store-SameNext s q new l h) c

pub Chain-head : {s : System} {o : Option ℕ} {p : ℕ} {l : List ℕ} → Chain s o (p ∷ l) → o ≡ some p
Chain-head (link e c) = refl

pub All-front : (x : ℕ) (l m : List ℕ) → All (λ y. y ≢ x) (l ++ m) → All (λ y. y ≢ x) l
All-front x [] m h = tt
All-front x (y ∷ l) m h = (h.0, All-front x l m h.1)

pub All-middle : (x : ℕ) (l : List ℕ) (p : ℕ) (m : List ℕ) → All (λ y. y ≢ x) (l ++ p ∷ m) → p ≢ x
All-middle x [] p m h = h.0
All-middle x (y ∷ l) p m h = All-middle x l p m h.1

-- A store to a process that keeps its `next`.
pub same_next-Chain :
    (s : System) (q : ℕ) (pq new : Process) (o : Option ℕ) (l : List ℕ)
    → get_elem? s.processes q ≡ some pq
    → new.next ≡ pq.next
    → Chain s o l
    → Chain (record s { processes = set s.processes q new }) o l
same_next-Chain s q pq new _ _ eq same end = end
same_next-Chain s q pq new _ _ eq same (link {p} {proc} {l} e c) = elim (Bool-cases (p == q)) [
  | inl at_q ↦
      let at : p ≡ q = (==_iff p q).0 at_q in
      let one : proc ≡ pq = some-injective _ _ (sym e ∙ ap (get_elem? s.processes) at ∙ eq) in
      link {proc = new}
        (ap (get_elem? (set s.processes q new)) at ∙ get_elem?-set_self s.processes q new eq)
        (subst (λ (n : Option ℕ). Chain (record s { processes = set s.processes q new }) n l)
          (ap (λ (x : Process). x.next) one ∙ sym same)
          (same_next-Chain s q pq new proc.next l eq same c))
  | inr other ↦
      let ne : q ≢ p = ground arith in
      link (get_elem?-set_ne s.processes q p new ne ∙ e)
        (same_next-Chain s q pq new proc.next l eq same c)
]
