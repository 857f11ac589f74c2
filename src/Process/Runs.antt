-- ===== src/Process/Runs.antt =====
-- The list of processes stays in order under every operation, and the current process stays in it.
pub mod Steps
use kyro_kernel.Base.{
  length, length-append, ℕ, ◌+◌, ◌≤◌, ◌≡◌, refl, sym, ap, subst, ◌≢◌, ◌⊎◌, inl, inr, Option, none,
  some, List, [], ◌∷◌, ◌++◌, arith,
}
use kyro_kernel.Table.Model.{All}
use kyro_kernel.Process.{System, schedule}
use kyro_kernel.Process.Chain.{Chain}
use kyro_kernel.Process.Linked.{IsDistinct, All-middle}
use kyro_kernel.Process.Schedule.{Picks, Turned, schedule-round_robin, this, later}

pub data Has (p : ℕ) : List ℕ → Type 0 where
  first : {l : List ℕ} → Has p (p ∷ l)
  behind : {q : ℕ} {l : List ℕ} → Has p l → Has p (q ∷ l)

Has-split : {p : ℕ} {l : List ℕ} → Has p l → (b : List ℕ) × (a : List ℕ) × (l ≡ b ++ p ∷ a)
Has-split {p} (first {l}) = ([], l, refl)
Has-split (behind {q} h) = let (b, a, e) = Has-split h in (q ∷ b, a, ap (◌∷◌ q) e)

pub Has-middle : (p : ℕ) (b a : List ℕ) → Has p (b ++ p ∷ a)
Has-middle p [] a = first
Has-middle p (q ∷ b) a = behind (Has-middle p b a)

Has-append : (p : ℕ) (b a : List ℕ) → Has p (b ++ a) → Has p b ⊎ Has p a
Has-append p [] a h = inr h
Has-append p (q ∷ b) a first = inl first
Has-append p (q ∷ b) a (behind h) = elim (Has-append p b a h) [
  | inl l ↦ inl (behind l)
  | inr r ↦ inr r
]

Has-left : (p : ℕ) (b a : List ℕ) → Has p b → Has p (b ++ a)
Has-left p _ a first = first
Has-left p _ a (behind {q} {l} h) = behind (Has-left p l a h)

Has-right : (p : ℕ) (b a : List ℕ) → Has p a → Has p (b ++ a)
Has-right p [] a h = h
Has-right p (q ∷ b) a h = behind (Has-right p b a h)

-- What the scheduler searches is the list without the current process, in another order.
Has-turn : (p cur : ℕ) (b a : List ℕ) → Has p (a ++ b) → Has p (b ++ cur ∷ a)
Has-turn p cur b a h = elim (Has-append p a b h) [
  | inl l ↦ Has-right p b (cur ∷ a) (behind l)
  | inr r ↦ Has-left p b (cur ∷ a) r
]

Picks-Has : {s : System} {l : List ℕ} {n : ℕ} → Picks s l (some n) → Has n l
Picks-Has (this e) = first
Picks-Has (later e p) = behind (Picks-Has p)

pub IsDistinct-before : (p : ℕ) (b a : List ℕ) → IsDistinct (b ++ p ∷ a) → All (λ q. q ≢ p) b
IsDistinct-before p [] a d = tt
IsDistinct-before p (x ∷ b) a d = (λ e. All-middle x b p a d.0 (sym e), IsDistinct-before p b a d.1)

pub IsDistinct-after : (p : ℕ) (b a : List ℕ) → IsDistinct (b ++ p ∷ a) → All (λ q. q ≢ p) a
IsDistinct-after p [] a d = d.0
IsDistinct-after p (x ∷ b) a d = IsDistinct-after p b a d.1

All-drop : (x p : ℕ) (b a : List ℕ) → All (λ q. q ≢ x) (b ++ p ∷ a) → All (λ q. q ≢ x) (b ++ a)
All-drop x p [] a h = h.1
All-drop x p (y ∷ b) a h = (h.0, All-drop x p b a h.1)

pub IsDistinct-drop : (p : ℕ) (b a : List ℕ) → IsDistinct (b ++ p ∷ a) → IsDistinct (b ++ a)
IsDistinct-drop p [] a d = d.1
IsDistinct-drop p (x ∷ b) a d = (All-drop x p b a d.0, IsDistinct-drop p b a d.1)

Has-tail : (p q : ℕ) (a : List ℕ) → Has q (p ∷ a) → q ≢ p → Has q a
Has-tail p q a first ne = absurd (ne refl)
Has-tail p q a (behind h) ne = h

pub Has-drop : (p q : ℕ) (b a : List ℕ) → Has q (b ++ p ∷ a) → q ≢ p → Has q (b ++ a)
Has-drop p q b a h ne = elim (Has-append q b (p ∷ a) h) [
  | inl l ↦ Has-left q b a l
  | inr r ↦ Has-right q b a (Has-tail p q a r ne)
]

-- The processes are `l`, each once, and one of them is the current one.
pub record Runs (s : System) (l : List ℕ) : Type 0 where
  pub chain : Chain s s.process_list l
  pub distinct : IsDistinct l
  pub cur : ℕ
  pub current : s.current_process ≡ some cur
  pub member : Has cur l

-- The outcome of an operation that returns.
abbrev pub RunsOn : Option System → List ℕ → Type 0
RunsOn r l = (s' : System) × (r ≡ some s') × Runs s' l

Turned-Runs :
    (s : System) (cur : ℕ) (l b a : List ℕ) (o : Option ℕ) (r : Option System)
    → Runs s l
    → l ≡ b ++ cur ∷ a
    → Picks s (a ++ b) o
    → Turned s cur o r
    → RunsOn r l
Turned-Runs s cur l b a none r v e p t = (s, t, v)
Turned-Runs s cur l b a (some n) r v e p (s', run, sw) = (
  s',
  run,
  record {
    chain =
        subst (λ (o : Option ℕ). Chain s' o l) (sym sw.same_list)
          (sw.chains s.process_list l v.chain);
    distinct = v.distinct;
    cur = n;
    current = sw.current;
    member = subst (Has n) (sym e) (Has-turn n cur b a (Picks-Has p));
  },
)

pub length-around :
    (l b : List ℕ) (cur : ℕ) (a : List ℕ) → l ≡ b ++ cur ∷ a → length a + length b + 1 ≡ length l
length-around l b cur a e = omega (arith, ap length e, length-append b (cur ∷ a))

-- With fuel for the whole list, `schedule` returns, and the list and its order stay.
pub schedule-Runs :
    (s : System) (fuel : ℕ) (l : List ℕ) → Runs s l → length l ≤ fuel → RunsOn (schedule fuel s) l
schedule-Runs s fuel l v h =
    let (b, a, e) = Has-split v.member in
    let c = subst (Chain s s.process_list) e v.chain in
    let d = subst IsDistinct e v.distinct in
    let (o, p, t) =
      schedule-round_robin s v.cur fuel b a v.current c (IsDistinct-before v.cur b a d)
        (IsDistinct-after v.cur b a d) (omega (arith, length-around l b v.cur a e)) in
    Turned-Runs s v.cur l b a o _ v e p t
