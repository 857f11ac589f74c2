-- ===== src/Process/Chain.antt =====
-- The list of processes, and the search along it.
use kyro_kernel.Base.{
  ◌==◌, if◌then◌else◌, ==_refl, Bool-cases, length, get_elem?, ℕ, zero, suc, ◌+◌, ◌<◌, ◌≡◌, refl,
  sym, ap, ◌∙◌, ◌≢◌, inl, inr, false, Option, none, some, List, [], ◌∷◌, ◌++◌, arith,
}
use kyro_kernel.Table.Model.{All}
use kyro_kernel.Process.{Process, System, is_ready, search_turn, find_ready, or_first}

-- The processes from a pointer on, up to NULL.
pub data Chain (s : System) : Option ℕ → List ℕ → Type 0 where
  end : Chain s none []
  link :
      {p : ℕ} {proc : Process} {l : List ℕ}
      → get_elem? s.processes p ≡ some proc
      → Chain s proc.next l
      → Chain s (some p) (p ∷ l)

-- The processes of a chain are all there, and those behind `cur` are a chain.
pub split-Chain :
    (s : System) (cur : ℕ) (before after : List ℕ) (o : Option ℕ)
    → Chain s o (before ++ cur ∷ after)
    → (pc : Process) × (get_elem? s.processes cur ≡ some pc) × Chain s pc.next after
split-Chain s cur [] after _ (link {p} {proc} e c) = (proc, e, c)
split-Chain s cur (q ∷ before) after _ (link {p} {proc} e c) =
    split-Chain s cur before after proc.next c

-- Only the blocks make the list.
pub processes-Chain :
    (s s' : System) (o : Option ℕ) (l : List ℕ)
    → s'.processes ≡ s.processes
    → Chain s o l
    → Chain s' o l
processes-Chain s s' _ _ same end = end
processes-Chain s s' _ _ same (link {p} {proc} {l} e c) =
    link (ap (λ (ps : List Process). get_elem? ps p) same ∙ e)
      (processes-Chain s s' proc.next l same c)

-- The first process that is ready, or `cur`.
unfoldable pub first_ready : System → List ℕ → ℕ → ℕ
first_ready s [] cur = cur
first_ready s (p ∷ l) cur =
    let rest = first_ready s l cur in
    elim (get_elem? s.processes p) [
      | none ↦ rest
      | some proc ↦ if is_ready proc.state then p else rest
    ]

or_first-Chain :
    {s : System} {o : Option ℕ} (cur : ℕ) (before after : List ℕ)
    → Chain s o (before ++ cur ∷ after)
    → or_first o s ≡ o
or_first-Chain cur [] after (link e c) = refl
or_first-Chain cur (q ∷ before) after (link e c) = refl

-- One turn of the loop at a process other than `cur`.
step :
    (s : System) (cur fuel p : ℕ) (proc : Process) (r : ℕ)
    → get_elem? s.processes p ≡ some proc
    → p ≢ cur
    → find_ready fuel cur (or_first proc.next s) s ≡ some (some r)
    → find_ready (suc fuel) cur (some p) s ≡ some (some (if is_ready proc.state then p else r))
unfolding find_ready search_turn
step s cur fuel p proc r e ne h =
    let other : (p == cur) ≡ false = ground arith in
    elim (Bool-cases (is_ready proc.state)) [
      | inl turn ↦ rw (e, turn) refl
      | inr not_turn ↦ rw (e, not_turn, other) h
    ]

first_ready-cons :
    (s : System) (p : ℕ) (proc : Process) (l : List ℕ) (cur : ℕ)
    → get_elem? s.processes p ≡ some proc
    → first_ready s (p ∷ l) cur ≡ (if is_ready proc.state then p else first_ready s l cur)
unfolding first_ready
first_ready-cons s p proc l cur e = rw (e, first_ready) refl

-- From the start of the list the search takes the first before `cur` that is ready, or `cur`.
find_ready-before :
    (s : System) (cur fuel : ℕ) (before after : List ℕ) (o : Option ℕ)
    → Chain s o (before ++ cur ∷ after)
    → All (λ p. p ≢ cur) before
    → length before < fuel
    → find_ready fuel cur o s ≡ some (some (first_ready s before cur))
find_ready-before s cur zero before after o c ne h = absurd (omega arith)
find_ready-before s cur (suc fuel) [] after _ (link {p} {proc} e c) ne h =
    unfold find_ready search_turn first_ready in
    rw (e, ==_refl cur)
      (elim (Bool-cases (is_ready proc.state)) [
        | inl turn ↦ rw turn refl
        | inr not_turn ↦ rw not_turn refl
      ])
find_ready-before s cur (suc fuel) (q ∷ before) after _ (link {p} {proc} e c) ne h =
    step s cur fuel q proc (first_ready s before cur) e ne.0 (
      rw (or_first-Chain cur before after c)
        (find_ready-before s cur fuel before after proc.next c ne.1 (omega arith)))
    ∙ ap (λ (r : ℕ). some (some r)) (sym (first_ready-cons s q proc before cur e))

-- Behind `cur` the search goes to the end of the list, and on from its start.
pub find_ready-first_ready :
    (s : System) (cur fuel : ℕ) (before after behind : List ℕ) (o : Option ℕ)
    → Chain s s.process_list (before ++ cur ∷ after)
    → Chain s o behind
    → All (λ p. p ≢ cur) before
    → All (λ p. p ≢ cur) behind
    → length behind + length before < fuel
    → find_ready fuel cur (or_first o s) s ≡ some (some (first_ready s (behind ++ before) cur))
find_ready-first_ready s cur fuel before after _ _ c end ne ne' h =
    find_ready-before s cur fuel before after s.process_list c ne (omega arith)
find_ready-first_ready s cur zero before after _ _ c (link e d) ne ne' h = absurd (omega arith)
find_ready-first_ready s cur (suc fuel) before after _ _ c (link {p} {proc} {l} e d) ne ne' h =
    step s cur fuel p proc (first_ready s (l ++ before) cur) e ne'.0
      (find_ready-first_ready s cur fuel before after l proc.next c d ne ne'.1 (omega arith))
    ∙ ap (λ (r : ℕ). some (some r)) (sym (first_ready-cons s p proc (l ++ before) cur e))
