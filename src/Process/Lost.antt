-- ===== src/Process/Lost.antt =====
-- The scheduler when the current process is not in the list.
use kyro_kernel.Base.{
  ◌==◌, ◌>>=◌, get_elem?, ℕ, zero, suc, ◌≡◌, refl, ap, ◌∙◌, subst, ◌≢◌, false, Option, none, some,
  List, [], ◌∷◌, arith,
}
use kyro_kernel.Table.Model.{All}
use kyro_kernel.Process.{
  Search, found, on, search_turn, Process, System, is_ready, or_first, find_ready, schedule,
  turn_from,
}
use kyro_kernel.Process.Chain.{Chain, link, end}

-- The search goes on at `p`.
abbrev pub IsPassed : System → ℕ → ℕ → Type 0
IsPassed s cur p =
    (p ≢ cur)
    × ((proc : Process) → get_elem? s.processes p ≡ some proc → is_ready proc.state ≡ false)

Chain-end : {s : System} {o : Option ℕ} → Chain s o [] → o ≡ none
Chain-end end = refl

Chain-first : {s : System} {o : Option ℕ} {p : ℕ} {l : List ℕ} → Chain s o (p ∷ l) → o ≡ some p
Chain-first (link e c) = refl

-- The search after so many turns, if it has not ended before.
pub searched : ℕ → ℕ → Option ℕ → System → Option Search
unfolding search_turn
searched zero cur next s = some (on next)
searched (suc n) cur next s =
    search_turn cur next s >>= λ t. elim t [ found r ↦ some (found r) | on m ↦ searched n cur m s ]

module _ (s : System) (cur x : ℕ) (l : List ℕ) (start : Chain s s.process_list (x ∷ l))
    (all : All (IsPassed s cur) (x ∷ l)) where
  -- The search is at a process that it passes, and so are those behind it.
  Stands : ℕ → Type 0
  Stands p = (m : List ℕ) × Chain s (some p) (p ∷ m) × All (IsPassed s cur) (p ∷ m)

  -- Behind NULL the search is at the start of the list.
  onward :
      (o : Option ℕ) (m : List ℕ)
      → Chain s o m
      → All (IsPassed s cur) m
      → (q : ℕ) × (or_first o s ≡ some q) × Stands q
  unfolding Stands
  onward o [] c h = (
    x,
    ap (λ (r : Option ℕ). or_first r s) (Chain-end c) ∙ Chain-first start,
    (l, subst (λ (r : Option ℕ). Chain s r (x ∷ l)) (Chain-first start) start, all),
  )
  onward o (z ∷ m) c h = (
    z,
    ap (λ (r : Option ℕ). or_first r s) (Chain-first c),
    (m, subst (λ (r : Option ℕ). Chain s r (z ∷ m)) (Chain-first c) c, h),
  )

  search_turn-on :
      (o : Option ℕ) (p : ℕ) (m : List ℕ)
      → Chain s o (p ∷ m)
      → All (IsPassed s cur) (p ∷ m)
      → (q : ℕ) × (search_turn cur o s ≡ some (on (some q))) × Stands q
  unfolding Stands search_turn
  search_turn-on _ p m (link {proc} e c) h =
      let idle : is_ready proc.state ≡ false = h.0.1 proc e in
      let other : (p == cur) ≡ false = ground (arith, h.0.0) in
      let (q, there, stands) = onward proc.next m c h.1 in
      (q, rw (e, idle, other, there) refl, stands)

  searched-on : (n p : ℕ) → Stands p → (q : ℕ) × (searched n cur (some p) s ≡ some (on (some q)))
  unfolding Stands searched
  searched-on zero p (m, c, h) = (p, refl)
  searched-on (suc n) p (m, c, h) =
      let (q, run, h') = search_turn-on (some p) p m c h in
      let (r, rest) = searched-on n q h' in (r, rw run rest)

  find_ready-lost : (fuel p : ℕ) → Stands p → find_ready fuel cur (some p) s ≡ none
  unfolding Stands find_ready
  find_ready-lost zero p (m, c, h) = refl
  find_ready-lost (suc fuel) p (m, c, h) =
      let (q, run, h') = search_turn-on (some p) p m c h in rw run (find_ready-lost fuel q h')

  -- A current process that is not in the list, and leads into it, when no process of the list is
  -- ready: the loop of `schedule` never ends. It reads nothing that is not there: after any number
  -- of turns it stands at a process. So `schedule` does not return, whatever the fuel.
  pub schedule-lost :
      (n fuel : ℕ) (pc : Process) (m : List ℕ)
      → s.current_process ≡ some cur
      → get_elem? s.processes cur ≡ some pc
      → Chain s pc.next m
      → All (IsPassed s cur) m
      → ((p : ℕ) × (searched n cur (or_first pc.next s) s ≡ some (on (some p))))
        × (schedule fuel s ≡ none)
  unfolding schedule turn_from
  schedule-lost n fuel pc m here e c h =
      let (p, first, stands) = onward pc.next m c h in
      let (q, run) = searched-on n p stands in
      (
        (q, rw first run),
        ap (λ (o : Option ℕ). turn_from o fuel s) here
            ∙ rw (e, first, find_ready-lost fuel p stands) refl,
      )
