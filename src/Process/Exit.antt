-- ===== src/Process/Exit.antt =====
-- What becomes of a process that exits.
use kyro_kernel.Base.{
  ◌==◌, if◌then◌else◌, ==_iff, Bool-cases, length, get_elem?, set, get_elem?-set_ne,
  get_elem?-set_self, ℕ, ◌+◌, ◌<◌, ◌≡◌, refl, sym, ap, ◌∙◌, subst, ◌≢◌, inl, inr, true, false, ◌&&◌,
  Option, none, some, some-injective, List, ◌∷◌, ◌++◌, arith,
}
use kyro_kernel.Table.Model.{All}
use kyro_kernel.Process.Schedule.{Turned, schedule-round_robin, Picks}
use kyro_kernel.Process.{
  exit_from, State, ready, Process, System, with_state, set_state, wake_parent, is_blocked,
  schedule, exit, terminated,
}
use kyro_kernel.Process.Linked.{same_next-Chain}
use kyro_kernel.Process.Chain.{Chain}

abbrev pub changed : System → ℕ → State → Process → System
changed s p st proc = record s { processes = set s.processes p (with_state st proc) }

-- The state of a process is not part of the list.
pub changed-Chain :
    (s : System) (p : ℕ) (st : State) (proc : Process) (o : Option ℕ) (l : List ℕ)
    → get_elem? s.processes p ≡ some proc
    → Chain s o l
    → Chain (changed s p st proc) o l
changed-Chain s p st proc o l e c = same_next-Chain s p proc (with_state st proc) o l e refl c

-- The system after a call that changes states only.
pub record Kept (s : System) (o : Option ℕ) (l : List ℕ) (r : Option System) : Type 0 where
  pub s' : System
  pub run : r ≡ some s'
  pub current : s'.current_process ≡ s.current_process
  pub list : s'.process_list ≡ s.process_list
  pub chain : Chain s' o l

set_state-Kept :
    (s : System) (p : ℕ) (st : State) (proc : Process) (o : Option ℕ) (l : List ℕ)
    → get_elem? s.processes p ≡ some proc
    → Chain s o l
    → Kept s o l (set_state p st s)
set_state-Kept s p st proc o l e c = record {
  s' = changed s p st proc;
  run = unfold set_state in rw e refl;
  current = refl;
  list = refl;
  chain = changed-Chain s p st proc o l e c;
}

-- A parent is NULL or a process.
abbrev pub IsParent : System → Option ℕ → Type 0
IsParent s none = Unit
IsParent s (some p) = (proc : Process) × (get_elem? s.processes p ≡ some proc)

pub wake_parent-Kept :
    (s : System) (parent o : Option ℕ) (l : List ℕ)
    → IsParent s parent
    → Chain s o l
    → Kept s o l (wake_parent parent s)
unfolding wake_parent
wake_parent-Kept s none o l h c = record {
  s' = s;
  run = refl;
  current = refl;
  list = refl;
  chain = c;
}
wake_parent-Kept s (some p) o l (proc, e) c = elim (Bool-cases (is_blocked proc.state)) [
  | inl sleeping ↦
      let k = set_state-Kept s p ready proc o l e c in
      record {
        s' = k.s';
        run = rw (e, sleeping) k.run;
        current = k.current;
        list = k.list;
        chain = k.chain;
      }
  | inr awake ↦ record { s' = s; run = rw (e, awake) refl; current = refl; list = refl; chain = c }
]

-- The list of a system does not name a process twice.
pub record IsListed (s : System) (cur : ℕ) (before after : List ℕ) : Type 0 where
  pub current : s.current_process ≡ some cur
  pub chain : Chain s s.process_list (before ++ cur ∷ after)
  pub before_ne : All (λ p. p ≢ cur) before
  pub after_ne : All (λ p. p ≢ cur) after

-- A parent that is blocked is woken up.
abbrev pub woken : Option ℕ → ℕ → Process → Process
woken none p proc = proc
woken (some q) p proc = if p == q && is_blocked proc.state then with_state ready proc else proc

-- The system that `exit` leaves to the scheduler: the process is terminated, its parent woken up,
-- and the other processes, the list and the current process are as before.
pub record Left (s : System) (cur : ℕ) (pc : Process) (parent : Option ℕ) (s2 : System)
    : Type 0 where
  pub own : get_elem? s2.processes cur ≡ some (with_state terminated pc)
  pub others :
      (p : ℕ) (proc : Process)
      → p ≢ cur
      → get_elem? s.processes p ≡ some proc
      → get_elem? s2.processes p ≡ some (woken parent p proc)
  pub current : s2.current_process ≡ s.current_process
  pub list : s2.process_list ≡ s.process_list

module _ (s : System) (cur : ℕ) (pc : Process) (e : get_elem? s.processes cur ≡ some pc) where
  own_block :
      get_elem? (changed s cur terminated pc).processes cur ≡ some (with_state terminated pc)
  own_block = get_elem?-set_self s.processes cur (with_state terminated pc) e

  other_block :
      (p : ℕ)
      → p ≢ cur
      → get_elem? (changed s cur terminated pc).processes p ≡ get_elem? s.processes p
  other_block p ne = get_elem?-set_ne s.processes cur p _ (λ q. ne (sym q))

  -- A process that is blocked is not the one that exits.
  blocked-ne :
      (p : ℕ) (proc : Process)
      → get_elem? (changed s cur terminated pc).processes p ≡ some proc
      → is_blocked proc.state ≡ true
      → p ≢ cur
  blocked-ne p proc here sleeping q =
      let not_blocked : is_blocked proc.state ≡ false =
        ap (λ (o : Option Process). elim o [ none ↦ false | some x ↦ is_blocked x.state ])
          (sym here
            ∙ ap (λ (r : ℕ). get_elem? (changed s cur terminated pc).processes r) q
            ∙ own_block) in
      cc

  woken_block :
      (p q : ℕ) (proc x : Process)
      → get_elem? (changed s cur terminated pc).processes p ≡ some proc
      → is_blocked proc.state ≡ true
      → q ≢ cur
      → get_elem? s.processes q ≡ some x
      → get_elem? (changed (changed s cur terminated pc) p ready proc).processes q
        ≡ some (woken (some p) q x)
  woken_block p q proc x here sleeping ne was = elim (Bool-cases (q == p)) [
    | inl same ↦
        let place : q ≡ p = (==_iff q p).0 same in
        let now = other_block q ne in
        let block : x ≡ proc = cc in
        let asleep : is_blocked x.state ≡ true =
          ap (λ (y : Process). is_blocked y.state) block ∙ sleeping in
        rw (same, asleep)
          (ap
              (λ (r : ℕ).
                get_elem? (changed (changed s cur terminated pc) p ready proc).processes r)
              place
            ∙ get_elem?-set_self (changed s cur terminated pc).processes p _ here
            ∙ ap (λ (y : Process). some (with_state ready y)) (sym block))
    | inr apart ↦
        let place : p ≢ q = ground (arith, apart) in
        rw apart (
          get_elem?-set_ne (changed s cur terminated pc).processes p q _ place
          ∙ other_block q ne
          ∙ was)
  ]

  kept_block :
      (p q : ℕ) (proc x : Process)
      → get_elem? (changed s cur terminated pc).processes p ≡ some proc
      → is_blocked proc.state ≡ false
      → q ≢ cur
      → get_elem? s.processes q ≡ some x
      → get_elem? (changed s cur terminated pc).processes q ≡ some (woken (some p) q x)
  kept_block p q proc x here awake ne was = elim (Bool-cases (q == p)) [
    | inl same ↦
        let place : q ≡ p = (==_iff q p).0 same in
        let now = other_block q ne in
        let block : x ≡ proc = cc in
        let up : is_blocked x.state ≡ false =
          ap (λ (y : Process). is_blocked y.state) block ∙ awake in
        rw (same, up) (now ∙ was)
    | inr apart ↦ rw apart (other_block q ne ∙ was)
  ]

  wake_parent-Left :
      (parent : Option ℕ)
      → IsParent (changed s cur terminated pc) parent
      → (s2 : System) × (wake_parent parent (changed s cur terminated pc) ≡ some s2)
        × Left s cur pc parent s2
  unfolding wake_parent set_state
  wake_parent-Left none h = (
    changed s cur terminated pc,
    refl,
    record {
      own = own_block;
      others = λ p proc ne was. other_block p ne ∙ was;
      current = refl;
      list = refl;
    },
  )
  wake_parent-Left (some p) (proc, here) = elim (Bool-cases (is_blocked proc.state)) [
    | inl sleeping ↦ (
      changed (changed s cur terminated pc) p ready proc,
      rw (here, sleeping) refl,
      record {
        own =
            get_elem?-set_ne (changed s cur terminated pc).processes p cur _
              (blocked-ne p proc here sleeping)
            ∙ own_block;
        others = λ q x ne was. woken_block p q proc x here sleeping ne was;
        current = refl;
        list = refl;
      },
    )
    | inr awake ↦ (
      changed s cur terminated pc,
      rw (here, awake) refl,
      record {
        own = own_block;
        others = λ q x ne was. kept_block p q proc x here awake ne was;
        current = refl;
        list = refl;
      },
    )
  ]

pub exit-run :
    (s : System) (cur fuel : ℕ) (pc : Process) (s2 : System)
    → s.current_process ≡ some cur
    → get_elem? s.processes cur ≡ some pc
    → wake_parent pc.parent (changed s cur terminated pc) ≡ some s2
    → exit fuel s ≡ schedule fuel s2
exit-run s cur fuel pc s2 c e w =
    unfold exit exit_from set_state in
    ap (λ (o : Option ℕ). exit_from o fuel s) c
    ∙ rw (e, get_elem?-set_self s.processes cur (with_state terminated pc) e, w) refl

-- When the current process stands once in the list, its parent is NULL or a process, and the fuel
-- is at least the length of the list, `exit` returns. It marks the process as terminated, wakes up
-- the parent if that is blocked, and does what `schedule` does from there. So if nobody is ready
-- the process stays the current one, terminated; if another process is picked, the one that has
-- exited is made ready again.
pub exit-ready :
    (s : System) (cur fuel : ℕ) (before after : List ℕ) (pc : Process)
    → IsListed s cur before after
    → get_elem? s.processes cur ≡ some pc
    → IsParent (changed s cur terminated pc) pc.parent
    → length after + length before < fuel
    → (s2 : System) × Left s cur pc pc.parent s2
      × (o : Option ℕ) × Picks s2 (after ++ before) o
      × Turned s2 cur o (exit fuel s)
exit-ready s cur fuel before after pc v e parent h =
    let w =
      wake_parent-Kept (changed s cur terminated pc) pc.parent s.process_list
        (before ++ cur ∷ after) parent
        (changed-Chain s cur terminated pc s.process_list (before ++ cur ∷ after) e v.chain) in
    let (s2, woke, left) = wake_parent-Left s cur pc e pc.parent parent in
    let chain =
      subst (λ (q : Option ℕ). Chain w.s' q (before ++ cur ∷ after)) (sym w.list) w.chain in
    let same : w.s' ≡ s2 = some-injective _ _ (sym w.run ∙ woke) in
    let (o, picked, turned) =
      schedule-round_robin s2 cur fuel before after (left.current ∙ v.current)
        (subst (λ (q : System). Chain q q.process_list (before ++ cur ∷ after)) same chain)
        v.before_ne v.after_ne h in
    (
      s2,
      left,
      o,
      picked,
      subst (Turned s2 cur o) (sym (exit-run s cur fuel pc s2 v.current e woke)) turned,
    )
