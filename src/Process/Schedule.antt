-- ===== src/Process/Schedule.antt =====
-- `schedule` is round robin, and what `exit` makes of it.
use kyro_kernel.Base.{
  ◌==◌, if◌then◌else◌, ==_iff, Bool-cases, length, get_elem?, set, get_elem?-set_ne,
  get_elem?-set_self, ℕ, ◌+◌, ◌<◌, ◌≡◌, refl, sym, ap, ◌∙◌, subst, ◌≢◌, ◌⊎◌, inl, inr, true, false,
  Option, none, some, List, [], ◌∷◌, ◌++◌, arith,
}
use kyro_kernel.Table.Model.{All}
use kyro_kernel.Process.Linked.{same_next-Chain}
use kyro_kernel.Process.Chain.{
  processes-Chain, split-Chain, Chain, first_ready, find_ready-first_ready,
}
use kyro_kernel.Process.{
  State, ready, running, blocked, terminated, Process, System, is_ready, with_state, set_state,
  switch_task, take_turn, blocked, terminated, or_first, find_ready, schedule, turn_from,
}

abbrev pub state_in : Option Process → Option State
state_in none = none
state_in (some proc) = some proc.state

abbrev pub state_of : System → ℕ → Option State
state_of s p = state_in (get_elem? s.processes p)

-- Not a process that is ready.
abbrev pub IsIdle : System → ℕ → Type 0
IsIdle s p = state_of s p ≢ some ready

-- The first of the processes that is ready, if one is.
pub data Picks (s : System) : List ℕ → Option ℕ → Type 0 where
  nobody : Picks s [] none
  this : {p : ℕ} {l : List ℕ} → state_of s p ≡ some ready → Picks s (p ∷ l) (some p)
  later : {p : ℕ} {l : List ℕ} {o : Option ℕ} → IsIdle s p → Picks s l o → Picks s (p ∷ l) o

-- `cur` waits, `n` is the current process and runs, with its page directory loaded, and the other
-- processes stay as they are.
pub record Switched (s : System) (cur n : ℕ) (s' : System) : Type 0 where
  pub current : s'.current_process ≡ some n
  pub same_list : s'.process_list ≡ s.process_list
  pub picked : Process
  pub was : get_elem? s.processes n ≡ some picked
  pub runs : get_elem? s'.processes n ≡ some (with_state running picked)
  pub own_space : s'.current_directory ≡ picked.page_directory
  pub waits : state_of s' cur ≡ some ready
  pub others : (p : ℕ) → p ≢ cur → p ≢ n → get_elem? s'.processes p ≡ get_elem? s.processes p
  pub chains : (o : Option ℕ) (l : List ℕ) → Chain s o l → Chain s' o l

-- The outcome of a call of the scheduler: nothing, or a switch.
abbrev pub Turned : System → ℕ → Option ℕ → Option System → Type 0
Turned s cur none r = r ≡ some s
Turned s cur (some n) r = (s' : System) × (r ≡ some s') × Switched s cur n s'

ready-is_ready : (st : State) → is_ready st ≡ true → st ≡ ready
ready-is_ready running h = cc
ready-is_ready ready h = refl
ready-is_ready blocked h = cc
ready-is_ready terminated h = cc

-- A switch to a process that is ready.
take_turn-Switched :
    (s : System) (cur n : ℕ) (pc pn : Process)
    → s.current_process ≡ some cur
    → get_elem? s.processes cur ≡ some pc
    → get_elem? s.processes n ≡ some pn
    → n ≢ cur
    → is_ready pn.state ≡ true
    → (s' : System) × (take_turn cur (some n) s ≡ some s') × Switched s cur n s'
unfolding take_turn switch_task set_state
take_turn-Switched s cur n pc pn c ec en ne r =
    let other : (n == cur) ≡ false = ground arith in
    let other' : (cur == n) ≡ false = ground arith in
    let still : get_elem? (set s.processes cur (with_state ready pc)) n ≡ some pn =
      get_elem?-set_ne s.processes cur n _ (λ e. ne (sym e)) ∙ en in
    (
      record s {
        processes = set (set s.processes cur (with_state ready pc)) n (with_state running pn);
        current_process = some n;
        current_directory = pn.page_directory;
      },
      rw (other, en, r, ec, c, other', still) refl,
      record {
        current = refl;
        same_list = refl;
        picked = pn;
        was = en;
        runs = get_elem?-set_self (set s.processes cur (with_state ready pc)) n _ still;
        own_space = refl;
        waits = ap state_in (
            get_elem?-set_ne (set s.processes cur (with_state ready pc)) n cur _ ne
            ∙ get_elem?-set_self s.processes cur _ ec);
        others = λ p a b.
            get_elem?-set_ne (set s.processes cur (with_state ready pc)) n p _ (λ e. b (sym e))
            ∙ get_elem?-set_ne s.processes cur p _ (λ e. a (sym e));
        chains = λ o l c.
            processes-Chain
              (record s {
                processes =
                    set (set s.processes cur (with_state ready pc)) n (with_state running pn);
              })
              _ o l refl
              (same_next-Chain (record s { processes = set s.processes cur (with_state ready pc) })
                n pn (with_state running pn) o l still refl
                (same_next-Chain s cur pc (with_state ready pc) o l ec refl c));
      },
    )

-- What the search's answer means.
abbrev pub Answers : System → ℕ → List ℕ → ℕ → Type 0
Answers s cur l n =
    (Picks s l none × (n ≡ cur))
    ⊎ (Picks s l (some n)
        × (n ≢ cur)
        × (proc : Process) × (get_elem? s.processes n ≡ some proc)
        × (is_ready proc.state ≡ true))

idle_if : (st : State) → is_ready st ≡ false → some st ≢ some ready
idle_if running h = cc
idle_if ready h = cc
idle_if blocked h = cc
idle_if terminated h = cc

first_ready-Answers :
    (s : System) (cur : ℕ) (l : List ℕ)
    → All (λ p. p ≢ cur) l
    → Answers s cur l (first_ready s l cur)
unfolding first_ready
first_ready-Answers s cur [] h = inl (nobody, refl)
first_ready-Answers s cur (p ∷ l) h =
    go (get_elem? s.processes p) refl (first_ready s l cur) (first_ready-Answers s cur l h.1)
  where
    skip : IsIdle s p → (n : ℕ) → Answers s cur l n → Answers s cur (p ∷ l) n
    skip idle n (inl (none_left, e)) = inl (later idle none_left, e)
    skip idle n (inr (picked, ne, proc, e, r)) = inr (later idle picked, ne, proc, e, r)

    go :
        (o : Option Process)
        → get_elem? s.processes p ≡ o
        → (n : ℕ) → Answers s cur l n
        → Answers s cur
            (p ∷ l)
            (elim o [ none ↦ n | some proc ↦ if is_ready proc.state then p else n ])
    go none e n a = skip (λ q. cc) n a
    go (some proc) e n a = elim (Bool-cases (is_ready proc.state)) [
      | inl turn ↦ rw turn (
          inr (this (ap state_in e ∙ ap some (ready-is_ready proc.state turn)), h.0, proc, e, turn))
      | inr not_turn ↦
          rw not_turn (skip (λ q. idle_if proc.state not_turn (sym (ap state_in e) ∙ q)) n a)
    ]

All-append :
    (cur : ℕ) (l m : List ℕ)
    → All (λ p. p ≢ cur) l
    → All (λ p. p ≢ cur) m
    → All (λ p. p ≢ cur) (l ++ m)
All-append cur [] m h g = g
All-append cur (p ∷ l) m h g = (h.0, All-append cur l m h.1 g)

take_turn-Turned :
    (s : System) (cur n : ℕ) (pc : Process) (l : List ℕ)
    → s.current_process ≡ some cur
    → get_elem? s.processes cur ≡ some pc
    → Answers s cur l n
    → (o : Option ℕ) × Picks s l o × Turned s cur o (take_turn cur (some n) s)
take_turn-Turned s cur n pc l c ec (inl (none_left, e)) =
    let same : (n == cur) ≡ true = (==_iff n cur).1 e in
    (none, none_left, unfold take_turn in rw same refl)
take_turn-Turned s cur n pc l c ec (inr (picked, ne, pn, en, r)) =
    (some n, picked, take_turn-Switched s cur n pc pn c ec en ne r)

schedule-run :
    (s : System) (cur fuel : ℕ) (pc : Process) (n : ℕ)
    → s.current_process ≡ some cur
    → get_elem? s.processes cur ≡ some pc
    → find_ready fuel cur (or_first pc.next s) s ≡ some (some n)
    → schedule fuel s ≡ take_turn cur (some n) s
schedule-run s cur fuel pc n c ec f =
    unfold schedule turn_from in ap (λ (o : Option ℕ). turn_from o fuel s) c ∙ rw (ec, f) refl

-- When the current process stands once in the process list, and the fuel is at least the length of
-- the list, `schedule` returns. It looks at the processes behind the current one and then at those
-- before it, and switches to the first that is ready, whose page directory it loads; if none is, it
-- does nothing.
pub schedule-round_robin :
    (s : System) (cur fuel : ℕ) (before after : List ℕ)
    → s.current_process ≡ some cur
    → Chain s s.process_list (before ++ cur ∷ after)
    → All (λ p. p ≢ cur) before
    → All (λ p. p ≢ cur) after
    → length after + length before < fuel
    → (o : Option ℕ) × Picks s (after ++ before) o × Turned s cur o (schedule fuel s)
schedule-round_robin s cur fuel before after c chain hb ha h =
    let (pc, ec, rest) = split-Chain s cur before after s.process_list chain in
    let run : schedule fuel s ≡ take_turn cur (some (first_ready s (after ++ before) cur)) s =
      schedule-run s cur fuel pc _ c ec
        (find_ready-first_ready s cur fuel before after after pc.next chain rest hb ha h) in
    let (o, picked, turned) =
      take_turn-Turned s cur (first_ready s (after ++ before) cur) pc (after ++ before) c ec
        (first_ready-Answers s cur (after ++ before) (All-append cur after before ha hb)) in
    (o, picked, subst (Turned s cur o) (sym run) turned)
