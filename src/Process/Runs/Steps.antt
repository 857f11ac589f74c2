-- ===== src/Process/Runs/Steps.antt =====
-- The operations as steps, and what holds after any number of them.
use kyro_kernel.Base.{
  length, get_elem?, ℕ, ◌+◌, ◌^◌, ◌≤◌, ◌<◌, ◌≡◌, sym, ap, ◌∙◌, subst, subst₂, ◌≢◌, Bool, true,
  false, Option, some, some-injective, List, ◌∷◌, ◌++◌, arith,
}
use kyro_kernel.CString.{text}
use kyro_kernel.Heap.{heap_end}
use kyro_kernel.Heap.Blocks.{IsValid}
use kyro_kernel.Paging.Frames.Used.{IsBitmap}
use kyro_kernel.Paging.Directory.{Directory}
use kyro_kernel.Paging.Directory.Entry.{IsDirectory}
use kyro_kernel.Process.{Process, System, terminated, schedule, exit}
use kyro_kernel.Process.Chain.{Chain}
use kyro_kernel.Process.Linked.{IsDistinct}
use kyro_kernel.Process.Exit.{IsParent, changed, changed-Chain, wake_parent-Kept, exit-run}
use kyro_kernel.Process.Create.{create_process, fork, find_directory}
use kyro_kernel.Process.Create.Adds.{Added, create_process-Added, Chain-below}
use kyro_kernel.Process.Create.Space.{create_process-Added_user, process_room}
use kyro_kernel.Process.Create.Forks.{Forked, fork-Forked}
use kyro_kernel.Process.Destroy.{destroy_process}
use kyro_kernel.Process.Destroy.Removes.{destroy_process-Removed}
use kyro_kernel.Process.Runs.{Has, behind, Runs, RunsOn, schedule-Runs, IsDistinct-drop, Has-drop}

-- `exit` of a process whose parent is NULL or a process.
pub exit-Runs :
    (s : System) (fuel : ℕ) (l : List ℕ) (v : Runs s l) (pc : Process)
    → get_elem? s.processes v.cur ≡ some pc
    → IsParent (changed s v.cur terminated pc) pc.parent
    → length l ≤ fuel
    → RunsOn (exit fuel s) l
exit-Runs s fuel l v pc e parent h =
    let w =
      wake_parent-Kept (changed s v.cur terminated pc) pc.parent s.process_list l parent
        (changed-Chain s v.cur terminated pc s.process_list l e v.chain) in
    let (s', run, r) =
      schedule-Runs w.s' fuel l
        (record {
          chain = subst (λ (o : Option ℕ). Chain w.s' o l) (sym w.list) w.chain;
          distinct = v.distinct;
          cur = v.cur;
          current = w.current ∙ v.current;
          member = v.member;
        })
        h in
    (s', exit-run s v.cur fuel pc w.s' v.current e w.run ∙ run, r)

-- What a new process needs.
pub record HasRoom (s : System) : Type 0 where
  pub heap_ok : IsValid s.heap
  pub room : s.heap.current + process_room ≤ heap_end
  pub kernel : Directory
  pub kernel_is : find_directory s.kernel_directory s.directories ≡ some kernel
  pub dir : Directory
  pub loaded : find_directory s.current_directory s.directories ≡ some dir
  pub dir_ok : IsDirectory dir
  pub bits : IsBitmap s.frames
  pub few : s.frames.nframes < 2 ^ 20

create-Added :
    (s : System) (l name n : List ℕ) (entry_point : Option ℕ) (mode : Bool)
    → HasRoom s
    → Chain s s.process_list l
    → text name ≡ some n
    → Added s l n (create_process name entry_point mode s)
create-Added s l name n entry_point true r c tx =
    create_process-Added s l name n entry_point r.kernel c tx r.heap_ok (omega (arith, r.room))
      r.kernel_is
create-Added s l name n entry_point false r c tx =
    create_process-Added_user s l name n entry_point r.dir c tx r.heap_ok r.room r.loaded r.dir_ok
      r.bits r.few

-- A call of an operation of process.c that returns, and what becomes of the list of processes.
pub data Step (s : System) (l : List ℕ) : System → List ℕ → Type 0 where
  turned : {s' : System} (fuel : ℕ) → length l ≤ fuel → schedule fuel s ≡ some s' → Step s l s' l
  exited :
      {s' : System} (fuel cur : ℕ) (pc : Process)
      → length l ≤ fuel
      → s.current_process ≡ some cur
      → get_elem? s.processes cur ≡ some pc
      → IsParent (changed s cur terminated pc) pc.parent
      → exit fuel s ≡ some s'
      → Step s l s' l
  created :
      {s' : System} {p : ℕ} (name n : List ℕ) (entry_point : Option ℕ) (mode : Bool)
      → HasRoom s
      → text name ≡ some n
      → create_process name entry_point mode s ≡ some (some p, s')
      → Step s l s' (p ∷ l)
  forked :
      {s' : System} {pid : ℕ} (cur : ℕ) (parent : Process) (n : List ℕ)
      → HasRoom s
      → s.current_process ≡ some cur
      → get_elem? s.processes cur ≡ some parent
      → text parent.name ≡ some n
      → fork s ≡ some (pid, s')
      → Step s l s' (length s.processes ∷ l)
  destroyed :
      {s' : System} (fuel p : ℕ) (before after : List ℕ)
      → l ≡ before ++ p ∷ after
      → s.current_process ≢ some p
      → length before ≤ fuel
      → destroy_process fuel (some p) s ≡ some s'
      → Step s l s' (before ++ after)

RunsOn-Runs : {r : Option System} {l : List ℕ} {s' : System} → RunsOn r l → r ≡ some s' → Runs s' l
RunsOn-Runs {r} {l} {s'} (t, e, v) run =
    subst (λ (x : System). Runs x l) (some-injective _ _ (sym e ∙ run)) v

Added-Runs :
    {s : System} {l n : List ℕ} {r : Option (Option ℕ × System)} {p : ℕ} {s' : System}
    → Runs s l
    → Added s l n r
    → r ≡ some (some p, s')
    → Runs s' (p ∷ l)
Added-Runs {s} {l} {n} {r} {p} {s'} v a e =
    let pair = some-injective _ _ (sym a.run ∙ e) in
    let at : length s.processes ≡ p =
      some-injective _ _ (ap (λ (x : Option ℕ × System). x.0) pair) in
    let ran : Runs a.s' (length s.processes ∷ l) = record {
      chain = a.chain;
      distinct = (a.fresh, v.distinct);
      cur = v.cur;
      current = a.current ∙ v.current;
      member = behind v.member;
    } in
    subst₂ (λ (x : System) (q : ℕ). Runs x (q ∷ l)) (ap (λ (x : Option ℕ × System). x.1) pair) at
      ran

Forked-Runs :
    {s : System} {cur : ℕ} {parent : Process} {l n : List ℕ} {r : Option (ℕ × System)} {k : ℕ}
    {s' : System}
    → Runs s l
    → Forked s cur parent l n r
    → r ≡ some (k, s')
    → Runs s' (length s.processes ∷ l)
Forked-Runs {s} {l} {s'} v f e =
    subst (λ (x : System). Runs x (length s.processes ∷ l))
      (ap (λ (x : ℕ × System). x.1) (some-injective _ _ (sym f.run ∙ e)))
      (record {
        chain = f.chain;
        distinct = (Chain-below v.chain, v.distinct);
        cur = v.cur;
        current = f.current ∙ v.current;
        member = behind v.member;
      })

-- A step that keeps the current process in the list keeps the list in order.
pub Step-Runs : {s s' : System} {l l' : List ℕ} → Step s l s' l' → Runs s l → Runs s' l'
Step-Runs {s} {l} (turned fuel h run) v = RunsOn-Runs (schedule-Runs s fuel l v h) run
Step-Runs {s} {l} (exited fuel cur pc h here e parent run) v =
    let at : cur ≡ v.cur = some-injective _ _ (sym here ∙ v.current) in
    RunsOn-Runs
      (exit-Runs s fuel l v pc (ap (get_elem? s.processes) (sym at) ∙ e)
        (subst (λ (c : ℕ). IsParent (changed s c terminated pc) pc.parent) at parent) h)
      run
Step-Runs {s} {l} (created name n entry_point mode r tx run) v =
    Added-Runs v (create-Added s l name n entry_point mode r v.chain tx) run
Step-Runs {s} {l} (forked cur parent n r here e tx run) v =
    Forked-Runs v
      (fork-Forked s cur parent l n r.dir here e v.chain tx r.heap_ok r.room r.loaded r.dir_ok
        r.bits r.few)
      run
Step-Runs {s} {s'} {l} (destroyed fuel p before after place other h run) v =
    let d = subst IsDistinct place v.distinct in
    let r =
      destroy_process-Removed s p fuel before after (subst (Chain s s.process_list) place v.chain) d
        h in
    subst (λ (x : System). Runs x (before ++ after)) (some-injective _ _ (sym r.run ∙ run))
      (record {
        chain = r.chain;
        distinct = IsDistinct-drop p before after d;
        cur = v.cur;
        current = r.current ∙ v.current;
        member =
            Has-drop p v.cur before after (subst (Has v.cur) place v.member)
              (λ e. other (v.current ∙ ap some e));
      })

pub data Reach (s : System) (l : List ℕ) : System → List ℕ → Type 0 where
  here : Reach s l s l
  more : {t u : System} {m k : List ℕ} → Reach s l t m → Step t m u k → Reach s l u k

Reach-Runs :
    {s : System} {l : List ℕ} {t : System} {m : List ℕ} → Reach s l t m → Runs s l → Runs t m
Reach-Runs here v = v
Reach-Runs (more r st) v = Step-Runs st (Reach-Runs r v)

-- From a system whose list names each process once and has the current one in it, whatever
-- processes are created, forked, destroyed while they are not the current one, scheduled and ended,
-- with room for the new ones, the next call of `schedule` returns when its fuel is the length of
-- the list, and the list is still the same processes, each once, the current one among them.
pub Reach-schedule :
    {s t : System} {l m : List ℕ} (fuel : ℕ)
    → Reach s l t m
    → Runs s l
    → length m ≤ fuel
    → RunsOn (schedule fuel t) m
Reach-schedule {t} {m} fuel r v h = schedule-Runs t fuel m (Reach-Runs r v) h
