-- ===== src/Process/Create/Forks.antt =====
-- What `fork` does.
use kyro_kernel.Base.{
  ◌==◌, length, get_elem?, set, take, get_elem?-set_ne, get_elem?-set_self, ℕ, ◌+◌, ◌-◌, ◌^◌, ◌≤◌,
  ◌<◌, ◌≡◌, refl, ap, ◌∙◌, ◌≢◌, false, Option, none, some, List, ◌∷◌, arith,
}
use kyro_kernel.CString.{text}
use kyro_kernel.Heap.{heap_end}
use kyro_kernel.Heap.Blocks.{IsValid}
use kyro_kernel.Paging.Frames.Used.{IsBitmap}
use kyro_kernel.Paging.Directory.{Directory}
use kyro_kernel.Paging.Directory.Entry.{IsDirectory}
use kyro_kernel.Process.{Process, System, ready}
use kyro_kernel.Process.Chain.{Chain}
use kyro_kernel.Process.Linked.{same_next-Chain}
use kyro_kernel.Process.Create.{
  fork, fork_from, fork_child, child_of, create_process, find_directory, process_name_max,
}
use kyro_kernel.Process.Create.Adds.{get_elem?-lt}
use kyro_kernel.Process.Create.Space.{process_room, create_process-Added_user}

-- The child, its parent, and the list.
pub record Forked (s : System) (cur : ℕ) (parent : Process) (l name : List ℕ)
    (r : Option (ℕ × System)) : Type 0 where
  pub s' : System
  pub child : Process
  pub run : r ≡ some (s.next_pid, s')
  pub block : get_elem? s'.processes (length s.processes) ≡ some child
  pub pid : child.pid ≡ s.next_pid
  pub ppid : child.ppid ≡ parent.pid
  pub parent_is : child.parent ≡ some cur
  pub registers : child.cpu_state ≡ parent.cpu_state
  pub state : child.state ≡ ready
  pub name_text : text child.name ≡ some (take (process_name_max - 1) name)
  pub current : s'.current_process ≡ s.current_process
  pub chain : Chain s' s'.process_list (length s.processes ∷ l)
  pub others :
      (q : ℕ) (pq : Process)
      → get_elem? s.processes q ≡ some pq
      → get_elem? s'.processes q ≡ some pq

fork-run :
    (s s' : System) (cur p : ℕ) (parent child : Process)
    → s.current_process ≡ some cur
    → get_elem? s.processes cur ≡ some parent
    → create_process parent.name none false s ≡ some (some p, s')
    → get_elem? s'.processes p ≡ some child
    → cur ≢ p
    → fork s
      ≡ some (child.pid, record s' { processes = set s'.processes p (child_of cur parent child) })
unfolding fork fork_from fork_child
fork-run s s' cur p parent child c e run ep ne =
    let other : (cur == p) ≡ false = ground arith in
    ap (λ (o : Option ℕ). fork_from o s) c ∙ rw (e, run, ep, other) refl

-- When a process runs, its name is a text, and the heap, the frames and the loaded directory have
-- room for a user process, `fork` returns the number of a new process. That is in front of the
-- list, ready, and named like the one that runs, which is its parent and whose registers it has;
-- every other process and the current one are as they were.
pub fork-Forked :
    (s : System) (cur : ℕ) (parent : Process) (l n : List ℕ) (d : Directory)
    → s.current_process ≡ some cur
    → get_elem? s.processes cur ≡ some parent
    → Chain s s.process_list l
    → text parent.name ≡ some n
    → IsValid s.heap
    → s.heap.current + process_room ≤ heap_end
    → find_directory s.current_directory s.directories ≡ some d
    → IsDirectory d
    → IsBitmap s.frames
    → s.frames.nframes < 2 ^ 20
    → Forked s cur parent l n (fork s)
unfolding child_of
fork-Forked s cur parent l n d here e c tx v room loaded ok bits few =
    let a = create_process-Added_user s l parent.name n none d c tx v room loaded ok bits few in
    let lt : cur < length s.processes = get_elem?-lt s.processes cur e in
    let p : ℕ = length s.processes in
    record {
      s' = record a.s' { processes = set a.s'.processes p (child_of cur parent a.proc) };
      child = child_of cur parent a.proc;
      run =
          fork-run s a.s' cur p parent a.proc here e a.run a.block (omega arith)
          ∙ ap
              (λ (k : ℕ).
                some (
                  k,
                  record a.s' { processes = set a.s'.processes p (child_of cur parent a.proc) },
                ))
              a.pid;
      block = get_elem?-set_self a.s'.processes p _ a.block;
      pid = a.pid;
      ppid = refl;
      parent_is = refl;
      registers = refl;
      state = a.state;
      name_text = a.name_text;
      current = a.current;
      chain =
          same_next-Chain a.s' p a.proc (child_of cur parent a.proc) a.s'.process_list (p ∷ l)
            a.block refl a.chain;
      others = λ q pq eq.
          let old : q < length s.processes = get_elem?-lt s.processes q eq in
          get_elem?-set_ne a.s'.processes p q _ (λ x. omega arith) ∙ a.others q pq eq;
    }
