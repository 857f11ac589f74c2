-- ===== src/Process/Create/Adds.antt =====
-- What `create_process` does to the list.
use kyro_kernel.Base.{
  ltb, ◌==◌, ltb→lt, ltb→le, Bool-cases, length, get_elem?, take, replicate, take-ge, ℕ, zero, suc,
  ◌+◌, ◌-◌, ◌≤◌, ◌<◌, ◌≡◌, refl, sym, ap, ◌∙◌, subst, ◌≢◌, inl, inr, Bool, true, false, Option,
  none, some, List, [], ◌∷◌, ◌++◌, arith,
}
use kyro_kernel.CString.{text, strncpy}
use kyro_kernel.CString.HasText.{
  HasText, finish, more, HasText-text, text_of_HasText, HasText-append,
}
use kyro_kernel.CString.Copy.{strncpy-short, strncpy-long}
use kyro_kernel.Heap.Blocks.{IsValid}
use kyro_kernel.Heap.Room.{kmalloc-room}
use kyro_kernel.Heap.{u32, heap_end, Heap, kmalloc}
use kyro_kernel.Paging.Directory.{Directory}
use kyro_kernel.Table.Model.{All}
use kyro_kernel.Process.{Process, System, ready}
use kyro_kernel.Process.Chain.{Chain, link, end, processes-Chain}
use kyro_kernel.Process.Create.{
  fill_process, add_process, address_space, start_registers, new_process, find_directory,
  process_name_max, kernel_stack_size, kernel_space, create_process,
}

HasText-take :
    {b s : List ℕ} (n : ℕ) (rest : List ℕ) → HasText b s → HasText (take n s ++ 0 ∷ rest) (take n s)
HasText-take zero rest h = finish refl
HasText-take (suc n) rest (finish e) = finish refl
HasText-take (suc n) rest (more e h) = more e (HasText-take n rest h)

-- The name in the block is the first 31 bytes of the text.
pub name-text :
    (name : List ℕ) {n : List ℕ}
    → text name ≡ some n
    → (b : List ℕ) × (strncpy (replicate process_name_max 0) name (process_name_max - 1) ≡ some b)
      × (text b ≡ some (take (process_name_max - 1) n))
name-text name {n} h = elim (Bool-cases (ltb (length n) 31)) [
  | inl short ↦
      let lt : length n < 31 = ltb→lt _ _ short in
      (
        _,
        strncpy-short 31 (replicate 32 0) name h lt,
        rw (take-ge 31 n (omega arith)) (text_of_HasText (HasText-append (HasText-text name h) _)),
      )
  | inr long ↦
      let le : 31 ≤ length n = omega (arith, ltb→le _ _ long) in
      (
        take 31 n ++ 0 ∷ [],
        strncpy-long 31 (replicate 32 0) name h le,
        text_of_HasText (HasText-take 31 [] (HasText-text name h)),
      )
]

get_elem?-append :
    (l m : List Process) (p : ℕ) {proc : Process}
    → get_elem? l p ≡ some proc
    → get_elem? (l ++ m) p ≡ some proc
get_elem?-append [] m p e = cc
get_elem?-append (x ∷ l) m zero e = e
get_elem?-append (x ∷ l) m (suc p) e = get_elem?-append l m p e

get_elem?-last :
    (l : List Process) (proc : Process) → get_elem? (l ++ proc ∷ []) (length l) ≡ some proc
get_elem?-last [] proc = refl
get_elem?-last (x ∷ l) proc = get_elem?-last l proc

pub get_elem?-lt :
    (l : List Process) (p : ℕ) {proc : Process} → get_elem? l p ≡ some proc → p < length l
get_elem?-lt [] p e = cc
get_elem?-lt (x ∷ l) zero e = omega arith
get_elem?-lt (x ∷ l) (suc p) e = omega (arith, get_elem?-lt l p e)

-- The new block is none of the list.
pub Chain-below :
    {s : System} {o : Option ℕ} {l : List ℕ} → Chain s o l → All (λ q. q ≢ length s.processes) l
Chain-below end = tt
Chain-below {s} (link {p} e c) = (
  let lt : p < length s.processes = get_elem?-lt s.processes p e in λ x. omega arith,
  Chain-below c,
)

append-Chain :
    (s s' : System) (m : List Process) (o : Option ℕ) (l : List ℕ)
    → s'.processes ≡ s.processes ++ m
    → Chain s o l
    → Chain s' o l
append-Chain s s' m _ _ same end = end
append-Chain s s' m _ _ same (link {p} {proc} {l} e c) =
    link (ap (λ (ps : List Process). get_elem? ps p) same ∙ get_elem?-append s.processes m p e)
      (append-Chain s s' m proc.next l same c)

start_registers-keep :
    (entry : Option ℕ) (cr3 : ℕ) (proc : Process)
    → ((start_registers entry cr3 proc).pid ≡ proc.pid)
      × ((start_registers entry cr3 proc).name ≡ proc.name)
      × ((start_registers entry cr3 proc).state ≡ proc.state)
unfolding start_registers
start_registers-keep none cr3 proc = (refl, refl, refl)
start_registers-keep (some e) cr3 proc = (refl, refl, refl)

-- The list with the new process in front, and what the process is.
pub record Added (s : System) (l : List ℕ) (name : List ℕ) (r : Option (Option ℕ × System))
    : Type 0 where
  pub s' : System
  pub proc : Process
  pub run : r ≡ some (some (length s.processes), s')
  pub block : get_elem? s'.processes (length s.processes) ≡ some proc
  pub pid : proc.pid ≡ s.next_pid
  pub name_text : text proc.name ≡ some (take (process_name_max - 1) name)
  pub state : proc.state ≡ ready
  pub next_pid : s'.next_pid ≡ u32 (s.next_pid + 1)
  pub current : s'.current_process ≡ s.current_process
  pub chain : Chain s' s'.process_list (length s.processes ∷ l)
  pub fresh : All (λ q. q ≢ length s.processes) l
  pub others :
      (q : ℕ) (pq : Process)
      → get_elem? s.processes q ≡ some pq
      → get_elem? s'.processes q ≡ some pq

-- What the branches of `create_process` leave alone.
pub record IsSpace (proc : Process) (s : System) (proc' : Process) (s' : System) : Type 0 where
  pub pid : proc'.pid ≡ proc.pid
  pub name : proc'.name ≡ proc.name
  pub state : proc'.state ≡ proc.state
  pub processes : s'.processes ≡ s.processes
  pub current : s'.current_process ≡ s.current_process
  pub list : s'.process_list ≡ s.process_list
  pub next_pid : s'.next_pid ≡ s.next_pid
  pub dir : Directory
  pub found : find_directory proc'.page_directory s'.directories ≡ some dir

pub fill_process-Added :
    (s : System) (l name n b : List ℕ) (entry : Option ℕ) (mode : Bool) (stack : ℕ) (proc : Process)
    (s2 : System)
    → Chain s s.process_list l
    → strncpy (replicate process_name_max 0) name (process_name_max - 1) ≡ some b
    → text b ≡ some (take (process_name_max - 1) n)
    → address_space mode
        (new_process s.next_pid b (u32 (stack + kernel_stack_size)))
        (record s { next_pid = u32 (s.next_pid + 1) })
      ≡ some (proc, s2)
    → IsSpace
        (new_process s.next_pid b (u32 (stack + kernel_stack_size)))
        (record s { next_pid = u32 (s.next_pid + 1) })
        proc
        s2
    → Added s l n (fill_process name entry mode stack s)
unfolding fill_process new_process
fill_process-Added s l name n b entry mode stack proc s2 c copy tx space v =
    let started : Process = start_registers entry v.dir.physical_addr proc in
    let new : Process = record started { next = s2.process_list } in
    let s' : System = add_process started s2 in
    let keep = start_registers-keep entry v.dir.physical_addr proc in
    let all : s'.processes ≡ s.processes ++ new ∷ [] =
      unfold add_process in ap (λ (ps : List Process). ps ++ new ∷ []) v.processes in
    let block : get_elem? s'.processes (length s.processes) ≡ some new =
      ap (λ (ps : List Process). get_elem? ps (length s.processes)) all
      ∙ get_elem?-last s.processes new in
    let first : s'.process_list ≡ some (length s.processes) =
      unfold add_process in ap (λ (ps : List Process). some (length ps)) v.processes in
    record {
      s' = s';
      proc = new;
      run =
          rw (copy, space, v.found)
            (ap (λ (ps : List Process). some (some (length ps), s')) v.processes);
      block = block;
      pid = keep.0 ∙ v.pid;
      name_text = ap text (keep.1 ∙ v.name) ∙ tx;
      state = keep.2 ∙ v.state;
      next_pid = unfold add_process in v.next_pid;
      current = unfold add_process in v.current;
      chain =
          subst (λ (o : Option ℕ). Chain s' o (length s.processes ∷ l)) (sym first)
            (link {proc = new} block (
              subst (λ (o : Option ℕ). Chain s' o l) (sym v.list)
                (append-Chain s s' (new ∷ []) s.process_list l all c)));
      fresh = Chain-below c;
      others = λ q pq e.
          ap (λ (ps : List Process). get_elem? ps q) all
          ∙ get_elem?-append s.processes (new ∷ []) q e;
    }

pub create-run :
    (s : System) (name : List ℕ) (entry : Option ℕ) (mode : Bool) (a k : ℕ) (h1 h2 : Heap)
    → kmalloc 136 s.heap ≡ (a, h1)
    → 0 < a
    → kmalloc kernel_stack_size h1 ≡ (k, h2)
    → create_process name entry mode s ≡ fill_process name entry mode k (record s { heap = h2 })
unfolding create_process
create-run s name entry mode a k h1 h2 e pos f =
    let there : (a == 0) ≡ false = ground arith in rw (e, f, there) refl

-- The record of the heap is not read.
pub Added-heap :
    (s : System) (h : Heap) (l name : List ℕ) (r r' : Option (Option ℕ × System))
    → r' ≡ r
    → Added (record s { heap = h }) l name r
    → Added s l name r'
Added-heap s h l name r r' e v = record {
  s' = v.s';
  proc = v.proc;
  run = e ∙ v.run;
  block = v.block;
  pid = v.pid;
  name_text = v.name_text;
  state = v.state;
  next_pid = v.next_pid;
  current = v.current;
  chain = v.chain;
  fresh = v.fresh;
  others = v.others;
}

-- With room on the heap for a process and its stack, a name that is a text, and the kernel's
-- directory in place, `create_process` of a kernel process returns a block that no process of the
-- list has. It is put in front of the list, is ready, and has the next process number and the
-- first 31 bytes of the name; every other process and the current one are as they were.
pub create_process-Added :
    (s : System) (l name n : List ℕ) (entry : Option ℕ) (dir : Directory)
    → Chain s s.process_list l
    → text name ≡ some n
    → IsValid s.heap
    → s.heap.current + 0x3000 ≤ heap_end
    → find_directory s.kernel_directory s.directories ≡ some dir
    → Added s l n (create_process name entry true s)
create_process-Added s l name n entry dir c tx v room found =
    let (a, h1, e1, pos, v1, le1) = kmalloc-room 136 s.heap v (omega arith) in
    let (k, h2, e2, pos2, v2, le2) = kmalloc-room kernel_stack_size h1 v1 (omega arith) in
    let (b, copy, tb) = name-text name tx in
    let s1 : System = record s { heap = h2 } in
    Added-heap s h2 l n _ _ (create-run s name entry true a k h1 h2 e1 pos e2) (
      fill_process-Added s1 l name n b entry true k
        (kernel_space (new_process s.next_pid b (u32 (k + kernel_stack_size)))
          (record s1 { next_pid = u32 (s.next_pid + 1) }))
        (record s1 { next_pid = u32 (s.next_pid + 1) })
        (processes-Chain s s1 s.process_list l refl c) copy tb (unfold address_space in refl)
        (record {
          pid = unfold kernel_space in refl;
          name = unfold kernel_space in refl;
          state = unfold kernel_space in refl;
          processes = refl;
          current = refl;
          list = refl;
          next_pid = refl;
          dir = dir;
          found = unfold kernel_space in found;
        }))
