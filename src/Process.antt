-- ===== src/Process.antt =====
-- kernel/process.c: the processes and their list, and the scheduler, `schedule`, `switch_task`,
-- `exit` and `wait`. The child modules have `create_process`, `fork` and `destroy_process`.
pub mod Create
pub mod Destroy
pub mod Chain
pub mod Linked
pub mod Schedule
pub mod Exit
pub mod Runs
pub mod Lost
use kyro_kernel.Heap.{Heap}
use kyro_kernel.Paging.Frames.{Frames}
use kyro_kernel.Paging.Directory.{Directory}
use kyro_kernel.Base.{
  ◌==◌, if◌then◌else◌, ◌>>=◌, get_elem?, set, ℕ, zero, suc, ◌-◌, ◌^◌, Bool, true, false, not, ◌&&◌,
  Option, none, some, List,
}

-- `process_state_t`
pub data State : Type 0 where
  running : State
  ready : State
  blocked : State
  terminated : State

abbrev pub is_ready : State → Bool
is_ready ready = true
is_ready running = false
is_ready blocked = false
is_ready terminated = false

abbrev pub is_blocked : State → Bool
is_blocked blocked = true
is_blocked running = false
is_blocked ready = false
is_blocked terminated = false

-- `cpu_state_t`
pub record CpuState : Type 0 where
  pub eax : ℕ
  pub ebx : ℕ
  pub ecx : ℕ
  pub edx : ℕ
  pub esi : ℕ
  pub edi : ℕ
  pub ebp : ℕ
  pub esp : ℕ
  pub eip : ℕ
  pub cs : ℕ
  pub ss : ℕ
  pub eflags : ℕ
  pub cr3 : ℕ

-- `process_t`. A pointer to a process is its place among the blocks, and `none` is NULL; a page
-- directory is known by its address. Nothing sets `children`.
pub record Process : Type 0 where
  pub pid : ℕ
  pub ppid : ℕ
  pub name : List ℕ
  pub state : State
  pub cpu_state : CpuState
  pub page_directory : ℕ
  pub kernel_stack : ℕ
  pub user_stack : ℕ
  pub priority : ℕ
  pub time_slice : ℕ
  pub time_used : ℕ
  pub next : Option ℕ
  pub parent : Option ℕ
  pub child_count : ℕ

-- The globals of process.c, with those of paging.c and memory.c that it changes. The directories
-- stand with their addresses.
pub record System : Type 0 where
  pub processes : List Process
  pub current_process : Option ℕ
  pub process_list : Option ℕ
  pub next_pid : ℕ
  pub directories : List (ℕ × Directory)
  pub current_directory : ℕ
  pub kernel_directory : ℕ
  pub frames : Frames
  pub heap : Heap

abbrev pub with_state : State → Process → Process
with_state st p = record p { state = st }

-- `proc->state = st`
pub set_state : ℕ → State → System → Option System
set_state p st s = do
  proc ← get_elem? s.processes p
  some (record s { processes = set s.processes p (with_state st proc) })

abbrev pub is_current : ℕ → System → Bool
is_current p s = elim s.current_process [ none ↦ false | some c ↦ c == p ]

-- The registers are exchanged in assembly.
pub switch_task : Option ℕ → System → Option System
switch_task none s = some s
switch_task (some n) s = if is_current n s then some s else do
  proc ← get_elem? s.processes n
  some (record s {
    processes = set s.processes n (with_state running proc);
    current_process = some n;
    current_directory = proc.page_directory;
  })

-- `if (!next) next = process_list;`
abbrev pub or_first : Option ℕ → System → Option ℕ
or_first none s = s.process_list
or_first (some p) s = some p

-- What a turn of the loop of `schedule` comes to: its condition is false at `next`, or the loop
-- goes on at the next process.
pub data Search : Type 0 where
  found : Option ℕ → Search
  on : Option ℕ → Search

-- The condition of the loop, and its body; `none` is a fault.
pub search_turn : ℕ → Option ℕ → System → Option Search
search_turn cur none s = some (found none)
search_turn cur (some n) s = do
  proc ← get_elem? s.processes n
  some (
      if not (is_ready proc.state) && not (n == cur)
      then on (or_first proc.next s)
      else found (some n))

-- The loop of `schedule` on fuel.
pub find_ready : ℕ → ℕ → Option ℕ → System → Option (Option ℕ)
unfolding search_turn
find_ready zero cur next s = none
find_ready (suc fuel) cur next s =
    search_turn cur next s >>= λ t. elim t [ found r ↦ some r | on m ↦ find_ready fuel cur m s ]

-- What `schedule` does with the process that it found.
pub take_turn : ℕ → Option ℕ → System → Option System
unfolding switch_task set_state
take_turn cur none s = some s
take_turn cur (some n) s = if n == cur then some s else do
  proc ← get_elem? s.processes n
  if is_ready proc.state
      then (set_state cur ready s >>= λ (s' : System). switch_task (some n) s')
      else some s

-- The body of `schedule` and of `exit`, of the value of `current_process`.
pub turn_from : Option ℕ → ℕ → System → Option System
turn_from none fuel s = some s
turn_from (some cur) fuel s = do
  proc ← get_elem? s.processes cur
  next ← find_ready fuel cur (or_first proc.next s) s
  take_turn cur next s

pub schedule : ℕ → System → Option System
unfolding turn_from
schedule fuel s = turn_from s.current_process fuel s

-- The parent is woken up if it is blocked.
pub wake_parent : Option ℕ → System → Option System
wake_parent none s = some s
wake_parent (some p) s = do
  proc ← get_elem? s.processes p
  if is_blocked proc.state then set_state p ready s else some s

pub exit_from : Option ℕ → ℕ → System → Option System
exit_from none fuel s = some s
exit_from (some cur) fuel s = do
  s1 ← set_state cur terminated s
  proc ← get_elem? s1.processes cur
  s2 ← wake_parent proc.parent s1
  schedule fuel s2

pub exit : ℕ → System → Option System
unfolding exit_from
exit fuel s = exit_from s.current_process fuel s

pub wait : System → ℕ
wait s = 2 ^ 32 - 1
