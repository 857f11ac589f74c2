-- ===== src/Process/Create.antt =====
-- `create_process`, `process_init` and `fork` of kernel/process.c.
pub mod Adds
pub mod Space
pub mod Forks
pub mod Keeps
pub mod Init
use kyro_kernel.Base.{
  ◌==◌, if◌then◌else◌, ◌>>=◌, length, get_elem?, set, replicate, codes, ℕ, ◌+◌, ◌-◌, ◌^◌, Bool,
  true, false, Option, none, some, List, [], ◌∷◌, ◌++◌,
}
use kyro_kernel.CString.{strncpy}
use kyro_kernel.Heap.{kmalloc, u32}
use kyro_kernel.Paging.{page_size}
use kyro_kernel.Paging.Directory.{Directory, create_page_directory, alloc_frame}
use kyro_kernel.Process.{CpuState, Process, System, ready, running, set_state}

abbrev pub process_name_max : ℕ
process_name_max = 32

abbrev pub kernel_stack_size : ℕ
kernel_stack_size = 8192

abbrev pub user_stack_top : ℕ
user_stack_top = 0xc0000000

abbrev cleared_cpu : CpuState
cleared_cpu = record {
  eax = 0;
  ebx = 0;
  ecx = 0;
  edx = 0;
  esi = 0;
  edi = 0;
  ebp = 0;
  esp = 0;
  eip = 0;
  cs = 0;
  ss = 0;
  eflags = 0;
  cr3 = 0;
}

-- The directory at an address.
unfoldable pub find_directory : ℕ → List (ℕ × Directory) → Option Directory
find_directory a [] = none
find_directory a ((b, d) ∷ l) = if b == a then some d else find_directory a l

pub put_directory : ℕ → Directory → List (ℕ × Directory) → List (ℕ × Directory)
put_directory a d [] = (a, d) ∷ []
put_directory a d ((b, e) ∷ l) =
    let rest = put_directory a d l in if b == a then (a, d) ∷ l else (b, e) ∷ rest

-- The fields that do not depend on the mode; all others are cleared.
pub new_process : ℕ → List ℕ → ℕ → Process
new_process pid name kernel_stack = record {
  pid = pid;
  ppid = 0;
  name = name;
  state = ready;
  cpu_state = cleared_cpu;
  page_directory = 0;
  kernel_stack = kernel_stack;
  user_stack = 0;
  priority = 10;
  time_slice = 10;
  time_used = 0;
  next = none;
  parent = none;
  child_count = 0;
}

-- The branch of a user process: its stack's page is mapped in the directory that is loaded.
pub user_space : Process → System → Option (Process × System)
user_space proc s = do
  (dir, h1) ← create_page_directory s.heap
  let dirs = put_directory dir.physical_addr dir s.directories
  d ← find_directory s.current_directory dirs
  (f, (d', h2)) ← alloc_frame (user_stack_top - page_size) false true s.frames d h1
  some (
    record proc {
      page_directory = dir.physical_addr;
      user_stack = user_stack_top;
      cpu_state = record proc.cpu_state {
        cs = 0x1b;
        ss = 0x23;
        eflags = 0x202;
        esp = user_stack_top;
      };
    },
    record s { directories = put_directory s.current_directory d' dirs; frames = f; heap = h2 },
  )

-- The branch of a kernel process.
pub kernel_space : Process → System → Process
kernel_space proc s = record proc {
  page_directory = s.kernel_directory;
  cpu_state = record proc.cpu_state {
    cs = 0x08;
    ss = 0x10;
    eflags = 0x202;
    esp = proc.kernel_stack;
  };
}

pub address_space : Bool → Process → System → Option (Process × System)
unfolding user_space kernel_space
address_space false proc s = user_space proc s
address_space true proc s = some (kernel_space proc s, s)

-- `eip`, if there is an entry point, and `cr3`.
pub start_registers : Option ℕ → ℕ → Process → Process
start_registers none cr3 proc = record proc { cpu_state = record proc.cpu_state { cr3 = cr3 } }
start_registers (some entry_point) cr3 proc = record proc {
  cpu_state = record proc.cpu_state { eip = entry_point; cr3 = cr3 };
}

-- The new block, in front of the list.
pub add_process : Process → System → System
add_process proc s = record s {
  processes = s.processes ++ record proc { next = s.process_list } ∷ [];
  process_list = some (length s.processes);
}

-- What follows the two calls of `kmalloc`.
pub fill_process : List ℕ → Option ℕ → Bool → ℕ → System → Option (Option ℕ × System)
unfolding address_space start_registers add_process new_process
fill_process name entry_point kernel_mode stack s = do
  name' ← strncpy (replicate process_name_max 0) name (process_name_max - 1)
  (proc, s') ←
      address_space kernel_mode (new_process s.next_pid name' (u32 (stack + kernel_stack_size)))
        (record s { next_pid = u32 (s.next_pid + 1) })
  dir ← find_directory proc.page_directory s'.directories
  some (
    some (length s'.processes),
    add_process (start_registers entry_point dir.physical_addr proc) s',
  )

-- The pointer, NULL if there is no memory, and the system it leaves. The kernel does not look
-- whether there is a stack.
pub create_process : List ℕ → Option ℕ → Bool → System → Option (Option ℕ × System)
create_process name entry_point kernel_mode s =
    let (proc, h1) = kmalloc 136 s.heap in
    let (stack, h2) = kmalloc kernel_stack_size h1 in
    if proc == 0
    then some (none, record s { heap = h1 })
    else fill_process name entry_point kernel_mode stack (record s { heap = h2 })

-- `current_process->state = PROCESS_RUNNING` and the assignments round it.
pub make_current : Option ℕ → System → Option System
make_current none s = none
make_current (some p) s = do
  s' ← set_state p running s
  some (record s' { current_process = some p; process_list = some p })

pub process_init : System → Option System
unfolding make_current
process_init s = do (p, s') ← create_process (codes "kernel\0") none true s; make_current p s'

-- The child's fields that `fork` sets; the registers are the parent's, `cr3` among them.
pub child_of : ℕ → Process → Process → Process
child_of cur parent child = record child {
  ppid = parent.pid;
  parent = some cur;
  cpu_state = parent.cpu_state;
}

pub fork_child : ℕ → Process → Option ℕ → System → Option (ℕ × System)
unfolding child_of
fork_child cur parent none s = some (2 ^ 32 - 1, s)
fork_child cur parent (some p) s = do
  child ← get_elem? s.processes p
  some (
    if cur == p then 0 else child.pid,
    record s { processes = set s.processes p (child_of cur parent child) },
  )

pub fork_from : Option ℕ → System → Option (ℕ × System)
unfolding fork_child
fork_from none s = some (2 ^ 32 - 1, s)
fork_from (some cur) s = do
  parent ← get_elem? s.processes cur
  (p, s') ← create_process parent.name none false s
  fork_child cur parent p s'

pub fork : System → Option (ℕ × System)
unfolding fork_from
fork s = fork_from s.current_process s
