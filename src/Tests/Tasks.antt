-- ===== src/Tests/Tasks.antt =====
-- Two processes.
use kyro_kernel.Base.{
  replicate, codes, ℕ, ◌≡◌, refl, sym, ap, true, Option, none, some, some-injective, [], ◌∷◌, ◌++◌,
  arith,
}
use kyro_kernel.CString.{text}
use kyro_kernel.Heap.{kfree}
use kyro_kernel.Heap.Blocks.{IsValid}
use kyro_kernel.Paging.Directory.{cleared_directory}
use kyro_kernel.Paging.Directory.Entry.{cleared-IsDirectory}
use kyro_kernel.Process.{
  on, CpuState, Process, System, running, ready, blocked, is_ready, schedule, exit,
}
use kyro_kernel.Process.Chain.{Chain, link, end}
use kyro_kernel.Process.Schedule.{Picks, Turned, schedule-round_robin}
use kyro_kernel.Process.Exit.{Left, exit-ready}
use kyro_kernel.Process.Lost.{searched, IsPassed, schedule-lost}
use kyro_kernel.Process.Runs.{first, behind, Runs, RunsOn}
use kyro_kernel.Process.Runs.Steps.{here, more, Step, destroyed, Reach-schedule}
use kyro_kernel.Process.Create.{create_process, fork, find_directory}
use kyro_kernel.Process.Create.Adds.{Added, create_process-Added}
use kyro_kernel.Process.Create.Forks.{Forked, fork-Forked}
use kyro_kernel.Process.Destroy.{destroy_process}
use kyro_kernel.Process.Destroy.Removes.{Removed, destroy_process-Removed}

abbrev pub kernel_cpu : CpuState
kernel_cpu = record {
  eax = 0;
  ebx = 0;
  ecx = 0;
  edx = 0;
  esi = 0;
  edi = 0;
  ebp = 0;
  esp = 0x320000;
  eip = 0x100000;
  cs = 0x08;
  ss = 0x10;
  eflags = 0x202;
  cr3 = 0x300000;
}

abbrev pub kernel_process : Process
kernel_process = record {
  pid = 1;
  ppid = 0;
  name = codes "kernel" ++ replicate 26 0;
  state = running;
  cpu_state = kernel_cpu;
  page_directory = 0x300000;
  kernel_stack = 0x320000;
  user_stack = 0;
  priority = 10;
  time_slice = 10;
  time_used = 0;
  next = none;
  parent = none;
  child_count = 0;
}

abbrev pub shell_process : Process
shell_process = record {
  pid = 2;
  ppid = 0;
  name = codes "shell" ++ replicate 27 0;
  state = ready;
  cpu_state = kernel_cpu;
  page_directory = 0x310000;
  kernel_stack = 0x320000;
  user_stack = 0;
  priority = 10;
  time_slice = 10;
  time_used = 0;
  next = some 0;
  parent = none;
  child_count = 0;
}

abbrev pub two_processes : System
two_processes = record {
  processes = kernel_process ∷ shell_process ∷ [];
  current_process = some 0;
  process_list = some 1;
  next_pid = 3;
  directories = (0x300000, cleared_directory 0x300000) ∷ [];
  current_directory = 0x300000;
  kernel_directory = 0x300000;
  frames = record { words = replicate 4 0; nframes = 128 };
  heap = record { current = 0x330000 };
}

two_processes-Chain : Chain two_processes (some 1) (1 ∷ 0 ∷ [])
two_processes-Chain = link refl (link refl end)

schedule-round_robin_example :
    (o : Option ℕ) × Picks two_processes (1 ∷ []) o
    × Turned two_processes 0 o (schedule 2 two_processes)
schedule-round_robin_example =
    schedule-round_robin two_processes 0 2 (1 ∷ []) [] refl two_processes-Chain
      (λ e. absurd (omega arith), tt) tt (omega arith)

exit-ready_example :
    (s2 : System) × Left two_processes 0 kernel_process none s2
    × (o : Option ℕ) × Picks s2 (1 ∷ []) o
    × Turned s2 0 o (exit 2 two_processes)
exit-ready_example =
    exit-ready two_processes 0 2 (1 ∷ []) [] kernel_process
      (record {
        current = refl;
        chain = two_processes-Chain;
        before_ne = (λ e. absurd (omega arith), tt);
        after_ne = tt;
      })
      refl tt (omega arith)

two_processes-IsValid : IsValid two_processes.heap
two_processes-IsValid = record { above = omega arith; below = omega arith; aligned = refl }

create_process-Added_example :
    Added two_processes
      (1 ∷ 0 ∷ [])
      (codes "init")
      (create_process (codes "init\0") (some 0x100000) true two_processes)
unfolding text find_directory
create_process-Added_example =
    create_process-Added two_processes (1 ∷ 0 ∷ []) (codes "init\0") (codes "init") (some 0x100000)
      (cleared_directory 0x300000) two_processes-Chain refl two_processes-IsValid (omega arith) refl

fork-Forked_example :
    Forked two_processes 0 kernel_process (1 ∷ 0 ∷ []) (codes "kernel") (fork two_processes)
unfolding text find_directory
fork-Forked_example =
    fork-Forked two_processes 0 kernel_process (1 ∷ 0 ∷ []) (codes "kernel")
      (cleared_directory 0x300000) refl refl two_processes-Chain refl two_processes-IsValid
      (omega arith) refl (cleared-IsDirectory 0x300000) (record { size = refl }) (omega arith)

destroy_process-Removed_example :
    Removed two_processes (1 ∷ []) [] (destroy_process 1 (some 0) two_processes)
destroy_process-Removed_example =
    destroy_process-Removed two_processes 0 1 (1 ∷ []) [] two_processes-Chain
      ((λ e. absurd (omega arith), tt), (tt, tt)) (omega arith)

two_processes-Runs : Runs two_processes (1 ∷ 0 ∷ [])
two_processes-Runs = record {
  chain = two_processes-Chain;
  distinct = ((λ e. absurd (omega arith), tt), (tt, tt));
  cur = 0;
  current = refl;
  member = behind first;
}

abbrev shell_gone : System
shell_gone = record two_processes { process_list = some 0 }

shell_destroyed : Step two_processes (1 ∷ 0 ∷ []) shell_gone (0 ∷ [])
unfolding destroy_process kfree
shell_destroyed = destroyed 1 1 [] (0 ∷ []) refl (λ e. cc e) (omega arith) refl

Reach-schedule_example : RunsOn (schedule 1 shell_gone) (0 ∷ [])
Reach-schedule_example =
    Reach-schedule 1 (more here shell_destroyed) two_processes-Runs (omega arith)

-- The current process has been destroyed, and the other one waits.
abbrev waiting_shell : Process
waiting_shell = record shell_process { state = blocked; next = none }

abbrev lost_system : System
lost_system = record two_processes { processes = kernel_process ∷ waiting_shell ∷ [] }

shell-IsPassed : IsPassed lost_system 0 1
shell-IsPassed = (
  λ e. absurd (omega arith),
  λ proc e. ap (λ (p : Process). is_ready p.state) (sym (some-injective _ _ e)),
)

schedule-lost_example :
    ((p : ℕ) × (searched 50 0 (some 1) lost_system ≡ some (on (some p))))
    × (schedule 100 lost_system ≡ none)
schedule-lost_example =
    schedule-lost lost_system 0 1 [] (link {proc = waiting_shell} refl end) (shell-IsPassed, tt) 50
      100 kernel_process [] refl refl end tt
