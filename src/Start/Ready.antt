-- ===== src/Start/Ready.antt =====
-- The kernel when it has started.
use kyro_kernel.Base.{
  ◌==◌, if◌then◌else◌, length, codes, ℕ, ◌+◌, ◌≤◌, bit_or, ◌≡◌, refl, ◌∙◌, Option, none, some, List,
  [], ◌∷◌, ◌++◌, arith,
}
use kyro_kernel.CString.{text}
use kyro_kernel.Heap.{heap_end, free}
use kyro_kernel.Heap.Blocks.{IsValid}
use kyro_kernel.Keyboard.{keyboard_init}
use kyro_kernel.Pic.Masks.{Sets, unmasked-Sets}
use kyro_kernel.Pic.{unmasked, pic_init}
use kyro_kernel.Idt.{Stubs, idt_init}
use kyro_kernel.Idt.Gates.{gate_at, IsPlaced, gates_after_init}
use kyro_kernel.Syscall.{syscall_init}
use kyro_kernel.Syscall.Gate.{syscall_init-gate_at}
use kyro_kernel.Process.Runs.{Runs}
use kyro_kernel.Process.Runs.Steps.{HasRoom}
use kyro_kernel.Fs.Refine.First.{first_entries}
use kyro_kernel.User.Invariant.{empty_book}
use kyro_kernel.User.Refine.First.{first_book}
use kyro_kernel.Start.{Kernel, kernel_init}
use kyro_kernel.Start.Says.{IsShown, say-Says, then_run}
use kyro_kernel.Start.Parts.{
  at_100, answers_left, first_terminal, init_interrupts-run, init_memory-run, enable_lines-run,
  init_subsystems-run, init_drivers-run, init_data-run,
}
use kyro_kernel.Fs.Refine as Files
use kyro_kernel.User.Refine as Accounts

-- The kernel's data as the boot loader leaves it: no process, room on the heap, and tables of the
-- size that the code gives them.
pub record IsLoaded (k : Kernel) : Type 0 where
  pub shown : IsShown k.screen
  pub no_process : k.system.process_list ≡ none
  pub heap_ok : IsValid k.system.heap
  pub heap_room : k.system.heap.current + 0x1b000 ≤ heap_end
  pub users_ok : Accounts.Models (record k.users { user_count = 0 }) empty_book
  pub files_ok : Files.Models (record k.file_system { file_count = 0 }) []

-- What the start leaves, when the interrupt controller answered with the masks `m0` and `m1`.
pub record Ready (stubs : Stubs) (k : Kernel) (m0 m1 : ℕ) (r : Option Kernel) : Type 0 where
  pub k' : Kernel
  pub run : r ≡ some k'
  pub gates :
      (n : ℕ)
      → gate_at k'.idt n
        ≡ (if n == 0x80 then some (stubs.syscall, (0x08, 0xee)) else gates_after_init stubs n)
  pub processes : Runs k'.system (length k.system.processes ∷ [])
  pub current : k'.system.current_process ≡ some (length k.system.processes)
  pub room : HasRoom k'.system
  pub accounts : Accounts.Models k'.users first_book
  pub files : Files.Models k'.file_system first_entries
  pub loaded : k'.cr3 ≡ 0
  pub paging_on : k'.cr0 ≡ bit_or k.cr0 0x80000000
  pub keys : k'.keyboard ≡ keyboard_init k.keyboard
  pub timer_mask : ℕ
  pub keyboard_mask : ℕ
  pub lines :
      k'.timer.io.written
      ≡ (at_100 (pic_init k.timer.io)).written
        ++ (0x21, timer_mask) ∷ []
        ++ (0x21, keyboard_mask) ∷ []
  pub timer_on : Sets 0 0 m0 timer_mask
  pub keyboard_on : Sets 1 0 m1 keyboard_mask
  pub on_page : IsShown k'.screen

-- From the data as the boot loader leaves them, with the stubs below 2 ^ 32 and a controller that
-- answers at its data port with two masks, `kernel_init` returns. Then the gates are those of the
-- exceptions, the two devices and the system calls; the kernel's process is the only one and the
-- current one, with room for another; the accounts and the files are the first ones; the last
-- words to the ports are the masks with the lines of the timer and of the keyboard cleared; cr3 is
-- 0, and the top bit of cr0 is set; and the screen shows a page.
pub kernel_init-Ready :
    (stubs : Stubs) (k : Kernel) (m0 m1 : ℕ) (rest : List (ℕ × ℕ))
    → IsPlaced stubs
    → IsLoaded k
    → k.timer.io.answers ≡ (0x21, m0) ∷ (0x21, m1) ∷ rest
    → Ready stubs k m0 m1 (kernel_init stubs k)
unfolding kernel_init text
kernel_init-Ready stubs k m0 m1 rest placed h e =
    let (s0, run0, v0) =
      say-Says (codes "Kyro OS - Initializing core systems...\n\0") k refl h.shown in
    let k0 : Kernel = record k { screen = s0 } in
    let (s1, run1, v1) = init_interrupts-run stubs k0 v0 in
    let k1 : Kernel = record k0 {
      screen = s1;
      idt = idt_init stubs k.idt;
      timer = record k.timer { io = at_100 (pic_init k.timer.io) };
    } in
    let (s2, sys, run2, one, free, now, v2) =
      init_memory-run stubs k1 h.no_process h.heap_ok h.heap_room v1 in
    let k2 : Kernel = record k1 {
      screen = s2;
      idt = syscall_init stubs k1.idt;
      system = sys;
      cr3 = 0;
      cr0 = bit_or k.cr0 0x80000000;
    } in
    let (s3, run3, v3) = enable_lines-run k2 m0 m1 rest (answers_left k.timer.io ∙ e) v2 in
    let k3 : Kernel = record k2 {
      screen = s3;
      timer = record k2.timer {
        io = record {
          answers = rest;
          written = k2.timer.io.written ++ (0x21, unmasked m0 0) ∷ [] ++ (0x21, unmasked m1 1) ∷ [];
        };
      };
    } in
    let (s4, run4, v4) = init_subsystems-run k3 v3 in
    let k4 : Kernel = record k3 {
      screen = s4;
      file_system = record k.file_system { file_count = 0 };
      terminal = first_terminal k.terminal;
      users = record k.users { user_count = 0 };
    } in
    let (s5, run5, v5) = init_drivers-run k4 v4 in
    let k5 : Kernel = record k4 { screen = s5; keyboard = keyboard_init k.keyboard } in
    let (s6, us, fs, run6, mu, mf, v6) = init_data-run k5 h.users_ok h.files_ok v5 in
    let k6 : Kernel = record k5 { screen = s6; users = us; file_system = fs } in
    let (s7, run7, v7) =
      say-Says (codes "Kyro OS - All systems initialized successfully!\n\0") k6 refl v6 in
    record {
      k' = record k6 { screen = s7 };
      run = then_run _ run0 (
          then_run _ run1 (
            then_run _ run2
              (then_run _ run3 (then_run _ run4 (then_run _ run5 (then_run _ run6 run7))))));
      gates = λ n. syscall_init-gate_at stubs k.idt n placed;
      processes = one;
      current = now;
      room = free;
      accounts = mu;
      files = mf;
      loaded = refl;
      paging_on = refl;
      keys = refl;
      timer_mask = unmasked m0 0;
      keyboard_mask = unmasked m1 1;
      lines = refl;
      timer_on = unmasked-Sets 0 m0 (omega arith);
      keyboard_on = unmasked-Sets 1 m1 (omega arith);
      on_page = v7;
    }
