-- ===== src/Start/Parts.antt =====
-- The parts of `kernel_init` one by one.
use kyro_kernel.Base.{
  length, codes, ℕ, ◌+◌, ◌≤◌, bit_or, ◌≡◌, refl, ◌∙◌, true, none, some, List, [], ◌∷◌, ◌++◌, arith,
}
use kyro_kernel.CString.{text}
use kyro_kernel.Screen.{Screen}
use kyro_kernel.Port.{Io, outb, inb, io_wait}
use kyro_kernel.Pic.{pic_init, pic_enable_irq, line, unmasked}
use kyro_kernel.Timer.{timer_init}
use kyro_kernel.Idt.{Stubs, idt_init}
use kyro_kernel.Start.{
  Kernel, init_interrupts, enable_lines, init_memory, with_paging, paging_calls, on_screen,
  init_subsystems, init_drivers, init_data,
}
use kyro_kernel.Terminal.{Terminal, terminal_init}
use kyro_kernel.Heap.{heap_end}
use kyro_kernel.Heap.Blocks.{IsValid}
use kyro_kernel.Paging.Directory.Start.{paging_init-Boots}
use kyro_kernel.Syscall.{syscall_init}
use kyro_kernel.Process.{System}
use kyro_kernel.Process.Create.{find_directory}
use kyro_kernel.Paging.Directory.{Directory}
use kyro_kernel.Process.Runs.{Runs}
use kyro_kernel.Process.Runs.Steps.{HasRoom}
use kyro_kernel.Process.Create.Init.{process_init-Starts}
use kyro_kernel.Process.Create.Space.{find-put}
use kyro_kernel.Fs.Refine.First.{init_file_system-first}
use kyro_kernel.User.Invariant.{empty_book}
use kyro_kernel.User.Refine.First.{init_users-first}
use kyro_kernel.Keyboard.{keyboard_init}
use kyro_kernel.Shell.{shell_init}
use kyro_kernel.Stubs.{package_manager_init, scripting_init, mouse_init, network_init}
use kyro_kernel.Printf.{render, printf, digits_loop}
use kyro_kernel.Start.Says.{print_message-IsShown, print_calls-IsShown, IsShown, say-Says}
use kyro_kernel.Fs
use kyro_kernel.User

-- The interval timer at 100 Hz.
abbrev pub at_100 : Io → Io
at_100 io = outb 0x40 46 (outb 0x40 155 (outb 0x43 0x36 io))

pub init_interrupts-run :
    (stubs : Stubs) (k : Kernel)
    → IsShown k.screen
    → (s : Screen) × (init_interrupts stubs k
        ≡ some (record k {
          screen = s;
          idt = idt_init stubs k.idt;
          timer = record k.timer { io = at_100 (pic_init k.timer.io) };
        }))
      × IsShown s
unfolding init_interrupts timer_init text
init_interrupts-run stubs k v =
    let (s1, run1, v1) = say-Says (codes "Setting up IDT...\n\0") k refl v in
    let k1 : Kernel = record k { screen = s1; idt = idt_init stubs k.idt } in
    let (s2, run2, v2) = say-Says (codes "Setting up PIC...\n\0") k1 refl v1 in
    let k2 : Kernel = record k1 {
      screen = s2;
      timer = record k1.timer { io = pic_init k1.timer.io };
    } in
    let (s3, run3, v3) = say-Says (codes "Setting up timer...\n\0") k2 refl v2 in
    (s3, rw (run1, run2, run3) refl, v3)

-- The lines of the timer and the keyboard, when the controller answers with its masks.
pub enable_lines-run :
    (k : Kernel) (m0 m1 : ℕ) (rest : List (ℕ × ℕ))
    → k.timer.io.answers ≡ (0x21, m0) ∷ (0x21, m1) ∷ rest
    → IsShown k.screen
    → (s : Screen) × (enable_lines k
        ≡ some (record k {
          screen = s;
          timer = record k.timer {
            io = record {
              answers = rest;
              written =
                  k.timer.io.written ++ (0x21, unmasked m0 0) ∷ [] ++ (0x21, unmasked m1 1) ∷ [];
            };
          };
        }))
      × IsShown s
unfolding enable_lines pic_enable_irq line inb outb text
enable_lines-run k m0 m1 rest e v =
    let (s, run, v') = say-Says (codes "Enabling hardware interrupts...\n\0") k refl v in
    (s, rw (run, e) refl, v')

abbrev pub first_terminal : Terminal → Terminal
first_terminal t = record t {
  buffer_index = 0;
  cursor_x = 0;
  cursor_y = 0;
  color = 0x07;
  echo_enabled = true;
}

-- The tables are emptied.
pub init_subsystems-run :
    (k : Kernel)
    → IsShown k.screen
    → (s : Screen) × (init_subsystems k
        ≡ some (record k {
          screen = s;
          file_system = record k.file_system { file_count = 0 };
          terminal = first_terminal k.terminal;
          users = record k.users { user_count = 0 };
        }))
      × IsShown s
unfolding init_subsystems Fs.fs_init User.user_init terminal_init shell_init package_manager_init
    scripting_init on_screen text render printf
init_subsystems-run k v =
    let (s1, run1, v1) =
      print_message-IsShown (codes "Initializing subsystems...\n\0") k.screen refl v in
    let (s2, run2, v2) = print_calls-IsShown (Fs.say "File system initialized.\n") s1 refl v1 in
    let (s3, run3, v3) = print_message-IsShown (codes "Terminal initialized.\n\0") s2 refl v2 in
    let (s4, run4, v4) = print_calls-IsShown (User.say "User system initialized.\n") s3 refl v3 in
    let (s5, run5, v5) = print_message-IsShown (codes "Shell system initialized.\n\0") s4 refl v4 in
    let (s6, run6, v6) =
      print_message-IsShown (codes "Package manager initialized.\n\0") s5 refl v5 in
    let (s7, run7, v7) =
      print_message-IsShown (codes "Scripting system initialized.\n\0") s6 refl v6 in
    (s7, rw (run1, run2, run3, run4, run5, run6, run7) refl, v7)

pub init_drivers-run :
    (k : Kernel)
    → IsShown k.screen
    → (s : Screen) × (init_drivers k
        ≡ some (record k { screen = s; keyboard = keyboard_init k.keyboard }))
      × IsShown s
unfolding init_drivers mouse_init network_init on_screen text
init_drivers-run k v =
    let (s1, run1, v1) =
      print_message-IsShown (codes "Initializing drivers...\n\0") k.screen refl v in
    let (s2, run2, v2) =
      print_message-IsShown (codes "Keyboard driver initialized\n\0") s1 refl v1 in
    let (s3, run3, v3) =
      print_message-IsShown (codes "Mouse driver initialized (stub)\n\0") s2 refl v2 in
    let (s4, run4, v4) =
      print_message-IsShown (codes "Network driver initialized (stub)\n\0") s3 refl v3 in
    (s4, rw (run1, run2, run3, run4) refl, v4)

-- The tables get their first accounts and files.
pub init_data-run :
    (k : Kernel)
    → User.Refine.Models k.users empty_book
    → Fs.Refine.Models k.file_system []
    → IsShown k.screen
    → (s : Screen) × (us : User.Users) × (fs : Fs.Fs) × (init_data k
        ≡ some (record k { screen = s; users = us; file_system = fs }))
      × User.Refine.Models us User.Refine.First.first_book
      × Fs.Refine.Models fs Fs.Refine.First.first_entries
      × IsShown s
unfolding init_data on_screen text render printf digits_loop
init_data-run k mu mf v =
    let (s1, run1, v1) =
      print_message-IsShown (codes "Setting up initial data...\n\0") k.screen refl v in
    let (u, runu, pu, mu') = init_users-first mu in
    let (s2, run2, v2) = print_calls-IsShown User.Refine.First.first_calls s1 refl v1 in
    let (f, runf, pf, mf') = init_file_system-first mf in
    let (s3, run3, v3) = print_calls-IsShown Fs.Refine.First.first_calls s2 refl v2 in
    (s3, u.state, f.fs, rw (run1, runu, pu, run2, runf, pf, run3) refl, mu', mf', v3)

-- Paging is set up, the kernel's process is the only one, and there is room for another.
pub init_memory-run :
    (stubs : Stubs) (k : Kernel)
    → k.system.process_list ≡ none
    → IsValid k.system.heap
    → k.system.heap.current + 0x1b000 ≤ heap_end
    → IsShown k.screen
    → (s : Screen) × (sys : System) × (init_memory stubs k
        ≡ some (record k {
          screen = s;
          idt = syscall_init stubs k.idt;
          system = sys;
          cr3 = 0;
          cr0 = bit_or k.cr0 0x80000000;
        }))
      × Runs sys (length k.system.processes ∷ [])
      × HasRoom sys
      × (sys.current_process ≡ some (length k.system.processes))
      × IsShown s
unfolding init_memory with_paging on_screen text render printf
init_memory-run stubs k none_yet ok room v =
    let (s1, run1, v1) =
      print_message-IsShown (codes "Setting up memory management...\n\0") k.screen refl v in
    let (s2, run2, v2) = print_calls-IsShown paging_calls s1 refl v1 in
    let boot = paging_init-Boots k.cr0 k.system.heap ok (omega arith) in
    let (s3, run3, v3) =
      print_message-IsShown (codes "Setting up system calls...\n\0") s2 refl v2 in
    let (s4, run4, v4) =
      print_message-IsShown (codes "Setting up process management...\n\0") s3 refl v3 in
    let sys : System = with_paging boot.b k.system in
    let dir : Directory = boot.b.current_directory in
    let found : find_directory sys.kernel_directory sys.directories ≡ some dir =
      find-put boot.b.kernel_directory boot.b.kernel_directory boot.b.current_directory
        k.system.directories
      ∙ ground arith in
    let (sys', run5, one, kept, now) =
      process_init-Starts sys dir none_yet boot.heap_ok (omega (arith, boot.heap_up)) found in
    (
      s4,
      sys',
      rw (run1, run2, boot.run, run3, run4, run5, boot.loads, boot.paging_on) refl,
      one,
      record {
        heap_ok = kept.heap_ok;
        room = omega (arith, boot.heap_up, kept.heap_up);
        kernel = dir;
        kernel_is = rw (kept.kernel, kept.directories) found;
        dir = dir;
        loaded = rw (kept.loaded, kept.directories) found;
        dir_ok = boot.dir_ok;
        bits = rw kept.frames boot.bits;
        few = rw (kept.frames, boot.count) (omega arith);
      },
      now,
      v4,
    )

-- Nothing is read from the ports before the lines are enabled.
pub answers_left : (io : Io) → (at_100 (pic_init io)).answers ≡ io.answers
unfolding pic_init outb io_wait
answers_left io = refl
