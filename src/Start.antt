-- ===== src/Start.antt =====
-- The start of the kernel: `kernel_init` and `kernel_main` of kernel/kernel.c, which call the other
-- parts in order. Interrupts come where the login waits for them.
pub mod Says
pub mod Parts
pub mod Ready
pub mod Idle
use kyro_kernel.Base.{◌>>=◌, codes, ℕ, false, Option, some, List, ◌++◌}
use kyro_kernel.Printf.{Call}
use kyro_kernel.Screen.{Screen, print_message}
use kyro_kernel.Output.{print_calls}
use kyro_kernel.Keyboard.{Keyboard, keyboard_init}
use kyro_kernel.Idt.{Idt, Stubs, idt_init}
use kyro_kernel.Pic.{pic_init, pic_enable_irq}
use kyro_kernel.Timer.{Timer, timer_init}
use kyro_kernel.Paging.Directory.{paging_init, Boot}
use kyro_kernel.Syscall.{syscall_init}
use kyro_kernel.Process.{System}
use kyro_kernel.Process.Create.{process_init, create_process, put_directory}
use kyro_kernel.Fs
use kyro_kernel.User
use kyro_kernel.Terminal.{Terminal, terminal_init}
use kyro_kernel.Shell.{shell_init, login_prompt}
use kyro_kernel.Stubs.{package_manager_init, scripting_init, mouse_init, network_init}

-- What the parts keep, and the registers that the start of paging loads. The ports are those of
-- the timer.
pub record Kernel : Type 0 where
  pub screen : Screen
  pub idt : Idt
  pub timer : Timer
  pub system : System
  pub cr3 : ℕ
  pub cr0 : ℕ
  pub file_system : Fs.Fs
  pub users : User.Users
  pub terminal : Terminal
  pub keyboard : Keyboard

-- A part that acts on the screen only.
pub on_screen : (Screen → Option Screen) → Kernel → Option Kernel
on_screen f k = do s ← f k.screen; some (record k { screen = s })

abbrev pub say : List ℕ → Kernel → Option Kernel
say message k = on_screen (print_message message) k

-- A part that prints through `printf`.
abbrev pub prints : List Call → Kernel → Option Kernel
prints calls k = on_screen (print_calls calls) k

abbrev paging_calls : List Call
paging_calls =
    Fs.say "Initializing paging...\n"
    ++ Fs.say "Identity mapping first 8MB...\n"
    ++ Fs.say "Switching to kernel page directory...\n"
    ++ Fs.say "Enabling paging...\n"
    ++ Fs.say "Paging enabled successfully\n"

-- What `paging_init` leaves in the globals that the processes use.
pub with_paging : Boot → System → System
with_paging b sys = record sys {
  directories = put_directory b.kernel_directory b.current_directory sys.directories;
  current_directory = b.kernel_directory;
  kernel_directory = b.kernel_directory;
  frames = b.frames;
  heap = b.heap;
}

-- The interrupt descriptors, the interrupt controllers and the timer.
pub init_interrupts : Stubs → Kernel → Option Kernel
init_interrupts stubs k = do
  k1 ← say (codes "Setting up IDT...\n\0") k
  k2 ← say (codes "Setting up PIC...\n\0") (record k1 { idt = idt_init stubs k1.idt })
  k3 ←
      say (codes "Setting up timer...\n\0")
        (record k2 { timer = record k2.timer { io = pic_init k2.timer.io } })
  timer' ← timer_init 100 k3.timer
  some (record k3 { timer = timer' })

-- Paging, the system calls and the first process.
pub init_memory : Stubs → Kernel → Option Kernel
init_memory stubs k = do
  k1 ← say (codes "Setting up memory management...\n\0") k
  k2 ← prints paging_calls k1
  boot ← paging_init k2.cr0 k2.system.heap
  k3 ←
      say (codes "Setting up system calls...\n\0")
        (record k2 { system = with_paging boot k2.system; cr3 = boot.cr3; cr0 = boot.cr0 })
  k4 ←
      say (codes "Setting up process management...\n\0")
        (record k3 { idt = syscall_init stubs k3.idt })
  sys ← process_init k4.system
  some (record k4 { system = sys })

-- The lines of the timer and of the keyboard.
pub enable_lines : Kernel → Option Kernel
enable_lines k = do
  k1 ← say (codes "Enabling hardware interrupts...\n\0") k
  io1 ← pic_enable_irq 0 k1.timer.io
  io2 ← pic_enable_irq 1 io1
  some (record k1 { timer = record k1.timer { io = io2 } })

-- The file system, the terminal, the users and the stubs.
pub init_subsystems : Kernel → Option Kernel
init_subsystems k = do
  k1 ← say (codes "Initializing subsystems...\n\0") k
  fs ← Fs.fs_init k1.file_system
  k2 ← prints fs.prints (record k1 { file_system = fs.fs })
  (t, s) ← terminal_init k2.terminal k2.screen
  us ← User.user_init k2.users
  k3 ← prints us.prints (record k2 { terminal = t; screen = s; users = us.state })
  k4 ← on_screen shell_init k3
  k5 ← on_screen package_manager_init k4
  on_screen scripting_init k5

pub init_drivers : Kernel → Option Kernel
init_drivers k = do
  k1 ← say (codes "Initializing drivers...\n\0") k
  k2 ←
      say (codes "Keyboard driver initialized\n\0")
        (record k1 { keyboard = keyboard_init k1.keyboard })
  k3 ← on_screen mouse_init k2
  on_screen network_init k3

-- The first accounts and files.
pub init_data : Kernel → Option Kernel
init_data k = do
  k1 ← say (codes "Setting up initial data...\n\0") k
  us ← User.init_users k1.users
  k2 ← prints us.prints (record k1 { users = us.state })
  fs ← Fs.init_file_system k2.file_system
  prints fs.prints (record k2 { file_system = fs.fs })

pub kernel_init : Stubs → Kernel → Option Kernel
kernel_init stubs k = do
  k1 ← say (codes "Kyro OS - Initializing core systems...\n\0") k
  k2 ← init_interrupts stubs k1
  k3 ← init_memory stubs k2
  k4 ← enable_lines k3
  k5 ← init_subsystems k4
  k6 ← init_drivers k5
  k7 ← init_data k6
  say (codes "Kyro OS - All systems initialized successfully!\n\0") k7

-- The login, on the screen and the keyboard of the kernel.
pub run_login :
    ℕ → (username password : List ℕ) → List (Keyboard → Keyboard) → Kernel → Option Kernel
run_login fuel username password interrupts k = do
  con ← login_prompt fuel username password k.users (record {
    screen = k.screen;
    keys = record { keyboard = k.keyboard; interrupts = interrupts };
  })
  some (record k { screen = con.screen; keyboard = con.keys.keyboard })

-- The login and the shell's process, up to the idle loop. `entry_point` is the address of
-- `run_shell`; the pointer that `create_process` returns is not looked at.
pub run_to_idle :
    (fuel : ℕ) (username password : List ℕ)
    → List (Keyboard → Keyboard)
    → (entry_point : ℕ) → Kernel
    → Option Kernel
run_to_idle fuel username password interrupts entry_point k = do
  k1 ← say (codes "Starting login system...\n\0") k
  k2 ← run_login fuel username password interrupts k1
  k3 ← say (codes "Starting shell...\n\0") k2
  (p, sys) ← create_process (codes "shell\0") (some entry_point) false k3.system
  say (codes "Entering system idle loop...\n\0") (record k3 { system = sys })

-- Up to the idle loop.
pub kernel_main :
    Stubs
    → (fuel : ℕ) (username password : List ℕ) → List (Keyboard → Keyboard)
    → (entry_point : ℕ) → Kernel
    → Option Kernel
kernel_main stubs fuel username password interrupts entry_point k = do
  k1 ← say (codes "Welcome to Kyro OS!\n\0") k
  k2 ← say (codes "You're in control!\n\n\0") k1
  k3 ← say (codes "About to init kernel...\n\0") k2
  k4 ← kernel_init stubs k3
  k5 ← say (codes "Kernel init complete\n\0") k4
  k6 ← say (codes "Systems Ready, enabling interrupts...\n\0") k5
  run_to_idle fuel username password interrupts entry_point k6
