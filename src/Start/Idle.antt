-- ===== src/Start/Idle.antt =====
-- The kernel up to its idle loop.
use kyro_kernel.Base.{
  ◌==◌, if◌then◌else◌, length, get_elem?, codes, ℕ, ◌<◌, bit_or, ◌≡◌, refl, sym, ◌∙◌, subst, false,
  Option, some, List, [], ◌∷◌,
}
use kyro_kernel.CString.{text}
use kyro_kernel.Screen.{Screen}
use kyro_kernel.Screen.Shows.{Page, Settled}
use kyro_kernel.Screen.Refine.{typed_text}
use kyro_kernel.Keyboard.{Keyboard, keyboard_init}
use kyro_kernel.Console.Line.{Arrives, edit}
use kyro_kernel.Shell.Sessions.{login_prompt-verdict, verdict_text}
use kyro_kernel.Idt.{Stubs}
use kyro_kernel.Idt.Gates.{gate_at, IsPlaced, gates_after_init}
use kyro_kernel.Process.{Process, ready}
use kyro_kernel.Process.Runs.{Runs}
use kyro_kernel.Process.Runs.Steps.{Step-Runs, created}
use kyro_kernel.Process.Create.Space.{create_process-Added_user}
use kyro_kernel.Fs.Refine.First.{first_entries}
use kyro_kernel.User.Refine.First.{first_book}
use kyro_kernel.Start.{Kernel, kernel_main, run_login, run_to_idle}
use kyro_kernel.Start.Says.{IsShown, say-Says, say-Settled, then_run}
use kyro_kernel.Start.Ready.{IsLoaded, Ready, kernel_init-Ready}
use kyro_kernel.Fs.Refine as Files
use kyro_kernel.User.Refine as Accounts
use kyro_kernel.User.Spec

-- A process that is ready and has that name.
pub record IsReady (k : Kernel) (p : ℕ) (name : List ℕ) : Type 0 where
  pub proc : Process
  pub block : get_elem? k.system.processes p ≡ some proc
  pub state : proc.state ≡ ready
  pub named : text proc.name ≡ some name

-- The page after the login that gave `name` and `pass`.
abbrev pub idle_page : List ℕ → List ℕ → Page → Page
idle_page name pass g = typed_text (codes "Entering system idle loop...\n") (
    typed_text (codes "Starting shell...\n")
      (typed_text (verdict_text (Spec.authenticate name pass first_book)) g))

-- The kernel in its idle loop.
pub record Idles (stubs : Stubs) (k : Kernel) (name pass : List ℕ) (r : Option Kernel)
    : Type 0 where
  pub k' : Kernel
  pub run : r ≡ some k'
  pub gates :
      (n : ℕ)
      → gate_at k'.idt n
        ≡ (if n == 0x80 then some (stubs.syscall, (0x08, 0xee)) else gates_after_init stubs n)
  pub loaded : k'.cr3 ≡ 0
  pub paging_on : k'.cr0 ≡ bit_or k.cr0 0x80000000
  pub shell_at : ℕ
  pub processes : Runs k'.system (shell_at ∷ length k.system.processes ∷ [])
  pub current : k'.system.current_process ≡ some (length k.system.processes)
  pub shell_ready : IsReady k' shell_at (codes "shell")
  pub accounts : Accounts.Models k'.users first_book
  pub files : Files.Models k'.file_system first_entries
  pub before_login : Page
  pub says : Settled k'.screen (idle_page name pass before_login)

-- The login and what follows it, on a screen that shows a page, when the start is ready.
run_to_idle-Idles :
    (stubs : Stubs) (fuel : ℕ) (username password : List ℕ)
    (interrupts : List (Keyboard → Keyboard)) (entry_point : ℕ) (k : Kernel) (m0 m1 : ℕ)
    (cs name rest pass rest' : List ℕ) {r : Option Kernel} (init : Ready stubs k m0 m1 r)
    (s : Screen)
    → IsShown s
    → length username ≡ 64
    → length password ≡ 64
    → Arrives (record { keyboard = keyboard_init k.keyboard; interrupts = interrupts }) cs
    → length cs < fuel
    → edit 63 [] cs ≡ some (name, rest)
    → edit 63 [] rest ≡ some (pass, rest')
    → Idles stubs k name pass
        (run_to_idle fuel username password interrupts entry_point (record init.k' { screen = s }))
unfolding run_to_idle run_login text
run_to_idle-Idles stubs fuel username password interrupts entry_point k m0 m1 cs name rest pass
      rest' init s v su sp a lt e1 e2 =
    let (s7, run7, v7) =
      say-Says (codes "Starting login system...\n\0") (record init.k' { screen = s }) refl v in
    let k7 : Kernel = record init.k' { screen = s7 } in
    let (con, login, a', (g, v8)) =
      login_prompt-verdict fuel username password cs name rest pass rest'
        (record { screen = s7; keys = record { keyboard = k7.keyboard; interrupts = interrupts } })
        su sp init.accounts
        (subst (λ (b : Keyboard). Arrives (record { keyboard = b; interrupts = interrupts }) cs)
          (sym init.keys) a)
        v7 lt e1 e2 in
    let k8 : Kernel = record k7 { screen = con.screen; keyboard = con.keys.keyboard } in
    let run8 : run_login fuel username password interrupts k7 ≡ some k8 = then_run _ login refl in
    let (s9, run9, v9) = say-Settled (codes "Starting shell...\n\0") _ k8 _ refl v8 in
    let room = init.room in
    let shell =
      create_process-Added_user k7.system (length k.system.processes ∷ []) (codes "shell\0")
        (codes "shell") (some entry_point) room.dir init.processes.chain refl room.heap_ok room.room
        room.loaded room.dir_ok room.bits room.few in
    let k9 : Kernel = record k8 { screen = s9; system = shell.s' } in
    let (s10, run10, v10) = say-Settled (codes "Entering system idle loop...\n\0") _ k9 _ refl v9 in
    record {
      k' = record k9 { screen = s10 };
      run = then_run _ run7 (then_run _ run8 (then_run _ run9 (then_run _ shell.run run10)));
      gates = init.gates;
      loaded = init.loaded;
      paging_on = init.paging_on;
      shell_at = length k7.system.processes;
      processes =
          Step-Runs
            (created (codes "shell\0") (codes "shell") (some entry_point) false room refl shell.run)
            init.processes;
      current = shell.current ∙ init.current;
      shell_ready = record {
        proc = shell.proc;
        block = shell.block;
        state = shell.state;
        named = shell.name_text;
      };
      accounts = init.accounts;
      files = init.files;
      before_login = g;
      says = v10;
    }

-- From the data as the boot loader leaves them, with the stubs below 2 ^ 32, a controller that
-- answers at its data port with two masks, arrays of 64 bytes and fuel for each character, when
-- the characters that arrive close two lines, `kernel_main` gets to its idle loop. Then the gates
-- are set; the list of processes is the shell's, which is ready, and the kernel's, which is the
-- current one; the accounts and the files are the first ones; and the screen ends with what the
-- login said of the two lines, by the first accounts, and the last two messages; and cr3 is 0 and
-- the top bit of cr0 is set. The processor is taken to go on behind these loads.
pub kernel_main-Idles :
    (stubs : Stubs) (fuel : ℕ) (username password : List ℕ)
    (interrupts : List (Keyboard → Keyboard)) (entry_point : ℕ) (k : Kernel) (m0 m1 : ℕ)
    (answers : List (ℕ × ℕ)) (cs name rest pass rest' : List ℕ)
    → IsPlaced stubs
    → IsLoaded k
    → k.timer.io.answers ≡ (0x21, m0) ∷ (0x21, m1) ∷ answers
    → length username ≡ 64
    → length password ≡ 64
    → Arrives (record { keyboard = keyboard_init k.keyboard; interrupts = interrupts }) cs
    → length cs < fuel
    → edit 63 [] cs ≡ some (name, rest)
    → edit 63 [] rest ≡ some (pass, rest')
    → Idles stubs k name pass (kernel_main stubs fuel username password interrupts entry_point k)
unfolding kernel_main text
kernel_main-Idles stubs fuel username password interrupts entry_point k m0 m1 answers cs name rest
      pass rest' placed h e su sp a lt e1 e2 =
    let (s1, run1, v1) = say-Says (codes "Welcome to Kyro OS!\n\0") k refl h.shown in
    let (s2, run2, v2) =
      say-Says (codes "You're in control!\n\n\0") (record k { screen = s1 }) refl v1 in
    let (s3, run3, v3) =
      say-Says (codes "About to init kernel...\n\0") (record k { screen = s2 }) refl v2 in
    let init =
      kernel_init-Ready stubs (record k { screen = s3 }) m0 m1 answers placed
        (record {
          shown = v3;
          no_process = h.no_process;
          heap_ok = h.heap_ok;
          heap_room = h.heap_room;
          users_ok = h.users_ok;
          files_ok = h.files_ok;
        })
        e in
    let (s5, run5, v5) = say-Says (codes "Kernel init complete\n\0") init.k' refl init.on_page in
    let (s6, run6, v6) =
      say-Says (codes "Systems Ready, enabling interrupts...\n\0") (record init.k' { screen = s5 })
        refl v5 in
    let end =
      run_to_idle-Idles stubs fuel username password interrupts entry_point
        (record k { screen = s3 }) m0 m1 cs name rest pass rest' init s6 v6 su sp a lt e1 e2 in
    record {
      k' = end.k';
      run = then_run _ run1 (
          then_run _ run2
            (then_run _ run3 (then_run _ init.run (then_run _ run5 (then_run _ run6 end.run)))));
      gates = end.gates;
      loaded = end.loaded;
      paging_on = end.paging_on;
      shell_at = end.shell_at;
      processes = end.processes;
      current = end.current;
      shell_ready = end.shell_ready;
      accounts = end.accounts;
      files = end.files;
      before_login = end.before_login;
      says = end.says;
    }
