-- ===== src/Shell.antt =====
-- kernel/run_shell.c, kernel/run_terminal.c, kernel/login.c and kernel/shell.c: what the user types
-- at the prompts, and the commands.
pub mod Runs
pub mod Sessions
use kyro_kernel.Base.{
  ltb, if◌then◌else◌, ◌>>=◌, codes, ℕ, zero, suc, Bool, true, false, Option, none, some, List, [],
  ◌∷◌,
}
use mathlib.Core.Option
use kyro_kernel.CString.{strcmp, strlen}
use kyro_kernel.CString.Compare.{is_equal}
use kyro_kernel.Printf.{Call}
use kyro_kernel.Screen.{Screen, print_message, clear_screen}
use kyro_kernel.Output.{print_calls}
use kyro_kernel.Console.{Console, Action}
use kyro_kernel.Terminal.{terminal_get_line}
use kyro_kernel.User.{Users, authenticate_user, list_users}
use kyro_kernel.Fs.{Fs, list_files}

unfoldable pub shell_init : Screen → Option Screen
shell_init s = print_message (codes "Shell system initialized.\n\0") s

pub shell : Screen → Option Screen
shell s = print_message (codes "Shell running (stub implementation)\n\0") s

-- A call of `print_message`.
unfoldable pub tell : List ℕ → Action
tell message con = Option.map (λ s. record con { screen = s }) (print_message message con.screen)

pub tell_all : List (List ℕ) → Action
tell_all [] con = some con
tell_all (m ∷ ms) con = do con' ← tell m con; tell_all ms con'

-- What is said about the login.
abbrev pub verdict : Bool → List ℕ
verdict true = codes "Login successful! Welcome to Kyro OS.\n\0"
verdict false = codes "Login failed. Using default access.\n\0"

-- The two arrays come as they are found on the stack.
pub login_prompt : ℕ → (username password : List ℕ) → Users → Console → Option Console
login_prompt fuel username password us con = do
  con1 ← tell_all (codes "\n=== Login ===\n\0" ∷ codes "Username: \0" ∷ []) con
  (username', con2) ← terminal_get_line fuel username 64 con1
  con3 ← tell (codes "Password: \0") con2
  (password', con4) ← terminal_get_line fuel password 64 con3
  ok ← authenticate_user username' password' us
  tell (verdict ok) con4

-- `strcmp(command, name) == 0`
pub is_command : List ℕ → List ℕ → Option Bool
is_command command name = Option.map is_equal (strcmp command name)

-- A listing, through `printf`.
pub show_calls : Option (List Call) → Action
show_calls calls con = do
  c ← calls
  Option.map (λ s. record con { screen = s }) (print_calls c con.screen)

abbrev pub help_lines : List (List ℕ)
help_lines =
    codes "Available commands:\n\0"
    ∷ codes "  help    - Show this help\n\0"
    ∷ codes "  clear   - Clear screen\n\0"
    ∷ codes "  exit    - Exit shell\n\0"
    ∷ codes "  ls      - List files\n\0"
    ∷ codes "  users   - List users\n\0"
    ∷ []

-- The last branch.
pub run_unknown : List ℕ → Action
run_unknown command con = do
  n ← strlen command
  if ltb 0 n
      then tell_all (codes "Unknown command: \0" ∷ command ∷ codes "\n\0" ∷ []) con
      else some con

-- Whether the loop goes on, and what a command leaves.
pub run_command : List ℕ → Fs → Users → Console → Option (Bool × Console)
run_command command fs us con = do
  help ← is_command command (codes "help\0")
  clear ← is_command command (codes "clear\0")
  exit ← is_command command (codes "exit\0")
  ls ← is_command command (codes "ls\0")
  users ← is_command command (codes "users\0")
  if help
      then Option.map (λ con'. (true, con')) (tell_all help_lines con)
      else if clear
      then some (true, record con { screen = clear_screen con.screen })
      else if exit
      then Option.map (λ con'. (false, con')) (tell (codes "Exiting shell...\n\0") con)
      else if ls
      then Option.map (λ con'. (true, con')) (show_calls (list_files fs) con)
      else if users
      then Option.map (λ con'. (true, con')) (show_calls (list_users us) con)
      else Option.map (λ con'. (true, con')) (run_unknown command con)

-- One turn of the loop: the prompt, a line, its command, and the array that the next turn finds.
pub shell_turn : ℕ → List ℕ → Fs → Users → Console → Option (Bool × (List ℕ × Console))
shell_turn fuel command fs us con = do
  con1 ← tell (codes "kyro> \0") con
  (command', con2) ← terminal_get_line fuel command 256 con1
  (more, con3) ← run_command command' fs us con2
  some (more, (command', con3))

-- The loop, on fuel for its turns; each line has fuel of its own.
pub shell_loop : ℕ → ℕ → List ℕ → Fs → Users → Console → Option Console
shell_loop zero fuel command fs us con = none
shell_loop (suc turns) fuel command fs us con = do
  (more, (command', con')) ← shell_turn fuel command fs us con
  elim more [ true ↦ shell_loop turns fuel command' fs us con' | false ↦ some con' ]

pub run_shell : ℕ → ℕ → List ℕ → Fs → Users → Console → Option Console
run_shell turns fuel command fs us con = do
  con' ←
      tell_all
        (codes "\n=== Kyro OS Shell ===\n\0" ∷ codes "Type 'help' for available commands\n\0" ∷ [])
        con
  shell_loop turns fuel command fs us con'

pub run_terminal : ℕ → ℕ → List ℕ → Fs → Users → Console → Option Console
run_terminal turns fuel command fs us con = do
  con' ←
      tell_all
        (codes "Terminal mode activated.\n\0"
          ∷ codes "This is a basic terminal interface.\n\0"
          ∷ [])
        con
  run_shell turns fuel command fs us con'
