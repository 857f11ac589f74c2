-- ===== src/Tests/Lines.antt =====
-- Lines that are typed.
use kyro_kernel.Base.{
  length, replicate, length-replicate, codes, ℕ, ◌-◌, ◌%◌, ◌≤◌, ◌<◌, ◌≡◌, refl, false, none, some,
  List, [], ◌∷◌, arith,
}
use kyro_kernel.CString.Compare.{same_text}
use kyro_kernel.CString.{text}
use kyro_kernel.Screen.{clear_screen}
use kyro_kernel.Screen.Shows.{Page, Settled}
use kyro_kernel.Screen.Refine.{blank_page, typed_text}
use kyro_kernel.Keyboard.{Keyboard, keyboard_get_char}
use kyro_kernel.Console.{Console, next_char}
use kyro_kernel.Console.Line.{Arrives, stop, key, edit, Entered}
use kyro_kernel.Console.Line.Acts.{IsShown}
use kyro_kernel.Terminal.{terminal_get_line}
use kyro_kernel.Terminal.Enters.{terminal_get_line-Entered}
use kyro_kernel.Input.{scanf, Scanned}
use kyro_kernel.Input.Enters.{scanf-line}
use kyro_kernel.User.Spec
use kyro_kernel.Shell.{run_shell, login_prompt}
use kyro_kernel.Shell.Sessions.{
  Session, leaves, stays, Left, run_shell-Left, verdict_text, login_prompt-verdict,
}
use kyro_kernel.Tests.Display.{at_boot, cleared}
use kyro_kernel.Tests.Tables.{two_files, two_files-Models}
use kyro_kernel.Tests.Accounts.{one_user, root_book, one_user-Models}

-- A keyboard with these scancodes in its buffer.
abbrev with_scancodes : List ℕ → ℕ → Keyboard
with_scancodes codes_waiting tail = record {
  flags = 0;
  led_state = 0;
  extended_scancode = false;
  buffer = codes_waiting;
  buffer_head = length codes_waiting % 256;
  buffer_tail = tail;
  buffer_count = length codes_waiting - tail;
}

abbrev console_with : List ℕ → Console
console_with l = record {
  screen = clear_screen at_boot;
  keys = record { keyboard = with_scancodes l 0; interrupts = [] };
}

is_shown : (l : List ℕ) → IsShown (console_with l)
is_shown l = (blank_page, cleared)

-- l, a backspace, l, s and the enter key.
abbrev typed_ls : List ℕ
typed_ls = 0x26 ∷ 0x0e ∷ 0x26 ∷ 0x1f ∷ 0x1c ∷ []

abbrev chars_ls : List ℕ
chars_ls = b'l' ∷ 8 ∷ b'l' ∷ b's' ∷ b'\n' ∷ []

ls-Arrives : Arrives (console_with typed_ls).keys chars_ls
unfolding next_char keyboard_get_char
ls-Arrives = key refl (key refl (key refl (key refl (key refl stop))))

terminal_get_line-Entered_example :
    Entered IsShown 64
      (codes "ls")
      []
      (terminal_get_line 6 (replicate 64 0) 64 (console_with typed_ls))
unfolding edit
terminal_get_line-Entered_example =
    terminal_get_line-Entered 64 6 chars_ls (replicate 64 0) (codes "ls") [] (console_with typed_ls)
      (omega arith) ls-Arrives (is_shown typed_ls) (omega arith) refl

scanf-line_example :
    (2 < 8
      → (r : Scanned) × (scanf 6
            (codes "%s\0")
            (replicate 8 0)
            (replicate 256 0)
            (console_with typed_ls)
          ≡ some r)
        × (r.matched ≡ 1)
        × (text r.target ≡ some (codes "ls"))
        × Arrives r.con.keys [])
    × (8 ≤ 2
        → scanf 6 (codes "%s\0") (replicate 8 0) (replicate 256 0) (console_with typed_ls) ≡ none)
unfolding edit
scanf-line_example =
    scanf-line 6 chars_ls (replicate 8 0) (replicate 256 0) (codes "ls") [] (console_with typed_ls)
      (length-replicate {A = ℕ} 256 0) ls-Arrives (is_shown typed_ls) (omega arith) refl

-- A line that is no command, then exit.
abbrev typed_session : List ℕ
typed_session = 0x13 ∷ 0x1c ∷ 0x12 ∷ 0x2d ∷ 0x17 ∷ 0x14 ∷ 0x1c ∷ []

abbrev chars_session : List ℕ
chars_session = codes "r\nexit\n"

session-Arrives : Arrives (console_with typed_session).keys chars_session
unfolding next_char keyboard_get_char
session-Arrives = key refl (key refl (key refl (key refl (key refl (key refl (key refl stop))))))

session : Session 2 chars_session []
unfolding edit same_text
session = stays {line = codes "r"} {cs' = codes "exit\n"} refl refl (leaves refl)

run_shell-Left_example :
    Left [] (run_shell 2 8 (replicate 256 0) two_files one_user (console_with typed_session))
run_shell-Left_example =
    run_shell-Left 2 8 (replicate 256 0) chars_session [] (console_with typed_session) session
      (length-replicate {A = ℕ} 256 0) session-Arrives (is_shown typed_session) (omega arith)
      two_files-Models one_user-Models (omega arith, tt)

-- The name and the password of an account.
abbrev typed_login : List ℕ
typed_login = 0x13 ∷ 0x18 ∷ 0x18 ∷ 0x14 ∷ 0x1c ∷ 0x14 ∷ 0x18 ∷ 0x18 ∷ 0x13 ∷ 0x1c ∷ []

abbrev chars_login : List ℕ
chars_login = codes "root\ntoor\n"

login-Arrives : Arrives (console_with typed_login).keys chars_login
unfolding next_char keyboard_get_char
login-Arrives = key refl (
    key refl
      (key refl (key refl (key refl (key refl (key refl (key refl (key refl (key refl stop)))))))))

login_prompt-verdict_example :
    (con' : Console) × (login_prompt 11
        (replicate 64 0)
        (replicate 64 0)
        one_user
        (console_with typed_login)
      ≡ some con')
    × Arrives con'.keys []
    × ((g : Page) × Settled con'.screen
          (typed_text (verdict_text (Spec.authenticate (codes "root") (codes "toor") root_book)) g))
unfolding edit
login_prompt-verdict_example =
    login_prompt-verdict 11 (replicate 64 0) (replicate 64 0) chars_login (codes "root")
      (codes "toor\n") (codes "toor") [] (console_with typed_login) refl refl one_user-Models
      login-Arrives (is_shown typed_login) (omega arith) refl refl
