-- ===== src/Shell/Sessions.antt =====
-- Whole sessions at the prompts: the login, and the shell until `exit`.
use kyro_kernel.Base.{
  length, codes, ℕ, suc, ◌≤◌, ◌<◌, ◌≡◌, refl, sym, ap, ◌∙◌, subst, Bool, true, false, not, Option,
  some, List, [], ◌∷◌, arith,
}
use kyro_kernel.CString.{text}
use kyro_kernel.CString.Compare.{same_text}
use kyro_kernel.Screen.Shows.{Page, Settled}
use kyro_kernel.Screen.Refine.{print_message-Ends, typed_text}
use kyro_kernel.Console.{Keys, Console}
use kyro_kernel.Console.Line.{Arrives, edit, edited}
use kyro_kernel.Console.Line.Acts.{IsShown}
use kyro_kernel.Terminal.Enters.{terminal_get_line-Entered}
use kyro_kernel.User.{Users, list_users}
use kyro_kernel.User.Refine.{Models}
use kyro_kernel.User.Refine.Query.{authenticate_user-Spec}
use kyro_kernel.User.Spec
use kyro_kernel.User.Spec.{Book}
use kyro_kernel.Fs.{Fs, list_files}
use kyro_kernel.Fs.Spec.{Entry}
use kyro_kernel.Fs.Refine as Files
use kyro_kernel.Fs.Refine.Listing.{list_files-lines}
use kyro_kernel.Table.Model.{All}
use kyro_kernel.User.Refine.Listing.{IsId, list_users-Listed}
use kyro_kernel.Shell.{tell, login_prompt, verdict, shell_turn, shell_loop, run_shell}
use kyro_kernel.Shell.Runs.{Prints, run_command-GoesOn, tell-Acts, tell_all-Acts}

-- The editor of lines takes characters away.
edit-le :
    (n : ℕ) (t cs line rest : List ℕ) → edit n t cs ≡ some (line, rest) → length rest ≤ length cs
unfolding edit
edit-le n t [] line rest h = ground arith
edit-le n t (c ∷ cs) line rest h = ground (arith, edit-le n (edited c t) cs line rest)

-- The characters of a session of so many lines, of which the last is `exit` and no other is; those
-- behind it are the rest.
pub data Session : ℕ → List ℕ → List ℕ → Type 0 where
  leaves : {cs rest : List ℕ} → edit 255 [] cs ≡ some (codes "exit", rest) → Session 1 cs rest
  stays :
      {n : ℕ} {cs line cs' rest : List ℕ}
      → edit 255 [] cs ≡ some (line, cs')
      → same_text line (codes "exit") ≡ false
      → Session n cs' rest
      → Session (suc n) cs rest

-- One turn at a line that is entered.
shell_turn-run :
    (fuel : ℕ) (command cs line rest : List ℕ) (fs : Fs) (us : Users) (con : Console)
    → length command ≡ 256
    → Arrives con.keys cs
    → IsShown con
    → length cs < fuel
    → edit 255 [] cs ≡ some (line, rest)
    → Prints (list_files fs)
    → Prints (list_users us)
    → (command' : List ℕ) × (con' : Console) × (shell_turn fuel command fs us con
        ≡ some (not (same_text line (codes "exit")), (command', con')))
      × (length command' ≡ 256)
      × Arrives con'.keys rest
      × IsShown con'
unfolding shell_turn text
shell_turn-run fuel command cs line rest fs us con size a v h e files users =
    let (c1, run1, k1, v1) = tell-Acts (codes "kyro> \0") {cs = codes "kyro> "} refl con v in
    let en =
      terminal_get_line-Entered 256 fuel cs command line rest c1 (omega arith)
        (subst (λ (k : Keys). Arrives k cs) (sym k1) a) v1 h e in
    let (c3, run3, k3, v3) =
      run_command-GoesOn en.buffer line fs us en.con en.holds files users en.keeps in
    (
      en.buffer,
      c3,
      rw (run1, en.run, run3) refl,
      en.same_size ∙ size,
      subst (λ (k : Keys). Arrives k rest) (sym k3) en.arrives,
      v3,
    )

-- A session at the shell's loop.
abbrev pub Left : List ℕ → Option Console → Type 0
Left rest r = (con : Console) × (r ≡ some con) × Arrives con.keys rest × IsShown con

shell_loop-Left :
    (n fuel : ℕ) (command cs rest : List ℕ) (fs : Fs) (us : Users) (con : Console)
    → Session n cs rest
    → length command ≡ 256
    → Arrives con.keys cs
    → IsShown con
    → length cs < fuel
    → Prints (list_files fs)
    → Prints (list_users us)
    → Left rest (shell_loop n fuel command fs us con)
unfolding shell_loop same_text
shell_loop-Left _ fuel command cs rest fs us con (leaves e) size a v h files users =
    let (c', con', run, size', a', v') =
      shell_turn-run fuel command cs (codes "exit") rest fs us con size a v h e files users in
    (con', rw run refl, a', v')
shell_loop-Left _ fuel command cs rest fs us con (stays {n} {line} {cs'} e other s) size a v h files
      users =
    let (c', con', run, size', a', v') =
      shell_turn-run fuel command cs line cs' fs us con size a v h e files users in
    let go_on : not (same_text line (codes "exit")) ≡ true = ap not other in
    let (con'', run', a'', v'') =
      shell_loop-Left n fuel c' cs' rest fs us con' s size' a' v'
        (omega (arith, edit-le 255 [] cs line cs' e)) files users in
    (con'', rw (run, other) run', a'', v'')

-- On a screen that shows a page, with an array of 256 bytes, a file table that models entries, a
-- table of users that models accounts with numbers below 2 ^ 31, and fuel for each character, when
-- the lines that arrive are not `exit` up to one that is, `run_shell` returns after just as many
-- turns; the characters behind the `exit` are still to come, and the screen shows a page.
pub run_shell-Left :
    (n fuel : ℕ) (command cs rest : List ℕ) {fs : Fs} {es : List Entry} {us : Users} {b : Book}
    (con : Console)
    → Session n cs rest
    → length command ≡ 256
    → Arrives con.keys cs
    → IsShown con
    → length cs < fuel
    → Files.Models fs es
    → Models us b
    → All IsId b.accounts
    → Left rest (run_shell n fuel command fs us con)
unfolding run_shell text
run_shell-Left n fuel command cs rest {fs} {es} {us} {b} con s size a v h files users ids =
    let (fc, fr, fo) = list_files-lines files in
    let (uc, ur, out, uo, ls) = list_users-Listed users ids in
    let (c1, run1, k1, v1) =
      tell_all-Acts
        (codes "\n=== Kyro OS Shell ===\n\0" ∷ codes "Type 'help' for available commands\n\0" ∷ [])
        (
          (codes "\n=== Kyro OS Shell ===\n", refl),
          ((codes "Type 'help' for available commands\n", refl), tt),
        )
        con v in
    let (c2, run2, a2, v2) =
      shell_loop-Left n fuel command cs rest fs us c1 s size
        (subst (λ (k : Keys). Arrives k cs) (sym k1) a) v1 h (fc, fr, _, fo) (uc, ur, _, uo) in
    (c2, rw run1 run2, a2, v2)

-- What the login says.
abbrev pub verdict_text : Bool → List ℕ
verdict_text true = codes "Login successful! Welcome to Kyro OS.\n"
verdict_text false = codes "Login failed. Using default access.\n"

verdict-text : (b : Bool) → text (verdict b) ≡ some (verdict_text b)
unfolding text
verdict-text true = refl
verdict-text false = refl

-- On a screen that shows a page, with arrays of 64 bytes, a table of users that models a book of
-- accounts and fuel for each character, when the characters that arrive close two lines,
-- `login_prompt` returns; the last thing it writes on the screen is that the login is successful if
-- the book has an account of the first line whose password is the second, and that it failed if
-- not. The characters behind the two lines are still to come.
pub login_prompt-verdict :
    (fuel : ℕ) (username password cs name rest pass rest' : List ℕ) {us : Users} {b : Book}
    (con : Console)
    → length username ≡ 64
    → length password ≡ 64
    → Models us b
    → Arrives con.keys cs
    → IsShown con
    → length cs < fuel
    → edit 63 [] cs ≡ some (name, rest)
    → edit 63 [] rest ≡ some (pass, rest')
    → (con' : Console) × (login_prompt fuel username password us con ≡ some con')
      × Arrives con'.keys rest'
      × ((g : Page) × Settled con'.screen
            (typed_text (verdict_text (Spec.authenticate name pass b)) g))
unfolding login_prompt text
login_prompt-verdict fuel username password cs name rest pass rest' {us} {b} con su sp m a v h e
      e' =
    let (c1, run1, k1, v1) =
      tell_all-Acts (codes "\n=== Login ===\n\0" ∷ codes "Username: \0" ∷ [])
        ((codes "\n=== Login ===\n", refl), ((codes "Username: ", refl), tt)) con v in
    let first =
      terminal_get_line-Entered 64 fuel cs username name rest c1 (omega arith)
        (subst (λ (k : Keys). Arrives k cs) (sym k1) a) v1 h e in
    let (c2, run2, k2, v2) =
      tell-Acts (codes "Password: \0") {cs = codes "Password: "} refl first.con first.keeps in
    let second =
      terminal_get_line-Entered 64 fuel rest password pass rest' c2 (omega arith)
        (subst (λ (k : Keys). Arrives k rest) (sym k2) first.arrives) v2
        (omega (arith, edit-le 63 [] cs name rest e)) e' in
    let ok = authenticate_user-Spec first.buffer second.buffer m first.holds second.holds in
    let (s, run3, on_page) =
      print_message-Ends (verdict (Spec.authenticate name pass b)) _ second.con.screen
        second.keeps.0 (verdict-text (Spec.authenticate name pass b)) second.keeps.1 in
    (
      record second.con { screen = s },
      rw (run1, first.run, run2, second.run, ok) (unfold tell in rw run3 refl),
      second.arrives,
      (second.keeps.0, on_page),
    )
