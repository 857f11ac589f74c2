-- ===== src/Shell/Runs.antt =====
-- What the login and the shell do with the lines that are typed.
use kyro_kernel.Base.{
  ltb, if◌then◌else◌, Bool-cases, length, codes, ℕ, ◌≡◌, refl, sym, ap, ◌∙◌, subst, inl, inr, Bool,
  true, false, not, Option, some, List, [], ◌∷◌,
}
use mathlib.Core.Option
use kyro_kernel.CString.{text}
use kyro_kernel.CString.Copy.{strlen-text}
use kyro_kernel.CString.HasText.{HasText-text}
use kyro_kernel.CString.Compare.{same_text, same_text_iff, strcmp-text_diff, is_equal-text_diff}
use kyro_kernel.Printf.{Call, render}
use kyro_kernel.Screen.{clear_screen}
use kyro_kernel.Screen.Refine.{print_message-Ends, clear_screen-Settled, typed_text}
use kyro_kernel.Output.Shown.{print_calls-Ends}
use kyro_kernel.Console.{Console, Action}
use kyro_kernel.Console.Line.{Acts}
use kyro_kernel.Console.Line.Acts.{IsShown}
use kyro_kernel.User.{Users, list_users}
use kyro_kernel.Fs.{Fs, list_files}
use kyro_kernel.Shell.{tell, tell_all, is_command, show_calls, run_unknown, run_command, help_lines}
use Prim.Native.String.{String}

pub tell-Acts : (m : List ℕ) {cs : List ℕ} → text m ≡ some cs → Acts IsShown (tell m)
unfolding tell
tell-Acts m {cs} h con (g, v) =
    let (s, run, ok) = print_message-Ends m cs con.screen g h v in
    (record con { screen = s }, rw run refl, refl, (typed_text cs g, ok))

-- Messages that are texts.
abbrev pub AreTexts : List (List ℕ) → Type 0
AreTexts [] = Unit
AreTexts (m ∷ ms) = ((cs : List ℕ) × (text m ≡ some cs)) × AreTexts ms

pub tell_all-Acts : (ms : List (List ℕ)) → AreTexts ms → Acts IsShown (tell_all ms)
unfolding tell_all
tell_all-Acts [] h con v = (con, refl, refl, v)
tell_all-Acts (m ∷ ms) h con v =
    let (c1, run1, k1, v1) = tell-Acts m h.0.1 con v in
    let (c2, run2, k2, v2) = tell_all-Acts ms h.1 c1 v1 in (c2, rw run1 run2, k2 ∙ k1, v2)

pub is_command-same :
    (command name : List ℕ) {line t : List ℕ}
    → text command ≡ some line
    → text name ≡ some t
    → is_command command name ≡ some (same_text line t)
unfolding is_command
is_command-same command name h k =
    rw
      (
        strcmp-text_diff command name h k,
        is_equal-text_diff (HasText-text command h) (HasText-text name k),
      )
      refl

-- A listing that is printed.
abbrev pub Prints : Option (List Call) → Type 0
Prints calls = (c : List Call) × (calls ≡ some c) × (out : List ℕ) × (render c ≡ some out)

show_calls-Acts : (calls : Option (List Call)) → Prints calls → Acts IsShown (show_calls calls)
unfolding show_calls
show_calls-Acts calls (c, e, out, p) con (g, v) =
    let (s, run, ok) = print_calls-Ends c out con.screen g p v in
    (record con { screen = s }, rw (e, run) refl, refl, (_, ok))

run_unknown-Acts :
    (command : List ℕ) {line : List ℕ}
    → text command ≡ some line
    → Acts IsShown (run_unknown command)
unfolding run_unknown
run_unknown-Acts command {line} h con v = elim (Bool-cases (ltb 0 (length line))) [
  | inl long ↦
      let (c, run, k, v') =
        tell_all-Acts (codes "Unknown command: \0" ∷ command ∷ codes "\n\0" ∷ [])
          (
            (codes "Unknown command: ", unfold text in refl),
            ((line, h), ((codes "\n", unfold text in refl), tt)),
          )
          con v in
      (c, rw (strlen-text command, h, long) run, k, v')
  | inr empty ↦ (con, rw (strlen-text command, h, empty) refl, refl, v)
]

not_exit :
    (line name : List ℕ)
    → same_text line name ≡ true
    → same_text name (codes "exit") ≡ false
    → same_text line (codes "exit") ≡ false
not_exit line name h k =
    subst (λ (l : List ℕ). same_text l (codes "exit") ≡ false) (sym ((same_text_iff line name).0 h))
      k

-- What a command leaves: the loop stops exactly at `exit`.
abbrev pub GoesOn : List ℕ → Console → Option (Bool × Console) → Type 0
GoesOn line con r =
    (con' : Console) × (r ≡ some (not (same_text line (codes "exit")), con'))
    × (con'.keys ≡ con.keys)
    × IsShown con'

done :
    (line : List ℕ) (con : Console) (b : Bool) (a : Action)
    → not (same_text line (codes "exit")) ≡ b
    → IsShown con
    → Acts IsShown a
    → GoesOn line con (Option.map (λ (c : Console). (b, c)) (a con))
done line con b a e v acts =
    let (con', run, k, v') = acts con v in
    (con', rw run (ap (λ (x : Bool). some (x, con')) (sym e)), k, v')

help_texts : AreTexts help_lines
unfolding text
help_texts = (
  (codes "Available commands:\n", refl),
  (
    (codes "  help    - Show this help\n", refl),
    (
      (codes "  clear   - Clear screen\n", refl),
      (
        (codes "  exit    - Exit shell\n", refl),
        ((codes "  ls      - List files\n", refl), ((codes "  users   - List users\n", refl), tt)),
      ),
    ),
  ),
)

choose :
    (P : Option (Bool × Console) → Type 0) (b : Bool) (x y : Option (Bool × Console))
    → (b ≡ true → P x)
    → (b ≡ false → P y)
    → P (if b then x else y)
choose P true x y p q = p refl
choose P false x y p q = q refl

pub run_command-GoesOn :
    (command line : List ℕ) (fs : Fs) (us : Users) (con : Console)
    → text command ≡ some line
    → Prints (list_files fs)
    → Prints (list_users us)
    → IsShown con
    → GoesOn line con (run_command command fs us con)
unfolding run_command text same_text
run_command-GoesOn command line fs us con h files users v =
    rw
      (
        is_command-same command (codes "help\0") h refl,
        is_command-same command (codes "clear\0") h refl,
        is_command-same command (codes "exit\0") h refl,
        is_command-same command (codes "ls\0") h refl,
        is_command-same command (codes "users\0") h refl,
      )
      (choose P (same_text line (codes "help")) _ _
        (λ h1.
          done line con true (tell_all help_lines) (goes "help" h1 refl) v
            (tell_all-Acts help_lines help_texts))
        (λ _.
          choose P (same_text line (codes "clear")) _ _
            (λ h2. (
              record con { screen = clear_screen con.screen },
              ap (λ (x : Bool). some (x, record con { screen = clear_screen con.screen }))
                  (sym (goes "clear" h2 refl)),
              refl,
              (_, clear_screen-Settled con.screen v.1.size),
            ))
            (λ _.
              choose P (same_text line (codes "exit")) _ _
                (λ h3.
                  done line con false (tell (codes "Exiting shell...\n\0")) (ap not h3) v (
                    tell-Acts (codes "Exiting shell...\n\0") {cs = codes "Exiting shell...\n"}
                      refl))
                (λ stays.
                  choose P (same_text line (codes "ls")) _ _
                    (λ _.
                      done line con true (show_calls (list_files fs)) (ap not stays) v
                        (show_calls-Acts (list_files fs) files))
                    (λ _.
                      choose P (same_text line (codes "users")) _ _
                        (λ _.
                          done line con true (show_calls (list_users us)) (ap not stays) v
                            (show_calls-Acts (list_users us) users))
                        (λ _.
                          done line con true (run_unknown command) (ap not stays) v
                            (run_unknown-Acts command h)))))))
  where
    P : Option (Bool × Console) → Type 0
    P = GoesOn line con

    goes :
        (name : String)
        → same_text line (codes name) ≡ true
        → same_text (codes name) (codes "exit") ≡ false
        → not (same_text line (codes "exit")) ≡ true
    goes name p q = ap not (not_exit line (codes name) p q)
