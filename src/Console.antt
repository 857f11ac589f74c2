-- ===== src/Console.antt =====
-- The screen and the keyboard together, as the input functions of kernel/terminal.c and
-- kernel/printf.c use them. An interrupt comes in where the code halts for it; what each of them
-- does to the keyboard is a function, and they are a list in the order they come.
pub mod Line
use kyro_kernel.Base.{
  ltb, leb, ◌==◌, if◌then◌else◌, ◌>>=◌, ℕ, zero, suc, ◌+◌, ◌-◌, Bool, ◌&&◌, ◌||◌, Option, none,
  some, List, [], ◌∷◌,
}
use mathlib.Core.Option
use kyro_kernel.Screen.{Screen, putchar}
use kyro_kernel.Keyboard.{Keyboard, keyboard_get_char}
use kyro_kernel.Memory.{store}

pub record Keys : Type 0 where
  pub keyboard : Keyboard
  pub interrupts : List (Keyboard → Keyboard)

pub record Console : Type 0 where
  pub screen : Screen
  pub keys : Keys

abbrev pub Action : Type 0
Action = Console → Option Console

-- `while ((c = terminal_getchar()) == 0) hlt;` with the interrupts that are left; `none` is a wait
-- that does not end.
unfoldable pub next_char : Keyboard → List (Keyboard → Keyboard) → Option (ℕ × Keys)
next_char k [] =
    let (c, k') = keyboard_get_char k in
    if c == 0 then none else some (c, record { keyboard = k'; interrupts = [] })
next_char k (i ∷ is) =
    let (c, k') = keyboard_get_char k in
    let rest = next_char (i k') is in
    if c == 0 then rest else some (c, record { keyboard = k'; interrupts = i ∷ is })

abbrev pub with_keys : Console → ℕ × Keys → ℕ × Console
with_keys con (c, keys) = (c, record con { keys = keys })

-- A call of `putchar`.
pub put : ℕ → Action
put c con = Option.map (λ s. record con { screen = s }) (putchar c con.screen)

-- `putchar('\b'); putchar(' '); putchar('\b');`
pub erase : Action
unfolding put
erase con = do con1 ← put 8 con; con2 ← put b' ' con1; put 8 con2

-- A `char` that is compared as a signed one.
abbrev pub is_printable : ℕ → Bool
is_printable c = leb 32 c && leb c 126

abbrev pub is_newline : ℕ → Bool
is_newline c = c == b'\n' || c == b'\r'

-- How a turn of a loop that reads a line ends: the function returns, or the loop goes on.
pub data Turn : Type 0 where
  finished : List ℕ → Console → Turn
  again : ℕ → List ℕ → Console → Turn

-- The two functions that read a line differ in these: how a character is read, and what is done
-- at a newline, at a backspace behind a character, and when a character is stored.
pub record Reader : Type 0 where
  pub read : Console → Option (ℕ × Console)
  pub newline : Action
  pub erased : Action
  pub stored : ℕ → Action

-- What is done with a character; `pos` is where the next one goes.
pub take_char : Reader → ℕ → ℕ → List ℕ → Console → Option Turn
take_char r c pos buffer con =
    if is_newline c
    then (store buffer pos 0 >>= λ b. Option.map (finished b) (r.newline con))
    else if c == 8
    then (if ltb 0 pos
        then Option.map (again (pos - 1) buffer) (r.erased con)
        else some (again pos buffer con))
    else if is_printable c
    then (store buffer pos c >>= λ b. Option.map (again (pos + 1) b) (r.stored c con))
    else some (again pos buffer con)

-- The loop, on fuel, and the NUL behind it.
pub line_turn : Reader → ℕ → ℕ → List ℕ → Console → Option Turn
unfolding take_char
line_turn r max_length pos buffer con =
    if ltb pos (max_length - 1)
    then (do (c, con') ← r.read con; take_char r c pos buffer con')
    else Option.map (λ b. finished b con) (store buffer pos 0)

pub line_loop : Reader → ℕ → ℕ → ℕ → List ℕ → Console → Option (List ℕ × Console)
unfolding line_turn
line_loop r zero max_length pos buffer con = none
line_loop r (suc fuel) max_length pos buffer con = do
  t ← line_turn r max_length pos buffer con
  elim t [
    | finished b con' ↦ some (b, con')
    | again pos' b con' ↦ line_loop r fuel max_length pos' b con'
  ]
