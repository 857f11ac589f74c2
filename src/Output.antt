-- ===== src/Output.antt =====
-- What is printed, on the screen: a byte at a time through `putchar`, as `puts` and `printf` of
-- kernel/printf.c and `terminal_puts` of kernel/terminal.c do.
pub mod Shown
use kyro_kernel.Base.{◌==◌, if◌then◌else◌, ◌>>=◌, ℕ, Option, none, some, List, [], ◌∷◌}
use kyro_kernel.Printf.{Call, render}
use kyro_kernel.Screen.{Screen, putchar}

unfoldable pub put_chars : List ℕ → Screen → Option Screen
put_chars [] s = some s
put_chars (c ∷ cs) s = do s' ← putchar c s; put_chars cs s'

-- A sequence of calls of `printf`.
pub print_calls : List Call → Screen → Option Screen
unfolding put_chars
print_calls calls s = do out ← render calls; put_chars out s

-- `while (*str) putchar(*str++);`
pub put_string : List ℕ → Screen → Option Screen
put_string [] s = none
put_string (c ∷ cs) s = if c == 0 then some s else do s' ← putchar c s; put_string cs s'
