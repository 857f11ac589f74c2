-- ===== src/Input.antt =====
-- The input functions of kernel/printf.c: `getchar_blocking`, `gets_simple`, `scanf` and the stubs
-- for formatted input.
pub mod Enters
use kyro_kernel.Base.{◌==◌, if◌then◌else◌, ◌>>=◌, codes, ℕ, Option, none, some, List, [], ◌∷◌}
use mathlib.Core.Option
use kyro_kernel.CString.{strcmp, strcpy}
use kyro_kernel.CString.Compare.{is_equal}
use kyro_kernel.Keyboard.{Keyboard, keyboard_get_char, keyboard_data_available}
use kyro_kernel.Console.{
  Keys, Console, Action, Reader, put, erase, line_loop, is_newline, is_printable,
}

-- One look at the keyboard: the character, 0 if there is none.
pub poll_key : Keyboard → ℕ × Keyboard
poll_key k = if keyboard_data_available k then keyboard_get_char k else (0, k)

-- The loop, with the interrupts that are left.
pub wait_key : Keyboard → List (Keyboard → Keyboard) → Option (ℕ × Keys)
wait_key k [] =
    let (c, k') = poll_key k in
    if c == 0 then none else some (c, record { keyboard = k'; interrupts = [] })
wait_key k (i ∷ is) =
    let (c, k') = poll_key k in
    let rest = wait_key (i k') is in
    if c == 0 then rest else some (c, record { keyboard = k'; interrupts = i ∷ is })

-- What is echoed of a character.
pub echo : ℕ → Action
echo c con =
    if c == 8
    then put 8 con
    else if is_newline c
    then put b'\n' con
    else if is_printable c
    then put c con
    else some con

pub getchar_blocking : Console → Option (ℕ × Console)
getchar_blocking con = do
  (c, keys) ← wait_key con.keys.keyboard con.keys.interrupts
  Option.map (λ con'. (c, con')) (echo c (record con { keys = keys }))

-- The character has been echoed as it was read.
abbrev pub simple_reader : Reader
simple_reader = record {
  read = getchar_blocking;
  newline = some;
  erased = erase;
  stored = λ c. some;
}

pub gets_simple : ℕ → List ℕ → ℕ → Console → Option (List ℕ × Console)
gets_simple fuel buffer max_len con = line_loop simple_reader fuel max_len 0 buffer con

-- What `scanf` returns, its argument's array, and its own buffer of 256 bytes.
pub record Scanned : Type 0 where
  pub matched : ℕ
  pub target : List ℕ
  pub input_buffer : List ℕ
  pub con : Console

-- `"%s"` only: the line is copied to the argument, whatever room it has.
pub scanf : ℕ → (format str_ptr input_buffer : List ℕ) → Console → Option Scanned
scanf fuel format str_ptr input_buffer con = do
  d ← strcmp format (codes "%s\0")
  if is_equal d
      then (do
        (line, con') ← gets_simple fuel input_buffer 256 con
        target ← strcpy str_ptr line
        some (record { matched = 1; target = target; input_buffer = line; con = con' }))
      else some (record { matched = 0; target = str_ptr; input_buffer = input_buffer; con = con })

-- Nothing is read.
pub vsscanf : (str format : List ℕ) → ℕ
vsscanf str format = 0

pub sscanf : (str format : List ℕ) → ℕ
unfolding vsscanf
sscanf str format = vsscanf str format
