-- ===== src/Terminal.antt =====
-- kernel/terminal.c: the terminal, whose output goes to the text screen and whose input comes from
-- the keyboard.
pub mod Enters
use kyro_kernel.Base.{◌>>=◌, codes, ℕ, ◌*◌, ◌^◌, bit_and, bit_or, Bool, true, Option, some, List}
use mathlib.Core.Option
use kyro_kernel.Screen.{Screen, clear_screen, print_message, putchar}
use kyro_kernel.Keyboard.{Keyboard, keyboard_get_char}
use kyro_kernel.Memory.{u8}
use kyro_kernel.Output.{put_string}
use kyro_kernel.Console.{Console, Reader, next_char, put, erase, line_loop, with_keys}

-- `terminal_t`
pub record Terminal : Type 0 where
  pub buffer : List ℕ
  pub buffer_index : ℕ
  pub cursor_x : ℕ
  pub cursor_y : ℕ
  pub color : ℕ
  pub echo_enabled : Bool

unfoldable pub terminal_init : Terminal → Screen → Option (Terminal × Screen)
terminal_init t s = do
  s' ← print_message (codes "Terminal initialized.\n\0") s
  some (
    record t { buffer_index = 0; cursor_x = 0; cursor_y = 0; color = 0x07; echo_enabled = true },
    s',
  )

pub terminal_clear : Screen → Screen
terminal_clear s = clear_screen s

pub terminal_putchar : ℕ → Screen → Option Screen
terminal_putchar c s = putchar c s

pub terminal_puts : List ℕ → Screen → Option Screen
terminal_puts str s = put_string str s

-- `(bg << 4) | (fg & 0x0F)`, as a byte.
pub terminal_set_color : ℕ → ℕ → Terminal → Terminal
terminal_set_color fg bg t = record t { color = u8 (bit_or (bg * 2 ^ 4) (bit_and fg 0x0f)) }

pub terminal_move_cursor : ℕ → ℕ → Terminal → Terminal
terminal_move_cursor x y t = record t { cursor_x = x; cursor_y = y }

pub terminal_scroll_up : Terminal → Terminal
terminal_scroll_up t = t

pub terminal_getchar : Keyboard → ℕ × Keyboard
terminal_getchar k = keyboard_get_char k

-- The wait for a character.
pub read_key : Console → Option (ℕ × Console)
read_key con = Option.map (with_keys con) (next_char con.keys.keyboard con.keys.interrupts)

-- A newline and each stored character are echoed.
abbrev pub terminal_reader : Reader
terminal_reader = record { read = read_key; newline = put b'\n'; erased = erase; stored = put }

pub terminal_get_line : ℕ → List ℕ → ℕ → Console → Option (List ℕ × Console)
terminal_get_line fuel buffer max_length con =
    line_loop terminal_reader fuel max_length 0 buffer con
