-- ===== src/Screen.antt =====
-- The text screen of kernel/kernel.c: `clear_screen`, `print_message` and `putchar`.
pub mod Bytes
pub mod Shows
pub mod Refine
use kyro_kernel.Base.{
  ltb, leb, ◌==◌, if◌then◌else◌, ◌>>=◌, length, get_or, set, ℕ, zero, suc, ◌+◌, ◌-◌, ◌*◌, bit_and,
  Option, none, some, List, [], ◌∷◌,
}

abbrev pub vga_width : ℕ
vga_width = 80

abbrev pub vga_height : ℕ
vga_height = 25

-- The bytes of the screen and the cursor. A cell is a character and its colours.
pub record Screen : Type 0 where
  pub video_memory : List ℕ
  pub cursor_x : ℕ
  pub cursor_y : ℕ

-- `n` cells from cell `i` on are blank.
pub blank_loop : ℕ → ℕ → List ℕ → List ℕ
blank_loop i zero v = v
blank_loop i (suc n) v = blank_loop (i + 1) n (set (set v (i * 2) b' ') (i * 2 + 1) 0x07)

pub clear_screen : Screen → Screen
clear_screen s = record {
  video_memory = blank_loop 0 (vga_width * vga_height) s.video_memory;
  cursor_x = 0;
  cursor_y = 0;
}

-- `n` cells from cell `i` on are those of the next line.
pub scroll_loop : ℕ → ℕ → List ℕ → List ℕ
scroll_loop i zero v = v
scroll_loop i (suc n) v =
    let w = set v (i * 2) (get_or v ((i + vga_width) * 2) 0) in
    scroll_loop (i + 1) n (set w (i * 2 + 1) (get_or w ((i + vga_width) * 2 + 1) 0))

pub scroll : List ℕ → List ℕ
scroll v =
    blank_loop ((vga_height - 1) * vga_width) vga_width
      (scroll_loop 0 ((vga_height - 1) * vga_width) v)

-- The tests after a character: the end of the line, then the end of the screen.
pub wrap_line : Screen → Screen
wrap_line s =
    if leb vga_width s.cursor_x then record s { cursor_x = 0; cursor_y = s.cursor_y + 1 } else s

pub wrap_screen : Screen → Screen
wrap_screen s =
    if leb vga_height s.cursor_y
    then record s { video_memory = scroll s.video_memory; cursor_y = vga_height - 1 }
    else s

-- The cell under the cursor; `none` is a write outside the screen.
pub put_cell : ℕ → Screen → Option Screen
put_cell c s =
    let p = (s.cursor_y * vga_width + s.cursor_x) * 2 in
    if leb (length s.video_memory) (p + 1)
    then none
    else some (record s {
      video_memory = set (set s.video_memory p c) (p + 1) 0x07;
      cursor_x = s.cursor_x + 1;
    })

-- One turn of the loop of `print_message`.
pub print_char : ℕ → Screen → Option Screen
unfolding put_cell wrap_line wrap_screen
print_char c s = do
  s' ←
      if c == b'\n'
      then some (record s { cursor_x = 0; cursor_y = s.cursor_y + 1 })
      else if c == b'\r'
      then some (record s { cursor_x = 0 })
      else put_cell c s
  some (wrap_screen (wrap_line s'))

-- A message without its end is read past.
pub print_message : List ℕ → Screen → Option Screen
unfolding print_char
print_message [] s = none
print_message (c ∷ cs) s = if c == 0 then some s else do s' ← print_char c s; print_message cs s'

-- The cell before the cursor gets a space, and keeps its colours.
pub erase_cell : Screen → Option Screen
erase_cell s =
    if ltb 0 s.cursor_x
    then (let p = (s.cursor_y * vga_width + (s.cursor_x - 1)) * 2 in
        if leb (length s.video_memory) p
        then none
        else some
            (record s { video_memory = set s.video_memory p b' '; cursor_x = s.cursor_x - 1 }))
    else some s

pub putchar : ℕ → Screen → Option Screen
unfolding put_cell erase_cell wrap_line wrap_screen
putchar c s = do
  s' ←
      if c == b'\n'
      then some (record s { cursor_x = 0; cursor_y = s.cursor_y + 1 })
      else if c == b'\r'
      then some (record s { cursor_x = 0 })
      else if c == b'\t'
      then some (record s { cursor_x = bit_and (s.cursor_x + 8) 0xfffffff8 })
      else if c == 8
      then erase_cell s
      else put_cell c s
  some (wrap_screen (wrap_line s'))
