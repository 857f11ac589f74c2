-- ===== src/Keyboard.antt =====
-- kernel/drivers/keyboard.c and include/drivers/keyboard.h: the ring buffer of scancodes, the
-- interrupt handler with its modifier flags and lights, and the translation to characters.
pub mod Device
pub mod Ring
pub mod Chars
pub mod Poll
pub mod Handler
use kyro_kernel.Base.{
  ltb, leb, ◌==◌, if◌then◌else◌, get_or, set, replicate, codes, ℕ, ◌+◌, ◌-◌, ◌%◌, bit_and, Bool,
  false, not, ◌&&◌, List, ◌∷◌, ◌++◌,
}

abbrev pub buffer_size : ℕ
buffer_size = 256

abbrev pub flag_shift : ℕ
flag_shift = 0x01

abbrev pub flag_ctrl : ℕ
flag_ctrl = 0x02

abbrev pub flag_alt : ℕ
flag_alt = 0x04

abbrev pub flag_caps_lock : ℕ
flag_caps_lock = 0x08

abbrev pub flag_num_lock : ℕ
flag_num_lock = 0x10

abbrev pub flag_scroll_lock : ℕ
flag_scroll_lock = 0x20

-- `keyboard_state_t`
pub record Keyboard : Type 0 where
  pub flags : ℕ
  pub led_state : ℕ
  pub extended_scancode : Bool
  pub buffer : List ℕ
  pub buffer_head : ℕ
  pub buffer_tail : ℕ
  pub buffer_count : ℕ

-- Every byte of the buffer is cleared, whatever it was; the message is not recorded.
unfoldable pub keyboard_init : Keyboard → Keyboard
keyboard_init k = record {
  flags = 0;
  led_state = 0;
  extended_scancode = false;
  buffer = replicate buffer_size 0;
  buffer_head = 0;
  buffer_tail = 0;
  buffer_count = 0;
}

pub keyboard_data_available : Keyboard → Bool
keyboard_data_available k = ltb 0 k.buffer_count

unfoldable pub keyboard_buffer_put : ℕ → Keyboard → Keyboard
keyboard_buffer_put scancode k =
    if ltb k.buffer_count buffer_size
    then record k {
      buffer = set k.buffer k.buffer_head scancode;
      buffer_head = (k.buffer_head + 1) % buffer_size;
      buffer_count = k.buffer_count + 1;
    }
    else k

-- The scancode, 0 if there is none, and the state left.
pub keyboard_buffer_get : Keyboard → ℕ × Keyboard
keyboard_buffer_get k =
    if ltb 0 k.buffer_count
    then (
      get_or k.buffer k.buffer_tail 0,
      record k {
        buffer_tail = (k.buffer_tail + 1) % buffer_size;
        buffer_count = k.buffer_count - 1;
      },
    )
    else (0, k)

pub keyboard_buffer_empty : Keyboard → Bool
keyboard_buffer_empty k = k.buffer_count == 0

pub keyboard_buffer_full : Keyboard → Bool
keyboard_buffer_full k = leb buffer_size k.buffer_count

-- The 127 characters that the source lists; the last of the 128 is 0.
abbrev pub scancode_table : List ℕ
scancode_table =
    0 ∷ 27 ∷ codes "1234567890-=\u{8}"
    ++ codes "\tqwertyuiop[]\n"
    ++ 0 ∷ codes "asdfghjkl;'`"
    ++ 0 ∷ codes "\\zxcvbnm,./"
    ++ 0 ∷ b'*' ∷ 0 ∷ b' ' ∷ replicate 70 0

abbrev pub scancode_table_shift : List ℕ
scancode_table_shift =
    0 ∷ 27 ∷ codes "!@#$%^&*()_+\u{8}"
    ++ codes "\tQWERTYUIOP{}\n"
    ++ 0 ∷ codes "ASDFGHJKL:\"~"
    ++ 0 ∷ codes "|ZXCVBNM<>?"
    ++ 0 ∷ b'*' ∷ 0 ∷ b' ' ∷ replicate 70 0

pub scancode_to_ascii : ℕ → Bool → ℕ
scancode_to_ascii scancode shift =
    if leb 128 scancode
    then 0
    else if shift
    then get_or scancode_table_shift scancode 0
    else get_or scancode_table scancode 0

-- `(keyboard_state.flags & flag) != 0`
abbrev pub has_flag : ℕ → ℕ → Bool
has_flag flags flag = not (bit_and flags flag == 0)

-- What `keyboard_get_char` makes of a scancode, in the state of shift and caps lock.
pub to_char : ℕ → Bool → Bool → ℕ
unfolding scancode_to_ascii
to_char scancode shift caps =
    let c = scancode_to_ascii scancode shift in
    if leb b'a' c && (leb c b'z' && caps)
    then c - b'a' + b'A'
    else if leb b'A' c && (leb c b'Z' && (caps && not shift))
    then c - b'A' + b'a'
    else c

unfoldable pub keyboard_get_char : Keyboard → ℕ × Keyboard
unfolding keyboard_buffer_empty keyboard_buffer_get to_char
keyboard_get_char k =
    if keyboard_buffer_empty k
    then (0, k)
    else (let (scancode, k') = keyboard_buffer_get k in
        (to_char scancode (has_flag k'.flags flag_shift) (has_flag k'.flags flag_caps_lock), k'))
