-- ===== src/Keyboard/Handler.antt =====
-- The interrupt handler.
pub mod Flags
pub mod View
pub mod Refine
use kyro_kernel.Base.{
  ◌==◌, if◌then◌else◌, ◌>>=◌, ℕ, ◌-◌, bit_and, bit_or, bit_xor, Bool, true, false, not, ◌||◌,
  Option, some,
}
use kyro_kernel.Port.{Io, inb}
use kyro_kernel.Pic.{pic_send_eoi}
use kyro_kernel.Keyboard.{
  Keyboard, keyboard_buffer_put, flag_shift, flag_ctrl, flag_alt, flag_caps_lock, flag_num_lock,
  flag_scroll_lock,
}
use kyro_kernel.Keyboard.Device.{keyboard_read_data, keyboard_update_leds}

abbrev pub key_ctrl : ℕ
key_ctrl = 0x1d

abbrev pub key_shift_l : ℕ
key_shift_l = 0x2a

abbrev pub key_shift_r : ℕ
key_shift_r = 0x36

abbrev pub key_alt : ℕ
key_alt = 0x38

abbrev pub key_caps_lock : ℕ
key_caps_lock = 0x3a

abbrev pub key_num_lock : ℕ
key_num_lock = 0x45

abbrev pub key_scroll_lock : ℕ
key_scroll_lock = 0x46

-- `flags &= ~flag` on release, `flags |= flag` on press; a `uint8_t`.
pub hold : ℕ → Bool → ℕ → ℕ
hold flag released flags = if released then bit_and flags (0xff - flag) else bit_or flags flag

pub set_held : ℕ → Bool → Keyboard → Keyboard
unfolding hold
set_held flag released k = record k { flags = hold flag released k.flags }

-- A lock key: `flags ^= flag` and the lights, on press only.
pub toggle : ℕ → Bool → Keyboard → Io → Option (Keyboard × Io)
unfolding keyboard_update_leds
toggle flag released k io =
    if released
    then some (k, io)
    else keyboard_update_leds (record k { flags = bit_xor k.flags flag }) io

-- The `switch` on the scancode without its release bit.
pub key_event : ℕ → Bool → Keyboard → Io → Option (Keyboard × Io)
unfolding set_held toggle keyboard_buffer_put
key_event code released k io =
    if code == key_shift_l || code == key_shift_r
    then some (set_held flag_shift released k, io)
    else if code == key_ctrl
    then some (set_held flag_ctrl released k, io)
    else if code == key_alt
    then some (set_held flag_alt released k, io)
    else if code == key_caps_lock
    then toggle flag_caps_lock released k io
    else if code == key_num_lock
    then toggle flag_num_lock released k io
    else if code == key_scroll_lock
    then toggle flag_scroll_lock released k io
    else some (if released then k else keyboard_buffer_put code k, io)

-- The handler behind the read of the scancode.
pub handle_scancode : ℕ → Keyboard → Io → Option (Keyboard × Io)
unfolding key_event
handle_scancode scancode k io =
    if scancode == 0xe0
    then some (record k { extended_scancode = true }, io)
    else key_event (bit_and scancode 0x7f) (not (bit_and scancode 0x80 == 0)) k io
      >>= λ (r : Keyboard × Io). some (record (r.0) { extended_scancode = false }, r.1)

pub keyboard_handler : Keyboard → Io → Option (Keyboard × Io)
unfolding handle_scancode keyboard_read_data inb
keyboard_handler k io = do (scancode, io') ← keyboard_read_data io; handle_scancode scancode k io'

-- The handler, and the end of interrupt of line 1.
pub keyboard_interrupt_handler : Keyboard → Io → Option (Keyboard × Io)
unfolding keyboard_handler pic_send_eoi
keyboard_interrupt_handler k io = do
  (k', io') ← keyboard_handler k io
  some (k', pic_send_eoi 1 io')
