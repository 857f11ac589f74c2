-- ===== src/Keyboard/Poll.antt =====
-- The keyboard when no scancode waits.
use kyro_kernel.Base.{◌==◌, ◌≡◌, refl, true, false, arith}
use kyro_kernel.Keyboard.{
  Keyboard, keyboard_data_available, keyboard_buffer_empty, keyboard_get_char,
}

pub get_char-empty :
    (k : Keyboard) → keyboard_data_available k ≡ false → keyboard_get_char k ≡ (0, k)
unfolding keyboard_get_char keyboard_data_available keyboard_buffer_empty
get_char-empty k h =
    let none_left : (k.buffer_count == 0) ≡ true = ground arith in rw none_left refl
