-- ===== src/Tests/Keys.antt =====
-- The keyboard.
use kyro_kernel.Base.{replicate, ◌≡◌, refl, true, false, [], ◌∷◌, arith}
use kyro_kernel.Port.{Io}
use kyro_kernel.Keyboard.{Keyboard, keyboard_init, to_char}
use kyro_kernel.Keyboard.Ring.{IsRing, init-IsRing}
use kyro_kernel.Keyboard.Chars.{typed_char, to_char-typed_char}
use kyro_kernel.Keyboard.Handler.{handle_scancode}
use kyro_kernel.Keyboard.Handler.View.{told_at, IsValid, Comes, sent, view}
use kyro_kernel.Keyboard.Handler.Flags.{flags_of}
use kyro_kernel.Keyboard.Handler.Refine.{handle_scancode-Refines}

abbrev pub at_start : Keyboard
at_start = record {
  flags = 0;
  led_state = 0;
  extended_scancode = false;
  buffer = replicate 256 0;
  buffer_head = 0;
  buffer_tail = 0;
  buffer_count = 0;
}

at_start-IsRing : IsRing at_start
unfolding keyboard_init
at_start-IsRing = (init-IsRing at_start).0

at_start-IsValid : IsValid at_start
unfolding flags_of
at_start-IsValid = record { ring = at_start-IsRing; byte = omega arith; lit = refl }

abbrev idle_controller : Io
idle_controller = record { answers = (0x64, 0) ∷ (0x64, 0) ∷ []; written = [] }

handle_scancode-Refines_example :
    Comes
      (sent 0x3a (view at_start))
      idle_controller
      (told_at 0x3a)
      (handle_scancode 0x3a at_start idle_controller)
handle_scancode-Refines_example =
    handle_scancode-Refines 0x3a at_start idle_controller (omega arith) at_start-IsValid tt

to_char-typed_char_example : to_char 0x1e true false ≡ typed_char 0x1e true false
to_char-typed_char_example = to_char-typed_char 0x1e true false (omega arith)
