-- ===== src/Tests/Display.antt =====
-- The screen.
use kyro_kernel.Base.{replicate, length-replicate, codes, ℕ, refl, [], ◌∷◌, ◌++◌}
use kyro_kernel.CString.{text}
use kyro_kernel.Screen.{Screen, clear_screen, print_message}
use kyro_kernel.Screen.Shows.{Settled}
use kyro_kernel.Screen.Refine.{
  Ends, blank_page, typed_text, clear_screen-Settled, print_message-Ends,
}

abbrev pub at_boot : Screen
at_boot = record { video_memory = replicate 4000 0; cursor_x = 0; cursor_y = 0 }

pub cleared : Settled (clear_screen at_boot) blank_page
cleared = clear_screen-Settled at_boot (length-replicate {A = ℕ} 4000 0)

print_message-Ends_example :
    Ends
      (typed_text (codes "hi\n") blank_page)
      (print_message (codes "hi\n" ++ 0 ∷ []) (clear_screen at_boot))
unfolding text
print_message-Ends_example =
    print_message-Ends (codes "hi\n" ++ 0 ∷ []) (codes "hi\n") (clear_screen at_boot) blank_page
      refl cleared
