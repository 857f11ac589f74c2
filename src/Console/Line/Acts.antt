-- ===== src/Console/Line/Acts.antt =====
-- The calls of `putchar` that a reader makes.
use kyro_kernel.Base.{ℕ, refl, ◌∙◌}
use kyro_kernel.Screen.Shows.{Page, Settled}
use kyro_kernel.Screen.Refine.{putchar-Ends, put_page}
use kyro_kernel.Console.{Console, put, erase}
use kyro_kernel.Console.Line.{Acts}

-- The screen shows some page.
abbrev pub IsShown : Console → Type 0
IsShown con = (g : Page) × Settled con.screen g

pub put-Acts : (c : ℕ) → Acts IsShown (put c)
unfolding put
put-Acts c con (g, v) =
    let (s, run, ok) = putchar-Ends c con.screen g v in
    (record con { screen = s }, rw run refl, refl, (put_page c g, ok))

pub erase-Acts : Acts IsShown erase
unfolding erase
erase-Acts con v =
    let (c1, run1, k1, v1) = put-Acts 8 con v in
    let (c2, run2, k2, v2) = put-Acts b' ' c1 v1 in
    let (c3, run3, k3, v3) = put-Acts 8 c2 v2 in (c3, rw (run1, run2) run3, k3 ∙ k2 ∙ k1, v3)
