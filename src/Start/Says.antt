-- ===== src/Start/Says.antt =====
-- The messages of the start.
use kyro_kernel.Base.{◌>>=◌, ℕ, ◌≡◌, refl, ap, ◌∙◌, Option, some, List}
use kyro_kernel.CString.{text}
use kyro_kernel.Printf.{Call, render}
use kyro_kernel.Screen.{Screen, print_message}
use kyro_kernel.Screen.Shows.{Page, Settled}
use kyro_kernel.Screen.Refine.{print_message-Ends, typed_text}
use kyro_kernel.Output.{print_calls}
use kyro_kernel.Output.Shown.{print_calls-Ends, put_pages}
use kyro_kernel.Start.{Kernel, on_screen, say}

-- The screen shows some page.
abbrev pub IsShown : Screen → Type 0
IsShown s = (g : Page) × Settled s g

-- Only the screen changes, and it still shows a page.
abbrev pub Says : Kernel → Option Kernel → Type 0
Says k r = (s : Screen) × (r ≡ some (record k { screen = s })) × IsShown s

pub say-Settled :
    (m cs : List ℕ) (k : Kernel) (g : Page)
    → text m ≡ some cs
    → Settled k.screen g
    → (s : Screen) × (say m k ≡ some (record k { screen = s })) × Settled s (typed_text cs g)
unfolding on_screen
say-Settled m cs k g h v =
    let (s, run, ok) = print_message-Ends m cs k.screen g h v in (s, rw run refl, ok)

pub say-Says :
    (m : List ℕ) {cs : List ℕ} (k : Kernel) → text m ≡ some cs → IsShown k.screen → Says k (say m k)
say-Says m {cs} k h (g, v) =
    let (s, run, ok) = say-Settled m cs k g h v in (s, run, (typed_text cs g, ok))

-- The same of the screen alone.
pub print_message-IsShown :
    (m : List ℕ) {cs : List ℕ} (s : Screen)
    → text m ≡ some cs
    → IsShown s
    → (s' : Screen) × (print_message m s ≡ some s') × IsShown s'
print_message-IsShown m {cs} s h (g, v) =
    let (s', run, ok) = print_message-Ends m cs s g h v in (s', run, (typed_text cs g, ok))

pub print_calls-IsShown :
    (calls : List Call) {out : List ℕ} (s : Screen)
    → render calls ≡ some out
    → IsShown s
    → (s' : Screen) × (print_calls calls s ≡ some s') × IsShown s'
print_calls-IsShown calls {out} s h (g, v) =
    let (s', run, ok) = print_calls-Ends calls out s g h v in (s', run, (put_pages out g, ok))

-- A step that returns, then the rest.
pub then_run {ℓ κ} :
    {A : Type ℓ} {B : Type κ} {o : Option A} {x : A} {r : Option B} (f : A → Option B)
    → o ≡ some x
    → f x ≡ r
    → (o >>= f) ≡ r
then_run {A} f e h = ap (λ (o : Option A). o >>= f) e ∙ h
