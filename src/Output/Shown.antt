-- ===== src/Output/Shown.antt =====
-- The page after what is printed.
use kyro_kernel.Base.{◌>>=◌, ℕ, ◌≡◌, refl, sym, ap, subst, fun_ext, Option, some, List, [], ◌∷◌}
use kyro_kernel.CString.{text}
use kyro_kernel.CString.HasText.{HasText, finish, more, HasText-text}
use kyro_kernel.Printf.{Call, render}
use kyro_kernel.Screen.{Screen, putchar}
use kyro_kernel.Screen.Shows.{Page, Settled}
use kyro_kernel.Screen.Refine.{Ends, put_page, putchar-Ends}
use kyro_kernel.Output.{put_chars, print_calls, put_string}

-- The page after each of the bytes is put.
unfoldable pub put_pages : List ℕ → Page → Page
put_pages [] g = g
put_pages (c ∷ cs) g = put_pages cs (put_page c g)

pub put_chars-Ends :
    (cs : List ℕ) (s : Screen) (g : Page) → Settled s g → Ends (put_pages cs g) (put_chars cs s)
unfolding put_chars put_pages
put_chars-Ends [] s g v = (s, refl, v)
put_chars-Ends (c ∷ cs) s g v =
    let (s', run, ok) = putchar-Ends c s g v in
    let (s'', run', ok') = put_chars-Ends cs s' (put_page c g) ok in (s'', rw run run', ok')

-- A string is put byte by byte, up to its NUL.
pub put_string-put_chars :
    {m cs : List ℕ} → HasText m cs → (s : Screen) → put_string m s ≡ put_chars cs s
unfolding put_string put_chars
put_string-put_chars (finish e) s = rw e refl
put_string-put_chars (more {c} {cs} {s = t} e h) s =
    rw e (ap (λ (f : Screen → Option Screen). putchar c s >>= f) (fun_ext (put_string-put_chars h)))

pub put_string-Ends :
    (m cs : List ℕ) (s : Screen) (g : Page)
    → text m ≡ some cs
    → Settled s g
    → Ends (put_pages cs g) (put_string m s)
put_string-Ends m cs s g h v =
    subst (Ends (put_pages cs g)) (sym (put_string-put_chars (HasText-text m h) s))
      (put_chars-Ends cs s g v)

-- What `printf` makes of its calls goes on the screen in order.
pub print_calls-Ends :
    (calls : List Call) (out : List ℕ) (s : Screen) (g : Page)
    → render calls ≡ some out
    → Settled s g
    → Ends (put_pages out g) (print_calls calls s)
unfolding print_calls
print_calls-Ends calls out s g h v = rw h (put_chars-Ends out s g v)
