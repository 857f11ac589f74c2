-- ===== src/Screen/Refine.antt =====
-- `print_message` and `putchar` against the page.
use kyro_kernel.Base.{
  ltb, leb, ◌==◌, if◌then◌else◌, Bool-cases, ◌>>=◌, length, length-set, get_or-set, ℕ, ◌+◌, ◌-◌,
  ◌*◌, ◌/◌, bit_and, ◌≡◌, refl, ap, ap₂, ◌∙◌, inl, inr, Bool, true, false, Option, some, List, [],
  ◌∷◌, arith,
}
use kyro_kernel.Screen.Bytes.{blank, screen_size, length-blank_loop, blank_loop_lem}
use kyro_kernel.CString.HasText.{HasText, HasText-text, finish, more}
use kyro_kernel.CString.{text}
use kyro_kernel.CString.HasText.{HasText, HasText-text, finish}
use kyro_kernel.Base.Bits.{bit_and-high_mask}
use kyro_kernel.Screen.{
  vga_width, vga_height, Screen, print_char, print_message, put_cell, wrap_line, wrap_screen,
  clear_screen, erase_cell, putchar,
}
use kyro_kernel.Screen.Shows.{
  Page, Settled, typed_page, roll, write, newline-Shows, moved-Shows, put_cell-Shows, settle,
}

-- A call that stays on the screen and ends with the page `g`.
abbrev pub Ends : Page → Option Screen → Type 0
Ends g r = (s : Screen) × (r ≡ some s) × Settled s g

abbrev settled : Screen → Option Screen
settled s = some (wrap_screen (wrap_line s))

put-Ends :
    (c : ℕ) (s : Screen) (g : Page)
    → Settled s g
    → Ends (roll (write c g)) (put_cell c s >>= settled)
put-Ends c s g v =
    let (s', run, ok) = put_cell-Shows c s g v in
    (wrap_screen (wrap_line s'), ap (λ (r : Option Screen). r >>= settled) run, settle s' _ ok)

branch :
    (b : Bool) (g g' : Page) (x y : Option Screen)
    → Ends g (x >>= settled)
    → Ends g' (y >>= settled)
    → Ends (if b then g else g') ((if b then x else y) >>= settled)
branch true g g' x y p q = p
branch false g g' x y p q = q

pub print_char-Ends :
    (c : ℕ) (s : Screen) (g : Page) → Settled s g → Ends (typed_page c g) (print_char c s)
unfolding print_char typed_page
print_char-Ends c s g v =
    branch (c == b'\n') _ _ _ _ (_, refl, newline-Shows s g v)
      (branch (c == b'\r') _ _ _ _ (_, refl, moved-Shows s g 0 v (omega arith)) (put-Ends c s g v))

-- The page after a text.
unfoldable pub typed_text : List ℕ → Page → Page
typed_text [] g = g
typed_text (c ∷ cs) g = typed_text cs (typed_page c g)

print_text-Ends :
    {m cs : List ℕ} (h : HasText m cs) (s : Screen) (g : Page)
    → Settled s g
    → Ends (typed_text cs g) (print_message m s)
unfolding print_message typed_text
print_text-Ends (finish e) s g v = (s, rw e refl, v)
print_text-Ends (more {c} {cs} {s = t} e h) s g v =
    let (s', run, ok) = print_char-Ends c s g v in
    let (s'', run', ok') = print_text-Ends h s' (typed_page c g) ok in (s'', rw (e, run) run', ok')

-- From a screen that shows a page, `print_message` of a text returns, writes inside the screen
-- only, and leaves the page that typing the text gives, with the cursor on it.
pub print_message-Ends :
    (m cs : List ℕ) (s : Screen) (g : Page)
    → text m ≡ some cs
    → Settled s g
    → Ends (typed_text cs g) (print_message m s)
print_message-Ends m cs s g h v = print_text-Ends (HasText-text m h) s g v

-- A page without a character.
abbrev pub blank_page : Page
blank_page = record { byte = blank; x = 0; y = 0 }

-- After `clear_screen` of the 4000 bytes of the screen every cell is blank, and the cursor is at
-- its start.
pub clear_screen-Settled :
    (s : Screen) → length s.video_memory ≡ screen_size → Settled (clear_screen s) blank_page
unfolding clear_screen
clear_screen-Settled s h = record {
  size = length-blank_loop 0 (vga_width * vga_height) s.video_memory ∙ h;
  bytes = λ j lt.
      blank_loop_lem 0 (vga_width * vga_height) j s.video_memory (omega arith) ∙ ground arith;
  at_x = refl;
  at_y = refl;
  in_x = omega arith;
  in_y = omega arith;
}

-- A character that is put: a tab goes to the next multiple of 8, a backspace clears the character
-- before the cursor on its line, and any other is typed.
unfoldable pub put_page : ℕ → Page → Page
unfolding typed_page roll
put_page c g =
    if c == b'\n'
    then roll (record g { x = 0; y = g.y + 1 })
    else if c == b'\r'
    then roll (record g { x = 0 })
    else if c == b'\t'
    then roll (record g { x = (g.x / 8 + 1) * 8 })
    else if c == 8
    then roll (
        if ltb 0 g.x
        then record g {
          byte = λ j. if j == g.y * 160 + (g.x - 1) * 2 then b' ' else g.byte j;
          x = g.x - 1;
        }
        else g)
    else roll (write c g)

erase-Ends :
    (s : Screen) (g : Page)
    → Settled s g
    → Ends
        (roll (
          if ltb 0 g.x
          then record g {
            byte = λ j. if j == g.y * 160 + (g.x - 1) * 2 then b' ' else g.byte j;
            x = g.x - 1;
          }
          else g))
        (erase_cell s >>= settled)
unfolding erase_cell
erase-Ends s g v = elim (Bool-cases (ltb 0 g.x)) [
  | inl some_before ↦
      let test : ltb 0 s.cursor_x ≡ true = ground (arith, v.at_x) in
      let p : (s.cursor_y * vga_width + (s.cursor_x - 1)) * 2 ≡ g.y * 160 + (g.x - 1) * 2 =
        ground (arith, v.at_x, v.at_y) in
      let room : leb (length s.video_memory) ((s.cursor_y * vga_width + (s.cursor_x - 1)) * 2)
          ≡ false =
        ground (arith, v.size, v.in_x, v.in_y, p) in
      rw (test, some_before, room)
        (
          _,
          refl,
          settle _ _ (record {
            size = length-set s.video_memory _ b' ' ∙ v.size;
            bytes = λ j lt.
                get_or-set s.video_memory ((s.cursor_y * vga_width + (s.cursor_x - 1)) * 2) j b' '
                  (omega (arith, v.size, v.in_x, v.in_y, p))
                ∙ ap₂ (λ (q b : ℕ). if j == q then b' ' else b) p (v.bytes j lt);
            at_x = ap (λ (x : ℕ). x - 1) v.at_x;
            at_y = v.at_y;
            in_x = omega (arith, v.in_x);
            in_y = v.in_y;
          }),
        )
  | inr at_start ↦
      let test : ltb 0 s.cursor_x ≡ false = ground (arith, v.at_x) in
      rw (test, at_start)
        (
          _,
          refl,
          settle s g (record {
            size = v.size;
            bytes = v.bytes;
            at_x = v.at_x;
            at_y = v.at_y;
            in_x = omega (arith, v.in_x);
            in_y = v.in_y;
          }),
        )
]

tab-Ends :
    (s : Screen) (g : Page)
    → Settled s g
    → Ends
        (roll (record g { x = (g.x / 8 + 1) * 8 }))
        (settled (record s { cursor_x = bit_and (s.cursor_x + 8) 0xfffffff8 }))
tab-Ends s g v =
    let e : bit_and (s.cursor_x + 8) 0xfffffff8 ≡ (g.x / 8 + 1) * 8 =
      omega (arith, bit_and-high_mask 29 3 (s.cursor_x + 8), v.at_x, v.in_x) in
    rw e (_, refl, moved-Shows s g ((g.x / 8 + 1) * 8) v (omega (arith, v.in_x)))

-- From a screen that shows a page, `putchar` writes inside the screen only, and leaves the page
-- that putting the character gives, with the cursor on it.
pub putchar-Ends : (c : ℕ) (s : Screen) (g : Page) → Settled s g → Ends (put_page c g) (putchar c s)
unfolding putchar put_page
putchar-Ends c s g v =
    branch (c == b'\n') _ _ _ _ (_, refl, newline-Shows s g v)
      (branch (c == b'\r') _ _ _ _ (_, refl, moved-Shows s g 0 v (omega arith))
        (branch (c == b'\t') _ _ _ _ (tab-Ends s g v)
          (branch (c == 8) _ _ _ _ (erase-Ends s g v) (put-Ends c s g v))))
