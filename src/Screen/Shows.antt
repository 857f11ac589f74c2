-- ===== src/Screen/Shows.antt =====
-- The screen against a page of cells that is written, wrapped and rolled up.
use kyro_kernel.Base.{
  ltb, leb, ◌==◌, if◌then◌else◌, Bool-cases, length, get_or, set, length-set, ℕ, ◌+◌, ◌*◌, ◌≤◌, ◌<◌,
  ◌≡◌, refl, ap, ap₂, ◌∙◌, inl, inr, true, false, some, arith,
}
use kyro_kernel.Screen.{Screen, vga_width, vga_height, wrap_line, wrap_screen, put_cell}
use kyro_kernel.Screen.Bytes.{
  screen_size, scrolled, scroll-scrolled, length-scroll, get_or-set_cell,
}

-- A page: a byte at each place, and the cursor.
pub record Page : Type 0 where
  pub byte : ℕ → ℕ
  pub x : ℕ
  pub y : ℕ

-- The screen shows the page, whose cursor is on it or just behind it, at `mx` columns and `my`
-- lines at most.
pub record Shows (mx my : ℕ) (s : Screen) (g : Page) : Type 0 where
  pub size : length s.video_memory ≡ screen_size
  pub bytes : (j : ℕ) → j < screen_size → get_or s.video_memory j 0 ≡ g.byte j
  pub at_x : s.cursor_x ≡ g.x
  pub at_y : s.cursor_y ≡ g.y
  pub in_x : g.x ≤ mx
  pub in_y : g.y ≤ my

-- After every call the cursor is on the screen.
abbrev pub Settled : Screen → Page → Type 0
Settled = Shows 79 24

unfoldable pub roll : Page → Page
roll g =
    let g' = if leb vga_width g.x then record g { x = 0; y = g.y + 1 } else g in
    if leb vga_height g'.y then record g' { byte = scrolled g'.byte; y = 24 } else g'

-- A character that is printed.
unfoldable pub write : ℕ → Page → Page
write c g =
    let p = g.y * 160 + g.x * 2 in
    record g {
      byte = λ j. if j == p + 1 then 0x07 else if j == p then c else g.byte j;
      x = g.x + 1;
    }

unfoldable pub typed_page : ℕ → Page → Page
unfolding roll write
typed_page c g =
    if c == b'\n'
    then roll (record g { x = 0; y = g.y + 1 })
    else if c == b'\r'
    then roll (record g { x = 0 })
    else roll (write c g)

wrap_line-Shows :
    (s : Screen) (g : Page)
    → Shows 80 24 s g
    → Shows 79 25 (wrap_line s) (if leb vga_width g.x then record g { x = 0; y = g.y + 1 } else g)
unfolding wrap_line
wrap_line-Shows s g v = elim (Bool-cases (leb vga_width g.x)) [
  | inl end ↦
      let end' : leb vga_width s.cursor_x ≡ true = ground (arith, v.at_x) in
      rw (end, end')
        (record {
          size = v.size;
          bytes = v.bytes;
          at_x = refl;
          at_y = ap (λ (y : ℕ). y + 1) v.at_y;
          in_x = omega arith;
          in_y = omega (arith, v.in_y);
        })
  | inr on ↦
      let on' : leb vga_width s.cursor_x ≡ false = ground (arith, v.at_x) in
      rw (on, on')
        (record {
          size = v.size;
          bytes = v.bytes;
          at_x = v.at_x;
          at_y = v.at_y;
          in_x = ground arith;
          in_y = omega (arith, v.in_y);
        })
]

scrolled-bytes :
    (s : Screen) (g : Page)
    → Shows 79 25 s g
    → (j : ℕ) → j < screen_size
    → scrolled (λ i. get_or s.video_memory i 0) j ≡ scrolled g.byte j
unfolding scrolled
scrolled-bytes s g v j lt = elim (Bool-cases (ltb j 3840)) [
  | inl up ↦ rw up (v.bytes (j + 160) (ground arith))
  | inr last ↦ rw last refl
]

wrap_screen-Shows :
    (s : Screen) (g : Page)
    → Shows 79 25 s g
    → Settled
        (wrap_screen s)
        (if leb vga_height g.y then record g { byte = scrolled g.byte; y = 24 } else g)
unfolding wrap_screen
wrap_screen-Shows s g v = elim (Bool-cases (leb vga_height g.y)) [
  | inl end ↦
      let end' : leb vga_height s.cursor_y ≡ true = ground (arith, v.at_y) in
      rw (end, end')
        (record {
          size = length-scroll s.video_memory ∙ v.size;
          bytes = λ j lt. scroll-scrolled j s.video_memory v.size lt ∙ scrolled-bytes s g v j lt;
          at_x = v.at_x;
          at_y = refl;
          in_x = v.in_x;
          in_y = omega arith;
        })
  | inr on ↦
      let on' : leb vga_height s.cursor_y ≡ false = ground (arith, v.at_y) in
      rw (on, on')
        (record {
          size = v.size;
          bytes = v.bytes;
          at_x = v.at_x;
          at_y = v.at_y;
          in_x = v.in_x;
          in_y = ground arith;
        })
]

pub settle :
    (s : Screen) (g : Page) → Shows 80 24 s g → Settled (wrap_screen (wrap_line s)) (roll g)
unfolding roll
settle s g v = wrap_screen-Shows (wrap_line s) _ (wrap_line-Shows s g v)

pub newline-Shows :
    (s : Screen) (g : Page)
    → Settled s g
    → Settled
        (wrap_screen (wrap_line (record s { cursor_x = 0; cursor_y = s.cursor_y + 1 })))
        (roll (record g { x = 0; y = g.y + 1 }))
unfolding roll wrap_line
newline-Shows s g v =
    wrap_screen-Shows (record s { cursor_x = 0; cursor_y = s.cursor_y + 1 })
      (record g { x = 0; y = g.y + 1 })
      (record {
        size = v.size;
        bytes = v.bytes;
        at_x = refl;
        at_y = ap (λ (y : ℕ). y + 1) v.at_y;
        in_x = omega arith;
        in_y = omega (arith, v.in_y);
      })

pub moved-Shows :
    (s : Screen) (g : Page) (x : ℕ)
    → Settled s g
    → x ≤ 80
    → Settled (wrap_screen (wrap_line (record s { cursor_x = x }))) (roll (record g { x = x }))
moved-Shows s g x v h =
    settle (record s { cursor_x = x }) (record g { x = x })
      (record {
        size = v.size;
        bytes = v.bytes;
        at_x = refl;
        at_y = v.at_y;
        in_x = h;
        in_y = v.in_y;
      })

pub put_cell-Shows :
    (c : ℕ) (s : Screen) (g : Page)
    → Settled s g
    → (s' : Screen) × (put_cell c s ≡ some s') × Shows 80 24 s' (write c g)
unfolding put_cell write
put_cell-Shows c s g v =
    let i : ℕ = s.cursor_y * vga_width + s.cursor_x in
    let p : i * 2 ≡ g.y * 160 + g.x * 2 = omega (arith, v.at_x, v.at_y) in
    let room : leb (length s.video_memory) (i * 2 + 1) ≡ false =
      ground (arith, v.size, v.in_x, v.in_y, p) in
    (
      record s {
        video_memory = set (set s.video_memory (i * 2) c) (i * 2 + 1) 0x07;
        cursor_x = s.cursor_x + 1;
      },
      rw room refl,
      record {
        size =
            length-set (set s.video_memory (i * 2) c) (i * 2 + 1) 0x07
            ∙ length-set s.video_memory (i * 2) c
            ∙ v.size;
        bytes = λ j lt.
            get_or-set_cell s.video_memory i j c 0x07 (omega (arith, v.size, v.in_x, v.in_y, p))
            ∙ ap₂ (λ (q b : ℕ). if j == q + 1 then 0x07 else if j == q then c else b) p
                (v.bytes j lt);
        at_x = ap (λ (x : ℕ). x + 1) v.at_x;
        at_y = v.at_y;
        in_x = omega (arith, v.in_x);
        in_y = v.in_y;
      },
    )
