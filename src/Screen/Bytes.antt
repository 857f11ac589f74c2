-- ===== src/Screen/Bytes.antt =====
-- What the loops over the screen do to each byte.
use kyro_kernel.Base.{
  ltb, leb, ◌==◌, if◌then◌else◌, length, get_or, set, length-set, get_or-set_ne, get_or-set, ℕ,
  zero, suc, ◌+◌, ◌*◌, ◌%◌, ◌≤◌, ◌<◌, ◌≡◌, refl, ap, ap₂, ◌∙◌, ◌&&◌, List, arith,
}
use kyro_kernel.Screen.{blank_loop, vga_width, scroll_loop, scroll}

abbrev pub screen_size : ℕ
screen_size = 4000

-- The byte of a blank cell.
abbrev pub blank : ℕ → ℕ
blank i = if i % 2 == 0 then b' ' else 0x07

pub length-blank_loop : (i n : ℕ) (v : List ℕ) → length (blank_loop i n v) ≡ length v
unfolding blank_loop
length-blank_loop i zero v = refl
length-blank_loop i (suc n) v =
    length-blank_loop (i + 1) n _
    ∙ length-set (set v (i * 2) b' ') (i * 2 + 1) 0x07
    ∙ length-set v (i * 2) b' '

-- A cell written, byte by byte.
pub get_or-set_cell :
    (v : List ℕ) (i j a b : ℕ)
    → i * 2 + 1 < length v
    → get_or (set (set v (i * 2) a) (i * 2 + 1) b) j 0
      ≡ (if j == i * 2 + 1 then b else if j == i * 2 then a else get_or v j 0)
get_or-set_cell v i j a b h =
    get_or-set (set v (i * 2) a) (i * 2 + 1) j b (omega (arith, length-set v (i * 2) a))
    ∙ ap (λ (t : ℕ). if j == i * 2 + 1 then b else t) (get_or-set v (i * 2) j a (omega arith))

pub blank_loop_lem :
    (i n j : ℕ) (v : List ℕ)
    → (i + n) * 2 ≤ length v
    → get_or (blank_loop i n v) j 0
      ≡ (if leb (i * 2) j && ltb j ((i + n) * 2) then blank j else get_or v j 0)
unfolding blank_loop
blank_loop_lem i zero j v h = ground arith
blank_loop_lem i (suc n) j v h =
    blank_loop_lem (i + 1) n j _
      (omega (arith, length-set (set v (i * 2) b' ') (i * 2 + 1) 0x07, length-set v (i * 2) b' '))
    ∙ ap (λ (t : ℕ). if leb ((i + 1) * 2) j && ltb j ((i + 1 + n) * 2) then blank j else t)
        (get_or-set_cell v i j b' ' 0x07 (omega arith))
    ∙ ground arith

pub length-scroll_loop : (i n : ℕ) (v : List ℕ) → length (scroll_loop i n v) ≡ length v
unfolding scroll_loop
length-scroll_loop i zero v = refl
length-scroll_loop i (suc n) v =
    length-scroll_loop (i + 1) n _
    ∙ length-set (set v (i * 2) (get_or v ((i + vga_width) * 2) 0)) (i * 2 + 1) _
    ∙ length-set v (i * 2) _

by_case :
    (i n j : ℕ) (v : List ℕ) (a b : ℕ)
    → a ≡ get_or v ((i + vga_width) * 2) 0
    → b ≡ get_or v ((i + vga_width) * 2 + 1) 0
    → (if leb ((i + 1) * 2) j && ltb j ((i + 1 + n) * 2)
        then if j + 160 == i * 2 + 1
          then b
          else if j + 160 == i * 2
          then a
          else get_or v (j + 160) 0
        else if j == i * 2 + 1
        then b
        else if j == i * 2
        then a
        else get_or v j 0)
      ≡ (if leb (i * 2) j && ltb j ((i + suc n) * 2) then get_or v (j + 160) 0 else get_or v j 0)
by_case i n j v a b ea eb =
    let fa : j ≡ i * 2 → a ≡ get_or v (j + 160) 0 =
      λ e. ea ∙ ap (λ (k : ℕ). get_or v k 0) (omega arith) in
    let fb : j ≡ i * 2 + 1 → b ≡ get_or v (j + 160) 0 =
      λ e. eb ∙ ap (λ (k : ℕ). get_or v k 0) (omega arith) in
    ground arith

pub scroll_loop_lem :
    (i n j : ℕ) (v : List ℕ)
    → (i + n + vga_width) * 2 ≤ length v
    → get_or (scroll_loop i n v) j 0
      ≡ (if leb (i * 2) j && ltb j ((i + n) * 2) then get_or v (j + 160) 0 else get_or v j 0)
unfolding scroll_loop
scroll_loop_lem i zero j v h = ground arith
scroll_loop_lem i (suc n) j v h =
    let a : ℕ = get_or v ((i + vga_width) * 2) 0 in
    let w : List ℕ = set v (i * 2) a in
    let b : ℕ = get_or w ((i + vga_width) * 2 + 1) 0 in
    let same : b ≡ get_or v ((i + vga_width) * 2 + 1) 0 =
      get_or-set_ne v (i * 2) ((i + vga_width) * 2 + 1) a 0 (omega arith) in
    scroll_loop_lem (i + 1) n j _
      (omega (arith, length-set w (i * 2 + 1) b, length-set v (i * 2) a))
    ∙ ap₂ (λ (x y : ℕ). if leb ((i + 1) * 2) j && ltb j ((i + 1 + n) * 2) then x else y)
        (get_or-set_cell v i (j + 160) a b (omega arith)) (get_or-set_cell v i j a b (omega arith))
    ∙ by_case i n j v a b refl same

-- The bytes of the screen after scrolling.
unfoldable pub scrolled : (ℕ → ℕ) → ℕ → ℕ
scrolled f j = if ltb j 3840 then f (j + 160) else blank j

pub length-scroll : (v : List ℕ) → length (scroll v) ≡ length v
unfolding scroll
length-scroll v = length-blank_loop 1920 80 _ ∙ length-scroll_loop 0 1920 v

-- Every line moves up by one, and the last is blank.
pub scroll-scrolled :
    (j : ℕ) (v : List ℕ)
    → length v ≡ screen_size
    → j < screen_size
    → get_or (scroll v) j 0 ≡ scrolled (λ i. get_or v i 0) j
unfolding scroll scrolled
scroll-scrolled j v h lt =
    blank_loop_lem 1920 80 j _ (omega (arith, length-scroll_loop 0 1920 v))
    ∙ ap (λ (t : ℕ). if leb (1920 * 2) j && ltb j (2000 * 2) then blank j else t)
        (scroll_loop_lem 0 1920 j v (omega arith))
    ∙ ground arith
