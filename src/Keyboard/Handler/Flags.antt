-- ===== src/Keyboard/Handler/Flags.antt =====
-- The flag byte as six switches: what each bit operation of the handler does to them.
use kyro_kernel.Base.{
  ltb, ◌==◌, if◌then◌else◌, ltb→lt, ℕ, ◌+◌, ◌<◌, bit_or, bit_xor, ◌≡◌, refl, sym, Bool, true, false,
  not, ◌&&◌, List, [], ◌∷◌,
}
use kyro_kernel.Base.Check.{all_below, all_below_sound}
use kyro_kernel.Keyboard.{
  has_flag, flag_shift, flag_ctrl, flag_alt, flag_caps_lock, flag_num_lock, flag_scroll_lock,
}
use kyro_kernel.Keyboard.Device.{leds_of}
use kyro_kernel.Keyboard.Handler.{hold}

pub record Flags : Type 0 where
  pub shift : Bool
  pub ctrl : Bool
  pub alt : Bool
  pub caps : Bool
  pub num : Bool
  pub scroll : Bool

abbrev pub flags_by : (ℕ → Bool) → Flags
flags_by g = record {
  shift = g flag_shift;
  ctrl = g flag_ctrl;
  alt = g flag_alt;
  caps = g flag_caps_lock;
  num = g flag_num_lock;
  scroll = g flag_scroll_lock;
}

unfoldable pub flags_of : ℕ → Flags
flags_of w = flags_by (has_flag w)

abbrev pub same_bool : Bool → Bool → Bool
same_bool true b = b
same_bool false b = not b

pub same_bool→eq : (a b : Bool) → same_bool a b ≡ true → a ≡ b
same_bool→eq true b h = sym h
same_bool→eq false true h = h
same_bool→eq false false h = refl

-- Has `w` the switches that `g` says?
pub agrees : ℕ → (ℕ → Bool) → List ℕ → Bool
agrees w g [] = true
agrees w g (f ∷ fs) = same_bool (has_flag w f) (g f) && agrees w g fs

abbrev pub all_flags : List ℕ
all_flags =
    flag_shift ∷ flag_ctrl ∷ flag_alt ∷ flag_caps_lock ∷ flag_num_lock ∷ flag_scroll_lock ∷ []

abbrev pub is_byte_by : ℕ → (ℕ → Bool) → Bool
is_byte_by w g = ltb w 256 && agrees w g all_flags

-- One switch set to a value, the others as they are in `w`.
abbrev pub with_switch : ℕ → Bool → ℕ → ℕ → Bool
with_switch flag b w f = if f == flag then b else has_flag w f

and→both : (a b : Bool) → (a && b) ≡ true → (a ≡ true) × (b ≡ true)
and→both true b h = (refl, h)
and→both false b h = cc

agrees-cons :
    (w : ℕ) (g : ℕ → Bool) (f : ℕ) (fs : List ℕ)
    → agrees w g (f ∷ fs) ≡ true
    → (has_flag w f ≡ g f) × (agrees w g fs ≡ true)
unfolding agrees
agrees-cons w g f fs h =
    let (a, b) = and→both (same_bool (has_flag w f) (g f)) (agrees w g fs) h in
    (same_bool→eq (has_flag w f) (g f) a, b)

is_byte_by→eq :
    (w : ℕ) (g : ℕ → Bool) → is_byte_by w g ≡ true → (w < 256) × (flags_of w ≡ flags_by g)
unfolding flags_of
is_byte_by→eq w g h =
    let (small, h1) = and→both (ltb w 256) (agrees w g all_flags) h in
    let (a, h2) = agrees-cons w g flag_shift _ h1 in
    let (b, h3) = agrees-cons w g flag_ctrl _ h2 in
    let (c, h4) = agrees-cons w g flag_alt _ h3 in
    let (d, h5) = agrees-cons w g flag_caps_lock _ h4 in
    let (e, h6) = agrees-cons w g flag_num_lock _ h5 in
    let (f, h7) = agrees-cons w g flag_scroll_lock _ h6 in
    (
      ltb→lt w 256 small,
      λ i. record { shift = a i; ctrl = b i; alt = c i; caps = d i; num = e i; scroll = f i },
    )

-- The new byte `f w` and the switches `g w` agree on every byte.
by_table :
    (f : ℕ → ℕ) (g : ℕ → ℕ → Bool)
    → all_below 256 (λ w. is_byte_by (f w) (g w)) ≡ true
    → (w : ℕ) → w < 256
    → (f w < 256) × (flags_of (f w) ≡ flags_by (g w))
by_table f g table w h = is_byte_by→eq (f w) (g w) (all_below_sound 256 _ w table h)

abbrev pub HeldTable : ℕ → Bool → Type 0
HeldTable flag r =
    all_below 256 (λ w. is_byte_by (hold flag r w) (with_switch flag (not r) w)) ≡ true

-- The release of a modifier clears its switch, the press sets it, and the others stay.
pub hold-flags :
    (flag : ℕ) (r : Bool)
    → HeldTable flag r
    → (w : ℕ) → w < 256
    → (hold flag r w < 256) × (flags_of (hold flag r w) ≡ flags_by (with_switch flag (not r) w))
hold-flags flag r table w h = by_table (hold flag r) (λ w. with_switch flag (not r) w) table w h

pub shift_table : (r : Bool) → HeldTable flag_shift r
unfolding all_below hold agrees
shift_table true = refl
shift_table false = refl

pub ctrl_table : (r : Bool) → HeldTable flag_ctrl r
unfolding all_below hold agrees
ctrl_table true = refl
ctrl_table false = refl

pub alt_table : (r : Bool) → HeldTable flag_alt r
unfolding all_below hold agrees
alt_table true = refl
alt_table false = refl

-- A lock turns its switch over, and the others stay.
abbrev pub toggled : ℕ → ℕ → ℕ → Bool
toggled flag w = with_switch flag (not (has_flag w flag)) w

pub caps-flags :
    (w : ℕ)
    → w < 256
    → (bit_xor w flag_caps_lock < 256)
      × (flags_of (bit_xor w flag_caps_lock) ≡ flags_by (toggled flag_caps_lock w))
unfolding all_below agrees
caps-flags w h = by_table (λ w. bit_xor w flag_caps_lock) (toggled flag_caps_lock) refl w h

pub num-flags :
    (w : ℕ)
    → w < 256
    → (bit_xor w flag_num_lock < 256)
      × (flags_of (bit_xor w flag_num_lock) ≡ flags_by (toggled flag_num_lock w))
unfolding all_below agrees
num-flags w h = by_table (λ w. bit_xor w flag_num_lock) (toggled flag_num_lock) refl w h

pub scroll-flags :
    (w : ℕ)
    → w < 256
    → (bit_xor w flag_scroll_lock < 256)
      × (flags_of (bit_xor w flag_scroll_lock) ≡ flags_by (toggled flag_scroll_lock w))
unfolding all_below agrees
scroll-flags w h = by_table (λ w. bit_xor w flag_scroll_lock) (toggled flag_scroll_lock) refl w h

-- The lights that the switches of the locks stand for.
abbrev pub lights : Flags → ℕ
lights f = (if f.scroll then 1 else 0) + ((if f.num then 2 else 0) + (if f.caps then 4 else 0))

pub leds_of-lights : (w : ℕ) → leds_of w ≡ lights (flags_of w)
unfolding leds_of flags_of
leds_of-lights w =
    go (has_flag w flag_scroll_lock) (has_flag w flag_num_lock) (has_flag w flag_caps_lock)
  where
    go :
        (s n c : Bool)
        → (let scroll = if s then bit_or 0 0x01 else 0 in
            let num = if n then bit_or scroll 0x02 else scroll in
            if c then bit_or num 0x04 else num)
          ≡ (if s then 1 else 0) + ((if n then 2 else 0) + (if c then 4 else 0))
    go true true true = refl
    go true true false = refl
    go true false true = refl
    go true false false = refl
    go false true true = refl
    go false true false = refl
    go false false true = refl
    go false false false = refl
