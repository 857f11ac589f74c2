-- ===== src/Keyboard/Chars.antt =====
-- The translation of scancodes to characters.
use kyro_kernel.Base.{
  leb, ◌==◌, if◌then◌else◌, ==_iff, get_or, ℕ, ◌-◌, ◌<◌, ◌≡◌, refl, Bool, true, false, ◌&&◌, ◌||◌,
}
use kyro_kernel.Base.Check.{all_below, all_below_sound}
use kyro_kernel.Keyboard.{scancode_table, scancode_table_shift, scancode_to_ascii, to_char}

abbrev pub is_small_letter : ℕ → Bool
is_small_letter c = leb b'a' c && leb c b'z'

-- The key's character by the two tables alone: a letter is large under shift or caps lock, any
-- other key has its second character under shift.
pub typed_char : ℕ → Bool → Bool → ℕ
typed_char scancode shift caps =
    let plain = get_or scancode_table scancode 0 in
    if is_small_letter plain
    then if shift || caps then plain - 32 else plain
    else if shift
    then get_or scancode_table_shift scancode 0
    else plain

by_chars :
    (shift caps : Bool)
    → all_below 128 (λ s. to_char s shift caps == typed_char s shift caps) ≡ true
    → (s : ℕ) → s < 128
    → to_char s shift caps ≡ typed_char s shift caps
by_chars shift caps table s h =
    (==_iff _ _).0
      (all_below_sound 128 (λ x. to_char x shift caps == typed_char x shift caps) s table h)

-- The translation of a scancode below 128, in any state of shift and caps lock, is the key's
-- character by the two tables: a letter is large under shift or caps lock or both.
pub to_char-typed_char :
    (s : ℕ) (shift caps : Bool) → s < 128 → to_char s shift caps ≡ typed_char s shift caps
unfolding all_below to_char typed_char scancode_to_ascii
to_char-typed_char s false false h = by_chars false false refl s h
to_char-typed_char s false true h = by_chars false true refl s h
to_char-typed_char s true false h = by_chars true false refl s h
to_char-typed_char s true true h = by_chars true true refl s h
