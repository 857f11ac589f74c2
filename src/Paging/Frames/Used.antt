-- ===== src/Paging/Frames/Used.antt =====
-- The bitmap as a set of frames.
use kyro_kernel.Base.{
  ltb, leb, ◌==◌, if◌then◌else◌, ==_iff, Bool-cases, length, get_or, set, get_or-set_self,
  get_or-set_ne, ℕ, ◌*◌, ◌/◌, ◌%◌, ◌<◌, ◌≡◌, refl, ap, ◌∙◌, ◌≢◌, inl, inr, true, false, ◌&&◌, arith,
}
use kyro_kernel.Base.Bits.{
  bit, bit_and-pow_zero, bit_or-on, bit_or-other, bit_and-off, bit_and-other,
}
use kyro_kernel.Paging.{page_size}
use kyro_kernel.Paging.Frames.{Frames, set_frame, clear_frame, test_frame}

-- One bit for each frame.
pub record IsBitmap (f : Frames) : Type 0 where
  pub size : length f.words * 32 ≡ f.nframes

-- The bit of frame `n`, 1 if it is in use.
unfoldable pub used : Frames → ℕ → ℕ
used f n = bit (n % 32) (get_or f.words (n / 32) 0)

-- A word with a new value.
used-set :
    (f : Frames) (m n w : ℕ)
    → m / 32 < length f.words
    → used (record f { words = set f.words (m / 32) w }) n
      ≡ (if n / 32 == m / 32 then bit (n % 32) w else used f n)
unfolding used
used-set f m n w h = elim (Bool-cases (n / 32 == m / 32)) [
  | inl same ↦
      let e : n / 32 ≡ m / 32 = (==_iff _ _).0 same in
      rw (same, e) (ap (bit (n % 32)) (get_or-set_self f.words (m / 32) w 0 h))
  | inr other ↦
      let e : m / 32 ≢ n / 32 = ground arith in
      rw other (ap (bit (n % 32)) (get_or-set_ne f.words (m / 32) (n / 32) w 0 e))
]

by_frame :
    (f : Frames) (m n w r : ℕ)
    → (n ≡ m → bit (n % 32) w ≡ r)
    → (n / 32 ≡ m / 32 → n % 32 ≢ m % 32 → bit (n % 32) w ≡ used f n)
    → (if n / 32 == m / 32 then bit (n % 32) w else used f n) ≡ (if n == m then r else used f n)
by_frame f m n w r here there = elim (Bool-cases (n == m)) [
  | inl same ↦
      let e : n ≡ m = (==_iff _ _).0 same in
      let q : (n / 32 == m / 32) ≡ true = (==_iff _ _).1 (ap (λ (x : ℕ). x / 32) e) in
      rw (same, q) (here e)
  | inr other ↦
      let ne : n ≢ m = ground arith in
      elim (Bool-cases (n / 32 == m / 32)) [
        | inl word ↦
            let e : n / 32 ≡ m / 32 = (==_iff _ _).0 word in
            rw (word, other) (there e (λ r. ne (omega arith)))
        | inr far ↦ rw (other, far) refl
      ]
]

not_there : (a b n : ℕ) → leb b a ≡ true → n < b → (n == a) ≡ false
not_there a b n h lt = ground arith

in_words : (f : Frames) (m : ℕ) → IsBitmap f → leb f.nframes m ≡ false → m / 32 < length f.words
in_words f m v h = ground (arith, v.size)

same_word :
    (f : Frames) (n m : ℕ) → n / 32 ≡ m / 32 → bit (n % 32) (get_or f.words (m / 32) 0) ≡ used f n
unfolding used
same_word f n m e = rw e refl

-- Given one bit for each frame, `set_frame` puts the frame of its address in use, if there is such
-- a frame, and no other.
pub set_frame-used :
    (a n : ℕ) (f : Frames)
    → IsBitmap f
    → n < f.nframes
    → used (set_frame a f) n ≡ (if n == a / page_size then 1 else used f n)
unfolding set_frame
set_frame-used a n f v h = elim (Bool-cases (leb f.nframes (a / page_size))) [
  | inl none_such ↦ rw (none_such, not_there _ _ n none_such h) refl
  | inr there ↦ rw there (
      used-set f (a / page_size) n _ (in_words f _ v there)
      ∙ by_frame f (a / page_size) n _ 1
          (λ e. bit_or-on (n % 32) (a / page_size % 32) _ (ap (λ (x : ℕ). x % 32) e))
          (λ e ne.
            bit_or-other (n % 32) (a / page_size % 32) _ ne ∙ same_word f n (a / page_size) e))
]

-- Given one bit for each frame, `clear_frame` frees the frame of its address, if there is such a
-- frame, and no other.
pub clear_frame-used :
    (a n : ℕ) (f : Frames)
    → IsBitmap f
    → n < f.nframes
    → used (clear_frame a f) n ≡ (if n == a / page_size then 0 else used f n)
unfolding clear_frame
clear_frame-used a n f v h = elim (Bool-cases (leb f.nframes (a / page_size))) [
  | inl none_such ↦ rw (none_such, not_there _ _ n none_such h) refl
  | inr there ↦ rw there (
      used-set f (a / page_size) n _ (in_words f _ v there)
      ∙ by_frame f (a / page_size) n _ 0
          (λ e.
            bit_and-off (n % 32) (a / page_size % 32) _ (omega arith) (ap (λ (x : ℕ). x % 32) e))
          (λ e ne.
            bit_and-other (n % 32) (a / page_size % 32) _ (omega arith) (omega arith) ne
            ∙ same_word f n (a / page_size) e))
]

-- `test_frame` is zero exactly for a frame that there is and that is not in use.
pub test_frame-used :
    (a : ℕ) (f : Frames)
    → (test_frame a f == 0) ≡ (ltb (a / page_size) f.nframes && (used f (a / page_size) == 0))
unfolding test_frame used
test_frame-used a f = elim (Bool-cases (leb f.nframes (a / page_size))) [
  | inl none_such ↦ ground arith
  | inr there ↦
      let lt : ltb (a / page_size) f.nframes ≡ true = ground arith in
      rw (there, lt) (bit_and-pow_zero (a / page_size % 32) (get_or f.words (a / page_size / 32) 0))
]
