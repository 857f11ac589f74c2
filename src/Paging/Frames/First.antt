-- ===== src/Paging/Frames/First.antt =====
-- The search for a free frame.
use kyro_kernel.Base.{
  ltb, ◌==◌, if◌then◌else◌, ltb→lt, ltb→le, ==_iff, Bool-cases, get_or, ℕ, zero, suc, ◌+◌, ◌-◌, ◌*◌,
  ◌/◌, ◌%◌, ◌^◌, ◌≤◌, ◌<◌, bit_and, ◌≡◌, refl, sym, ap, ◌∙◌, subst, inl, inr, false, Option, none,
  some, arith,
}
use kyro_kernel.Base.Bits.{bit, bit-le-one, bit_and-pow_zero, bit-all_ones}
use kyro_kernel.Paging.Frames.{Frames, free_bit, first_free_loop, first_free_frame}
use kyro_kernel.Paging.Frames.Used.{IsBitmap, used}

-- What a search from bit `j` may give: a clear bit with none before it, or nothing.
pub data FindsBit (w j n : ℕ) : Option ℕ → Type 0 where
  clear :
      (i : ℕ)
      → j ≤ i
      → i < j + n
      → bit i w ≡ 0
      → ((m : ℕ) → j ≤ m → m < i → bit m w ≡ 1)
      → FindsBit w j n (some i)
  all_set : ((m : ℕ) → j ≤ m → m < j + n → bit m w ≡ 1) → FindsBit w j n none

set_bit : (m w : ℕ) → (bit_and w (2 ^ m) == 0) ≡ false → bit m w ≡ 1
set_bit m w h =
    let ne : (bit m w == 0) ≡ false = sym (bit_and-pow_zero m w) ∙ h in
    ground (arith, bit-le-one m w)

FindsBit-step :
    (w j n : ℕ) (r : Option ℕ) → bit j w ≡ 1 → FindsBit w (j + 1) n r → FindsBit w j (suc n) r
FindsBit-step w j n _ h (clear i ge lt here before) =
    clear i (omega arith) (omega arith) here (λ m ge' lt'. elim (Bool-cases (m == j)) [
      | inl same ↦ ap (λ x. bit x w) ((==_iff m j).0 same) ∙ h
      | inr other ↦ before m (ground arith) lt'
    ])
FindsBit-step w j n _ h (all_set before) = all_set (λ m ge' lt'. elim (Bool-cases (m == j)) [
  | inl same ↦ ap (λ x. bit x w) ((==_iff m j).0 same) ∙ h
  | inr other ↦ before m (ground arith) (omega arith)
])

pub free_bit-FindsBit : (w j n : ℕ) → FindsBit w j n (free_bit w j n)
unfolding free_bit
free_bit-FindsBit w j zero = all_set (λ m ge lt. absurd (omega arith))
free_bit-FindsBit w j (suc n) = elim (Bool-cases (bit_and w (2 ^ j) == 0)) [
  | inl free ↦ rw free (
      clear j (omega arith) (omega arith) ((==_iff _ _).0 (sym (bit_and-pow_zero j w) ∙ free))
        (λ m ge lt. absurd (omega arith)))
  | inr taken ↦ rw taken (
      FindsBit-step w j n (free_bit w (j + 1) n) (set_bit j w taken)
        (free_bit-FindsBit w (j + 1) n))
]

-- What a search from frame `m` to frame `b` may give: the first frame not in use, or `(uint32_t)-1`
-- if all are.
pub data FindsFrame (f : Frames) (m b : ℕ) : ℕ → Type 0 where
  found :
      (i : ℕ)
      → m ≤ i
      → i < b
      → used f i ≡ 0
      → ((k : ℕ) → m ≤ k → k < i → used f k ≡ 1)
      → FindsFrame f m b i
  full : ((k : ℕ) → m ≤ k → k < b → used f k ≡ 1) → FindsFrame f m b 0xffffffff

word_full :
    (f : Frames) (i k : ℕ)
    → ((m : ℕ) → 0 ≤ m → m < 0 + 32 → bit m (get_or f.words i 0) ≡ 1)
    → i * 32 ≤ k
    → k < (i + 1) * 32
    → used f k ≡ 1
unfolding used
word_full f i k h ge lt =
    let e : k / 32 ≡ i = omega arith in rw e (h (k % 32) (omega arith) (omega arith))

word_at :
    (f : Frames) (i k : ℕ)
    → i * 32 ≤ k
    → k < i * 32 + 32
    → used f k ≡ bit (k % 32) (get_or f.words i 0)
unfolding used
word_at f i k ge lt = let e : k / 32 ≡ i = omega arith in rw e refl

FindsFrame-step :
    (f : Frames) (i b r : ℕ)
    → ((m : ℕ) → 0 ≤ m → m < 0 + 32 → bit m (get_or f.words i 0) ≡ 1)
    → FindsFrame f ((i + 1) * 32) b r
    → FindsFrame f (i * 32) b r
FindsFrame-step f i b _ h (found r ge lt here before) = found r (omega arith) lt here (λ k ge' lt'.
    elim (Bool-cases (ltb k ((i + 1) * 32))) [
      | inl near ↦ word_full f i k h ge' (ltb→lt _ _ near)
      | inr far ↦ before k (ltb→le _ _ far) lt'
    ])
FindsFrame-step f i b _ h (full before) = full (λ k ge' lt'.
    elim (Bool-cases (ltb k ((i + 1) * 32))) [
      | inl near ↦ word_full f i k h ge' (ltb→lt _ _ near)
      | inr far ↦ before k (ltb→le _ _ far) lt'
    ])

in_word : (f : Frames) (i j : ℕ) → j < 32 → used f (i * 32 + j) ≡ bit j (get_or f.words i 0)
unfolding used
in_word f i j h =
    let a : (i * 32 + j) / 32 ≡ i = omega arith in
    let b : (i * 32 + j) % 32 ≡ j = omega arith in rw (a, b) refl

by_word :
    (f : Frames) (i b w next : ℕ)
    → get_or f.words i 0 ≡ w
    → (r : Option ℕ) → FindsBit (get_or f.words i 0) 0 32 r
    → (i + 1) * 32 ≤ b
    → FindsFrame f ((i + 1) * 32) b next
    → FindsFrame f
        (i * 32)
        b
        (if w == 0xffffffff then next else elim r [ some j ↦ i * 32 + j | none ↦ next ])
by_word f i b w next e r h le rest = elim (Bool-cases (w == 0xffffffff)) [
  | inl ones ↦
      let full_word : get_or f.words i 0 ≡ 2 ^ 32 - 1 = e ∙ (==_iff _ _).0 ones in
      rw ones (FindsFrame-step f i b next (λ m ge lt. rw full_word (bit-all_ones 32 m lt)) rest)
  | inr other ↦ rw other (by_bit r h)
]
  where
    by_bit :
        (r : Option ℕ)
        → FindsBit (get_or f.words i 0) 0 32 r
        → FindsFrame f (i * 32) b (elim r [ some j ↦ i * 32 + j | none ↦ next ])
    by_bit _ (clear j ge lt here before) =
        found (i * 32 + j) (omega arith) (omega arith) (in_word f i j lt ∙ here) (λ k ge' lt'.
          word_at f i k ge' (omega arith) ∙ before (k % 32) (omega arith) (omega arith))
    by_bit _ (all_set h) = FindsFrame-step f i b next h rest

first_free_loop-FindsFrame :
    (f : Frames) (i n : ℕ) → FindsFrame f (i * 32) ((i + n) * 32) (first_free_loop f i n)
unfolding first_free_loop
first_free_loop-FindsFrame f i zero = full (λ k ge lt. absurd (omega arith))
first_free_loop-FindsFrame f i (suc n) =
    by_word f i ((i + suc n) * 32) _ (first_free_loop f (i + 1) n) refl
      (free_bit (get_or f.words i 0) 0 32) (free_bit-FindsBit _ 0 32) (omega arith)
      (subst (λ b. FindsFrame f ((i + 1) * 32) (b * 32) (first_free_loop f (i + 1) n)) (omega arith)
        (first_free_loop-FindsFrame f (i + 1) n))

-- Given one bit for each frame, `first_free_frame` returns the first frame that is not in use, or
-- `(uint32_t)-1` if all are.
pub first_free_frame-FindsFrame :
    (f : Frames) → IsBitmap f → FindsFrame f 0 f.nframes (first_free_frame f)
unfolding first_free_frame
first_free_frame-FindsFrame f v =
    subst (λ b. FindsFrame f 0 b (first_free_loop f 0 (f.nframes / 32))) (omega (arith, v.size))
      (first_free_loop-FindsFrame f 0 (f.nframes / 32))
