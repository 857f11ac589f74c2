-- ===== src/Base/Bits.antt =====
-- Bits of a word, read one by one, and what the bitwise operations do to each.
mod Step
use kyro_kernel.Base.Tests.{◌==◌, ltb, ltb→lt}
use kyro_kernel.Base.Check.{all_below, all_below_sound}
use Step.{bit_or_step, bit_and_step}
use Prim.Native.Nat.{
  ℕ, zero, suc, ◌+◌, ◌-◌, ◌*◌, ◌/◌, ◌%◌, ◌^◌, ◌≤◌, ◌<◌, min, max, bit_and, bit_or,
}
use mathlib.Core.Path.{◌≡◌, refl, ap, ◌∙◌}
use mathlib.Core.Logic.{◌≢◌}
use native.Mathlib.Omega.{arith}
use native.Mathlib.Nat.{pow-suc, one-le-pow}

-- Bit `j` of `w`, as 0 or 1.
unfoldable pub bit : ℕ → ℕ → ℕ
bit zero w = w % 2
bit (suc j) w = bit j (w / 2)

pub bit-le-one : (j w : ℕ) → bit j w ≤ 1
unfolding bit
bit-le-one zero w = omega arith
bit-le-one (suc j) w = bit-le-one j (w / 2)

pub bit-bit_or : (j a b : ℕ) → bit j (bit_or a b) ≡ max (bit j a) (bit j b)
unfolding bit
bit-bit_or zero a b = omega (arith, bit_or_step a b)
bit-bit_or (suc j) a b = ap (bit j) (omega (arith, bit_or_step a b)) ∙ bit-bit_or j (a / 2) (b / 2)

pub bit-bit_and : (j a b : ℕ) → bit j (bit_and a b) ≡ min (bit j a) (bit j b)
unfolding bit
bit-bit_and zero a b = omega (arith, bit_and_step a b)
bit-bit_and (suc j) a b =
    ap (bit j) (omega (arith, bit_and_step a b)) ∙ bit-bit_and j (a / 2) (b / 2)

pub bit-zero : (j : ℕ) → bit j 0 ≡ 0
unfolding bit
bit-zero zero = refl
bit-zero (suc j) = bit-zero j

pub bit-pow_self : (j : ℕ) → bit j (2 ^ j) ≡ 1
unfolding bit
bit-pow_self zero = refl
bit-pow_self (suc j) = ap (bit j) (omega (arith, pow-suc 2 j)) ∙ bit-pow_self j

pub bit-pow_ne : (i j : ℕ) → i ≢ j → bit i (2 ^ j) ≡ 0
unfolding bit
bit-pow_ne zero zero h = absurd (h refl)
bit-pow_ne zero (suc j) h = omega (arith, pow-suc 2 j)
bit-pow_ne (suc i) zero h = bit-zero i
bit-pow_ne (suc i) (suc j) h =
    ap (bit i) (omega (arith, pow-suc 2 j)) ∙ bit-pow_ne i j (λ e. h (ap suc e))

-- `~x` on `w` bits flips each bit.
pub bit-complement : (w j x : ℕ) → x < 2 ^ w → j < w → bit j (2 ^ w - 1 - x) + bit j x ≡ 1
unfolding bit
bit-complement zero j x hx h = absurd (omega arith)
bit-complement (suc w) zero x hx h = omega (arith, pow-suc 2 w, one-le-pow w 2)
bit-complement (suc w) (suc j) x hx h =
    ap (λ (t : ℕ). bit j t + bit j (x / 2)) (omega (arith, pow-suc 2 w, one-le-pow w 2))
    ∙ bit-complement w j (x / 2) (omega (arith, pow-suc 2 w)) (omega arith)

-- A word whose bits are all one is the largest.
pub bit-all_ones : (w j : ℕ) → j < w → bit j (2 ^ w - 1) ≡ 1
unfolding bit
bit-all_ones zero j h = absurd (omega arith)
bit-all_ones (suc w) zero h = omega (arith, pow-suc 2 w, one-le-pow w 2)
bit-all_ones (suc w) (suc j) h =
    ap (bit j) (omega (arith, pow-suc 2 w, one-le-pow w 2)) ∙ bit-all_ones w j (omega arith)

pub bit_or-lt : (w a b : ℕ) → a < 2 ^ w → b < 2 ^ w → bit_or a b < 2 ^ w
bit_or-lt zero a b ha hb =
    let ea : a ≡ 0 = omega arith in
    let eb : b ≡ 0 = omega arith in
    let e : bit_or a b ≡ 0 = ap (λ (t : ℕ). bit_or t b) ea ∙ ap (bit_or 0) eb in omega (arith, e)
bit_or-lt (suc w) a b ha hb = omega (
  arith,
  bit_or_step a b,
  pow-suc 2 w,
  bit_or-lt w (a / 2) (b / 2) (omega (arith, pow-suc 2 w)) (omega (arith, pow-suc 2 w)),
)

bit_and-zero : (a : ℕ) → bit_and a 0 ≡ 0
bit_and-zero a = go a a (omega arith)
  where
    half : (a : ℕ) → bit_and (a / 2) 0 ≡ 0 → bit_and a 0 ≡ 0
    half a h = omega (arith, bit_and_step a 0, h)

    go : (n a : ℕ) → a ≤ n → bit_and a 0 ≡ 0
    go zero zero h = refl
    go zero (suc a) h = absurd (omega arith)
    go (suc n) zero h = refl
    go (suc n) (suc a) h = half (suc a) (go n (suc a / 2) (omega arith))

bit_and_low : (k q r : ℕ) → r < 2 ^ k → bit_and (q * 2 ^ k + r) (2 ^ k - 1) ≡ r
bit_and_low zero q r h = rw bit_and-zero (omega arith)
bit_and_low (suc k) q r h = ground (
  arith,
  bit_and_step (q * 2 ^ suc k + r) (2 ^ suc k - 1),
  ap (λ (t : ℕ). q * t) (pow-suc 2 k),
  pow-suc 2 k,
  one-le-pow k 2,
  bit_and_low k q (r / 2) (omega (arith, pow-suc 2 k)),
)

-- A mask of `k` low bits is the remainder by `2 ^ k`.
pub bit_and-low_mask : (k a : ℕ) → bit_and a (2 ^ k - 1) ≡ a % 2 ^ k
bit_and-low_mask k a = ground (arith, one-le-pow k 2, bit_and_low k (a / 2 ^ k) (a % 2 ^ k))

-- A mask whose low `k` bits are clear clears those bits.
bit_and_high : (k q r m : ℕ) → r < 2 ^ k → bit_and (q * 2 ^ k + r) (m * 2 ^ k) ≡ bit_and q m * 2 ^ k
bit_and_high zero q r m h =
    let e : q * 2 ^ 0 + r ≡ q = omega arith in
    let f : m * 2 ^ 0 ≡ m = omega arith in rw (e, f) (omega arith)
bit_and_high (suc k) q r m h = ground (
  arith,
  bit_and_step (q * 2 ^ suc k + r) (m * 2 ^ suc k),
  ap (λ (t : ℕ). q * t) (pow-suc 2 k),
  ap (λ (t : ℕ). m * t) (pow-suc 2 k),
  ap (λ (t : ℕ). bit_and q m * t) (pow-suc 2 k),
  pow-suc 2 k,
  bit_and_high k q (r / 2) m (omega (arith, pow-suc 2 k)),
)

pub bit_and-high_mask : (w k a : ℕ) → bit_and a ((2 ^ w - 1) * 2 ^ k) ≡ a / 2 ^ k % 2 ^ w * 2 ^ k
bit_and-high_mask w k a =
    ap (λ (t : ℕ). bit_and t ((2 ^ w - 1) * 2 ^ k)) (grind (arith, one-le-pow k 2))
    ∙ bit_and_high k (a / 2 ^ k) (a % 2 ^ k) (2 ^ w - 1) (grind (arith, one-le-pow k 2))
    ∙ ap (λ (t : ℕ). t * 2 ^ k) (bit_and-low_mask w (a / 2 ^ k))

-- A mask of one bit keeps that bit.
pub bit_and-pow : (j w : ℕ) → bit_and w (2 ^ j) ≡ bit j w * 2 ^ j
unfolding bit
bit_and-pow zero w = bit_and-low_mask 1 w ∙ omega arith
bit_and-pow (suc j) w =
    let e : 2 ^ suc j ≡ 2 ^ j * 2 = omega (arith, pow-suc 2 j) in
    let half : 2 ^ suc j / 2 ≡ 2 ^ j = omega arith in
    let step : bit_and w (2 ^ suc j) ≡ bit_and (w / 2) (2 ^ j) * 2 =
      bit_and_step w (2 ^ suc j) ∙ rw half (omega arith) in
    step ∙ rw (bit_and-pow j (w / 2), e) (grind arith)

-- The masks of one bit, and of all bits but one, in a word.
pub bit_or-on : (n p w : ℕ) → n ≡ p → bit n (bit_or w (2 ^ p)) ≡ 1
bit_or-on n p w e = rw e (bit-bit_or p w (2 ^ p) ∙ omega (arith, bit-pow_self p, bit-le-one p w))

pub bit_or-other : (n p w : ℕ) → n ≢ p → bit n (bit_or w (2 ^ p)) ≡ bit n w
bit_or-other n p w h = bit-bit_or n w (2 ^ p) ∙ omega (arith, bit-pow_ne n p h)

small_pow : (p : ℕ) → p < 32 → 2 ^ p < 2 ^ 32
unfolding all_below
small_pow p h = ltb→lt _ _ (all_below_sound 32 (λ j. ltb (2 ^ j) (2 ^ 32)) p refl h)

pub bit_and-off : (n p w : ℕ) → p < 32 → n ≡ p → bit n (bit_and w (2 ^ 32 - 1 - 2 ^ p)) ≡ 0
bit_and-off n p w h e = rw e (
    bit-bit_and p w (2 ^ 32 - 1 - 2 ^ p)
    ∙ omega (arith, bit-pow_self p, bit-complement 32 p (2 ^ p) (small_pow p h) h))

pub bit_and-other :
    (n p w : ℕ) → n < 32 → p < 32 → n ≢ p → bit n (bit_and w (2 ^ 32 - 1 - 2 ^ p)) ≡ bit n w
bit_and-other n p w hn hp ne =
    bit-bit_and n w (2 ^ 32 - 1 - 2 ^ p)
    ∙ omega
        (arith, bit-pow_ne n p ne, bit-le-one n w, bit-complement 32 n (2 ^ p) (small_pow p hp) hn)

-- `bit_and w (2 ^ j)` tells whether the bit is set.
pub bit_and-pow_zero : (j w : ℕ) → (bit_and w (2 ^ j) == 0) ≡ (bit j w == 0)
bit_and-pow_zero j w = rw (bit_and-pow j w) (go (bit j w) (bit-le-one j w))
  where
    go : (b : ℕ) → b ≤ 1 → (b * 2 ^ j == 0) ≡ (b == 0)
    go zero le = ground arith
    go (suc zero) le = ground (arith, one-le-pow j 2)
    go (suc (suc b)) le = absurd (omega arith)

bit_or_low_zero : (a : ℕ) → bit_or a 0 ≡ a
bit_or_low_zero a = go a a (omega arith)
  where
    go : (n a : ℕ) → a ≤ n → bit_or a 0 ≡ a
    go zero zero h = refl
    go zero (suc a) h = absurd (omega arith)
    go (suc n) zero h = refl
    go (suc n) (suc a) h = omega (arith, bit_or_step (suc a) 0, go n (suc a / 2) (omega arith))

-- A number that fits below the low zeros of another goes there.
pub bit_or-disjoint : (k x y : ℕ) → y < 2 ^ k → bit_or (x * 2 ^ k) y ≡ x * 2 ^ k + y
bit_or-disjoint zero x y h =
    let e : y ≡ 0 = omega arith in rw e (bit_or_low_zero (x * 2 ^ 0) ∙ omega arith)
bit_or-disjoint (suc k) x y h =
    let p : x * 2 ^ suc k ≡ x * 2 ^ k * 2 = ap (λ (t : ℕ). x * t) (pow-suc 2 k) ∙ grind arith in
    let lt : y / 2 < 2 ^ k = omega (arith, pow-suc 2 k) in
    rw p (
      bit_or_step (x * 2 ^ k * 2) y
      ∙ ap (λ (t : ℕ). bit_or t (y / 2) * 2 + max (x * 2 ^ k * 2 % 2) (y % 2)) (omega arith)
      ∙ ap (λ (t : ℕ). t * 2 + max (x * 2 ^ k * 2 % 2) (y % 2)) (bit_or-disjoint k x (y / 2) lt)
      ∙ omega arith)
