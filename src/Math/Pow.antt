-- ===== src/Math/Pow.antt =====
-- `pow` is the power, modulo 2 ^ 32.
use kyro_kernel.Base.{
  ◌==◌, ==_iff, Bool-cases, ℕ, zero, suc, ◌+◌, ◌-◌, ◌*◌, ◌/◌, ◌%◌, ◌^◌, ◌<◌, bit_and, ◌≡◌, sym, ap,
  ◌∙◌, inl, inr, some, arith,
}
use kyro_kernel.Base.Bits.{bit_and-low_mask}
use native.Mathlib.Nat.{pow-zero, pow-suc, add-mul-mod_self_right}
use kyro_kernel.Heap.{u32}
use kyro_kernel.Math.{pow_loop, pow}

distrib : (q r m b : ℕ) → (q * m + r) * b ≡ r * b + q * b * m
distrib q r m b = grind arith

-- A factor may be reduced first.
u32-mul : (a b : ℕ) → u32 (u32 a * b) ≡ u32 (a * b)
u32-mul a b =
    let e : a ≡ a / 2 ^ 32 * 2 ^ 32 + u32 a = omega arith in
    sym (
      ap (λ (t : ℕ). u32 (t * b)) e
      ∙ ap (λ (t : ℕ). u32 t) (distrib (a / 2 ^ 32) (u32 a) (2 ^ 32) b)
      ∙ add-mul-mod_self_right (u32 a * b) (a / 2 ^ 32 * b) (2 ^ 32))

u32-mul_right : (a b : ℕ) → u32 (a * u32 b) ≡ u32 (a * b)
u32-mul_right a b =
    let swap : a * u32 b ≡ u32 b * a = grind arith in
    let back : b * a ≡ a * b = grind arith in
    ap (λ (t : ℕ). u32 t) swap ∙ u32-mul b a ∙ ap (λ (t : ℕ). u32 t) back

-- The power depends on the base modulo 2 ^ 32 only.
u32-pow : (b k : ℕ) → u32 (u32 b ^ k) ≡ u32 (b ^ k)
u32-pow b zero = ap (λ (t : ℕ). u32 t) (pow-zero (u32 b) ∙ sym (pow-zero b))
u32-pow b (suc k) =
    ap (λ (t : ℕ). u32 t) (pow-suc (u32 b) k)
    ∙ u32-mul_right (u32 b ^ k) b
    ∙ sym (u32-mul (u32 b ^ k) b)
    ∙ ap (λ (t : ℕ). u32 (t * b)) (u32-pow b k)
    ∙ u32-mul (b ^ k) b
    ∙ ap (λ (t : ℕ). u32 t) (sym (pow-suc b k))

square : (x b : ℕ) → x * (b * b) ≡ x * b * b
square x b = grind arith

double : (b k : ℕ) → (b * b) ^ k ≡ b ^ (k * 2)
double b zero = pow-zero (b * b) ∙ sym (pow-zero b)
double b (suc k) =
    let e : suc k * 2 ≡ suc (suc (k * 2)) = omega arith in
    pow-suc (b * b) k
    ∙ ap (λ (t : ℕ). t * (b * b)) (double b k)
    ∙ square (b ^ (k * 2)) b
    ∙ ap (λ (t : ℕ). t * b) (sym (pow-suc b (k * 2)))
    ∙ sym (pow-suc b (suc (k * 2)))
    ∙ ap (λ (t : ℕ). b ^ t) (sym e)

-- One turn: the square of the base to half the exponent, with the odd factor.
halve_even : (r b e : ℕ) → e % 2 ≡ 0 → u32 (r * u32 (b * b) ^ (e / 2)) ≡ u32 (r * b ^ e)
halve_even r b e h =
    let twice : e / 2 * 2 ≡ e = omega arith in
    sym (u32-mul_right r (u32 (b * b) ^ (e / 2)))
    ∙ ap (λ (t : ℕ). u32 (r * t)) (u32-pow (b * b) (e / 2))
    ∙ u32-mul_right r ((b * b) ^ (e / 2))
    ∙ ap (λ (t : ℕ). u32 (r * t)) (double b (e / 2) ∙ ap (λ (t : ℕ). b ^ t) twice)

assoc : (r b x : ℕ) → r * b * x ≡ r * (x * b)
assoc r b x = grind arith

halve_odd : (r b e : ℕ) → e % 2 ≡ 1 → u32 (u32 (r * b) * u32 (b * b) ^ (e / 2)) ≡ u32 (r * b ^ e)
halve_odd r b e h =
    let half : (e - 1) / 2 ≡ e / 2 = omega arith in
    let last : suc (e - 1) ≡ e = omega arith in
    u32-mul (r * b) (u32 (b * b) ^ (e / 2))
    ∙ ap (λ (t : ℕ). u32 (r * b * u32 (b * b) ^ t)) (sym half)
    ∙ halve_even (r * b) b (e - 1) (omega arith)
    ∙ ap (λ (t : ℕ). u32 t)
        (assoc r b (b ^ (e - 1))
          ∙ ap (λ (t : ℕ). r * t) (sym (pow-suc b (e - 1)) ∙ ap (λ (t : ℕ). b ^ t) last))

finished : (base result : ℕ) → result < 2 ^ 32 → some result ≡ some (u32 (result * base ^ 0))
finished base result small =
    let e : u32 (result * 1) ≡ result = omega arith in
    ap some (sym (ap (λ (t : ℕ). u32 (result * t)) (pow-zero base) ∙ e))

pow_loop_lem :
    (fuel base exp result : ℕ)
    → exp < 2 ^ fuel
    → result < 2 ^ 32
    → pow_loop (suc fuel) base exp result ≡ some (u32 (result * base ^ exp))
unfolding pow_loop
pow_loop_lem zero base exp result h small =
    let e : exp ≡ 0 = omega arith in rw e (finished base result small)
pow_loop_lem (suc fuel) base exp result h small = elim (Bool-cases (exp == 0)) [
  | inl z ↦ let e : exp ≡ 0 = (==_iff exp 0).0 z in rw e (finished base result small)
  | inr nz ↦
      let less : exp / 2 < 2 ^ fuel = omega (arith, pow-suc 2 fuel) in
      let low : bit_and exp 1 ≡ exp % 2 = bit_and-low_mask 1 exp in
      elim (Bool-cases (bit_and exp 1 == 0)) [
        | inl even ↦
            let e : exp % 2 ≡ 0 = sym low ∙ (==_iff _ _).0 even in
            rw (nz, even)
              (pow_loop_lem fuel (u32 (base * base)) (exp / 2) result less small
                ∙ ap some (halve_even result base exp e))
        | inr odd ↦
            let e : exp % 2 ≡ 1 = ground (arith, low) in
            rw (nz, odd)
              (pow_loop_lem fuel (u32 (base * base)) (exp / 2) (u32 (result * base)) less
                  (omega arith)
                ∙ ap some (halve_odd result base exp e))
      ]
]

-- For an exponent of 32 bits, `pow` returns the power modulo 2 ^ 32.
pub pow_lem : (base exp : ℕ) → exp < 2 ^ 32 → pow base exp ≡ some (u32 (base ^ exp))
unfolding pow
pow_lem base exp h =
    let one : 1 * base ^ exp ≡ base ^ exp = omega arith in
    pow_loop_lem 32 base exp 1 h (omega arith) ∙ ap (λ (t : ℕ). some (u32 t)) one
