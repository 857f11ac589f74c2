-- ===== src/Math/Sqrt.antt =====
-- The square root.
use kyro_kernel.Math.{sqrt, sqrt_loop}
use kyro_kernel.Heap.{u32}
use kyro_kernel.Base.{
  ltb, ◌==◌, ltb→lt, ltb→le, ==_iff, Bool-cases, ℕ, zero, suc, ◌+◌, ◌-◌, ◌*◌, ◌/◌, ◌^◌, ◌≤◌, ◌<◌,
  ◌≡◌, refl, sym, ◌∙◌, subst, inl, inr, true, false, none, some, arith,
}

mul_mono : (a b c : ℕ) → b ≤ c → a * b ≤ a * c
mul_mono a b c h = grind arith

expand : (a d : ℕ) → (a + d) * (a + d) ≡ a * (a + d + d) + d * d
expand a d = grind arith

square_gap : (a d b : ℕ) → b ≤ a + d + d → a * b ≤ (a + d) * (a + d)
square_gap a d b h = omega (arith, mul_mono a b (a + d + d) h, expand a d)

-- The geometric mean is not above the arithmetic one.
mean : (a b n : ℕ) → a + b ≤ n + n → a ≤ n → a * b ≤ n * n
mean a b n h le =
    let e : n ≡ a + (n - a) = omega arith in
    subst (λ (m : ℕ). a * b ≤ m * m) (sym e) (square_gap a (n - a) b (omega arith))

quotient_top : (x r : ℕ) → 0 < r → x < r * (x / r + 1)
quotient_top x r h = grind arith

quotient_low : (x r : ℕ) → 0 < r → r * (x / r) ≤ x
quotient_low x r h = grind arith

sum-le-product : (a b : ℕ) → suc a + suc b ≤ suc a * suc b + 1
sum-le-product a b = grind arith

sum_of_pos : (r q : ℕ) → 0 < r → 0 < q → r + q ≤ r * q + 1
sum_of_pos zero q h k = absurd (omega arith)
sum_of_pos (suc a) zero h k = absurd (omega arith)
sum_of_pos (suc a) (suc b) h k = sum-le-product a b

quotient_pos : (x r : ℕ) → 0 < r → r ≤ x → 0 < x / r
quotient_pos x r h le = grind arith

mul_swap : (a b : ℕ) → a * b ≡ b * a
mul_swap a b = grind arith

-- The root, rounded down.
pub record IsRoot (x r : ℕ) : Type 0 where
  pub low : r * r ≤ x
  pub high : x < (r + 1) * (r + 1)

step_falls :
    (fuel x result next : ℕ)
    → (result == 0) ≡ false
    → u32 (result + x / result) / 2 ≡ next
    → ltb next result ≡ true
    → sqrt_loop (suc fuel) x result ≡ sqrt_loop fuel x next
unfolding sqrt_loop
step_falls fuel x result next there e falls = rw (there, e, falls) refl

step_stays :
    (fuel x result next : ℕ)
    → (result == 0) ≡ false
    → u32 (result + x / result) / 2 ≡ next
    → ltb next result ≡ false
    → sqrt_loop (suc fuel) x result ≡ some (some result)
unfolding sqrt_loop
step_stays fuel x result next there e stays = rw (there, e, stays) refl

sqrt_loop-IsRoot :
    (fuel x result : ℕ)
    → x < 2 ^ 32 - 1
    → 0 < result
    → result ≤ x
    → x < (result + 1) * (result + 1)
    → result < fuel
    → (r : ℕ) × (sqrt_loop fuel x result ≡ some (some r)) × IsRoot x r
sqrt_loop-IsRoot zero x result small pos le up h = absurd (omega arith)
sqrt_loop-IsRoot (suc fuel) x result small pos le up h =
    let q : ℕ = x / result in
    let qpos : 0 < q = quotient_pos x result pos le in
    let sum : result + q ≤ x + 1 =
      omega (arith, sum_of_pos result q pos qpos, quotient_low x result pos) in
    let exact : u32 (result + q) / 2 ≡ (result + q) / 2 = omega arith in
    let there : (result == 0) ≡ false = ground arith in
    elim (Bool-cases (ltb ((result + q) / 2) result)) [
      | inl falls ↦
          let lt : (result + q) / 2 < result = ltb→lt _ _ falls in
          let top : x < (q + 1) * result =
            omega (arith, quotient_top x result pos, mul_swap result (q + 1)) in
          let bound = mean (q + 1) result ((result + q) / 2 + 1) (omega arith) (omega arith) in
          let (r, run, ok) =
            sqrt_loop-IsRoot fuel x ((result + q) / 2) small (omega arith) (omega arith)
              (omega (arith, top, bound)) (omega arith) in
          (r, step_falls fuel x result _ there exact falls ∙ run, ok)
      | inr stays ↦
          let ge : result ≤ (result + q) / 2 = ltb→le _ _ stays in
          (
            result,
            step_stays fuel x result _ there exact stays,
            record {
              low =
                  omega (arith, mul_mono result result q (omega arith), quotient_low x result pos);
              high = up;
            },
          )
    ]

square_up : (x : ℕ) → x < (x + 1) * (x + 1)
square_up x = grind arith

-- For every number but the greatest of 32 bits, `sqrt` returns, on fuel above the number, and the
-- result is the root, rounded down.
pub sqrt-IsRoot :
    (fuel x : ℕ) → x < 2 ^ 32 - 1 → x < fuel → (r : ℕ) × (sqrt fuel x ≡ some (some r)) × IsRoot x r
unfolding sqrt
sqrt-IsRoot fuel x small h = elim (Bool-cases (x == 0)) [
  | inl nothing ↦
      let e : x ≡ 0 = (==_iff x 0).0 nothing in
      (0, rw nothing refl, record { low = omega arith; high = omega arith })
  | inr some_x ↦
      let pos : 0 < x = ground arith in
      let (r, run, ok) = sqrt_loop-IsRoot fuel x x small pos (omega arith) (square_up x) h in
      (r, rw some_x run, ok)
]

-- The sum wraps to 0 for the greatest number, and the next round divides by it.
pub sqrt-greatest : (fuel : ℕ) → sqrt (suc (suc fuel)) (2 ^ 32 - 1) ≡ some none
unfolding sqrt sqrt_loop
sqrt-greatest fuel = refl
