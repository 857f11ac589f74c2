-- ===== src/Math.antt =====
-- kernel/utils/math.c: the small functions on `int`, the power, the square root, the greatest
-- common divisor and the least common multiple.
pub mod Gcd
pub mod Pow
pub mod Sqrt
use kyro_kernel.Base.{
  ltb, leb, ◌==◌, if◌then◌else◌, ◌>>=◌, ℕ, zero, suc, ◌+◌, ◌-◌, ◌*◌, ◌/◌, ◌%◌, ◌^◌, bit_and, Bool,
  Option, none, some,
}
use kyro_kernel.Heap.{u32}

-- The loop of `gcd` on fuel.
pub gcd_loop : ℕ → ℕ → ℕ → Option ℕ
gcd_loop zero a b = none
gcd_loop (suc fuel) a b = let rest = gcd_loop fuel b (a % b) in if b == 0 then some a else rest

pub gcd : ℕ → ℕ → Option ℕ
unfolding gcd_loop
gcd a b = gcd_loop (b + 1) a b

-- `none` is a division by zero.
pub lcm : ℕ → ℕ → Option ℕ
unfolding gcd
lcm a b = do g ← gcd a b; if g == 0 then none else some (u32 (a * b) / g)

-- The loop of `pow` on fuel: `result *= base` for each set bit of `exp`, and `base *= base`.
pub pow_loop : ℕ → ℕ → ℕ → ℕ → Option ℕ
pow_loop zero base exp result = none
pow_loop (suc fuel) base exp result =
    let result' = if bit_and exp 1 == 0 then result else u32 (result * base) in
    let rest = pow_loop fuel (u32 (base * base)) (exp / 2) result' in
    if exp == 0 then some result else rest

pub pow : ℕ → ℕ → Option ℕ
unfolding pow_loop
pow base exp = pow_loop 33 base exp 1

-- The loop of `sqrt` on fuel; the inner `none` is a division by zero. `result + x / result` wraps
-- at 32 bits.
pub sqrt_loop : ℕ → ℕ → ℕ → Option (Option ℕ)
sqrt_loop zero x result = none
sqrt_loop (suc fuel) x result =
    let next = u32 (result + x / result) / 2 in
    let rest = sqrt_loop fuel x next in
    if result == 0 then some none else if ltb next result then rest else some (some result)

pub sqrt : ℕ → ℕ → Option (Option ℕ)
unfolding sqrt_loop
sqrt fuel x = if x == 0 then some (some 0) else sqrt_loop fuel x x

-- An `int` or a `long` is its 32 bits. What it stands for is negative if the top bit is set.
abbrev pub is_negative : ℕ → Bool
is_negative x = leb (2 ^ 31) x

-- `x < 0 ? -x : x`, with the negation on 32 bits.
pub abs : ℕ → ℕ
abs x = if is_negative x then u32 (2 ^ 32 - x) else x

pub labs : ℕ → ℕ
labs x = if is_negative x then u32 (2 ^ 32 - x) else x

-- `a < b` on signed numbers.
abbrev pub less : ℕ → ℕ → Bool
less a b = ltb (u32 (a + 2 ^ 31)) (u32 (b + 2 ^ 31))

pub max_int : ℕ → ℕ → ℕ
max_int a b = if less b a then a else b

pub min_int : ℕ → ℕ → ℕ
min_int a b = if less a b then a else b
