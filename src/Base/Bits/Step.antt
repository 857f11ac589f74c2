-- ===== src/Base/Bits/Step.antt =====
-- The native bitwise operations, as a recursion on halves.
use Prim.Native.Nat.{
  ℕ, zero, suc, ◌+◌, ◌-◌, ◌*◌, ◌/◌, ◌%◌, ◌≤◌, min, max, bit_and, bit_or, digits, bitwise,
  bit_and-bitwise, bit_or-bitwise,
}
use mathlib.Core.Path.{◌≡◌, refl, sym, ap, ◌∙◌}
use native.Mathlib.Omega.{arith}

-- Once the fuel covers the first number, one unit more changes nothing.
one_more :
    (rest : ℕ → ℕ) (op : ℕ → ℕ → ℕ) (fuel a b : ℕ)
    → a ≤ fuel
    → digits rest op (suc fuel) a b ≡ digits rest op fuel a b
one_more rest op zero zero b le = refl
one_more rest op (suc fuel) zero b le = refl
one_more rest op zero (suc a) b le = absurd (omega arith)
one_more rest op (suc fuel) (suc a) b le =
    let half : suc a / 2 ≤ fuel = omega arith in
    ap (λ (t : ℕ). t * 2 + op (suc a % 2) (b % 2)) (one_more rest op fuel (suc a / 2) (b / 2) half)

-- So the fuel may be taken down to the number itself.
spare :
    (rest : ℕ → ℕ) (op : ℕ → ℕ → ℕ) (extra a b : ℕ)
    → digits rest op (a + extra) a b ≡ bitwise rest op a b
spare rest op zero a b = ap (λ (t : ℕ). digits rest op t a b) (omega arith)
spare rest op (suc extra) a b =
    let e : a + suc extra ≡ suc (a + extra) = omega arith in
    ap (λ (t : ℕ). digits rest op t a b) e
    ∙ one_more rest op (a + extra) a b (omega arith)
    ∙ spare rest op extra a b

by_halves :
    (rest : ℕ → ℕ) (op : ℕ → ℕ → ℕ) (a b : ℕ)
    → bitwise rest op (suc a) b ≡ bitwise rest op (suc a / 2) (b / 2) * 2 + op (suc a % 2) (b % 2)
by_halves rest op a b =
    let e : a ≡ suc a / 2 + (a - suc a / 2) = omega arith in
    ap (λ (t : ℕ). t * 2 + op (suc a % 2) (b % 2))
      (ap (λ (t : ℕ). digits rest op t (suc a / 2) (b / 2)) e
        ∙ spare rest op (a - suc a / 2) (suc a / 2) (b / 2))

pub bit_and_step : (x y : ℕ) → bit_and x y ≡ bit_and (x / 2) (y / 2) * 2 + min (x % 2) (y % 2)
bit_and_step zero b =
    let whole : bit_and 0 b ≡ 0 = bit_and-bitwise 0 b in
    let half : bit_and (0 / 2) (b / 2) ≡ 0 = bit_and-bitwise 0 (b / 2) in omega arith
bit_and_step (suc a) b =
    bit_and-bitwise (suc a) b
    ∙ by_halves (λ y. 0) min a b
    ∙ ap (λ (t : ℕ). t * 2 + min (suc a % 2) (b % 2)) (sym (bit_and-bitwise (suc a / 2) (b / 2)))

pub bit_or_step : (x y : ℕ) → bit_or x y ≡ bit_or (x / 2) (y / 2) * 2 + max (x % 2) (y % 2)
bit_or_step zero b =
    let whole : bit_or 0 b ≡ b = bit_or-bitwise 0 b in
    let half : bit_or (0 / 2) (b / 2) ≡ b / 2 = bit_or-bitwise 0 (b / 2) in omega arith
bit_or_step (suc a) b =
    bit_or-bitwise (suc a) b
    ∙ by_halves (λ y. y) max a b
    ∙ ap (λ (t : ℕ). t * 2 + max (suc a % 2) (b % 2)) (sym (bit_or-bitwise (suc a / 2) (b / 2)))
