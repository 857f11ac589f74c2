-- ===== src/Math/Gcd.antt =====
-- `gcd` is the greatest common divisor.
use kyro_kernel.Base.{
  ◌==◌, ==_iff, Bool-cases, ℕ, zero, suc, ◌+◌, ◌%◌, ◌<◌, ◌≡◌, refl, sym, subst, inl, inr, some,
  arith,
}
use Prim.Native.Nat.{◌∣◌}
use native.Mathlib.Nat.{dvd_refl, dvd-zero, dvd-mod_iff}
use kyro_kernel.Math.{gcd_loop, gcd}

-- A common divisor that every common divisor divides.
pub record IsGcd (a b g : ℕ) : Type 0 where
  pub left : g ∣ a
  pub right : g ∣ b
  pub greatest : (d : ℕ) → d ∣ a → d ∣ b → d ∣ g

gcd_loop-IsGcd : (fuel a b : ℕ) → b < fuel → (g : ℕ) × (gcd_loop fuel a b ≡ some g) × IsGcd a b g
unfolding gcd_loop
gcd_loop-IsGcd zero a b h = absurd (omega arith)
gcd_loop-IsGcd (suc fuel) a b h = elim (Bool-cases (b == 0)) [
  | inl z ↦
      let e : b ≡ 0 = (==_iff b 0).0 z in
      (
        a,
        rw z refl,
        record {
          left = dvd_refl a;
          right = subst (λ (n : ℕ). a ∣ n) (sym e) (dvd-zero a);
          greatest = λ d da db. da;
        },
      )
  | inr nz ↦
      let less : a % b < b = grind arith in
      let (g, run, is) = gcd_loop-IsGcd fuel b (a % b) (omega arith) in
      (
        g,
        rw nz run,
        record {
          left = (dvd-mod_iff _ is.left).0 is.right;
          right = is.left;
          greatest = λ d da db. is.greatest d db ((dvd-mod_iff _ db).1 da);
        },
      )
]

-- `gcd` returns, and what it returns is the greatest common divisor: it divides both numbers, and
-- every number that divides both divides it.
pub gcd-IsGcd : (a b : ℕ) → (g : ℕ) × (gcd a b ≡ some g) × IsGcd a b g
unfolding gcd
gcd-IsGcd a b = gcd_loop-IsGcd (b + 1) a b (omega arith)
