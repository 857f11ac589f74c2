-- ===== src/Tests/Numbers.antt =====
-- Arithmetic.
use kyro_kernel.Base.{ℕ, ◌≡◌, some, arith}
use kyro_kernel.Math.{sqrt}
use kyro_kernel.Math.Sqrt.{IsRoot, sqrt-IsRoot}

sqrt-IsRoot_example : (r : ℕ) × (sqrt 18 17 ≡ some (some r)) × IsRoot 17 r
sqrt-IsRoot_example = sqrt-IsRoot 18 17 (omega arith) (omega arith)
