-- ===== src/Memory/Scan.antt =====
-- What `memcmp` and `memchr` tell of the bytes that they read.
use kyro_kernel.Base.{
  ltb, ◌==◌, ltb→lt, ltb→le, ==_iff, Bool-cases, length, get_elem?-eq-get_or, ℕ, zero, suc, ◌+◌,
  ◌≤◌, ◌<◌, ◌≡◌, refl, ap, ◌≢◌, inl, inr, Option, none, some, arith,
}
use kyro_kernel.Memory.{Bytes, Order, less, same, greater, memcmp, u8, memchr}
use mathlib.Core.Path.{subst}
use kyro_kernel.Memory.Move.{byte_at}

-- The first place below `n` where the bytes differ decides.
pub data Compares (m : Bytes) (p q n : ℕ) : Order → Type 0 where
  all_same : ((i : ℕ) → i < n → byte_at m (p + i) ≡ byte_at m (q + i)) → Compares m p q n same
  first_less :
      (k : ℕ)
      → k < n
      → ((i : ℕ) → i < k → byte_at m (p + i) ≡ byte_at m (q + i))
      → byte_at m (p + k) < byte_at m (q + k)
      → Compares m p q n less
  first_greater :
      (k : ℕ)
      → k < n
      → ((i : ℕ) → i < k → byte_at m (p + i) ≡ byte_at m (q + i))
      → byte_at m (q + k) < byte_at m (p + k)
      → Compares m p q n greater

next-eq : (m : Bytes) (p i : ℕ) → byte_at m (p + suc i) ≡ byte_at m (p + 1 + i)
next-eq m p i = ap (byte_at m) (omega arith)

first-eq : (m : Bytes) (p : ℕ) → byte_at m (p + 0) ≡ byte_at m p
first-eq m p = ap (byte_at m) (omega arith)

-- Equal bytes at the front may be left out.
at_front :
    (m : Bytes) (p q : ℕ) {k : ℕ}
    → byte_at m p ≡ byte_at m q
    → ((i : ℕ) → i < k → byte_at m (p + 1 + i) ≡ byte_at m (q + 1 + i))
    → (i : ℕ) → i < suc k
    → byte_at m (p + i) ≡ byte_at m (q + i)
at_front m p q e h zero lt = omega (arith, first-eq m p, first-eq m q)
at_front m p q e h (suc i) lt = omega (arith, next-eq m p i, next-eq m q i, h i (omega arith))

moved :
    (m : Bytes) (p q k : ℕ)
    → byte_at m (p + 1 + k) < byte_at m (q + 1 + k)
    → byte_at m (p + suc k) < byte_at m (q + suc k)
moved m p q k h = omega (arith, next-eq m p k, next-eq m q k)

Compares-front :
    {m : Bytes} {p q n : ℕ} {o : Order}
    → byte_at m p ≡ byte_at m q
    → Compares m (p + 1) (q + 1) n o
    → Compares m p q (suc n) o
Compares-front {m} {p} {q} e (all_same h) = all_same (at_front m p q e h)
Compares-front {m} {p} {q} e (first_less k lt h l) =
    first_less (suc k) (omega arith) (at_front m p q e h) (moved m p q k l)
Compares-front {m} {p} {q} e (first_greater k lt h l) =
    first_greater (suc k) (omega arith) (at_front m p q e h) (moved m q p k l)

-- Of two areas inside memory `memcmp` returns, and says how the bytes at the first difference
-- compare, or that there is none.
pub memcmp-Compares :
    (n : ℕ) (m : Bytes) (p q : ℕ)
    → p + n ≤ length m
    → q + n ≤ length m
    → (o : Order) × (memcmp m p q n ≡ some o) × Compares m p q n o
unfolding memcmp
memcmp-Compares zero m p q hp hq = (same, refl, all_same (λ i h. absurd (omega arith)))
memcmp-Compares (suc n) m p q hp hq =
    let ep = get_elem?-eq-get_or m p 0 (omega arith) in
    let eq = get_elem?-eq-get_or m q 0 (omega arith) in
    let a : ℕ = byte_at m p in
    let b : ℕ = byte_at m q in
    elim (Bool-cases (ltb a b)) [
      | inl lt ↦ (
        less,
        rw (ep, eq, lt),
        first_less 0 (omega arith) (λ i h. absurd (omega arith))
            (omega (arith, first-eq m p, first-eq m q, ltb→lt a b lt)),
      )
      | inr ge ↦ elim (Bool-cases (ltb b a)) [
        | inl gt ↦ (
          greater,
          rw (ep, eq, ge, gt),
          first_greater 0 (omega arith) (λ i h. absurd (omega arith))
              (omega (arith, first-eq m p, first-eq m q, ltb→lt b a gt)),
        )
        | inr le ↦
            let (o, run, c) = memcmp-Compares n m (p + 1) (q + 1) (omega arith) (omega arith) in
            let e : byte_at m p ≡ byte_at m q = omega (arith, ltb→le a b ge, ltb→le b a le) in
            (o, rw (ep, eq, ge, le) run, Compares-front e c)
      ]
    ]

-- The first address at or above `p`, below `p + n`, that holds the byte; or none does.
pub data Finds (m : Bytes) (p c n : ℕ) : Option ℕ → Type 0 where
  at :
      (k : ℕ)
      → k < n
      → byte_at m (p + k) ≡ c
      → ((i : ℕ) → i < k → byte_at m (p + i) ≢ c)
      → Finds m p c n (some (p + k))
  nowhere : ((i : ℕ) → i < n → byte_at m (p + i) ≢ c) → Finds m p c n none

front_ne :
    (m : Bytes) (p c : ℕ) {k : ℕ}
    → byte_at m p ≢ c
    → ((i : ℕ) → i < k → byte_at m (p + 1 + i) ≢ c)
    → (i : ℕ) → i < suc k
    → byte_at m (p + i) ≢ c
front_ne m p c ne h zero lt = omega (arith, first-eq m p)
front_ne m p c ne h (suc i) lt = omega (arith, next-eq m p i, h i (omega arith))

Finds-front :
    {m : Bytes} {p c n : ℕ} {o : Option ℕ}
    → byte_at m p ≢ c
    → Finds m (p + 1) c n o
    → Finds m p c (suc n) o
Finds-front {m} {p} {c} {n} ne (at k lt e h) =
    (subst (λ (a : ℕ). Finds m p c (suc n) (some a)) (omega arith)
      (at (suc k) (omega arith) (omega (arith, next-eq m p k)) (front_ne m p c ne h)))
Finds-front {m} {p} {c} ne (nowhere h) = nowhere (front_ne m p c ne h)

-- Inside memory `memchr` returns the first address among the `n` from `p` whose byte is the low
-- byte of `c`, and NULL exactly if there is none.
pub memchr-Finds :
    (n : ℕ) (m : Bytes) (p c : ℕ)
    → p + n ≤ length m
    → (o : Option ℕ) × (memchr m p c n ≡ some o) × Finds m p (u8 c) n o
unfolding memchr
memchr-Finds zero m p c hp = (none, refl, nowhere (λ i h. absurd (omega arith)))
memchr-Finds (suc n) m p c hp =
    let ep = get_elem?-eq-get_or m p 0 (omega arith) in
    elim (Bool-cases (byte_at m p == u8 c)) [
      | inl e ↦ (
        some p,
        rw (ep, e),
        subst (λ (a : ℕ). Finds m p (u8 c) (suc n) (some a)) (omega arith)
            (at 0 (omega arith) (omega (arith, first-eq m p, (==_iff (byte_at m p) (u8 c)).0 e))
              (λ i h. absurd (omega arith))),
      )
      | inr ne ↦
          let (o, run, f) = memchr-Finds n m (p + 1) c (omega arith) in
          (o, rw (ep, ne) run, Finds-front (ground arith) f)
    ]
