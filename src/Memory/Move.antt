-- ===== src/Memory/Move.antt =====
-- What `memset`, `memcpy` and `memmove` leave in memory, index by index.
use kyro_kernel.Base.{
  ltb, ltb→lt, ltb→le, Bool-cases, length, get_or, set, length-set, get_elem?-eq-get_or,
  get_or-set_self, get_or-set_ne, ℕ, zero, suc, ◌+◌, ◌≤◌, ◌<◌, ◌≡◌, refl, ap, ◌∙◌, ◌⊎◌, inl, inr,
  Option, some, arith,
}
use kyro_kernel.Memory.{Bytes, store, u8, memset, copy_byte, memcpy, copy_down, memmove}

abbrev pub byte_at : Bytes → ℕ → ℕ
byte_at m i = get_or m i 0

-- `out` is `m`, but that byte `d + i` is `f i` for each `i` below `n`.
pub record IsWritten (m : Bytes) (d n : ℕ) (f : ℕ → ℕ) (out : Bytes) : Type 0 where
  pub same_length : length out ≡ length m
  pub inside : (i : ℕ) → i < n → byte_at out (d + i) ≡ f i
  pub outside : (i : ℕ) → (i < d) ⊎ (d + n ≤ i) → byte_at out i ≡ byte_at m i

-- A run that does not fault and writes this.
abbrev pub Writes : Bytes → ℕ → ℕ → (ℕ → ℕ) → Option Bytes → Type 0
Writes m d n f r = (out : Bytes) × (r ≡ some out) × IsWritten m d n f out

IsWritten-zero : (m : Bytes) (d : ℕ) (f : ℕ → ℕ) → IsWritten m d 0 f m
IsWritten-zero m d f = record {
  same_length = refl;
  inside = λ i h. absurd (omega arith);
  outside = λ i h. refl;
}

store-ok : (m : Bytes) (p v : ℕ) → p < length m → store m p v ≡ some (set m p v)
store-ok m p v h = ground arith

copy_byte-ok :
    (m : Bytes) (d s : ℕ)
    → d < length m
    → s < length m
    → copy_byte m d s ≡ some (set m d (byte_at m s))
unfolding copy_byte
copy_byte-ok m d s hd hs = ground (arith, get_elem?-eq-get_or m s 0)

-- A first byte written, then the rest above it.
IsWritten-up :
    {m out : Bytes} {d n v : ℕ} {f : ℕ → ℕ}
    → d < length m
    → v ≡ f 0
    → IsWritten (set m d v) (d + 1) n (λ i. f (i + 1)) out
    → IsWritten m d (suc n) f out
IsWritten-up {m} {out} {d} {n} {v} {f} hd e w = record {
  same_length = w.same_length ∙ length-set m d v;
  inside = go;
  outside = λ i h. ground (arith, w.outside i, get_or-set_ne m d i v 0);
}
  where
    go : (i : ℕ) → i < suc n → byte_at out (d + i) ≡ f i
    go zero h =
        ap (byte_at out) (omega arith)
        ∙ w.outside d (inl (omega arith))
        ∙ (get_or-set_self m d v 0 hd ∙ e)
    go (suc i) h = ap (byte_at out) (omega arith) ∙ w.inside i (omega arith) ∙ ap f (omega arith)

-- A last byte written, then the rest below it.
IsWritten-down :
    {m out : Bytes} {d n v : ℕ} {f : ℕ → ℕ}
    → d + n < length m
    → v ≡ f n
    → IsWritten (set m (d + n) v) d n f out
    → IsWritten m d (suc n) f out
IsWritten-down {m} {out} {d} {n} {v} {f} hd e w = record {
  same_length = w.same_length ∙ length-set m (d + n) v;
  inside = λ i h. elim (Bool-cases (ltb i n)) [
    | inl lt ↦ w.inside i (ltb→lt i n lt)
    | inr ge ↦
        let at : i ≡ n = omega (arith, ltb→le i n ge) in
        rw at (w.outside (d + n) (inr (omega arith)) ∙ (get_or-set_self m (d + n) v 0 hd ∙ e))
  ];
  outside = λ i h. ground (arith, w.outside i, get_or-set_ne m (d + n) i v 0);
}

-- `memset` fills the `n` bytes at `d` with the low byte of `c`, and writes nowhere else.
pub memset_lem :
    (n : ℕ) (m : Bytes) (d c : ℕ) → d + n ≤ length m → Writes m d n (λ i. u8 c) (memset m d c n)
unfolding memset
memset_lem zero m d c h = (m, refl, IsWritten-zero m d _)
memset_lem (suc n) m d c h =
    let (out, run, w) =
      memset_lem n (set m d (u8 c)) (d + 1) c (omega (arith, length-set m d (u8 c))) in
    (out, rw (store-ok m d (u8 c) (omega arith)) run, IsWritten-up (omega arith) refl w)

-- The upward loop copies what was there before it, if it does not overtake its source.
memcpy-Writes :
    (n : ℕ) (m : Bytes) (d s : ℕ) (f : ℕ → ℕ)
    → d + n ≤ length m
    → s + n ≤ length m
    → (d ≤ s) ⊎ (s + n ≤ d)
    → ((i : ℕ) → i < n → byte_at m (s + i) ≡ f i)
    → Writes m d n f (memcpy m d s n)
unfolding memcpy
memcpy-Writes zero m d s f hd hs apart same = (m, refl, IsWritten-zero m d f)
memcpy-Writes (suc n) m d s f hd hs apart same =
    let v : ℕ = byte_at m s in
    let first : v ≡ f 0 = ap (byte_at m) (omega arith) ∙ same 0 (omega arith) in
    let (out, run, w) =
      memcpy-Writes n (set m d v) (d + 1) (s + 1) (λ i. f (i + 1)) (omega (arith, length-set m d v))
        (omega (arith, length-set m d v)) (omega arith)
        (λ i h.
          ap (byte_at (set m d v)) (omega arith)
          ∙ get_or-set_ne m d (s + (i + 1)) v 0 (omega arith)
          ∙ same (i + 1) (omega arith)) in
    (
      out,
      rw (copy_byte-ok m d s (omega arith) (omega arith)) run,
      IsWritten-up (omega arith) first w,
    )

copy_down-Writes :
    (n : ℕ) (m : Bytes) (d s : ℕ) (f : ℕ → ℕ)
    → d + n ≤ length m
    → s + n ≤ length m
    → s ≤ d
    → ((i : ℕ) → i < n → byte_at m (s + i) ≡ f i)
    → Writes m d n f (copy_down m d s n)
unfolding copy_down
copy_down-Writes zero m d s f hd hs apart same = (m, refl, IsWritten-zero m d f)
copy_down-Writes (suc n) m d s f hd hs apart same =
    let v : ℕ = byte_at m (s + n) in
    let (out, run, w) =
      copy_down-Writes n (set m (d + n) v) d s f (omega (arith, length-set m (d + n) v))
        (omega (arith, length-set m (d + n) v)) apart
        (λ i h. get_or-set_ne m (d + n) (s + i) v 0 (omega arith) ∙ same i (omega arith)) in
    (
      out,
      rw (copy_byte-ok m (d + n) (s + n) (omega arith) (omega arith)) run,
      IsWritten-down (omega arith) (same n (omega arith)) w,
    )

-- Between areas that do not overlap, and within one where the destination is not above the source,
-- `memcpy` copies the `n` bytes at `s` to `d` and writes nowhere else.
pub memcpy_lem :
    (n : ℕ) (m : Bytes) (d s : ℕ)
    → d + n ≤ length m
    → s + n ≤ length m
    → (d ≤ s) ⊎ (s + n ≤ d)
    → Writes m d n (λ i. byte_at m (s + i)) (memcpy m d s n)
memcpy_lem n m d s hd hs apart = memcpy-Writes n m d s _ hd hs apart (λ i h. refl)

-- Inside memory, `memmove` copies the `n` bytes that stood at `s` to `d`, however the two areas
-- overlap, and writes nowhere else.
pub memmove_lem :
    (n : ℕ) (m : Bytes) (d s : ℕ)
    → d + n ≤ length m
    → s + n ≤ length m
    → Writes m d n (λ i. byte_at m (s + i)) (memmove m d s n)
unfolding memmove
memmove_lem n m d s hd hs = elim (Bool-cases (ltb d s)) [
  | inl lt ↦ rw lt (memcpy_lem n m d s hd hs (inl (omega (arith, ltb→lt d s lt))))
  | inr ge ↦ rw ge (copy_down-Writes n m d s _ hd hs (ltb→le d s ge) (λ i h. refl))
]
