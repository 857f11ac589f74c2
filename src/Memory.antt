-- ===== src/Memory.antt =====
-- The memory functions of kernel/utils/memory.c. Memory is a list of bytes, and a pointer is an
-- index of it; an access past its end is a fault, `none`. Each loop recurs on the rounds left.
pub mod Move
pub mod Scan
use kyro_kernel.Base.{
  ltb, ◌==◌, if◌then◌else◌, ◌>>=◌, length, get_elem?, set, ℕ, zero, suc, ◌+◌, ◌%◌, ◌^◌, Option,
  none, some, List,
}
use mathlib.Core.Option

abbrev pub Bytes : Type 0
Bytes = List ℕ

-- `*p = v`
abbrev pub store : Bytes → ℕ → ℕ → Option Bytes
store m p v = if ltb p (length m) then some (set m p v) else none

-- `(uint8_t)c`
abbrev pub u8 : ℕ → ℕ
u8 c = c % 2 ^ 8

-- `for (i = 0; i < n; i++) d[i] = (uint8_t)c;` with `n` rounds left at `d + i`.
pub memset : Bytes → ℕ → ℕ → ℕ → Option Bytes
memset m d c zero = some m
memset m d c (suc n) = do m' ← store m d (u8 c); memset m' (d + 1) c n

-- `d[i] = s[i];`
pub copy_byte : Bytes → ℕ → ℕ → Option Bytes
copy_byte m d s = do v ← get_elem? m s; store m d v

-- The upward loop of `memcpy` and `memmove`.
pub memcpy : Bytes → ℕ → ℕ → ℕ → Option Bytes
unfolding copy_byte
memcpy m d s zero = some m
memcpy m d s (suc n) = do m' ← copy_byte m d s; memcpy m' (d + 1) (s + 1) n

-- `for (i = n; i > 0; i--) d[i-1] = s[i-1];`
pub copy_down : Bytes → ℕ → ℕ → ℕ → Option Bytes
unfolding copy_byte
copy_down m d s zero = some m
copy_down m d s (suc n) = do m' ← copy_byte m (d + n) (s + n); copy_down m' d s n

pub memmove : Bytes → ℕ → ℕ → ℕ → Option Bytes
unfolding memcpy copy_down
memmove m d s n = if ltb d s then memcpy m d s n else copy_down m d s n

-- The results of `memcmp`: -1, 0 and 1.
pub data Order : Type 0 where
  less same greater : Order

pub memcmp : Bytes → ℕ → ℕ → ℕ → Option Order
memcmp m p q zero = some same
memcmp m p q (suc n) =
    let rest = memcmp m (p + 1) (q + 1) n in
    do
      a ← get_elem? m p
      b ← get_elem? m q
      if ltb a b then some less else if ltb b a then some greater else rest

-- The address found; the inner `none` is NULL.
pub memchr : Bytes → ℕ → ℕ → ℕ → Option (Option ℕ)
memchr m p c zero = some none
memchr m p c (suc n) =
    let rest = memchr m (p + 1) c n in
    do a ← get_elem? m p; if a == u8 c then some (some p) else rest
