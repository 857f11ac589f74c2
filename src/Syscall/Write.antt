-- ===== src/Syscall/Write.antt =====
-- What the system calls write.
use kyro_kernel.Base.{
  ◌==◌, if◌then◌else◌, Bool-cases, ◌>>=◌, ℕ, zero, suc, ◌≡◌, refl, ap, fun_ext, ◌⊎◌, inl, inr,
  false, Option, List, [], ◌∷◌, arith,
}
use kyro_kernel.Screen.{Screen, putchar}
use kyro_kernel.Screen.Shows.{Page, Settled}
use kyro_kernel.Screen.Refine.{Ends}
use kyro_kernel.Output.Shown.{put_pages, put_chars-Ends}
use kyro_kernel.Output.{put_chars}
use kyro_kernel.Syscall.{write_loop, syscall_handler}

-- The first `n` bytes, up to a NUL.
pub until_nul : ℕ → List ℕ → List ℕ
until_nul zero bytes = []
until_nul (suc n) [] = []
until_nul (suc n) (c ∷ cs) = if c == 0 then [] else c ∷ until_nul n cs

-- The array has the bytes, or a NUL in them.
abbrev pub Reaches : ℕ → List ℕ → Type 0
Reaches zero bytes = Unit
Reaches (suc n) [] = ⊥
Reaches (suc n) (c ∷ cs) = c ≡ 0 ⊎ Reaches n cs

later : (c n : ℕ) (cs : List ℕ) → (c == 0) ≡ false → c ≡ 0 ⊎ Reaches n cs → Reaches n cs
later c n cs byte (inl e) = absurd (ground arith)
later c n cs byte (inr h) = h

write_loop-put_chars :
    (n : ℕ) (bytes : List ℕ) (s : Screen)
    → Reaches n bytes
    → write_loop n bytes s ≡ put_chars (until_nul n bytes) s
unfolding write_loop until_nul put_chars
write_loop-put_chars zero bytes s h = refl
write_loop-put_chars (suc n) [] s h = absurd h
write_loop-put_chars (suc n) (c ∷ cs) s h = elim (Bool-cases (c == 0)) [
  | inl nul ↦ rw nul refl
  | inr byte ↦ rw byte (
      ap (λ (f : Screen → Option Screen). putchar c s >>= f)
        (fun_ext (λ s'. write_loop-put_chars n cs s' (later c n cs byte h))))
]

-- On a screen that shows a page, the system call `write` to descriptor 1 puts the first `edx` bytes
-- on the screen, or those before the first NUL among them, when the array has them; to any other
-- descriptor it writes nothing.
pub syscall_handler-write :
    (ebx ecx edx : ℕ) (bytes : List ℕ) (s : Screen) (g : Page)
    → Settled s g
    → Reaches edx bytes
    → Ends
        (if ebx == 1 then put_pages (until_nul edx bytes) g else g)
        (syscall_handler 4 ebx ecx edx bytes s)
unfolding syscall_handler
syscall_handler-write ebx ecx edx bytes s g v h = elim (Bool-cases (ebx == 1)) [
  | inl out ↦
      rw (out, write_loop-put_chars edx bytes s h) (put_chars-Ends (until_nul edx bytes) s g v)
  | inr none_such ↦ rw none_such (s, refl, v)
]
