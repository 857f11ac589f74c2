-- ===== src/Pic/Masks.antt =====
-- The masks that enabling and disabling a line write.
use kyro_kernel.Base.{
  ltb, ◌==◌, if◌then◌else◌, ==_iff, Bool-cases, ℕ, ◌-◌, ◌%◌, ◌^◌, ◌<◌, bit_and, bit_or, ◌≡◌, refl,
  sym, ap, ◌∙◌, inl, inr, Option, some, List, [], ◌∷◌, ◌++◌, arith,
}
use kyro_kernel.Base.Bits.{
  bit, bit-le-one, bit-bit_and, bit-all_ones, bit_and-low_mask, bit_and-off, bit_and-other,
  bit_or-on, bit_or-other,
}
use kyro_kernel.Port.{Io, inb, outb}
use kyro_kernel.Pic.{line, unmasked, masked, pic_enable_irq, pic_disable_irq}

-- Mask `w` is mask `m` but for bit `n`, which is `b`.
abbrev pub Sets : ℕ → ℕ → ℕ → ℕ → Type 0
Sets n b m w = (j : ℕ) → j < 8 → bit j w ≡ (if j == n then b else bit j m)

low_bits : (j x : ℕ) → j < 8 → bit j (x % 2 ^ 8) ≡ bit j x
low_bits j x h =
    ap (bit j) (sym (bit_and-low_mask 8 x))
    ∙ bit-bit_and j x (2 ^ 8 - 1)
    ∙ omega (arith, bit-all_ones 8 j h, bit-le-one j x)

pub unmasked-Sets : (n m : ℕ) → n < 8 → Sets n 0 m (unmasked m n)
unfolding unmasked
unmasked-Sets n m h j lt =
    low_bits j (bit_and m (2 ^ 32 - 1 - 2 ^ n)) lt ∙ elim (Bool-cases (j == n)) [
      | inl same ↦ rw same (bit_and-off j n m (omega arith) ((==_iff j n).0 same))
      | inr other ↦ rw other (bit_and-other j n m (omega arith) (omega arith) (ground arith))
    ]

pub masked-Sets : (n m : ℕ) → n < 8 → Sets n 1 m (masked m n)
unfolding masked
masked-Sets n m h j lt = low_bits j (bit_or m (2 ^ n)) lt ∙ elim (Bool-cases (j == n)) [
  | inl same ↦ rw same (bit_or-on j n m ((==_iff j n).0 same))
  | inr other ↦ rw other (bit_or-other j n m (ground arith))
]

-- The port of the line's controller.
abbrev pub port_of : ℕ → ℕ
port_of irq = if ltb irq 8 then 0x21 else 0xa1

-- A call that reads one mask and writes one.
abbrev pub Remasks : ℕ → ℕ → ℕ → List (ℕ × ℕ) → Io → Option Io → Type 0
Remasks irq b m rest io r =
    (w : ℕ) × (r ≡ some (record { answers = rest; written = io.written ++ (port_of irq, w) ∷ [] }))
    × Sets (irq % 8) b m w

-- When the data port of the controller of one of the 16 lines answers next, with its mask, enabling
-- the line reads it and writes it back to that port with the line's bit cleared, and disabling the
-- line with the bit set; the other bits stay.
pub irq-Remasks :
    (irq m : ℕ) (rest : List (ℕ × ℕ)) (io : Io)
    → irq < 16
    → io.answers ≡ (port_of irq, m) ∷ rest
    → Remasks irq 0 m rest io (pic_enable_irq irq io)
      × Remasks irq 1 m rest io (pic_disable_irq irq io)
unfolding pic_enable_irq pic_disable_irq line inb outb
irq-Remasks irq m rest io h e = elim (Bool-cases (ltb irq 8)) [
  | inl first ↦
      let e' : io.answers ≡ (0x21, m) ∷ rest = rw first at e in
      let same : irq % 8 ≡ irq = ground arith in
      rw (first, e', same)
        (
          (unmasked m irq, refl, unmasked-Sets irq m (ground arith)),
          (masked m irq, refl, masked-Sets irq m (ground arith)),
        )
  | inr second ↦
      let e' : io.answers ≡ (0xa1, m) ∷ rest = rw second at e in
      let same : irq % 8 ≡ irq - 8 = ground arith in
      rw (second, e', same)
        (
          (unmasked m (irq - 8), refl, unmasked-Sets (irq - 8) m (ground arith)),
          (masked m (irq - 8), refl, masked-Sets (irq - 8) m (ground arith)),
        )
]
