-- ===== src/Timer/Rate.antt =====
-- The rate that the interval timer is set to.
use kyro_kernel.Base.{
  ◌==◌, if◌then◌else◌, ℕ, ◌+◌, ◌*◌, ◌/◌, ◌%◌, ◌^◌, ◌≤◌, ◌<◌, bit_and, ◌≡◌, refl, ap, false, ◌&&◌,
  Option, none, some, List, [], ◌∷◌, ◌++◌, arith,
}
use kyro_kernel.Base.Bits.{bit_and-low_mask}
use mathlib.Core.List.{append_assoc}
use kyro_kernel.Memory.{u8}
use kyro_kernel.Port.{outb}
use kyro_kernel.Timer.{Timer, timer_init, pit_frequency}

-- The counter that three writes load into channel 0, as the device reads them: the byte 0x36 at
-- the command port, which is for channel 0, the low byte before the high one, mode 3 and binary
-- counting; then the two bytes at the port of channel 0. Other writes are `none`.
abbrev pub reload : List (ℕ × ℕ) → Option ℕ
reload [] = none
reload (command ∷ []) = none
reload (command ∷ low ∷ []) = none
reload (command ∷ low ∷ high ∷ []) =
    if command.0 == 0x43 && command.1 == 0x36 && low.0 == 0x40 && high.0 == 0x40
    then some (low.1 + high.1 * 2 ^ 8)
    else none
reload (command ∷ low ∷ high ∷ more ∷ rest) = none

divisor-bounds : (f : ℕ) → 19 ≤ f → pit_frequency / f ≤ 62798
divisor-bounds f h = grind arith

divisor-pos : (f : ℕ) → 0 < f → f ≤ pit_frequency → 0 < pit_frequency / f
divisor-pos f h k = grind arith

-- For a frequency from 19 Hz to that of the device, `timer_init` returns, and what it writes behind
-- what was written is the command for channel 0 at port 0x43 and two bytes at port 0x40 that load
-- the quotient of the device's frequency and the requested one, which is not 0. The tick count
-- stays.
pub timer_init-reload :
    (frequency : ℕ) (t : Timer)
    → 19 ≤ frequency
    → frequency ≤ pit_frequency
    → (t' : Timer) × (timer_init frequency t ≡ some t')
      × (w : List (ℕ × ℕ)) × (t'.io.written ≡ t.io.written ++ w)
      × (reload w ≡ some (pit_frequency / frequency))
      × (0 < pit_frequency / frequency)
      × (t'.tick_count ≡ t.tick_count)
unfolding timer_init outb
timer_init-reload frequency t low high =
    let some_rate : (frequency == 0) ≡ false = ground arith in
    let d : ℕ = pit_frequency / frequency in
    let e : bit_and d 0xff ≡ d % 2 ^ 8 = bit_and-low_mask 8 d in
    let e' : bit_and (d / 2 ^ 8) 0xff ≡ d / 2 ^ 8 % 2 ^ 8 = bit_and-low_mask 8 (d / 2 ^ 8) in
    (
      record t {
        io =
            outb 0x40 (u8 (bit_and (d / 2 ^ 8) 0xff))
              (outb 0x40 (u8 (bit_and d 0xff)) (outb 0x43 0x36 t.io));
      },
      rw some_rate refl,
      (0x43, 0x36) ∷ (0x40, u8 (bit_and d 0xff)) ∷ (0x40, u8 (bit_and (d / 2 ^ 8) 0xff)) ∷ [],
      simp append_assoc,
      ap some (omega (arith, e, e', divisor-bounds frequency low)),
      divisor-pos frequency (omega arith) high,
      refl,
    )
