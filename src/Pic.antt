-- ===== src/Pic.antt =====
-- kernel/pic.c: the two interrupt controllers, through their ports.
pub mod Masks
use kyro_kernel.Base.{
  ltb, leb, if◌then◌else◌, ◌>>=◌, ℕ, ◌-◌, ◌*◌, ◌%◌, ◌^◌, bit_and, bit_or, Option, some,
}
use kyro_kernel.Port.{Io, outb, inb, io_wait}

abbrev pub pic1_command : ℕ
pic1_command = 0x20

abbrev pub pic1_data : ℕ
pic1_data = 0x21

abbrev pub pic2_command : ℕ
pic2_command = 0xa0

abbrev pub pic2_data : ℕ
pic2_data = 0xa1

-- `outb(port, value); io_wait();`
abbrev outb_wait : ℕ → ℕ → Io → Io
outb_wait port value io = io_wait (outb port value io)

-- The four initialisation words of each controller, then all lines masked.
unfoldable pub pic_init : Io → Io
unfolding outb io_wait
pic_init io =
    let io1 =
      outb_wait pic2_command (bit_or 0x10 0x01) (outb_wait pic1_command (bit_or 0x10 0x01) io) in
    let io2 = outb_wait pic2_data 40 (outb_wait pic1_data 32 io1) in
    let io3 = outb_wait pic2_data 2 (outb_wait pic1_data 4 io2) in
    let io4 = outb_wait pic2_data 0x01 (outb_wait pic1_data 0x01 io3) in
    outb pic2_data 0xff (outb pic1_data 0xff io4)

-- The port of the line's controller and the line's number there.
unfoldable pub line : ℕ → ℕ × ℕ
line irq = if ltb irq 8 then (pic1_data, irq) else (pic2_data, irq - 8)

-- `inb(port) & ~(1 << irq)`, as a byte.
unfoldable pub unmasked : ℕ → ℕ → ℕ
unmasked mask n = bit_and mask (2 ^ 32 - 1 - 2 ^ n) % 2 ^ 8

-- `inb(port) | (1 << irq)`, as a byte.
unfoldable pub masked : ℕ → ℕ → ℕ
masked mask n = bit_or mask (2 ^ n) % 2 ^ 8

unfoldable pub pic_enable_irq : ℕ → Io → Option Io
unfolding line unmasked inb outb
pic_enable_irq irq io = do
  (mask, io') ← inb (line irq).0 io
  some (outb (line irq).0 (unmasked mask (line irq).1) io')

unfoldable pub pic_disable_irq : ℕ → Io → Option Io
unfolding line masked inb outb
pic_disable_irq irq io = do
  (mask, io') ← inb (line irq).0 io
  some (outb (line irq).0 (masked mask (line irq).1) io')

unfoldable pub pic_send_eoi : ℕ → Io → Io
unfolding outb
pic_send_eoi irq io = outb pic1_command 0x20 (if leb 8 irq then outb pic2_command 0x20 io else io)

pub pic_mask_all : Io → Io
unfolding outb
pic_mask_all io = outb pic2_data 0xff (outb pic1_data 0xff io)

pub pic_unmask_all : Io → Io
unfolding outb
pic_unmask_all io = outb pic2_data 0x00 (outb pic1_data 0x00 io)

-- The command selects the register; the second controller is read first, since C leaves the order
-- of the operands open and the answers are listed in that order.
pub read_register : ℕ → Io → Option (ℕ × Io)
unfolding inb outb
read_register command io = do
  (high, io') ← inb pic2_command (outb pic2_command command (outb pic1_command command io))
  (low, io'') ← inb pic1_command io'
  some (bit_or (high * 2 ^ 8) low, io'')

pub pic_get_irr : Io → Option (ℕ × Io)
unfolding read_register
pic_get_irr io = read_register 0x0a io

pub pic_get_isr : Io → Option (ℕ × Io)
unfolding read_register
pic_get_isr io = read_register 0x0b io
