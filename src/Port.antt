-- ===== src/Port.antt =====
-- kernel/io.c: what goes in and out of the ports. The answers of the devices are not code of the
-- kernel: they are a list, in the order of the reads, each with the port that gives it. A read has
-- the next answer if that is its port's, and gives `none` otherwise. Writes are recorded in order,
-- newest last.
use kyro_kernel.Base.{◌==◌, if◌then◌else◌, ℕ, Option, none, some, List, [], ◌∷◌, ◌++◌}

pub record Io : Type 0 where
  pub answers : List (ℕ × ℕ)
  pub written : List (ℕ × ℕ)

unfoldable pub outb : ℕ → ℕ → Io → Io
outb port value io = record io { written = io.written ++ (port, value) ∷ [] }

abbrev pub take_answer : ℕ → List (ℕ × ℕ) → Io → Option (ℕ × Io)
take_answer port [] io = none
take_answer port ((p, a) ∷ as') io =
    if p == port then some (a, record io { answers = as' }) else none

-- The answer of the device at the port.
unfoldable pub inb : ℕ → Io → Option (ℕ × Io)
inb port io = take_answer port io.answers io

-- `outb(0x80, 0)`
unfoldable pub io_wait : Io → Io
unfolding outb
io_wait io = outb 0x80 0 io

-- The same with 16 and with 32 bits.
pub outw : ℕ → ℕ → Io → Io
outw port value io = record io { written = io.written ++ (port, value) ∷ [] }

pub inw : ℕ → Io → Option (ℕ × Io)
inw port io = take_answer port io.answers io

pub outl : ℕ → ℕ → Io → Io
outl port value io = record io { written = io.written ++ (port, value) ∷ [] }

pub in_long : ℕ → Io → Option (ℕ × Io)
in_long port io = take_answer port io.answers io
