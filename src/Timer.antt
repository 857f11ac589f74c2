-- ===== src/Timer.antt =====
-- kernel/timer.c: the tick counter and the interval timer's ports.
pub mod Rate
pub mod Sleeps
use kyro_kernel.Base.{
  ltb, ◌==◌, if◌then◌else◌, ℕ, ◌+◌, ◌/◌, ◌^◌, bit_and, Option, none, some, List, [], ◌∷◌,
}
use kyro_kernel.Heap.{u32}
use kyro_kernel.Memory.{u8}
use kyro_kernel.Port.{Io, outb}

abbrev pub pit_frequency : ℕ
pit_frequency = 1193180

-- `tick_count`, and what goes to the ports.
pub record Timer : Type 0 where
  pub tick_count : ℕ
  pub io : Io

-- `none` is a division by zero.
unfoldable pub timer_init : ℕ → Timer → Option Timer
unfolding outb
timer_init frequency t =
    let divisor = pit_frequency / frequency in
    let low = u8 (bit_and divisor 0xff) in
    let high = u8 (bit_and (divisor / 2 ^ 8) 0xff) in
    if frequency == 0
    then none
    else some (record t { io = outb 0x40 high (outb 0x40 low (outb 0x43 0x36 t.io)) })

-- `tick_count++`, and the end of the interrupt.
pub timer_handler : Timer → Timer
unfolding outb
timer_handler t = record { tick_count = u32 (t.tick_count + 1); io = outb 0x20 0x20 t.io }

pub get_tick_count : Timer → ℕ
get_tick_count t = t.tick_count

-- The interrupts that end a halt, in order: of the timer, or another.
pub data Interrupt : Type 0 where
  tick : Interrupt
  other : Interrupt

pub interrupted : Interrupt → Timer → Timer
unfolding timer_handler
interrupted tick t = timer_handler t
interrupted other t = t

-- The loop; `none` when the interrupts do not suffice to end it.
pub sleep_until : ℕ → List Interrupt → Timer → Option (Timer × List Interrupt)
unfolding interrupted
sleep_until target_ticks [] t = if ltb t.tick_count target_ticks then none else some (t, [])
sleep_until target_ticks (i ∷ is) t =
    let rest = sleep_until target_ticks is (interrupted i t) in
    if ltb t.tick_count target_ticks then rest else some (t, i ∷ is)

-- The timer when it returns, and the interrupts that are left.
pub sleep : ℕ → List Interrupt → Timer → Option (Timer × List Interrupt)
unfolding sleep_until
sleep milliseconds is t = sleep_until (u32 (t.tick_count + milliseconds / 10)) is t
