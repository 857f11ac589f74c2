-- ===== src/Timer/Sleeps.antt =====
-- How long `sleep` waits.
use kyro_kernel.Base.{
  ltb, ℕ, zero, suc, ◌+◌, ◌/◌, ◌^◌, ◌≤◌, ◌<◌, ◌≡◌, refl, true, false, some, List, [], ◌∷◌, arith,
}
use kyro_kernel.Heap.{u32}
use kyro_kernel.Timer.{
  Timer, Interrupt, tick, other, sleep, sleep_until, timer_handler, interrupted,
}

-- The ticks among the interrupts.
unfoldable pub ticks : List Interrupt → ℕ
ticks [] = 0
ticks (tick ∷ is) = suc (ticks is)
ticks (other ∷ is) = ticks is

-- The interrupts are those that came and those that are left, `n` ticks came, and the last one that
-- came was a tick, if any is needed.
pub data Waits : ℕ → List Interrupt → List Interrupt → Type 0 where
  over : (is : List Interrupt) → Waits 0 is is
  ticked : {n : ℕ} {is left : List Interrupt} → Waits n is left → Waits (suc n) (tick ∷ is) left
  passed :
      {n : ℕ} {is left : List Interrupt} → Waits (suc n) is left → Waits (suc n) (other ∷ is) left

-- A wait for `n` ticks that are all still to come before the count wraps.
sleep_until-Waits :
    (n target : ℕ) (is : List Interrupt) (t : Timer)
    → t.tick_count + n ≡ target
    → target < 2 ^ 32
    → n ≤ ticks is
    → (t' : Timer) × (left : List Interrupt) × (sleep_until target is t ≡ some (t', left))
      × (t'.tick_count ≡ target)
      × Waits n is left
unfolding sleep_until ticks interrupted timer_handler
sleep_until-Waits zero target [] t e h k =
    let test : ltb t.tick_count target ≡ false = ground arith in
    (t, [], rw test refl, omega arith, over [])
sleep_until-Waits zero target (i ∷ is) t e h k =
    let test : ltb t.tick_count target ≡ false = ground arith in
    (t, i ∷ is, rw test refl, omega arith, over (i ∷ is))
sleep_until-Waits (suc n) target [] t e h k = absurd (omega arith)
sleep_until-Waits (suc n) target (tick ∷ is) t e h k =
    let test : ltb t.tick_count target ≡ true = ground arith in
    let (t', left, run, at, w) =
      sleep_until-Waits n target is (timer_handler t) (omega arith) h (omega arith) in
    (t', left, rw test run, at, ticked w)
sleep_until-Waits (suc n) target (other ∷ is) t e h k =
    let test : ltb t.tick_count target ≡ true = ground arith in
    let (t', left, run, at, w) = sleep_until-Waits (suc n) target is t e h k in
    (t', left, rw test run, at, passed w)

-- When the tick count does not wrap before the sleep is over, and the timer ticks often enough,
-- `sleep` returns, and it does so after exactly one tick for each 10 milliseconds.
pub sleep-Waits :
    (milliseconds : ℕ) (is : List Interrupt) (t : Timer)
    → t.tick_count + milliseconds / 10 < 2 ^ 32
    → milliseconds / 10 ≤ ticks is
    → (t' : Timer) × (left : List Interrupt) × (sleep milliseconds is t ≡ some (t', left))
      × (t'.tick_count ≡ t.tick_count + milliseconds / 10)
      × Waits (milliseconds / 10) is left
unfolding sleep
sleep-Waits milliseconds is t h k =
    let exact : u32 (t.tick_count + milliseconds / 10) ≡ t.tick_count + milliseconds / 10 =
      omega arith in
    rw exact
      (sleep_until-Waits (milliseconds / 10) (t.tick_count + milliseconds / 10) is t refl h k)

-- When the sum wraps, `sleep` of fewer than 2 ^ 32 milliseconds does not wait at all.
pub sleep-wraps :
    (milliseconds : ℕ) (is : List Interrupt) (t : Timer)
    → t.tick_count < 2 ^ 32
    → milliseconds < 2 ^ 32
    → 2 ^ 32 ≤ t.tick_count + milliseconds / 10
    → sleep milliseconds is t ≡ some (t, is)
unfolding sleep sleep_until
sleep-wraps milliseconds [] t h k wrap =
    let test : ltb t.tick_count (u32 (t.tick_count + milliseconds / 10)) ≡ false = ground arith in
    rw test refl
sleep-wraps milliseconds (i ∷ is) t h k wrap =
    let test : ltb t.tick_count (u32 (t.tick_count + milliseconds / 10)) ≡ false = ground arith in
    rw test refl
