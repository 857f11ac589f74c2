-- ===== src/Tests/Hardware.antt =====
-- The timer, the interrupt descriptors, the system calls and the start.
use kyro_kernel.Base.{
  ◌==◌, if◌then◌else◌, length, codes, ℕ, ◌+◌, ◌-◌, ◌/◌, ◌^◌, ◌<◌, ◌≡◌, refl, inl, inr, some, List,
  [], ◌∷◌, ◌++◌, arith,
}
use kyro_kernel.Printf.Number.{numeral}
use kyro_kernel.Port.{Io}
use kyro_kernel.Pic.{pic_enable_irq, pic_disable_irq}
use kyro_kernel.Pic.Masks.{Remasks, irq-Remasks}
use kyro_kernel.Screen.{clear_screen}
use kyro_kernel.Screen.Refine.{Ends, blank_page}
use kyro_kernel.Output.Shown.{put_pages}
use kyro_kernel.Timer.{Timer, Interrupt, tick, other, sleep, timer_init, pit_frequency}
use kyro_kernel.Timer.Rate.{reload, timer_init-reload}
use kyro_kernel.Timer.Sleeps.{ticks, Waits, sleep-Waits, sleep-wraps}
use kyro_kernel.Idt.{Idt, Stubs, idt_init, page_fault_handler}
use kyro_kernel.Idt.Gates.{gate_at, IsPlaced, gates_after_init}
use kyro_kernel.Idt.Address.{report, typed_texts, page_fault_handler-Ends}
use kyro_kernel.Syscall.{syscall_init, syscall_handler}
use kyro_kernel.Syscall.Write.{until_nul, syscall_handler-write}
use kyro_kernel.Syscall.Gate.{syscall_init-gate_at}
use kyro_kernel.Tests.Display.{at_boot, cleared}

abbrev pub quiet : Io
quiet = record { answers = []; written = [] }

abbrev started : Timer
started = record { tick_count = 5; io = quiet }

abbrev old : Timer
old = record { tick_count = 2 ^ 32 - 3; io = quiet }

abbrev arriving : List Interrupt
arriving = tick ∷ other ∷ tick ∷ tick ∷ []

timer_init-reload_example :
    (t' : Timer) × (timer_init 100 started ≡ some t')
    × (w : List (ℕ × ℕ)) × (t'.io.written ≡ [] ++ w)
    × (reload w ≡ some (pit_frequency / 100))
    × (0 < pit_frequency / 100)
    × (t'.tick_count ≡ 5)
timer_init-reload_example = timer_init-reload 100 started (omega arith) (omega arith)

sleep-Waits_example :
    (t' : Timer) × (left : List Interrupt) × (sleep 25 arriving started ≡ some (t', left))
    × (t'.tick_count ≡ 5 + 25 / 10)
    × Waits (25 / 10) arriving left
unfolding ticks
sleep-Waits_example = sleep-Waits 25 arriving started (omega arith) (omega arith)

sleep-wraps_example : sleep 100 arriving old ≡ some (old, arriving)
sleep-wraps_example = sleep-wraps 100 arriving old (omega arith) (omega arith) (omega arith)

abbrev pub stubs : Stubs
stubs = record {
  divide_error = 0x100010;
  general_protection_fault = 0x100020;
  page_fault = 0x100030;
  timer = 0x100040;
  keyboard = 0x100050;
  syscall = 0x100060;
}

pub stubs-IsPlaced : IsPlaced stubs
stubs-IsPlaced = record {
  divide_error_in = omega arith;
  general_protection_fault_in = omega arith;
  page_fault_in = omega arith;
  timer_in = omega arith;
  keyboard_in = omega arith;
  syscall_in = omega arith;
}

abbrev pub no_idt : Idt
no_idt = record { entries = []; limit = 0 }

syscall_init-gate_at_example :
    gate_at (syscall_init stubs (idt_init stubs no_idt)) 0x80
    ≡ (if 0x80 == 0x80 then some (0x100060, (0x08, 0xee)) else gates_after_init stubs 0x80)
syscall_init-gate_at_example = syscall_init-gate_at stubs no_idt 0x80 stubs-IsPlaced

page_fault_handler-Ends_example :
    (digits : List ℕ) × (length digits ≡ 8)
    × (numeral 16 digits ≡ some 0xdeadbeef)
    × Ends
        (typed_texts (report digits) blank_page)
        (page_fault_handler 0xdeadbeef (clear_screen at_boot))
page_fault_handler-Ends_example =
    page_fault_handler-Ends 0xdeadbeef (clear_screen at_boot) blank_page (omega arith) cleared

abbrev hello : List ℕ
hello = codes "hi\0there"

syscall_handler-write_example :
    Ends
      (if 1 == 1 then put_pages (until_nul 5 hello) blank_page else blank_page)
      (syscall_handler 4 1 0x100000 5 hello (clear_screen at_boot))
syscall_handler-write_example =
    syscall_handler-write 1 0x100000 5 hello (clear_screen at_boot) blank_page cleared
      (inr (inr (inl refl)))

-- Line 9 is line 1 of the second controller.
abbrev answering : Io
answering = record { answers = (0xa1, 0xff) ∷ []; written = [] }

irq-Remasks_example :
    Remasks 9 0 0xff [] answering (pic_enable_irq 9 answering)
    × Remasks 9 1 0xff [] answering (pic_disable_irq 9 answering)
irq-Remasks_example = irq-Remasks 9 0xff [] answering (omega arith) refl
