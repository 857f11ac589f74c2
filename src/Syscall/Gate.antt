-- ===== src/Syscall/Gate.antt =====
-- The table of interrupt descriptors with the gate of system calls.
use kyro_kernel.Base.{◌==◌, if◌then◌else◌, ℕ, ◌≡◌, ap, ◌∙◌, Option, some, arith}
use kyro_kernel.Idt.{Idt, Stubs, idt_init}
use kyro_kernel.Idt.Gates.{
  gate_at, IsPlaced, gates_after_init, idt_init-gate_at, idt_set_gate-gate_at, length-idt_init,
}
use kyro_kernel.Syscall.{syscall_init}

-- When the stubs stand below 2 ^ 32, after `idt_init` and `syscall_init` gate 0x80 leads to the
-- stub of system calls and is the one that user code may call; the gates 0, 13, 14, 32 and 33 lead
-- to theirs, for the kernel only; every other one of the 256 is cleared.
pub syscall_init-gate_at :
    (stubs : Stubs) (t : Idt) (n : ℕ)
    → IsPlaced stubs
    → gate_at (syscall_init stubs (idt_init stubs t)) n
      ≡ (if n == 0x80 then some (stubs.syscall, (0x08, 0xee)) else gates_after_init stubs n)
unfolding syscall_init
syscall_init-gate_at stubs t n v =
    idt_set_gate-gate_at 0x80 stubs.syscall 0x08 0xee (idt_init stubs t) n (length-idt_init stubs t)
      (omega arith) v.syscall_in
    ∙ ap (λ (x : Option (ℕ × (ℕ × ℕ))). if n == 0x80 then some (stubs.syscall, (0x08, 0xee)) else x)
        (idt_init-gate_at stubs t n v)
