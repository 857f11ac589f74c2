-- ===== src/Idt/Gates.antt =====
-- Where the gates lead.
use kyro_kernel.Base.{
  ltb, ◌==◌, if◌then◌else◌, ==_iff, Bool-cases, length, get_elem?, set, replicate, length-set,
  length-replicate, get_elem?-eq-get_or, get_elem?-set_ne, get_elem?-set_self, ℕ, zero, suc, ◌+◌,
  ◌-◌, ◌*◌, ◌/◌, ◌%◌, ◌^◌, ◌<◌, bit_and, ◌≡◌, ap, ◌∙◌, ◌≢◌, inl, inr, Option, none, some, arith,
}
use kyro_kernel.Base.Bits.{bit_and-low_mask}
use kyro_kernel.Idt.{Gate, Idt, Stubs, cleared_gate, idt_entries, idt_set_gate, idt_init}

-- The address of a gate, as the processor puts it together.
abbrev pub address : Gate → ℕ
address g = g.offset_low + g.offset_high * 2 ^ 16

-- What the processor reads of a gate: its address, its selector and its attributes.
abbrev pub read_gate : Option Gate → Option (ℕ × (ℕ × ℕ))
read_gate none = none
read_gate (some g) = some (address g, (g.selector, g.type_attr))

abbrev pub gate_at : Idt → ℕ → Option (ℕ × (ℕ × ℕ))
gate_at t n = read_gate (get_elem? t.entries n)

-- A gate that is set leads to the address it was given, and every other gate is as it was.
pub idt_set_gate-gate_at :
    (num base selector flags : ℕ) (t : Idt) (n : ℕ)
    → length t.entries ≡ idt_entries
    → num < idt_entries
    → base < 2 ^ 32
    → gate_at (idt_set_gate num base selector flags t) n
      ≡ (if n == num then some (base, (selector, flags)) else gate_at t n)
unfolding idt_set_gate
idt_set_gate-gate_at num base selector flags t n size small word =
    let low : bit_and base 0xffff ≡ base % 2 ^ 16 = bit_and-low_mask 16 base in
    let high : bit_and (base / 2 ^ 16) 0xffff ≡ base / 2 ^ 16 % 2 ^ 16 =
      bit_and-low_mask 16 (base / 2 ^ 16) in
    let whole : bit_and base 0xffff + bit_and (base / 2 ^ 16) 0xffff * 2 ^ 16 ≡ base =
      omega (arith, low, high) in
    let g : Gate = record {
      offset_low = bit_and base 0xffff;
      selector = selector;
      zero_byte = 0;
      type_attr = flags;
      offset_high = bit_and (base / 2 ^ 16) 0xffff;
    } in
    elim (Bool-cases (n == num)) [
      | inl same ↦
          let at : n ≡ num = (==_iff n num).0 same in
          rw same (
            ap (λ (k : ℕ). read_gate (get_elem? (set t.entries num g) k)) at
            ∙ ap read_gate (
                get_elem?-set_self t.entries num g
                  (get_elem?-eq-get_or t.entries num cleared_gate (omega arith)))
            ∙ ap (λ (b : ℕ). some (b, (selector, flags))) whole)
      | inr other ↦
          let ne : num ≢ n = ground arith in
          rw other (ap read_gate (get_elem?-set_ne t.entries num n g ne))
    ]

length-idt_set_gate :
    (num base selector flags : ℕ) (t : Idt)
    → length (idt_set_gate num base selector flags t).entries ≡ length t.entries
unfolding idt_set_gate
length-idt_set_gate num base selector flags t = length-set t.entries num _

-- The assembly stubs stand in a memory of 32 bits.
pub record IsPlaced (stubs : Stubs) : Type 0 where
  pub divide_error_in : stubs.divide_error < 2 ^ 32
  pub general_protection_fault_in : stubs.general_protection_fault < 2 ^ 32
  pub page_fault_in : stubs.page_fault < 2 ^ 32
  pub timer_in : stubs.timer < 2 ^ 32
  pub keyboard_in : stubs.keyboard < 2 ^ 32
  pub syscall_in : stubs.syscall < 2 ^ 32

-- A gate of the kernel for a handler: its code segment, present, and not to be called by a user.
abbrev pub kernel_gate : ℕ → Option (ℕ × (ℕ × ℕ))
kernel_gate a = some (a, (0x08, 0x8e))

abbrev pub gates_after_init : Stubs → ℕ → Option (ℕ × (ℕ × ℕ))
gates_after_init stubs n =
    if n == 33
    then kernel_gate stubs.keyboard
    else if n == 32
    then kernel_gate stubs.timer
    else if n == 14
    then kernel_gate stubs.page_fault
    else if n == 13
    then kernel_gate stubs.general_protection_fault
    else if n == 0
    then kernel_gate stubs.divide_error
    else if ltb n idt_entries
    then some (0, (0, 0))
    else none

cleared_at :
    (m n : ℕ)
    → read_gate (get_elem? (replicate m cleared_gate) n)
      ≡ (if ltb n m then some (0, (0, 0)) else none)
cleared_at zero n = ground arith
cleared_at (suc m) zero = ground arith
cleared_at (suc m) (suc n) = cleared_at m n ∙ ground arith

-- One gate of the kernel more.
set_over :
    (num base : ℕ) (t : Idt) (n : ℕ) (r : Option (ℕ × (ℕ × ℕ)))
    → length t.entries ≡ idt_entries
    → num < idt_entries
    → base < 2 ^ 32
    → gate_at t n ≡ r
    → gate_at (idt_set_gate num base 0x08 0x8e t) n ≡ (if n == num then kernel_gate base else r)
set_over num base t n r size small word e =
    idt_set_gate-gate_at num base 0x08 0x8e t n size small word
    ∙ ap (λ (x : Option (ℕ × (ℕ × ℕ))). if n == num then kernel_gate base else x) e

-- When the stubs stand below 2 ^ 32, after `idt_init` the gates 0, 13, 14, 32 and 33 lead to their
-- stubs in the kernel's segment, and every other one of the 256 is cleared.
pub idt_init-gate_at :
    (stubs : Stubs) (t : Idt) (n : ℕ)
    → IsPlaced stubs
    → gate_at (idt_init stubs t) n ≡ gates_after_init stubs n
unfolding idt_init
idt_init-gate_at stubs t n v =
    let t0 : Idt = record {
      entries = replicate idt_entries cleared_gate;
      limit = 8 * idt_entries - 1;
    } in
    let t1 = idt_set_gate 0 stubs.divide_error 0x08 0x8e t0 in
    let t2 = idt_set_gate 13 stubs.general_protection_fault 0x08 0x8e t1 in
    let t3 = idt_set_gate 14 stubs.page_fault 0x08 0x8e t2 in
    let t4 = idt_set_gate 32 stubs.timer 0x08 0x8e t3 in
    let l0 : length t0.entries ≡ idt_entries = length-replicate idt_entries cleared_gate in
    let l1 = length-idt_set_gate 0 stubs.divide_error 0x08 0x8e t0 ∙ l0 in
    let l2 = length-idt_set_gate 13 stubs.general_protection_fault 0x08 0x8e t1 ∙ l1 in
    let l3 = length-idt_set_gate 14 stubs.page_fault 0x08 0x8e t2 ∙ l2 in
    let l4 = length-idt_set_gate 32 stubs.timer 0x08 0x8e t3 ∙ l3 in
    set_over 33 stubs.keyboard t4 n _ l4 (omega arith) v.keyboard_in (
      set_over 32 stubs.timer t3 n _ l3 (omega arith) v.timer_in (
        set_over 14 stubs.page_fault t2 n _ l2 (omega arith) v.page_fault_in (
          set_over 13 stubs.general_protection_fault t1 n _ l1 (omega arith)
            v.general_protection_fault_in
            (set_over 0 stubs.divide_error t0 n _ l0 (omega arith) v.divide_error_in
              (cleared_at idt_entries n)))))

kept :
    (num base : ℕ) (t : Idt)
    → length t.entries ≡ idt_entries
    → length (idt_set_gate num base 0x08 0x8e t).entries ≡ idt_entries
kept num base t e = length-idt_set_gate num base 0x08 0x8e t ∙ e

pub length-idt_init : (stubs : Stubs) (t : Idt) → length (idt_init stubs t).entries ≡ idt_entries
unfolding idt_init
length-idt_init stubs t = kept 33 stubs.keyboard _ (
    kept 32 stubs.timer _ (
      kept 14 stubs.page_fault _ (
        kept 13 stubs.general_protection_fault _
          (kept 0 stubs.divide_error _ (length-replicate idt_entries cleared_gate)))))
