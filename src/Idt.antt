-- ===== src/Idt.antt =====
-- kernel/interrupts/idt.c and include/interrupts/idt.h: the table of interrupt descriptors, and the
-- handlers of exceptions. The addresses of the assembly stubs are parameters.
pub mod Gates
pub mod Address
use kyro_kernel.Base.{
  ◌>>=◌, get_or, set, replicate, codes, ℕ, zero, suc, ◌-◌, ◌*◌, ◌/◌, ◌^◌, bit_and, bit_or, Option,
  some, List, [], ◌∷◌, ◌++◌,
}
use kyro_kernel.Screen.{Screen, print_message}

abbrev pub idt_entries : ℕ
idt_entries = 256

abbrev pub gate_int32 : ℕ
gate_int32 = 0xe

abbrev pub flag_present : ℕ
flag_present = 0x80

abbrev pub flag_ring3 : ℕ
flag_ring3 = 0x60

-- `idt_entry_t`
pub record Gate : Type 0 where
  pub offset_low : ℕ
  pub selector : ℕ
  pub zero_byte : ℕ
  pub type_attr : ℕ
  pub offset_high : ℕ

-- `idt`, and the limit of `idt_ptr`.
pub record Idt : Type 0 where
  pub entries : List Gate
  pub limit : ℕ

-- The assembly stubs that the table leads to.
pub record Stubs : Type 0 where
  pub divide_error : ℕ
  pub general_protection_fault : ℕ
  pub page_fault : ℕ
  pub timer : ℕ
  pub keyboard : ℕ
  pub syscall : ℕ

abbrev pub cleared_gate : Gate
cleared_gate = record {
  offset_low = 0;
  selector = 0;
  zero_byte = 0;
  type_attr = 0;
  offset_high = 0;
}

-- `num` is a byte.
pub idt_set_gate : (num base selector flags : ℕ) → Idt → Idt
idt_set_gate num base selector flags t = record t {
  entries = set t.entries num (record {
    offset_low = bit_and base 0xffff;
    selector = selector;
    zero_byte = 0;
    type_attr = flags;
    offset_high = bit_and (base / 2 ^ 16) 0xffff;
  });
}

-- Every byte of the table is cleared, whatever it was.
unfoldable pub idt_init : Stubs → Idt → Idt
idt_init stubs t =
    let attr = bit_or flag_present gate_int32 in
    let t0 : Idt = record {
      entries = replicate idt_entries cleared_gate;
      limit = 8 * idt_entries - 1;
    } in
    let t1 = idt_set_gate 0 stubs.divide_error 0x08 attr t0 in
    let t2 = idt_set_gate 13 stubs.general_protection_fault 0x08 attr t1 in
    let t3 = idt_set_gate 14 stubs.page_fault 0x08 attr t2 in
    let t4 = idt_set_gate 32 stubs.timer 0x08 attr t3 in idt_set_gate 33 stubs.keyboard 0x08 attr t4

-- The messages of a handler, which halts behind them.
pub print_all : List (List ℕ) → Screen → Option Screen
print_all [] s = some s
print_all (m ∷ ms) s = do s' ← print_message m s; print_all ms s'

abbrev pub halted : List ℕ
halted = codes "System halted.\n\0"

pub divide_error_handler : Screen → Option Screen
unfolding print_all
divide_error_handler s = print_all (codes "EXCEPTION: Divide by zero error\n\0" ∷ halted ∷ []) s

pub debug_handler : Screen → Option Screen
unfolding print_all
debug_handler s = print_all (codes "EXCEPTION: Debug exception\n\0" ∷ halted ∷ []) s

pub nmi_handler : Screen → Option Screen
unfolding print_all
nmi_handler s = print_all (codes "EXCEPTION: Non-maskable interrupt\n\0" ∷ halted ∷ []) s

pub breakpoint_handler : Screen → Option Screen
unfolding print_all
breakpoint_handler s = print_all (codes "EXCEPTION: Breakpoint exception\n\0" ∷ halted ∷ []) s

pub general_protection_fault_handler : Screen → Option Screen
unfolding print_all
general_protection_fault_handler s =
    print_all
      (codes "EXCEPTION: General Protection Fault\n\0"
        ∷ codes "This usually indicates a segmentation violation.\n\0"
        ∷ halted
        ∷ [])
      s

-- The loop on `i`: the digits of `n` nibbles, the highest first.
pub hex_digits : ℕ → ℕ → List ℕ
hex_digits zero faulting_address = []
hex_digits (suc i) faulting_address =
    get_or (codes "0123456789ABCDEF") (bit_and (faulting_address / 2 ^ (i * 4)) 0xf) 0
    ∷ hex_digits i faulting_address

-- The address is what the processor left in its register.
unfoldable pub page_fault_handler : ℕ → Screen → Option Screen
unfolding print_all hex_digits
page_fault_handler faulting_address s =
    print_all
      (codes "EXCEPTION: Page Fault\n\0"
        ∷ codes "Faulting address: 0x\0"
        ∷ (hex_digits 8 faulting_address ++ 0 ∷ [])
        ∷ codes "\n\0"
        ∷ halted
        ∷ [])
      s

pub fault_handler : Screen → Option Screen
unfolding print_all
fault_handler s = print_all (codes "FAULT: Unhandled system exception occurred\n\0" ∷ halted ∷ []) s
