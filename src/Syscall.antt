-- ===== src/Syscall.antt =====
-- kernel/syscall.c: the handler of system calls, and its gate. The pointer in `ecx` comes with the
-- bytes that stand there.
pub mod Write
pub mod Gate
use kyro_kernel.Base.{
  ◌==◌, if◌then◌else◌, ◌>>=◌, codes, ℕ, zero, suc, bit_or, Option, none, some, List, [], ◌∷◌,
}
use kyro_kernel.Printf.{Call, Arg, int}
use kyro_kernel.Screen.{Screen, putchar}
use kyro_kernel.Output.{print_calls}
use kyro_kernel.Idt.{Idt, Stubs, idt_set_gate, flag_present, flag_ring3, gate_int32}

-- `for (i = 0; i < edx; i++)` with the rounds left, up to a NUL.
pub write_loop : ℕ → List ℕ → Screen → Option Screen
write_loop zero bytes s = some s
write_loop (suc n) [] s = none
write_loop (suc n) (c ∷ cs) s = if c == 0 then some s else do s' ← putchar c s; write_loop n cs s'

abbrev pub call : List ℕ → List Arg → List Call
call format args = record { format = format; args = args } ∷ []

pub syscall_handler : (eax ebx ecx edx : ℕ) (bytes : List ℕ) → Screen → Option Screen
unfolding write_loop
syscall_handler eax ebx ecx edx bytes s =
    if eax == 1
    then print_calls (call (codes "Process exiting with code: %d\n") (int ebx ∷ [])) s
    else if eax == 2
    then print_calls (call (codes "Fork system call not implemented\n") []) s
    else if eax == 3
    then print_calls
        (call (codes "Read system call: fd=%d, buf=0x%x, count=%d\n")
          (int ebx ∷ int ecx ∷ int edx ∷ []))
        s
    else if eax == 4
    then (if ebx == 1 then write_loop edx bytes s else some s)
    else print_calls (call (codes "Unknown system call: %d\n") (int eax ∷ [])) s

-- A gate that user code may call.
pub syscall_init : Stubs → Idt → Idt
syscall_init stubs t =
    idt_set_gate 0x80 stubs.syscall 0x08 (bit_or (bit_or flag_present flag_ring3) gate_int32) t
