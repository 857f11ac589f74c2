-- ===== src/Process/Destroy.antt =====
-- `destroy_process` of kernel/process.c.
pub mod Removes
use kyro_kernel.Base.{
  ◌==◌, if◌then◌else◌, ◌>>=◌, get_elem?, set, ℕ, zero, suc, ◌+◌, ◌-◌, ◌^◌, Bool, false, Option,
  none, some,
}
use kyro_kernel.Heap.{kfree, u32}
use kyro_kernel.Process.{Process, System}
use kyro_kernel.Process.Create.{kernel_stack_size}

-- `o == proc`
abbrev pub points_to : ℕ → Option ℕ → Bool
points_to p none = false
points_to p (some q) = q == p

-- The loop on fuel: the process whose `next` is `proc`, or NULL.
pub find_previous : ℕ → ℕ → Option ℕ → System → Option (Option ℕ)
find_previous zero p current s = none
find_previous (suc fuel) p none s = some none
find_previous (suc fuel) p (some c) s = do
  proc ← get_elem? s.processes c
  if points_to p proc.next then some (some c) else find_previous fuel p proc.next s

abbrev pub with_next : Option ℕ → Process → Process
with_next n proc = record proc { next = n }

-- `if (current) current->next = proc->next;`
pub skip_next : Option ℕ → Option ℕ → System → Option System
skip_next none n s = some s
skip_next (some c) n s = do
  proc ← get_elem? s.processes c
  some (record s { processes = set s.processes c (with_next n proc) })

-- The process is taken out of the list.
unfoldable pub unlink : ℕ → ℕ → Process → System → Option System
unfolding find_previous skip_next
unlink fuel p proc s =
    if points_to p s.process_list
    then some (record s { process_list = proc.next })
    else do c ← find_previous fuel p s.process_list s; skip_next c proc.next s

-- The calls of `kfree`; the block keeps its place.
unfoldable pub free_process : ℕ → Process → System → System
free_process p proc s = record s {
  heap = kfree p (
      kfree (u32 (proc.kernel_stack + 2 ^ 32 - kernel_stack_size)) (
        if proc.page_directory == s.kernel_directory
        then s.heap
        else kfree proc.page_directory s.heap));
}

unfoldable pub destroy_process : ℕ → Option ℕ → System → Option System
unfolding unlink free_process
destroy_process fuel none s = some s
destroy_process fuel (some p) s = do
  proc ← get_elem? s.processes p
  s' ← unlink fuel p proc s
  some (free_process p proc s')
