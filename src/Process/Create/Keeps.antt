-- ===== src/Process/Create/Keeps.antt =====
-- What the creation of a kernel process leaves alone, and the heap that it takes.
use kyro_kernel.Base.{
  length, replicate, ℕ, ◌+◌, ◌-◌, ◌≤◌, ◌≡◌, refl, sym, ap, ◌∙◌, subst, true, Option, some,
  some-injective, List, arith,
}
use kyro_kernel.CString.{text, strncpy}
use kyro_kernel.Heap.{heap_end, u32}
use kyro_kernel.Heap.Blocks.{IsValid}
use kyro_kernel.Heap.Room.{kmalloc-room}
use kyro_kernel.Paging.Directory.{Directory}
use kyro_kernel.Process.{System}
use kyro_kernel.Process.Create.{
  create_process, fill_process, address_space, kernel_space, start_registers, add_process,
  new_process, find_directory, process_name_max, kernel_stack_size,
}
use kyro_kernel.Process.Create.Adds.{name-text, create-run}

-- From `s` to `s'` the directories and the frames stay, and the heap gives at most 12 KB.
pub record IsKept (s s' : System) : Type 0 where
  pub directories : s'.directories ≡ s.directories
  pub loaded : s'.current_directory ≡ s.current_directory
  pub kernel : s'.kernel_directory ≡ s.kernel_directory
  pub frames : s'.frames ≡ s.frames
  pub heap_ok : IsValid s'.heap
  pub heap_up : s'.heap.current ≤ s.heap.current + 0x3000

fill-run :
    (s : System) (name b : List ℕ) (entry : Option ℕ) (dir : Directory) (k : ℕ)
    → strncpy (replicate process_name_max 0) name (process_name_max - 1) ≡ some b
    → find_directory s.kernel_directory s.directories ≡ some dir
    → fill_process name entry true k s
      ≡ some (
        some (length s.processes),
        add_process
            (start_registers entry dir.physical_addr (
              kernel_space
                (new_process s.next_pid b (u32 (k + kernel_stack_size)))
                (record s { next_pid = u32 (s.next_pid + 1) })))
            (record s { next_pid = u32 (s.next_pid + 1) }),
      )
unfolding fill_process address_space kernel_space new_process
fill-run s name b entry dir k copy found = rw (copy, found) refl

pub create_process-IsKept :
    (s : System) (name n : List ℕ) (entry : Option ℕ) (dir : Directory) {o : Option ℕ} {s' : System}
    → text name ≡ some n
    → IsValid s.heap
    → s.heap.current + 0x3000 ≤ heap_end
    → find_directory s.kernel_directory s.directories ≡ some dir
    → create_process name entry true s ≡ some (o, s')
    → IsKept s s'
unfolding add_process
create_process-IsKept s name n entry dir tx v room found run =
    let (a, h1, e1, pos, v1, le1) = kmalloc-room 136 s.heap v (omega arith) in
    let (k, h2, e2, pos2, v2, le2) = kmalloc-room kernel_stack_size h1 v1 (omega arith) in
    let (b, copy, tb) = name-text name tx in
    let same = some-injective _ _ (
      sym (fill-run (record s { heap = h2 }) name b entry dir k copy found)
      ∙ sym (create-run s name entry true a k h1 h2 e1 pos e2)
      ∙ run) in
    subst (IsKept s) (ap (λ (x : Option ℕ × System). x.1) same) (record {
      directories = refl;
      loaded = refl;
      kernel = refl;
      frames = refl;
      heap_ok = v2;
      heap_up = omega arith;
    })
