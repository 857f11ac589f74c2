-- ===== src/Process/Create/Space.antt =====
-- The address space of a user process.
use kyro_kernel.Base.{
  ◌==◌, if◌then◌else◌, ==_refl, Bool-cases, ℕ, ◌+◌, ◌-◌, ◌*◌, ◌^◌, ◌≤◌, ◌<◌, ◌≡◌, refl, ◌∙◌, inl,
  inr, true, false, Option, some, List, [], ◌∷◌, arith,
}
use kyro_kernel.Process.Chain.{Chain, processes-Chain}
use kyro_kernel.CString.{text}
use kyro_kernel.Heap.{Heap, heap_end, u32}
use kyro_kernel.Heap.Blocks.{IsValid}
use kyro_kernel.Heap.Room.{kmalloc_ap-room, kmalloc-room}
use kyro_kernel.Paging.{page_size}
use kyro_kernel.Paging.Frames.{set_frame}
use kyro_kernel.Paging.Frames.Used.{IsBitmap}
use kyro_kernel.Paging.Directory.{Directory, create_page_directory, cleared_directory}
use kyro_kernel.Paging.Directory.Entry.{IsDirectory, cleared-IsDirectory}
use kyro_kernel.Paging.Directory.Alloc.{alloc_frame-Allocated}
use kyro_kernel.Process.{Process, System}
use kyro_kernel.Process.Create.{
  user_space, find_directory, put_directory, user_stack_top, kernel_stack_size, new_process,
  address_space, create_process,
}
use kyro_kernel.Process.Create.Adds.{
  fill_process-Added, name-text, IsSpace, name-text, Added, create-run, Added-heap,
}

pub create_page_directory-room :
    (h : Heap)
    → IsValid h
    → h.current + 0x3008 ≤ heap_end
    → (a : ℕ) × (h' : Heap) × (create_page_directory h ≡ some (cleared_directory a, h'))
      × IsValid h'
      × (h'.current ≤ h.current + 0x3008)
unfolding create_page_directory
create_page_directory-room h v room =
    let (a, h', run, pos, ok, up) = kmalloc_ap-room 8196 h v (omega arith) in
    let there : (a == 0) ≡ false = ground arith in (a, h', rw (run, there) refl, ok, omega arith)

-- A directory that is put is found again, and those at other addresses are as they were.
pub find-put :
    (b a : ℕ) (d : Directory) (l : List (ℕ × Directory))
    → find_directory b (put_directory a d l) ≡ (if a == b then some d else find_directory b l)
unfolding find_directory put_directory
find-put b a d [] = refl
find-put b a d ((c, e) ∷ l) = ground (arith, find-put b a d l)

-- The directory that is loaded, after the new one is put.
loaded :
    (b a : ℕ) (d new : Directory) (l : List (ℕ × Directory))
    → find_directory b l ≡ some d
    → IsDirectory d
    → IsDirectory new
    → (d' : Directory) × (find_directory b (put_directory a new l) ≡ some d') × IsDirectory d'
loaded b a d new l e ok ok' = elim (Bool-cases (a == b)) [
  | inl same ↦ (new, find-put b a new l ∙ rw same refl, ok')
  | inr other ↦ (d, find-put b a new l ∙ rw other e, ok)
]

-- The room that a user process takes on the heap.
abbrev pub process_room : ℕ
process_room = 0x8000

-- The branch of `create_process` for a user process succeeds.
pub record Spaced (proc : Process) (s : System) : Type 0 where
  pub proc' : Process
  pub s' : System
  pub run : user_space proc s ≡ some (proc', s')
  pub keeps : IsSpace proc s proc' s'

pub user_space-Spaced :
    (proc : Process) (s : System) (d : Directory)
    → IsValid s.heap
    → s.heap.current + 0x5100 ≤ heap_end
    → find_directory s.current_directory s.directories ≡ some d
    → IsDirectory d
    → IsBitmap s.frames
    → s.frames.nframes < 2 ^ 20
    → Spaced proc s
unfolding user_space
user_space-Spaced proc s d v room e ok bits few =
    let (a, h1, run, v1, up) = create_page_directory-room s.heap v (omega arith) in
    let (d1, e1, ok1) =
      loaded s.current_directory a d (cleared_directory a) s.directories e ok
        (cleared-IsDirectory a) in
    let (frame, al, _) =
      alloc_frame-Allocated (user_stack_top - page_size) false true s.frames d1 h1 bits few ok1 v1
        (omega arith) (omega arith) in
    let dirs : List (ℕ × Directory) = put_directory a (cleared_directory a) s.directories in
    let found =
      loaded a s.current_directory (cleared_directory a) al.d' dirs
        (find-put a a (cleared_directory a) s.directories ∙ rw (==_refl a) refl)
        (cleared-IsDirectory a) al.ok in
    record {
      proc' = record proc {
        page_directory = a;
        user_stack = user_stack_top;
        cpu_state = record proc.cpu_state {
          cs = 0x1b;
          ss = 0x23;
          eflags = 0x202;
          esp = user_stack_top;
        };
      };
      s' = record s {
        directories = put_directory s.current_directory al.d' dirs;
        frames = set_frame (frame * 4096) s.frames;
        heap = al.h';
      };
      run = rw (run, e1, al.run) refl;
      keeps = record {
        pid = refl;
        name = refl;
        state = refl;
        processes = refl;
        current = refl;
        list = refl;
        next_pid = refl;
        dir = found.0;
        found = found.1;
      };
    }

-- With room on the heap, a name that is a text, a bitmap of frames and a directory that is loaded,
-- `create_process` of a user process does to the list what it does for a kernel process.
pub create_process-Added_user :
    (s : System) (l name n : List ℕ) (entry_point : Option ℕ) (d : Directory)
    → Chain s s.process_list l
    → text name ≡ some n
    → IsValid s.heap
    → s.heap.current + process_room ≤ heap_end
    → find_directory s.current_directory s.directories ≡ some d
    → IsDirectory d
    → IsBitmap s.frames
    → s.frames.nframes < 2 ^ 20
    → Added s l n (create_process name entry_point false s)
create_process-Added_user s l name n entry_point d c tx v room e ok bits few =
    let (a, h1, e1, pos, v1, le1) = kmalloc-room 136 s.heap v (omega arith) in
    let (k, h2, e2, pos2, v2, le2) = kmalloc-room kernel_stack_size h1 v1 (omega arith) in
    let (b, copy, tb) = name-text name tx in
    let s1 : System = record s { heap = h2 } in
    let sp =
      user_space-Spaced (new_process s.next_pid b (u32 (k + kernel_stack_size)))
        (record s1 { next_pid = u32 (s.next_pid + 1) }) d v2 (omega arith) e ok bits few in
    Added-heap s h2 l n _ _ (create-run s name entry_point false a k h1 h2 e1 pos e2) (
      fill_process-Added s1 l name n b entry_point false k sp.proc' sp.s'
        (processes-Chain s s1 s.process_list l refl c) copy tb (unfold address_space in sp.run)
        sp.keeps)
