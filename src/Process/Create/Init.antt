-- ===== src/Process/Create/Init.antt =====
-- What `process_init` leaves.
use kyro_kernel.Base.{
  length, get_elem?, set, codes, ℕ, ◌+◌, ◌≤◌, ◌≡◌, refl, sym, subst, true, Option, none, some, [],
  ◌∷◌,
}
use kyro_kernel.Process.Linked.{Chain-head, same_next-Chain}
use kyro_kernel.CString.{text}
use kyro_kernel.Heap.{heap_end}
use kyro_kernel.Heap.Blocks.{IsValid}
use kyro_kernel.Paging.Directory.{Directory}
use kyro_kernel.Process.{Process, System, running, set_state, with_state}
use kyro_kernel.Process.Chain.{processes-Chain, Chain, end}
use kyro_kernel.Process.Runs.{first, Runs}
use kyro_kernel.Process.Create.{process_init, make_current, create_process, find_directory}
use kyro_kernel.Process.Create.Adds.{create_process-Added}
use kyro_kernel.Process.Create.Keeps.{IsKept, create_process-IsKept}

init-run :
    (s s' : System) (p : ℕ) (proc : Process)
    → create_process (codes "kernel\0") none true s ≡ some (some p, s')
    → get_elem? s'.processes p ≡ some proc
    → process_init s
      ≡ some (record s' {
        processes = set s'.processes p (with_state running proc);
        current_process = some p;
        process_list = some p;
      })
unfolding process_init make_current set_state
init-run s s' p proc run e = rw (run, e) refl

-- With an empty list, room on the heap and the kernel's directory in place, `process_init` returns;
-- the kernel's process is the only one in the list and is the current one; the directories and the
-- frames stay, and the heap gives at most 12 KB.
pub process_init-Starts :
    (s : System) (dir : Directory)
    → s.process_list ≡ none
    → IsValid s.heap
    → s.heap.current + 0x3000 ≤ heap_end
    → find_directory s.kernel_directory s.directories ≡ some dir
    → (s' : System) × (process_init s ≡ some s')
      × Runs s' (length s.processes ∷ [])
      × IsKept s s'
      × (s'.current_process ≡ some (length s.processes))
process_init-Starts s dir empty v room found =
    let p : ℕ = length s.processes in
    let a =
      create_process-Added s [] (codes "kernel\0") (codes "kernel") none dir
        (subst (λ (o : Option ℕ). Chain s o []) (sym empty) end) (unfold text in refl) v room
        found in
    let kept =
      create_process-IsKept s (codes "kernel\0") (codes "kernel") none dir (unfold text in refl) v
        room found a.run in
    let t : System = record a.s' { processes = set a.s'.processes p (with_state running a.proc) } in
    (
      _,
      init-run s a.s' p a.proc a.run a.block,
      record {
        chain = processes-Chain t _ (some p) (p ∷ []) refl (
            subst (λ (o : Option ℕ). Chain t o (p ∷ [])) (Chain-head a.chain)
              (same_next-Chain a.s' p a.proc (with_state running a.proc) a.s'.process_list (p ∷ [])
                a.block refl a.chain));
        distinct = (tt, tt);
        cur = p;
        current = refl;
        member = first;
      },
      record {
        directories = kept.directories;
        loaded = kept.loaded;
        kernel = kept.kernel;
        frames = kept.frames;
        heap_ok = kept.heap_ok;
        heap_up = kept.heap_up;
      },
      refl,
    )
