-- ===== src/Fs/Refine/First.antt =====
-- The files that the kernel starts with.
use kyro_kernel.Base.{codes, ℕ, ◌≡◌, refl, subst, true, false, some, List, [], ◌∷◌, ◌++◌}
use kyro_kernel.CString.{text}
use kyro_kernel.CString.Compare.{same_text}
use kyro_kernel.Printf.{Call, int}
use kyro_kernel.Table.Model.{position}
use kyro_kernel.Fs.{Done, Fs, init_file_system, create_file, create_directory, write_file}
use kyro_kernel.Fs.Spec
use kyro_kernel.Fs.Spec.{Entry}
use kyro_kernel.Fs.Refine.{Models, Refines}
use kyro_kernel.Fs.Refine.Create.{create_file-Refines}
use kyro_kernel.Fs.Refine.Access.{write_file-Refines}

abbrev home : Entry
home = record { name = codes "home"; content = []; is_directory = true }

abbrev readme : List ℕ → Entry
readme content = record { name = codes "readme.txt"; content = content; is_directory = false }

abbrev welcome : List ℕ
welcome = codes "Welcome to the kyro OS!\nHours spent making this: 379"

abbrev pub first_entries : List Entry
first_entries = home ∷ readme welcome ∷ []

home_reply : Spec.create (codes "home") true [] ≡ (true, home ∷ [], [])
unfolding Spec.create
home_reply = refl

readme_reply :
    Spec.create (codes "readme.txt") false (home ∷ []) ≡ (true, home ∷ readme [] ∷ [], [])
unfolding Spec.create
readme_reply = refl

write_reply :
    Spec.write (codes "readme.txt") welcome (home ∷ readme [] ∷ []) ≡ (true, first_entries, [])
unfolding Spec.write position same_text
write_reply = refl

-- The message at the end.
abbrev pub first_calls : List Call
first_calls =
    record { format = codes "File system initialized with %d files.\n"; args = int 2 ∷ [] } ∷ []

-- From an empty table `init_file_system` returns, and the table has the two first entries.
pub init_file_system-first :
    {fs : Fs}
    → Models fs []
    → (d : Done) × (init_file_system fs ≡ some d)
      × (d.prints ≡ first_calls)
      × Models d.fs first_entries
unfolding init_file_system text create_directory
init_file_system-first {fs} m =
    let (d1, run1, res1, p1, m1) : Refines (create_file (codes "home\0") true fs)
        (true, home ∷ [], []) =
      subst (Refines _) home_reply (create_file-Refines _ true m refl) in
    let (d2, run2, res2, p2, m2) : Refines (create_file (codes "readme.txt\0") false d1.fs)
        (true, home ∷ readme [] ∷ [], []) =
      subst (Refines _) readme_reply (create_file-Refines _ false m1 refl) in
    let (d3, run3, res3, p3, m3) : Refines
        (write_file (codes "readme.txt\0")
          (codes "Welcome to the kyro OS!\nHours spent making this: 379\0") d2.fs)
        (true, first_entries, []) =
      subst (Refines _) write_reply (write_file-Refines _ _ m2 refl refl) in
    (
      record {
        result = true;
        fs = d3.fs;
        prints =
            d1.prints
            ++ d2.prints
            ++ d3.prints
            ++ record {
              format = codes "File system initialized with %d files.\n";
              args = int d3.fs.file_count ∷ [];
            }
              ∷ [];
      },
      rw (run1, run2, run3) refl,
      rw (p1, p2, p3, m3.counted) refl,
      m3,
    )
