-- ===== src/Fs/Refine/Remove.antt =====
-- Deletion.
use kyro_kernel.Base.{
  Bool-cases, length, ℕ, ◌-◌, ◌<◌, ◌≡◌, refl, ◌∙◌, inl, inr, true, false, some, List, [], arith,
}
use kyro_kernel.CString.{text}
use kyro_kernel.Table.Model.{remove_at, length-remove_at, shift-remove_at}
use kyro_kernel.Fs.{File, remove_file, delete_file, delete_directory, say, Fs}
use kyro_kernel.Fs.Spec
use kyro_kernel.Fs.Spec.{Entry}
use kyro_kernel.Fs.Refine.{Models, Sized, IsEntry, Refines}
use kyro_kernel.Fs.Refine.Lookup.{table, by_entries, unchanged, with_file-Refines}

remove_file-Refines :
    (l : List File) (es : List Entry) (i : ℕ)
    → Models (table l es) es
    → i < length es
    → Refines (remove_file i (table l es)) (true, remove_at i es, [])
unfolding remove_file
remove_file-Refines l es i m lt =
    let (out, run, is, holds) =
      shift-remove_at IsEntry Sized l es i (length es - 1 - i) (omega arith) m.sized m.holds in
    (
      record {
        result = true;
        fs = record { file_list = out; file_count = length es - 1 };
        prints = [];
      },
      rw run refl,
      refl,
      refl,
      record {
        counted = omega (arith, length-remove_at i es lt);
        table_size = is.same_length ∙ m.table_size;
        sized = is.kept;
        holds = holds;
      },
    )

-- Given a table that models entries and a name buffer that holds a text, `delete_file` removes the
-- first entry of the name, whether a file or a directory, and keeps the order of the others; where
-- there is none, it says so and changes nothing.
pub delete_file-Refines :
    {fs : Fs} {es : List Entry} (name : List ℕ) {s : List ℕ}
    → Models fs es
    → text name ≡ some s
    → Refines (delete_file name fs) (Spec.delete s es)
unfolding delete_file Spec.delete
delete_file-Refines {fs} {es} name {s} m t =
    by_entries (λ fs. Refines (delete_file name fs) (Spec.delete s es)) m
      λ m.
        with_file-Refines fs.file_list es m name (say "File not found.\n") _ _ t
          (λ i e f lt at got is sized. remove_file-Refines fs.file_list es i m lt)

-- Given a table that models entries and a name buffer that holds a text, `delete_directory`
-- removes the first entry of the name if that is a directory; otherwise it says what is wrong and
-- changes nothing.
pub delete_directory-Refines :
    {fs : Fs} {es : List Entry} (name : List ℕ) {s : List ℕ}
    → Models fs es
    → text name ≡ some s
    → Refines (delete_directory name fs) (Spec.delete_dir s es)
unfolding delete_directory Spec.delete_dir
delete_directory-Refines {fs} {es} name {s} m t =
    by_entries (λ fs. Refines (delete_directory name fs) (Spec.delete_dir s es)) m
      λ m.
        with_file-Refines fs.file_list es m name (say "Directory not found.\n") _ _ t
          λ i e f lt at got is sized.
            rw (got, is.same_kind)
              (elim (Bool-cases e.is_directory) [
                | inl dir ↦ rw dir (remove_file-Refines fs.file_list es i m lt)
                | inr file ↦ rw file (unchanged false (say "Not a directory.\n") m)
              ])
