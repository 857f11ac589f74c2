-- ===== src/Tests/Tables.antt =====
-- The file table.
use kyro_kernel.Base.{
  replicate, length-replicate, codes, ℕ, zero, suc, ◌+◌, refl, ap, ◌∙◌, true, false, List, [], ◌∷◌,
  ◌++◌,
}
use kyro_kernel.CString.{text}
use kyro_kernel.Table.Model.{All}
use kyro_kernel.Fs.{File, Fs, create_file, delete_file, write_file}
use kyro_kernel.Fs.Spec
use kyro_kernel.Fs.Spec.{Entry}
use kyro_kernel.Fs.Refine.{Sized, Models, Refines}
use kyro_kernel.Fs.Refine.Create.{create_file-Refines}
use kyro_kernel.Fs.Refine.Remove.{delete_file-Refines}
use kyro_kernel.Fs.Refine.Access.{write_file-Refines}

abbrev no_file : File
no_file = record { name = replicate 50 0; content = replicate 256 0; is_directory = false }

abbrev note_file : File
note_file = record {
  name = codes "note" ++ replicate 46 0;
  content = codes "hi" ++ replicate 254 0;
  is_directory = false;
}

abbrev tmp_dir : File
tmp_dir = record {
  name = codes "tmp" ++ replicate 47 0;
  content = replicate 256 0;
  is_directory = true;
}

abbrev pub note : Entry
note = record { name = codes "note"; content = codes "hi"; is_directory = false }

abbrev pub tmp : Entry
tmp = record { name = codes "tmp"; content = []; is_directory = true }

abbrev pub two_files : Fs
two_files = record { file_list = note_file ∷ tmp_dir ∷ replicate 4998 no_file; file_count = 2 }

All-Sized : (n : ℕ) → All Sized (replicate n no_file)
All-Sized zero = tt
All-Sized (suc n) = (record { name_size = refl; content_size = refl }, All-Sized n)

abbrev pub no_files : Fs
no_files = record { file_list = replicate 5000 no_file; file_count = 0 }

pub no_files-Models : Models no_files []
no_files-Models = record {
  counted = refl;
  table_size = length-replicate 5000 no_file;
  sized = All-Sized 5000;
  holds = tt;
}

pub two_files-Models : Models two_files (note ∷ tmp ∷ [])
unfolding text
two_files-Models = record {
  counted = refl;
  table_size = ap (λ (n : ℕ). 2 + n) (length-replicate 4998 no_file) ∙ refl;
  sized = (
    record { name_size = refl; content_size = refl },
    (record { name_size = refl; content_size = refl }, All-Sized 4998),
  );
  holds = (
    record { same_name = refl; same_content = refl; same_kind = refl },
    (record { same_name = refl; same_content = refl; same_kind = refl }, tt),
  );
}

abbrev memo : List ℕ
memo = codes "memo" ++ 0 ∷ []

abbrev note_name : List ℕ
note_name = codes "note" ++ 0 ∷ []

abbrev tmp_name : List ℕ
tmp_name = codes "tmp" ++ 0 ∷ []

create_file-Refines_example :
    Refines (create_file memo false two_files) (Spec.create (codes "memo") false (note ∷ tmp ∷ []))
unfolding text
create_file-Refines_example = create_file-Refines memo false two_files-Models refl

delete_file-Refines_example :
    Refines (delete_file tmp_name two_files) (Spec.delete (codes "tmp") (note ∷ tmp ∷ []))
unfolding text
delete_file-Refines_example = delete_file-Refines tmp_name two_files-Models refl

write_file-Refines_example :
    Refines
      (write_file note_name memo two_files)
      (Spec.write (codes "note") (codes "memo") (note ∷ tmp ∷ []))
unfolding text
write_file-Refines_example = write_file-Refines note_name memo two_files-Models refl refl
