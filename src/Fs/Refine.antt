-- ===== src/Fs/Refine.antt =====
-- The file table of fs.c implements the list of entries: the abstraction and what it needs of the
-- buffers, and that each operation keeps it, never leaves an array, and replies as promised.
pub mod Lookup
pub mod Create
pub mod Remove
pub mod Access
pub mod Listing
pub mod First
use kyro_kernel.Base.{length, ◌≡◌, Option, some, List}
use kyro_kernel.CString.{text}
use kyro_kernel.Table.Model.{All, Holds}
use kyro_kernel.Fs.{File, max_files, filename_length, file_content_length, Fs, Done}
use kyro_kernel.Fs.Spec
use kyro_kernel.Fs.Spec.{Entry}

-- The buffers of an element, which the struct fixes.
pub record Sized (f : File) : Type 0 where
  pub name_size : length f.name ≡ filename_length
  pub content_size : length f.content ≡ file_content_length

pub record IsEntry (f : File) (e : Entry) : Type 0 where
  pub same_name : text f.name ≡ some e.name
  pub same_content : text f.content ≡ some e.content
  pub same_kind : f.is_directory ≡ e.is_directory

-- The table `fs` holds the entries `es`.
pub record Models (fs : Fs) (es : List Entry) : Type 0 where
  pub counted : fs.file_count ≡ length es
  pub table_size : length fs.file_list ≡ max_files
  pub sized : All Sized fs.file_list
  pub holds : Holds IsEntry fs.file_list es

-- A call that does not fault, and answers as the specification.
abbrev pub Refines : Option Done → Spec.Reply → Type 0
Refines r (b, es, calls) =
    (d : Done) × (r ≡ some d) × (d.result ≡ b) × (d.prints ≡ calls) × Models d.fs es
