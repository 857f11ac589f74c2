-- ===== src/Fs.antt =====
-- kernel/fs.c and include/fs/fs.h: an array of files and a count. A `char *` argument is what is
-- left of its array; `none` is an access outside an array. The `printf` calls are recorded in
-- order. `user_count` and `file_count` stay within the arrays, so no `int` overflows.
pub mod Spec
pub mod Refine
use kyro_kernel.Base.{
  leb, ◌==◌, if◌then◌else◌, ◌>>=◌, get_elem?, set, codes, ℕ, zero, suc, ◌+◌, ◌-◌, Bool, true, false,
  not, Option, none, some, List, [], ◌∷◌, ◌++◌,
}
use Prim.Native.String.{String}
use mathlib.Core.Option
use kyro_kernel.CString.{strlen, strcpy, strncpy}
use kyro_kernel.Printf.{int, Call, str}
use kyro_kernel.Table.{find, shift}

abbrev pub max_files : ℕ
max_files = 5000

abbrev pub filename_length : ℕ
filename_length = 50

abbrev pub file_content_length : ℕ
file_content_length = 256

pub record File : Type 0 where
  pub name : List ℕ
  pub content : List ℕ
  pub is_directory : Bool

-- The globals `file_list` and `file_count`.
pub record Fs : Type 0 where
  pub file_list : List File
  pub file_count : ℕ

-- What a call returns, the globals it leaves, and what it prints.
pub record Done : Type 0 where
  pub result : Bool
  pub fs : Fs
  pub prints : List Call

abbrev pub say : String → List Call
say s = record { format = codes s; args = [] } ∷ []

abbrev pub done : Bool → Fs → List Call → Option Done
done b fs calls = some (record { result = b; fs = fs; prints = calls })

-- The checks passed: the strings are stored in the slot behind the last file.
pub store_file : List ℕ → Bool → Fs → Option Done
store_file name is_directory fs = do
  slot ← get_elem? fs.file_list fs.file_count
  name' ← strcpy slot.name name
  let file : File = record {
    name = name';
    content = set slot.content 0 0;
    is_directory = is_directory;
  }
  done true
      (record { file_list = set fs.file_list fs.file_count file; file_count = fs.file_count + 1 })
      []

pub create_file : List ℕ → Bool → Fs → Option Done
unfolding store_file
create_file name is_directory fs =
    if leb max_files fs.file_count
    then done false fs (say "File limit reached.\n")
    else strlen name >>= λ n.
        if n == 0
        then done false fs (say "Filename cannot be empty.\n")
        else if leb filename_length n
        then done false fs (say "Filename too long.\n")
        else store_file name is_directory fs

unfoldable pub create_directory : List ℕ → Fs → Option Done
unfolding create_file
create_directory name fs = create_file name true fs

-- The inner loop of the deletions, and `file_count--`.
pub remove_file : ℕ → Fs → Option Done
remove_file i fs = shift i (fs.file_count - 1 - i) fs.file_list >>= λ l.
    done true (record { file_list = l; file_count = fs.file_count - 1 }) []

-- The search of every operation, and what is done where it is left.
abbrev pub with_file : List ℕ → Fs → List Call → (ℕ → Option Done) → Option Done
with_file name fs missing k = find File.name fs.file_list fs.file_count name >>= λ o. elim o [
  | none ↦ done false fs missing
  | some i ↦ k i
]

pub delete_file : List ℕ → Fs → Option Done
unfolding remove_file
delete_file name fs = with_file name fs (say "File not found.\n") (λ i. remove_file i fs)

pub delete_directory : List ℕ → Fs → Option Done
unfolding remove_file
delete_directory name fs = with_file name fs (say "Directory not found.\n") λ i.
    get_elem? fs.file_list i >>= λ f.
    if f.is_directory then remove_file i fs else done false fs (say "Not a directory.\n")

-- `printf("%s%s\n", ...)` for each of the `n` files left.
pub list_loop : List File → ℕ → Option (List Call)
list_loop l zero = some []
list_loop [] (suc n) = none
list_loop (f ∷ l) (suc n) =
    Option.map
      (◌∷◌ (record {
        format = codes "%s%s\n";
        args =
            str (some f.name)
            ∷ str (some (if f.is_directory then codes "/" ++ 0 ∷ [] else 0 ∷ []))
            ∷ [];
      }))
      (list_loop l n)

unfoldable pub list_files : Fs → Option (List Call)
unfolding list_loop
list_files fs = Option.map (λ calls. say "Files:\n" ++ calls) (list_loop fs.file_list fs.file_count)

-- `printf("%s\n", content)`
abbrev pub show_content : List ℕ → List Call
show_content content = record { format = codes "%s\n"; args = str (some content) ∷ [] } ∷ []

pub read_file : List ℕ → Fs → Option Done
read_file name fs = with_file name fs (say "File not found.\n") λ i.
    get_elem? fs.file_list i >>= λ f.
    if not f.is_directory
    then done true fs (show_content f.content)
    else done false fs (say "Cannot read directory.\n")

-- `strncpy` into the content, and the NUL in its last byte.
pub store_content : List ℕ → ℕ → File → Fs → Option Done
store_content content i f fs = strncpy f.content content (file_content_length - 1) >>= λ c.
    done true
      (record fs {
        file_list = set fs.file_list i (record f { content = set c (file_content_length - 1) 0 });
      })
      []

pub write_file : List ℕ → List ℕ → Fs → Option Done
unfolding store_content
write_file name content fs = with_file name fs (say "File not found.\n") λ i.
    get_elem? fs.file_list i >>= λ f.
    if not f.is_directory
    then store_content content i f fs
    else done false fs (say "Cannot write to directory.\n")

unfoldable pub fs_init : Fs → Option Done
fs_init fs = done true (record fs { file_count = 0 }) (say "File system initialized.\n")

-- `init_file_system` of tools/init.c: the results of the three calls are not looked at.
unfoldable pub init_file_system : Fs → Option Done
init_file_system fs = do
  home ← create_directory (codes "home\0") fs
  readme ← create_file (codes "readme.txt\0") false home.fs
  written ←
      write_file (codes "readme.txt\0")
        (codes "Welcome to the kyro OS!\nHours spent making this: 379\0") readme.fs
  done true written.fs (
      home.prints
      ++ readme.prints
      ++ written.prints
      ++ record {
        format = codes "File system initialized with %d files.\n";
        args = int written.fs.file_count ∷ [];
      }
        ∷ [])
