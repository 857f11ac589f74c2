-- ===== src/Fs/Spec.antt =====
-- What fs.c promises: a list of named entries, oldest first, at most `max_files`; a name may occur
-- more than once, and every operation but creation is about its first occurrence.
use kyro_kernel.Base.{
  leb, ◌==◌, if◌then◌else◌, length, get_elem?, set, take, ℕ, ◌-◌, Bool, true, false, none, some,
  List, [], ◌∷◌, ◌++◌,
}
use kyro_kernel.Table.Model.{position, remove_at}
use kyro_kernel.Printf.{Call}
use kyro_kernel.Fs.{say, max_files, filename_length, file_content_length}

pub record Entry : Type 0 where
  pub name : List ℕ
  pub content : List ℕ
  pub is_directory : Bool

-- The result, the entries left and the messages.
abbrev pub Reply : Type 0
Reply = Bool × List Entry × List Call

unfoldable pub create : List ℕ → Bool → List Entry → Reply
create name is_directory es =
    if leb max_files (length es)
    then (false, es, say "File limit reached.\n")
    else if length name == 0
    then (false, es, say "Filename cannot be empty.\n")
    else if leb filename_length (length name)
    then (false, es, say "Filename too long.\n")
    else (true, es ++ record { name = name; content = []; is_directory = is_directory } ∷ [], [])

-- The first entry of the name, with its index, or the reply where there is none.
abbrev pub on_entry : List ℕ → List Entry → List Call → (ℕ → Entry → Reply) → Reply
on_entry name es missing k = elim (position Entry.name name es) [
  | none ↦ (false, es, missing)
  | some i ↦ elim (get_elem? es i) [ none ↦ (false, es, missing) | some e ↦ k i e ]
]

unfoldable pub delete : List ℕ → List Entry → Reply
delete name es = on_entry name es (say "File not found.\n") λ i e. (true, remove_at i es, [])

unfoldable pub delete_dir : List ℕ → List Entry → Reply
delete_dir name es = on_entry name es (say "Directory not found.\n") λ i e.
    if e.is_directory then (true, remove_at i es, []) else (false, es, say "Not a directory.\n")

-- At most 255 bytes are kept.
unfoldable pub write : List ℕ → List ℕ → List Entry → Reply
write name content es = on_entry name es (say "File not found.\n") λ i e.
    if e.is_directory
    then (false, es, say "Cannot write to directory.\n")
    else (true, set es i (record e { content = take (file_content_length - 1) content }), [])

-- The content that is shown; `printf` is given the buffer that holds it.
pub data Shown : Type 0 where
  no_file not_file : Shown
  shown : List ℕ → Shown

unfoldable pub read : List ℕ → List Entry → Shown
read name es = elim (position Entry.name name es) [
  | none ↦ no_file
  | some i ↦ elim (get_elem? es i) [
    | none ↦ no_file
    | some e ↦ if e.is_directory then not_file else shown e.content
  ]
]
