-- ===== src/Fs/Refine/Listing.antt =====
-- What `list_files` prints.
use kyro_kernel.Base.{
  if◌then◌else◌, length, codes, ℕ, ◌≡◌, refl, ap, ◌∙◌, Bool, true, false, some, List, [], ◌∷◌, ◌++◌,
}
use kyro_kernel.CString.{text}
use kyro_kernel.Printf.{Call, str, printf, before, render}
use kyro_kernel.Printf.Steps.{printf-string}
use kyro_kernel.Table.Model.{Holds}
use kyro_kernel.Fs.{File, list_loop, Fs, list_files}
use kyro_kernel.Fs.Spec.{Entry}
use kyro_kernel.Fs.Refine.{IsEntry, Models}
use kyro_kernel.Fs.Refine.Lookup.{by_entries}

abbrev slash_of : Bool → List ℕ
slash_of b = if b then codes "/" else []

-- The lines of a listing, a directory's name with a slash behind it.
unfoldable pub lines : List Entry → List ℕ
lines [] = []
lines (e ∷ es) = (e.name ++ (slash_of e.is_directory ++ b'\n' ∷ [])) ++ lines es

line-printf :
    (name s : List ℕ) (b : Bool)
    → text name ≡ some s
    → (n : ℕ) × (printf
          (codes "%s%s\n" ++ 0 ∷ [])
          (str (some name) ∷ str (some (if b then codes "/" ++ 0 ∷ [] else 0 ∷ [])) ∷ [])
        ≡ some (s ++ (slash_of b ++ b'\n' ∷ []), n))
unfolding printf text
line-printf name s b t =
    (3, printf-string name s b'%' (codes "s\n\0") _ t ∙ ap (before s 1) (slash b))
  where
    slash :
        (b : Bool)
        → printf (codes "%s\n\0") (str (some (if b then codes "/" ++ 0 ∷ [] else 0 ∷ [])) ∷ [])
          ≡ some (slash_of b ++ b'\n' ∷ [], 2)
    slash true = printf-string (codes "/\0") (codes "/") b'\n' (0 ∷ []) [] refl
    slash false = printf-string (codes "\0") [] b'\n' (0 ∷ []) [] refl

list_loop-lines :
    (l : List File) (es : List Entry)
    → Holds IsEntry l es
    → (calls : List Call) × (list_loop l (length es) ≡ some calls)
      × (render calls ≡ some (lines es))
unfolding list_loop render lines
list_loop-lines l [] h = ([], refl, refl)
list_loop-lines [] (e ∷ es) h = absurd h
list_loop-lines (f ∷ l) (e ∷ es) h =
    let (calls, run, out) = list_loop-lines l es h.1 in
    let (n, line) = line-printf f.name e.name f.is_directory h.0.same_name in
    (
      record {
        format = codes "%s%s\n";
        args =
            str (some f.name)
            ∷ str (some (if f.is_directory then codes "/" ++ 0 ∷ [] else 0 ∷ []))
            ∷ [];
      }
          ∷ calls,
      rw run refl,
      rw (← h.0.same_kind, line, out) refl,
    )

-- Given a table that models entries, `list_files` returns, and what it prints is a heading and a
-- line for each entry, oldest first: its name, with a slash behind it if it is a directory.
pub list_files-lines :
    {fs : Fs} {es : List Entry}
    → Models fs es
    → (calls : List Call) × (list_files fs ≡ some calls)
      × (render calls ≡ some (codes "Files:\n" ++ lines es))
list_files-lines {fs} {es} m =
    by_entries
      (λ fs.
        (calls : List Call) × (list_files fs ≡ some calls)
        × (render calls ≡ some (codes "Files:\n" ++ lines es)))
      m
      λ m.
        let (calls, run, out) = list_loop-lines fs.file_list es m.holds in
        unfold list_files render printf in
        (record { format = codes "Files:\n"; args = [] } ∷ calls, rw run refl, rw out refl)
