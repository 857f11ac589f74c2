-- ===== src/Fs/Refine/Access.antt =====
-- Reading and writing.
use kyro_kernel.Base.{
  ltb, if◌then◌else◌, ltb→lt, ltb→le, lt→ltb, le→ltb, Bool-cases, ◌>>=◌, length, get_elem?, set,
  take, drop, replicate, length-append, length-set, length-replicate, length-take, length-drop,
  take-ge, ℕ, suc, ◌-◌, ◌≡◌, refl, sym, ap, ◌∙◌, inl, inr, Bool, true, false, not, Option, none,
  some, List, [], ◌∷◌, ◌++◌, arith,
}
use kyro_kernel.Table.Model.{All-set, Holds-set, position, position-IsNamed}
use kyro_kernel.CString.HasText.{
  HasText-text, HasText-append, HasText-set, HasText-cut, text_of_HasText,
}
use kyro_kernel.CString.Copy.{strncpy-short, strncpy-long}
use kyro_kernel.Fs.Spec
use kyro_kernel.Fs.Spec.{Entry, write, read}
use kyro_kernel.Fs.Refine.Lookup.{
  with_file-Refines, table, by_entries, unchanged, find-text, file_at,
}
use kyro_kernel.Fs.Refine.{Sized, IsEntry, Models, Refines}
use kyro_kernel.CString.{text, strncpy}
use kyro_kernel.Fs.{
  file_content_length, File, Fs, say, store_content, write_file, Done, done, read_file,
  show_content,
}

-- What `strncpy` of `n` bytes into a buffer of `n + 1` and the NUL in the last byte leave.
store-text :
    (n : ℕ) (c content : List ℕ) {s : List ℕ}
    → length c ≡ suc n
    → text content ≡ some s
    → (out : List ℕ) × (strncpy c content n ≡ some out)
      × (length out ≡ suc n)
      × (text (set out n 0) ≡ some (take n s))
store-text n c content {s} size t = elim (Bool-cases (ltb (length s) n)) [
  | inl short ↦
      let lt = ltb→lt (length s) n short in
      let zeros : List ℕ = replicate (n - length s) 0 ++ drop (suc n) c in
      (
        s ++ 0 ∷ zeros,
        strncpy-short n c content t lt ∙ rw (lt→ltb n (length c) (omega arith)) refl,
        omega (
          arith,
          length-append s (0 ∷ zeros),
          length-append (replicate (n - length s) 0) (drop (suc n) c),
          length-replicate {A = ℕ} (n - length s) 0,
          length-drop (suc n) c,
        ),
        text_of_HasText (HasText-set n 0 (HasText-append (HasText-text content t) zeros) lt)
            ∙ ap some (sym (take-ge n s (omega arith))),
      )
  | inr long ↦
      let le = ltb→le (length s) n long in
      (
        take n s ++ drop n c,
        strncpy-long n c content t le ∙ rw (le→ltb (length c) n (omega arith)) refl,
        omega (arith, length-append (take n s) (drop n c), length-take n s, length-drop n c),
        text_of_HasText (HasText-cut n c (HasText-text content t) le (omega arith)),
      )
]

store_content-Refines :
    (l : List File) (es : List Entry) (i : ℕ) {e : Entry} {f : File} (content : List ℕ) {s : List ℕ}
    → Models (table l es) es
    → IsEntry f e
    → Sized f
    → text content ≡ some s
    → Refines
        (store_content content i f (table l es))
        (true, set es i (record e { content = take (file_content_length - 1) s }), [])
unfolding store_content
store_content-Refines l es i {e} {f} content {s} m is sized t =
    let (out, run, size, held) = store-text 255 f.content content sized.content_size t in
    let new : File = record f { content = set out 255 0 } in
    (
      record {
        result = true;
        fs = record { file_list = set l i new; file_count = length es };
        prints = [];
      },
      rw run refl,
      refl,
      refl,
      record {
        counted = sym (length-set es i (record e { content = take 255 s }));
        table_size = length-set l i new ∙ m.table_size;
        sized =
            All-set Sized l i new m.sized
              (record { name_size = sized.name_size; content_size = length-set out 255 0 ∙ size });
        holds =
            Holds-set IsEntry l es i new _ m.holds
              (record { same_name = is.same_name; same_content = held; same_kind = is.same_kind });
      },
    )

-- A branch on the kind of a file.
branch-Refines :
    (b b' : Bool) {p q : Option Done} {P Q : Spec.Reply}
    → b ≡ b'
    → Refines p P
    → Refines q Q
    → Refines (if not b then p else q) (if b' then Q else P)
branch-Refines true true e h k = k
branch-Refines false false e h k = h
branch-Refines true false e h k = cc
branch-Refines false true e h k = cc

-- Given a table that models entries, and a name and a content that hold texts, `write_file` sets
-- the content of the first entry of the name, cut to 255 bytes, if that is a file; otherwise it
-- says what is wrong and changes nothing. It never leaves a buffer.
pub write_file-Refines :
    {fs : Fs} {es : List Entry} (name content : List ℕ) {s c : List ℕ}
    → Models fs es
    → text name ≡ some s
    → text content ≡ some c
    → Refines (write_file name content fs) (Spec.write s c es)
unfolding write_file Spec.write
write_file-Refines {fs} {es} name content {s} {c} m t k =
    by_entries (λ fs. Refines (write_file name content fs) (Spec.write s c es)) m
      λ m.
        with_file-Refines fs.file_list es m name (say "File not found.\n") _ _ t
          λ i e f lt at got is sized. rw got (
            branch-Refines f.is_directory e.is_directory is.same_kind
              (store_content-Refines fs.file_list es i content m is sized k)
              (unchanged false (say "Cannot write to directory.\n") m))

-- What `read_file` does for what is to be shown.
abbrev pub Shows : Option Done → Spec.Shown → Fs → Type 0
Shows r Spec.no_file fs = r ≡ done false fs (say "File not found.\n")
Shows r Spec.not_file fs = r ≡ done false fs (say "Cannot read directory.\n")
Shows r (Spec.shown content) fs =
    (b : List ℕ) × (r ≡ done true fs (show_content b)) × (text b ≡ some content)

branch-Shows :
    (b b' : Bool) (content : List ℕ) {c : List ℕ} (fs : Fs)
    → b ≡ b'
    → text content ≡ some c
    → Shows
        (if not b
          then done true fs (show_content content)
          else done false fs (say "Cannot read directory.\n"))
        (if b' then Spec.not_file else Spec.shown c)
        fs
branch-Shows true true content fs h t = refl
branch-Shows false false content fs h t = (content, refl, t)
branch-Shows true false content fs h t = cc
branch-Shows false true content fs h t = cc

-- Given a table that models entries and a name buffer that holds a text, `read_file` prints, with
-- a newline, a buffer that holds the content of the first entry of the name, if that is a file;
-- otherwise it says what is wrong. It changes nothing.
pub read_file-Shows :
    {fs : Fs} {es : List Entry} (name : List ℕ) {s : List ℕ}
    → Models fs es
    → text name ≡ some s
    → Shows (read_file name fs) (Spec.read s es) fs
unfolding read_file Spec.read
read_file-Shows {fs} {es} name {s} m t =
    by_entries (λ fs. Shows (read_file name fs) (Spec.read s es) fs) m
      λ m.
        rw (find-text fs.file_list es m name t) (go fs.file_list m (position Entry.name s es) refl)
  where
    go :
        (l : List File) (m : Models (table l es) es) (o : Option ℕ)
        → position Entry.name s es ≡ o
        → Shows
            (elim o [
              | none ↦ done false (table l es) (say "File not found.\n")
              | some i ↦ get_elem? l i >>= λ f.
                  if not f.is_directory
                  then done true (table l es) (show_content f.content)
                  else done false (table l es) (say "Cannot read directory.\n")
            ])
            (elim o [
              | none ↦ Spec.no_file
              | some i ↦ elim (get_elem? es i) [
                | none ↦ Spec.no_file
                | some e ↦ if e.is_directory then Spec.not_file else Spec.shown e.content
              ]
            ])
            (table l es)
    go l m none p = refl
    go l m (some i) p =
        let (e, at, named, lt) = position-IsNamed Entry.name s es i p in
        let (f, got, is, sized) = file_at l es m name i at lt in
        rw (at, got)
          (branch-Shows f.is_directory e.is_directory f.content (table l es) is.same_kind
            is.same_content)
