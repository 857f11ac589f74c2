-- ===== src/Fs/Refine/Create.antt =====
-- Creation.
use kyro_kernel.Base.{
  leb, ◌==◌, lt→ltb, Bool-cases, length, get_or, set, length-append, length-set,
  get_elem?-eq-get_or, ℕ, ◌+◌, ◌<◌, ◌≡◌, refl, ◌∙◌, inl, inr, Bool, true, false, some, List, [],
  ◌∷◌, ◌++◌, arith,
}
use kyro_kernel.Table.Model.{All-get_elem?, All-set, Holds-push}
use kyro_kernel.CString.Copy.{stored, strlen-text, strcpy-text, text-stored, length-stored}
use kyro_kernel.CString.{text, strcpy}
use kyro_kernel.Fs.{File, max_files, filename_length, store_file, Fs, say, create_file}
use kyro_kernel.Fs.Spec
use kyro_kernel.Fs.Spec.{Entry}
use kyro_kernel.Fs.Refine.{Models, Refines, Sized, IsEntry}
use kyro_kernel.Fs.Refine.Lookup.{table, by_entries, unchanged}

-- Content that begins with a NUL is the empty text.
text-cleared : (c : List ℕ) → 0 < length c → text (set c 0 0) ≡ some []
text-cleared [] h = absurd (omega arith)
text-cleared (x ∷ c) h = unfold text in refl

-- What the slot holds afterwards.
abbrev stored_file : File → List ℕ → Bool → File
stored_file slot s d = record {
  name = stored s slot.name;
  content = set slot.content 0 0;
  is_directory = d;
}

module _ (slot : File) (name : List ℕ) {s : List ℕ} (d : Bool) (sized : Sized slot)
    (t : text name ≡ some s) (short : length s < filename_length) where
  stored_file-IsEntry :
      IsEntry (stored_file slot s d) (record { name = s; content = []; is_directory = d })
  stored_file-IsEntry = record {
    same_name = text-stored name slot.name t;
    same_content = text-cleared slot.content (omega (arith, sized.content_size));
    same_kind = refl;
  }

  stored_file-Sized : Sized (stored_file slot s d)
  stored_file-Sized = record {
    name_size = length-stored s slot.name (omega (arith, sized.name_size, short)) ∙ sized.name_size;
    content_size = length-set slot.content 0 0 ∙ sized.content_size;
  }

  strcpy-slot : strcpy slot.name name ≡ some (stored s slot.name)
  strcpy-slot =
      strcpy-text slot.name name t
      ∙ rw (lt→ltb (length s) (length slot.name) (omega (arith, sized.name_size, short))) refl

store_file-Refines :
    (l : List File) (es : List Entry) (name : List ℕ) {s : List ℕ} (d : Bool)
    → Models (table l es) es
    → text name ≡ some s
    → length es < max_files
    → length s < filename_length
    → Refines
        (store_file name d (table l es))
        (true, es ++ record { name = s; content = []; is_directory = d } ∷ [], [])
unfolding store_file
store_file-Refines l es name {s} d m t room short =
    let at = get_elem?-eq-get_or l (length es) blank (omega (arith, m.table_size)) in
    let slot : File = get_or l (length es) blank in
    let sized = All-get_elem? Sized l (length es) m.sized at in
    (
      record {
        result = true;
        fs = record {
          file_list = set l (length es) (stored_file slot s d);
          file_count = length es + 1;
        };
        prints = [];
      },
      rw (at, strcpy-slot slot name d sized t short) refl,
      refl,
      refl,
      record {
        counted =
            omega
              (arith, length-append es (record { name = s; content = []; is_directory = d } ∷ []));
        table_size = length-set l (length es) (stored_file slot s d) ∙ m.table_size;
        sized =
            All-set Sized l (length es) (stored_file slot s d) m.sized
              (stored_file-Sized slot name d sized t short);
        holds =
            Holds-push IsEntry l es (stored_file slot s d) _ (omega (arith, m.table_size)) m.holds
              (stored_file-IsEntry slot name d sized t short);
      },
    )
  where
    blank : File
    blank = record { name = []; content = []; is_directory = false }

-- Given a table that models entries and a name buffer that holds a text, `create_file` refuses a
-- full table, an empty name and a name of 50 bytes or more, each with its message; otherwise it
-- puts a new empty entry behind the others. In every case it stays inside its arrays and keeps the
-- table a model of the entries.
pub create_file-Refines :
    {fs : Fs} {es : List Entry} (name : List ℕ) {s : List ℕ} (d : Bool)
    → Models fs es
    → text name ≡ some s
    → Refines (create_file name d fs) (Spec.create s d es)
create_file-Refines {fs} {es} name {s} d m t =
    by_entries (λ fs. Refines (create_file name d fs) (Spec.create s d es)) m
      (λ m. create-table fs.file_list m)
  where
    create-table :
        (l : List File)
        → Models (table l es) es
        → Refines (create_file name d (table l es)) (Spec.create s d es)
    create-table l m =
        unfold create_file Spec.create in
        elim (Bool-cases (leb max_files (length es))) [
          | inl full ↦ rw full (unchanged false (say "File limit reached.\n") m)
          | inr room ↦
              rw (room, strlen-text name, t)
                (elim (Bool-cases (length s == 0)) [
                  | inl empty ↦ rw empty (unchanged false (say "Filename cannot be empty.\n") m)
                  | inr nonempty ↦ rw nonempty (elim (Bool-cases (leb filename_length (length s))) [
                    | inl long ↦ rw long (unchanged false (say "Filename too long.\n") m)
                    | inr short ↦
                        rw short (store_file-Refines l es name d m t (ground arith) (ground arith))
                  ])
                ])
        ]
