-- ===== src/Fs/Refine/Lookup.antt =====
-- What the refinement proofs share: tables by their entries, replies that change nothing, and the
-- search that every operation begins with.
use kyro_kernel.Base.{
  length, get_elem?, get_or, get_elem?-eq-get_or, ℕ, ◌≤◌, ◌<◌, ◌≡◌, refl, sym, subst, Bool, false,
  Option, none, some, List, [], arith,
}
use kyro_kernel.Printf.{Call}
use kyro_kernel.CString.{text}
use kyro_kernel.Table.{find}
use kyro_kernel.Table.Model.{
  find-position, position-IsNamed, position, All-get_elem?, Holds-get, length-le_of_Holds,
}
use kyro_kernel.Fs.{File, Fs, Done, done, with_file}
use kyro_kernel.Fs.Spec
use kyro_kernel.Fs.Spec.{Entry}
use kyro_kernel.Fs.Refine.{Models, Sized, IsEntry, Refines}

-- The table with these files and as many as there are entries.
abbrev pub table : List File → List Entry → Fs
table l es = record { file_list = l; file_count = length es }

-- A table that holds entries is of that form.
pub by_entries :
    {fs : Fs} {es : List Entry} (P : Fs → Type 0)
    → Models fs es
    → (Models (table fs.file_list es) es → P (table fs.file_list es))
    → P fs
by_entries {fs} {es} P m h =
    let same : table fs.file_list es ≡ fs =
      λ i. record { file_list = fs.file_list; file_count = sym m.counted i } in
    subst P same
      (h (record { counted = refl; table_size = m.table_size; sized = m.sized; holds = m.holds }))

pub unchanged :
    {fs : Fs} {es : List Entry} (b : Bool) (calls : List Call)
    → Models fs es
    → Refines (done b fs calls) (b, es, calls)
unchanged {fs} b calls m = (record { result = b; fs = fs; prints = calls }, refl, refl, refl, m)

module _ (l : List File) (es : List Entry) (m : Models (table l es) es) (name : List ℕ) where
  -- The search comes to the position of the text among the entries.
  pub find-text :
      {s : List ℕ}
      → text name ≡ some s
      → find File.name l (length es) name ≡ some (position Entry.name s es)
  find-text t =
      find-position IsEntry File.name Entry.name (λ f e h. h.same_name) l es name t m.holds

  -- The element that stands for an entry.
  pub file_at :
      (i : ℕ) {e : Entry}
      → get_elem? es i ≡ some e
      → i < length es
      → (f : File) × (get_elem? l i ≡ some f) × IsEntry f e × Sized f
  file_at i at lt =
      let size : length es ≤ length l = length-le_of_Holds IsEntry l es m.holds in
      let got = get_elem?-eq-get_or l i blank (omega arith) in
      (
        get_or l i blank,
        got,
        Holds-get IsEntry l es i m.holds got at,
        All-get_elem? Sized l i m.sized got,
      )
    where
      blank : File
      blank = record { name = []; content = []; is_directory = false }

  -- An operation on the first file of a name refines one on the first entry.
  pub with_file-Refines :
      {s : List ℕ} (missing : List Call) (k : ℕ → Option Done) (spec : ℕ → Entry → Spec.Reply)
      → text name ≡ some s
      → ((i : ℕ) (e : Entry) (f : File)
          → i < length es
          → get_elem? es i ≡ some e
          → get_elem? l i ≡ some f
          → IsEntry f e
          → Sized f
          → Refines (k i) (spec i e))
      → Refines (with_file name (table l es) missing k) (Spec.on_entry s es missing spec)
  with_file-Refines {s} missing k spec t step =
      rw (find-text t) (go (position Entry.name s es) refl)
    where
      go :
          (o : Option ℕ)
          → position Entry.name s es ≡ o
          → Refines
              (elim o [ none ↦ done false (table l es) missing | some i ↦ k i ])
              (elim o [
                | none ↦ (false, es, missing)
                | some i ↦ elim (get_elem? es i) [ none ↦ (false, es, missing) | some e ↦ spec i e ]
              ])
      go none p = unchanged false missing m
      go (some i) p =
          let (e, at, named, lt) = position-IsNamed Entry.name s es i p in
          let (f, got, is, sized) = file_at i at lt in rw at (step i e f lt at got is sized)
