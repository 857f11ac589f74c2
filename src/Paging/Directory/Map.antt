-- ===== src/Paging/Directory/Map.antt =====
-- What mapping and unmapping a page does to the entries.
use kyro_kernel.Base.{
  ◌==◌, if◌then◌else◌, ==_iff, Bool-cases, length, get_or, set, length-set, get_or-set_self,
  get_or-set_ne, get_or-set, ℕ, ◌/◌, ◌<◌, ◌≡◌, refl, sym, ap, ◌∙◌, subst, ◌≢◌, inl, inr, true,
  false, Option, none, some, List, [], arith,
}
use kyro_kernel.Paging.{page_entries}
use kyro_kernel.Paging.Directory.{
  PageTable, Directory, page_dir_index, page_table_index, store_page,
}
use kyro_kernel.Paging.Directory.Entry.{
  IsDirectory, entry, entry_of, same_page, page_table_index-lt, same_indices,
}

abbrev get_table : Option PageTable → PageTable
get_table none = record { address = 0; pages = [] }
get_table (some t) = t

pub get_or-with_table :
    (d : Directory) (i j : ℕ) (t : PageTable)
    → i < length d.tables
    → get_or (set d.tables i (some t)) j none ≡ (if j == i then some t else get_or d.tables j none)
get_or-with_table d i j t h = elim (Bool-cases (j == i)) [
  | inl same ↦
      let e : j ≡ i = (==_iff j i).0 same in
      rw same (rw e (get_or-set_self d.tables i (some t) none h))
  | inr other ↦
      let ne : i ≢ j = ground arith in rw other (get_or-set_ne d.tables i j (some t) none ne)
]

-- A whole table put in keeps the sizes.
pub put-IsDirectory :
    (d : Directory) (i : ℕ) (t : PageTable) (ps : List ℕ)
    → IsDirectory d
    → i < page_entries
    → length t.pages ≡ page_entries
    → IsDirectory (record d { tables = set d.tables i (some t); tables_physical = ps })
put-IsDirectory d i t ps v h size = record {
  size = length-set d.tables i (some t) ∙ v.size;
  sizes = λ j u e.
      let at : (if j == i then some t else get_or d.tables j none) ≡ some u =
        sym (get_or-with_table d i j t (omega (arith, v.size))) ∙ e in
      by_index j u at;
}
  where
    by_index :
        (j : ℕ) (u : PageTable)
        → (if j == i then some t else get_or d.tables j none) ≡ some u
        → length u.pages ≡ page_entries
    by_index j u e = elim (Bool-cases (j == i)) [
      | inl same ↦
          let here : some t ≡ some u =
            subst (λ b. (if b then some t else get_or d.tables j none) ≡ some u) same e in
          ap (λ (x : Option PageTable). length ((get_table x).pages)) (sym here) ∙ size
      | inr other ↦
          v.sizes j u (subst (λ b. (if b then some t else get_or d.tables j none) ≡ some u) other e)
    ]

-- The entry stored is found at that page, and every other page keeps its entry.
pub entry-put :
    (v w x : ℕ) (d : Directory) (t : PageTable) (ps : List ℕ)
    → IsDirectory d
    → page_dir_index v < page_entries
    → get_or d.tables (page_dir_index v) none ≡ some t
    → entry
        (record d {
          tables =
              set d.tables
                (page_dir_index v)
                (some (record t { pages = set t.pages (page_table_index v) x }));
          tables_physical = ps;
        })
        w
      ≡ (if w / 4096 == v / 4096 then x else entry d w)
unfolding entry
entry-put v w x d t ps ok small e =
    ap (λ (u : Option PageTable). entry_of u (page_table_index w))
      (get_or-with_table d (page_dir_index v) (page_dir_index w) _ (omega (arith, ok.size)))
    ∙ elim (Bool-cases (page_dir_index w == page_dir_index v)) [
      | inl same ↦
          let same' : page_dir_index w ≡ page_dir_index v = (==_iff _ _).0 same in
          let sized : length t.pages ≡ page_entries = ok.sizes (page_dir_index v) t e in
          rw same (
            get_or-set t.pages (page_table_index v) (page_table_index w) x
              (omega (arith, page_table_index-lt v))
            ∙ by_table same')
      | inr other ↦ let ne : (w / 4096 == v / 4096) ≡ false = ground arith in rw (other, ne) refl
    ]
  where
    by_table :
        page_dir_index w ≡ page_dir_index v
        → (if page_table_index w == page_table_index v
            then x
            else get_or t.pages (page_table_index w) 0)
          ≡ (if w / 4096 == v / 4096 then x else entry d w)
    by_table same = elim (Bool-cases (page_table_index w == page_table_index v)) [
      | inl here ↦
          let page : (w / 4096 == v / 4096) ≡ true =
            (==_iff _ _).1 (same_page w v same ((==_iff _ _).0 here)) in
          rw (here, page) refl
      | inr there ↦
          let page : (w / 4096 == v / 4096) ≡ false = ground (arith, (same_indices w v)) in
          rw (there, page)
            (sym (
              ap (λ (u : Option PageTable). entry_of u (page_table_index w))
                (ap (λ (i : ℕ). get_or d.tables i none) same ∙ e)))
    ]

-- A store, by whether there is a table.
abbrev pub written : Directory → ℕ → PageTable → ℕ → ℕ → Directory
written d index t i x = record d {
  tables = set d.tables index (some (record t { pages = set t.pages i x }));
}

pub store_page-some :
    (index i x : ℕ) (d : Directory) (t : PageTable)
    → get_or d.tables index none ≡ some t
    → store_page index i x d ≡ written d index t i x
unfolding store_page
store_page-some index i x d t h = rw (h, store_page) refl

pub store_page-none :
    (index i x : ℕ) (d : Directory) → get_or d.tables index none ≡ none → store_page index i x d ≡ d
unfolding store_page
store_page-none index i x d h = rw (h, store_page) refl
