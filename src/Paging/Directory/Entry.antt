-- ===== src/Paging/Directory/Entry.antt =====
-- The directory as a map from pages to entries.
use kyro_kernel.Base.{
  ◌==◌, if◌then◌else◌, length, get_or, length-replicate, get_or-replicate, ℕ, ◌/◌, ◌^◌, ◌<◌,
  bit_and, bit_or, ◌≡◌, refl, Option, none, some, arith,
}
use kyro_kernel.Base.Bits.{bit_and-low_mask}
use kyro_kernel.Paging.{page_entries, page_present}
use kyro_kernel.Paging.Directory.{
  cleared_directory, PageTable, Directory, page_dir_index, page_table_index, get_physical_address,
}

-- Both levels have their 1024 entries.
pub record IsDirectory (d : Directory) : Type 0 where
  pub size : length d.tables ≡ page_entries
  pub sizes :
      (i : ℕ) (t : PageTable) → get_or d.tables i none ≡ some t → length t.pages ≡ page_entries

abbrev pub entry_of : Option PageTable → ℕ → ℕ
entry_of none i = 0
entry_of (some t) i = get_or t.pages i 0

-- The entry of the page of an address, 0 where there is no table.
unfoldable pub entry : Directory → ℕ → ℕ
entry d v = entry_of (get_or d.tables (page_dir_index v) none) (page_table_index v)

-- What an entry makes of an address.
unfoldable pub translate : ℕ → ℕ → ℕ
translate page_entry v =
    if bit_and page_entry page_present == 0
    then 0
    else bit_or (bit_and page_entry 0xfffff000) (bit_and v 0xfff)

pub get_physical_address-entry :
    (v : ℕ) (d : Directory) → get_physical_address v d ≡ translate (entry d v) v
unfolding get_physical_address entry translate
get_physical_address-entry v d = go (get_or d.tables (page_dir_index v) none)
  where
    go :
        (t : Option PageTable)
        → elim t [
          | none ↦ 0
          | some t ↦
              let page_entry = get_or t.pages (page_table_index v) 0 in
              if bit_and page_entry page_present == 0
              then 0
              else bit_or (bit_and page_entry 0xfffff000) (bit_and v 0xfff)
        ]
          ≡ translate (entry_of t (page_table_index v)) v
    go none = refl
    go (some t) = refl

-- The two indices together are the number of the page.
pub same_page :
    (v w : ℕ)
    → page_dir_index v ≡ page_dir_index w
    → page_table_index v ≡ page_table_index w
    → v / 4096 ≡ w / 4096
same_page v w a b =
    omega (arith, bit_and-low_mask 10 (v / 2 ^ 12), bit_and-low_mask 10 (w / 2 ^ 12))

pub page_table_index-lt : (v : ℕ) → page_table_index v < page_entries
page_table_index-lt v = omega (arith, bit_and-low_mask 10 (v / 2 ^ 12))

pub same_indices :
    (v w : ℕ)
    → v / 4096 ≡ w / 4096
    → (page_dir_index v ≡ page_dir_index w) × (page_table_index v ≡ page_table_index w)
same_indices v w e =
    (omega arith, omega (arith, bit_and-low_mask 10 (v / 2 ^ 12), bit_and-low_mask 10 (w / 2 ^ 12)))

-- A cleared directory has no table.
pub cleared-IsDirectory : (phys_addr : ℕ) → IsDirectory (cleared_directory phys_addr)
cleared-IsDirectory phys_addr = record {
  size = length-replicate {A = Option PageTable} page_entries none;
  sizes = λ i t e. cc (get_or-replicate {A = Option PageTable} page_entries i none, e);
}
