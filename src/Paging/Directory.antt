-- ===== src/Paging/Directory.antt =====
-- The page directory: `map_page`, `unmap_page`, `get_physical_address`, and what calls them.
pub mod Entry
pub mod Map
pub mod Mapped
pub mod Translate
pub mod Alloc
pub mod Identity
pub mod Start
use kyro_kernel.Base.{
  ◌==◌, if◌then◌else◌, ◌>>=◌, get_or, set, replicate, ℕ, zero, suc, ◌+◌, ◌*◌, ◌/◌, ◌^◌, bit_and,
  bit_or, Bool, ◌||◌, Option, none, some, List,
}
use kyro_kernel.Heap.{kmalloc, kmalloc_a, Heap, kmalloc_ap, u32}
use kyro_kernel.Paging.{page_size, page_entries, page_present, page_writable, page_user}
use kyro_kernel.Paging.Frames.{Frames, set_frame, first_free_frame}

-- `page_table_t`, and where it stands. Each table is a block of its own, so it is kept in the
-- directory.
pub record PageTable : Type 0 where
  pub address : ℕ
  pub pages : List ℕ

-- `page_directory_t`; a table is `none` where the pointer is NULL.
pub record Directory : Type 0 where
  pub tables : List (Option PageTable)
  pub tables_physical : List ℕ
  pub physical_addr : ℕ

-- Cleared, as `create_page_directory` and `paging_init` leave it.
abbrev pub cleared_directory : ℕ → Directory
cleared_directory phys_addr = record {
  tables = replicate page_entries none;
  tables_physical = replicate page_entries 0;
  physical_addr = phys_addr;
}

-- `none`: the kernel writes through NULL.
unfoldable pub create_page_directory : Heap → Option (Directory × Heap)
create_page_directory h =
    let ((dir, phys_addr), h') = kmalloc_ap 8196 h in
    if dir == 0 then none else some (cleared_directory phys_addr, h')

abbrev pub page_dir_index : ℕ → ℕ
page_dir_index virtual_addr = virtual_addr / 2 ^ 22

abbrev pub page_table_index : ℕ → ℕ
page_table_index virtual_addr = bit_and (virtual_addr / 2 ^ 12) 0x3ff

-- The directory's entry of a new table.
pub directory_entry : ℕ → ℕ → ℕ
directory_entry tmp flags =
    let entry = bit_or (bit_or tmp page_present) page_writable in
    if bit_and flags page_user == 0 then bit_or entry page_user else entry

-- The first part of `map_page`: the table is made if there is none; `none` if there is no memory
-- for it, since the kernel then writes through NULL.
pub make_table : ℕ → ℕ → Directory → Heap → Option (Directory × Heap)
unfolding directory_entry
make_table index flags d h = elim (get_or d.tables index none) [
  | some t ↦ some (d, h)
  | none ↦
      let ((table, tmp), h') = kmalloc_ap 4096 h in
      if table == 0
      then none
      else some (
        record d {
          tables =
              set d.tables index
                (some (record { address = table; pages = replicate page_entries 0 }));
          tables_physical = set d.tables_physical index (directory_entry tmp flags);
        },
        h',
      )
]

-- A store to one page of a table.
pub store_page : ℕ → ℕ → ℕ → Directory → Directory
store_page index i entry d = elim (get_or d.tables index none) [
  | none ↦ d
  | some t ↦ record d {
    tables = set d.tables index (some (record t { pages = set t.pages i entry }));
  }
]

pub map_page : ℕ → ℕ → ℕ → Directory → Heap → Option (Directory × Heap)
unfolding make_table store_page
map_page virtual_addr physical_addr flags d h = do
  (d', h') ← make_table (page_dir_index virtual_addr) flags d h
  some (
    store_page (page_dir_index virtual_addr) (page_table_index virtual_addr)
        (bit_or (bit_and physical_addr 0xfffff000) flags) d',
    h',
  )

pub unmap_page : ℕ → Directory → Directory
unfolding store_page
unmap_page virtual_addr d =
    store_page (page_dir_index virtual_addr) (page_table_index virtual_addr) 0 d

pub get_physical_address : ℕ → Directory → ℕ
get_physical_address virtual_addr d = elim (get_or d.tables (page_dir_index virtual_addr) none) [
  | none ↦ 0
  | some t ↦
      let page_entry = get_or t.pages (page_table_index virtual_addr) 0 in
      if bit_and page_entry page_present == 0
      then 0
      else bit_or (bit_and page_entry 0xfffff000) (bit_and virtual_addr 0xfff)
]

-- The flags of `alloc_frame`.
pub frame_flags : Bool → Bool → ℕ
frame_flags is_kernel is_writable =
    let flags = if is_writable then bit_or page_present page_writable else page_present in
    if is_kernel then flags else bit_or flags page_user

pub alloc_frame : ℕ → Bool → Bool → Frames → Directory → Heap → Option (Frames × (Directory × Heap))
unfolding map_page frame_flags
alloc_frame virtual_addr is_kernel is_writable f d h =
    let physical_addr = u32 (first_free_frame f * 4096) in
    if physical_addr == 0xffffffff then some (f, (d, h)) else do
      r ← map_page virtual_addr physical_addr (frame_flags is_kernel is_writable) d h
      some (set_frame physical_addr f, r)

-- The loop of `paging_init`: `n` pages from address `i` on are mapped to themselves.
pub identity_map : ℕ → ℕ → Directory → Heap → Option (Directory × Heap)
unfolding map_page
identity_map zero i d h = some (d, h)
identity_map (suc n) i d h = do
  (d', h') ← map_page i i (bit_or page_present page_writable) d h
  identity_map n (i + 4096) d' h'

-- The globals that `paging_init` sets, with the directory and its address, and what it loads into
-- cr3 and cr0.
pub record Boot : Type 0 where
  pub frames : Frames
  pub current_directory : Directory
  pub kernel_directory : ℕ
  pub heap : Heap
  pub cr3 : ℕ
  pub cr0 : ℕ

-- The bitmap of 16 MB of frames, the kernel's directory, and its first 8 MB.
-- Given what stands in cr0.
pub paging_init : ℕ → Heap → Option Boot
paging_init cr0 h =
    let nframes = 0x1000000 / page_size in
    let (frames, h1) = kmalloc (nframes / 8) h in
    let (kernel_directory, h2) = kmalloc_a 8196 h1 in
    if frames == 0 || kernel_directory == 0 then none else do
      (d, h3) ← identity_map (0x800000 / page_size) 0 (cleared_directory 0) h2
      some (record {
        frames = record { words = replicate (nframes / 8 / 4) 0; nframes = nframes };
        current_directory = d;
        kernel_directory = kernel_directory;
        heap = h3;
        cr3 = d.physical_addr;
        cr0 = bit_or cr0 0x80000000;
      })
