-- ===== src/Paging/Directory/Mapped.antt =====
-- `map_page` and `unmap_page`.
use kyro_kernel.Base.{
  ◌==◌, if◌then◌else◌, ==_iff, Bool-cases, Option-cases, length, get_or, set, replicate, length-set,
  length-replicate, get_or-replicate, get_or-set_self, ℕ, ◌+◌, ◌/◌, ◌^◌, ◌≤◌, ◌<◌, bit_and, bit_or,
  ◌≡◌, refl, sym, ap, ◌∙◌, inl, inr, false, Option, none, some, List, arith,
}
use kyro_kernel.Paging.Directory.Map.{
  get_or-with_table, put-IsDirectory, entry-put, written, store_page-some, store_page-none,
}
use kyro_kernel.Paging.{page_entries}
use kyro_kernel.Heap.Room.{kmalloc_ap-room}
use kyro_kernel.Paging.Directory.Map.{store_page-none, store_page-some}
use kyro_kernel.Heap.{Heap, heap_end}
use kyro_kernel.Heap.Blocks
use kyro_kernel.Paging.Directory.{
  directory_entry, Directory, make_table, map_page, unmap_page, PageTable, page_dir_index,
  page_table_index,
}
use kyro_kernel.Paging.Directory.Entry.{IsDirectory, entry, entry_of, same_indices}

-- The room that one table may take.
abbrev pub table_room : ℕ
table_room = 0x2004

-- A run that ends in a directory with these entries.
pub record Mapped (index : ℕ) (d : Directory) (h : Heap) (e : ℕ → ℕ) (r : Option (Directory × Heap))
    : Type 0 where
  pub d' : Directory
  pub h' : Heap
  pub run : r ≡ some (d', h')
  pub ok : IsDirectory d'
  pub heap_ok : Blocks.IsValid h'
  pub heap_up : h'.current ≤ h.current + table_room
  pub table : PageTable
  pub found : get_or d'.tables index none ≡ some table
  pub entries : (w : ℕ) → entry d' w ≡ e w
  pub same_addr : d'.physical_addr ≡ d.physical_addr

-- The page of the address gets its entry, and every other page keeps its own.
abbrev pub mapped_entry : Directory → ℕ → ℕ → ℕ → ℕ
mapped_entry d v x w = if w / 4096 == v / 4096 then x else entry d w

fresh-entry :
    (index : ℕ) (d : Directory) (t : PageTable) (ps : List ℕ)
    → IsDirectory d
    → index < page_entries
    → get_or d.tables index none ≡ none
    → t.pages ≡ replicate page_entries 0
    → (w : ℕ)
    → entry (record d { tables = set d.tables index (some t); tables_physical = ps }) w ≡ entry d w
unfolding entry
fresh-entry index d t ps ok small missing e w =
    ap (λ (u : Option PageTable). entry_of u (page_table_index w))
      (get_or-with_table d index (page_dir_index w) t (omega (arith, ok.size)))
    ∙ elim (Bool-cases (page_dir_index w == index)) [
      | inl same ↦
          let at : page_dir_index w ≡ index = (==_iff _ _).0 same in
          rw same (
            ap (λ (l : List ℕ). get_or l (page_table_index w) 0) e
            ∙ get_or-replicate page_entries (page_table_index w) 0
            ∙ sym (
                ap (λ (u : Option PageTable). entry_of u (page_table_index w))
                  (ap (λ (i : ℕ). get_or d.tables i none) at ∙ missing)))
      | inr other ↦ rw other refl
    ]

no_table-entry :
    (v w : ℕ) (d : Directory)
    → get_or d.tables (page_dir_index v) none ≡ none
    → entry d w ≡ mapped_entry d v 0 w
unfolding entry
no_table-entry v w d missing = elim (Bool-cases (w / 4096 == v / 4096)) [
  | inl same ↦
      let at : page_dir_index w ≡ page_dir_index v = (same_indices w v ((==_iff _ _).0 same)).0 in
      rw same (
        ap (λ (u : Option PageTable). entry_of u (page_table_index w))
          (ap (λ (i : ℕ). get_or d.tables i none) at ∙ missing))
  | inr other ↦ rw other refl
]

-- A directory with a table at the index, and the entries of `d`.
record Made (index : ℕ) (d : Directory) (h : Heap) (r : Option (Directory × Heap)) : Type 0 where
  d' : Directory
  h' : Heap
  table : PageTable
  run : r ≡ some (d', h')
  found : get_or d'.tables index none ≡ some table
  ok : IsDirectory d'
  heap_ok : Blocks.IsValid h'
  heap_up : h'.current ≤ h.current + table_room
  entries : (w : ℕ) → entry d' w ≡ entry d w
  same_addr : d'.physical_addr ≡ d.physical_addr

make_table-Made :
    (index flags : ℕ) (d : Directory) (h : Heap)
    → IsDirectory d
    → Blocks.IsValid h
    → h.current + table_room ≤ heap_end
    → index < page_entries
    → Made index d h (make_table index flags d h)
unfolding make_table
make_table-Made index flags d h ok heap room small =
    elim (Option-cases (get_or d.tables index none)) [
      | inl missing ↦
          let (a, h', run, pos, heap', up) = kmalloc_ap-room 4096 h heap room in
          let test : (a == 0) ≡ false = ground arith in
          record {
            d' = record d {
              tables =
                  set d.tables index
                    (some (record { address = a; pages = replicate page_entries 0 }));
              tables_physical = set d.tables_physical index (directory_entry a flags);
            };
            h' = h';
            table = record { address = a; pages = replicate page_entries 0 };
            run = rw (missing, make_table, run, test) refl;
            found = get_or-set_self d.tables index _ none (omega (arith, ok.size));
            ok = put-IsDirectory d index _ _ ok small (length-replicate {A = ℕ} page_entries 0);
            heap_ok = heap';
            heap_up = up;
            entries = fresh-entry index d _ _ ok small missing refl;
            same_addr = refl;
          }
      | inr (t, there) ↦ record {
        d' = d;
        h' = h;
        table = t;
        run = rw (there, make_table) refl;
        found = there;
        ok = ok;
        heap_ok = heap;
        heap_up = omega arith;
        entries = λ w. refl;
        same_addr = refl;
      }
    ]

pub map_page-Mapped :
    (v p flags : ℕ) (d : Directory) (h : Heap)
    → IsDirectory d
    → Blocks.IsValid h
    → h.current + table_room ≤ heap_end
    → v < 2 ^ 32
    → Mapped
        (page_dir_index v)
        d
        h
        (mapped_entry d v (bit_or (bit_and p 0xfffff000) flags))
        (map_page v p flags d h)
unfolding map_page
map_page-Mapped v p flags d h ok heap room small =
    let m = make_table-Made (page_dir_index v) flags d h ok heap room (omega arith) in
    let sized : length m.table.pages ≡ page_entries =
      m.ok.sizes (page_dir_index v) m.table m.found in
    record {
      d' =
          written m.d' (page_dir_index v) m.table (page_table_index v)
            (bit_or (bit_and p 0xfffff000) flags);
      h' = m.h';
      run =
          rw
            (
              m.run,
              store_page-some (page_dir_index v) (page_table_index v)
                  (bit_or (bit_and p 0xfffff000) flags) m.d' m.table m.found,
            )
            refl;
      ok =
          put-IsDirectory m.d' (page_dir_index v) _ _ m.ok (omega arith)
            (length-set m.table.pages _ _ ∙ sized);
      heap_ok = m.heap_ok;
      heap_up = m.heap_up;
      table = record (m.table) {
        pages = set m.table.pages (page_table_index v) (bit_or (bit_and p 0xfffff000) flags);
      };
      found = get_or-set_self m.d'.tables (page_dir_index v) _ none (omega (arith, m.ok.size));
      entries = λ w.
          entry-put v w _ m.d' m.table _ m.ok (omega arith) m.found
          ∙ ap (λ (e : ℕ). if w / 4096 == v / 4096 then bit_or (bit_and p 0xfffff000) flags else e)
              (m.entries w);
      same_addr = m.same_addr;
    }

-- `unmap_page` clears the entry of the page, and every other page keeps its own.
pub unmap_page-entry :
    (v w : ℕ) (d : Directory)
    → IsDirectory d
    → v < 2 ^ 32
    → IsDirectory (unmap_page v d) × (entry (unmap_page v d) w ≡ mapped_entry d v 0 w)
unfolding unmap_page
unmap_page-entry v w d ok small = elim (Option-cases (get_or d.tables (page_dir_index v) none)) [
  | inl missing ↦
      rw (store_page-none (page_dir_index v) (page_table_index v) 0 d missing)
        (ok, no_table-entry v w d missing)
  | inr (t, there) ↦
      let sized : length t.pages ≡ page_entries = ok.sizes (page_dir_index v) t there in
      rw (store_page-some (page_dir_index v) (page_table_index v) 0 d t there) (
        put-IsDirectory d (page_dir_index v) _ _ ok (omega arith) (length-set t.pages _ _ ∙ sized),
        entry-put v w 0 d t _ ok (omega arith) there,
      )
]
