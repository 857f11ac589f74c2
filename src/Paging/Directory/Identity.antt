-- ===== src/Paging/Directory/Identity.antt =====
-- The identity map of `paging_init`.
use kyro_kernel.Base.{
  ltb, leb, ◌==◌, if◌then◌else◌, ◌>>=◌, length, get_or, set, length-set, get_or-set_self, ℕ, zero,
  suc, ◌+◌, ◌*◌, ◌/◌, ◌%◌, ◌^◌, ◌≤◌, ◌<◌, bit_and, bit_or, ◌≡◌, refl, sym, ap, ◌∙◌, ◌&&◌, Option,
  none, some, arith,
}
use kyro_kernel.Paging.{page_entries}
use kyro_kernel.Paging.Directory.Translate.{entry_value}
use kyro_kernel.Heap.{Heap, heap_end}
use kyro_kernel.Heap.Blocks
use kyro_kernel.Paging.Directory.{
  PageTable, Directory, page_dir_index, page_table_index, make_table, map_page, identity_map,
}
use kyro_kernel.Paging.Directory.Entry.{IsDirectory, entry}
use kyro_kernel.Paging.Directory.Map.{store_page-some, written, put-IsDirectory, entry-put}
use kyro_kernel.Paging.Directory.Mapped.{mapped_entry, table_room, map_page-Mapped}

-- The entry of a page that is mapped to itself, present and writable.
abbrev pub own_entry : ℕ → ℕ
own_entry w = w / 4096 * 4096 + 3

-- The entries when `n` pages from `i` on are mapped to themselves.
abbrev pub identity_entry : Directory → ℕ → ℕ → ℕ → ℕ
identity_entry d n i w =
    if leb (i / 4096) (w / 4096) && ltb (w / 4096) (i / 4096 + n) then own_entry w else entry d w

-- A run that ends in these entries, the same address and this heap at most.
pub record Ends (d : Directory) (h : Heap) (more : ℕ) (e : ℕ → ℕ) (r : Option (Directory × Heap))
    : Type 0 where
  pub d' : Directory
  pub h' : Heap
  pub run : r ≡ some (d', h')
  pub ok : IsDirectory d'
  pub heap_ok : Blocks.IsValid h'
  pub heap_up : h'.current ≤ h.current + more
  pub entries : (w : ℕ) → entry d' w ≡ e w
  pub same_addr : d'.physical_addr ≡ d.physical_addr

map_again :
    (v p flags : ℕ) (d : Directory) (h : Heap) (t : PageTable)
    → get_or d.tables (page_dir_index v) none ≡ some t
    → map_page v p flags d h
      ≡ some (
        written d (page_dir_index v) t (page_table_index v) (bit_or (bit_and p 0xfffff000) flags),
        h,
      )
unfolding map_page
map_again v p flags d h t found =
    let made : make_table (page_dir_index v) flags d h ≡ some (d, h) =
      rw (found, make_table) refl in
    rw
      (
        made,
        store_page-some (page_dir_index v) (page_table_index v)
            (bit_or (bit_and p 0xfffff000) flags) d t found,
      )
      refl

one_more_page :
    (d d1 : Directory) (n i w : ℕ)
    → i % 4096 ≡ 0
    → ((w : ℕ) → entry d1 w ≡ mapped_entry d i (i / 4096 * 4096 + 3) w)
    → identity_entry d1 n (i + 4096) w ≡ identity_entry d (suc n) i w
one_more_page d d1 n i w a h = ground (arith, h w)

identity_map-suc :
    (n i : ℕ) (d d1 : Directory) (h h1 : Heap)
    → map_page i i 3 d h ≡ some (d1, h1)
    → identity_map (suc n) i d h ≡ identity_map n (i + 4096) d1 h1
identity_map-suc n i d d1 h h1 run = unfold identity_map in rw run refl

within_table :
    (n i j : ℕ) (d : Directory) (h : Heap) (t : PageTable)
    → IsDirectory d
    → Blocks.IsValid h
    → i % 4096 ≡ 0
    → j * 2 ^ 22 ≤ i
    → i + n * 4096 ≤ (j + 1) * 2 ^ 22
    → j < page_entries
    → get_or d.tables j none ≡ some t
    → Ends d h 0 (identity_entry d n i) (identity_map n i d h)
within_table zero i j d h t ok heap a lo hi small found = record {
  d' = d;
  h' = h;
  run = unfold identity_map in refl;
  ok = ok;
  heap_ok = heap;
  heap_up = omega arith;
  entries = λ w. ground arith;
  same_addr = refl;
}
within_table (suc n) i j d h t ok heap a lo hi small found =
    let at : page_dir_index i ≡ j = omega arith in
    let here : get_or d.tables (page_dir_index i) none ≡ some t =
      ap (λ (k : ℕ). get_or d.tables k none) at ∙ found in
    let sized : length t.pages ≡ page_entries = ok.sizes (page_dir_index i) t here in
    let x : ℕ = bit_or (bit_and i 0xfffff000) 3 in
    let t1 : PageTable = record t { pages = set t.pages (page_table_index i) x } in
    let d1 : Directory = written d (page_dir_index i) t (page_table_index i) x in
    let found1 : get_or d1.tables j none ≡ some t1 =
      ap (λ (k : ℕ). get_or d1.tables k none) (sym at)
      ∙ get_or-set_self d.tables (page_dir_index i) (some t1) none (omega (arith, ok.size)) in
    let ok1 : IsDirectory d1 =
      put-IsDirectory d (page_dir_index i) t1 d.tables_physical ok (omega arith)
        (length-set t.pages (page_table_index i) x ∙ sized) in
    let value : x ≡ i / 4096 * 4096 + 3 = entry_value i 3 (omega arith) (omega arith) in
    let step : (w : ℕ) → entry d1 w ≡ mapped_entry d i (i / 4096 * 4096 + 3) w = λ w.
      entry-put i w x d t d.tables_physical ok (omega arith) here
      ∙ ap (λ (y : ℕ). if w / 4096 == i / 4096 then y else entry d w) value in
    let rest =
      within_table n (i + 4096) j d1 h t1 ok1 heap (omega arith) (omega arith) (omega arith) small
        found1 in
    record {
      d' = rest.d';
      h' = rest.h';
      run = identity_map-suc n i d d1 h h (map_again i i 3 d h t here) ∙ rest.run;
      ok = rest.ok;
      heap_ok = rest.heap_ok;
      heap_up = rest.heap_up;
      entries = λ w. rest.entries w ∙ one_more_page d d1 n i w a step;
      same_addr = rest.same_addr;
    }

-- The pages of one table, the table included if there is none.
pub one_table :
    (j : ℕ) (d : Directory) (h : Heap)
    → IsDirectory d
    → Blocks.IsValid h
    → h.current + table_room ≤ heap_end
    → j < page_entries
    → Ends d h table_room (identity_entry d 1024 (j * 2 ^ 22)) (identity_map 1024 (j * 2 ^ 22) d h)
one_table j d h ok heap room small =
    let i : ℕ = j * 2 ^ 22 in
    let m = map_page-Mapped i i 3 d h ok heap room (omega arith) in
    let at : page_dir_index i ≡ j = omega arith in
    let found1 : get_or m.d'.tables j none ≡ some m.table =
      ap (λ (k : ℕ). get_or m.d'.tables k none) (sym at) ∙ m.found in
    let value : bit_or (bit_and i 0xfffff000) 3 ≡ i / 4096 * 4096 + 3 =
      entry_value i 3 (omega arith) (omega arith) in
    let step : (w : ℕ) → entry m.d' w ≡ mapped_entry d i (i / 4096 * 4096 + 3) w =
      λ w. m.entries w ∙ ap (λ (y : ℕ). mapped_entry d i y w) value in
    let rest =
      within_table 1023 (i + 4096) j m.d' m.h' m.table m.ok m.heap_ok (omega arith) (omega arith)
        (omega arith) small found1 in
    record {
      d' = rest.d';
      h' = rest.h';
      run = identity_map-suc 1023 i d m.d' h m.h' m.run ∙ rest.run;
      ok = rest.ok;
      heap_ok = rest.heap_ok;
      heap_up = omega (arith, rest.heap_up, m.heap_up);
      entries = λ w. rest.entries w ∙ one_more_page d m.d' 1023 i w (omega arith) step;
      same_addr = rest.same_addr ∙ m.same_addr;
    }

-- Mapping `m + n` pages is mapping `m` pages and then `n`.
pub identity_map-append :
    (m n i : ℕ) (d : Directory) (h : Heap)
    → identity_map (m + n) i d h
      ≡ (identity_map m i d h >>= λ (r : Directory × Heap). identity_map n (i + m * 4096) r.0 r.1)
unfolding identity_map
identity_map-append zero n i d h =
    ap (λ (k : ℕ). identity_map k i d h) (omega arith)
    ∙ ap (λ (k : ℕ). identity_map n k d h) (omega arith)
identity_map-append (suc m) n i d h =
    let e : suc m + n ≡ suc (m + n) = omega arith in
    ap (λ (k : ℕ). identity_map k i d h) e
    ∙ go (map_page i i 3 d h) (λ (r : Directory × Heap). identity_map-append m n (i + 4096) r.0 r.1)
  where
    go :
        (o : Option (Directory × Heap))
        → ((r : Directory × Heap)
            → identity_map (m + n) (i + 4096) r.0 r.1 ≡ (
                identity_map m (i + 4096) r.0 r.1 >>= λ (s : Directory × Heap).
                identity_map n (i + 4096 + m * 4096) s.0 s.1))
        → (o >>= λ (r : Directory × Heap). identity_map (m + n) (i + 4096) r.0 r.1) ≡ (
            (o >>= λ (r : Directory × Heap). identity_map m (i + 4096) r.0 r.1)
            >>= λ (r : Directory × Heap). identity_map n (i + suc m * 4096) r.0 r.1)
    go none h = refl
    go (some r) h =
        h r
        ∙ ap
            (λ (k : ℕ). identity_map m (i + 4096) r.0 r.1 >>= λ (s : Directory × Heap).
              identity_map n k s.0 s.1)
            (omega arith)
