-- ===== src/Paging/Directory/Start.antt =====
-- What `paging_init` leaves.
use kyro_kernel.Base.{
  ltb, ◌==◌, if◌then◌else◌, Bool-cases, ◌>>=◌, replicate, length-replicate, get_or-replicate, ℕ,
  ◌+◌, ◌*◌, ◌/◌, ◌%◌, ◌^◌, ◌≤◌, ◌<◌, bit_or, ◌≡◌, refl, sym, ap, ◌∙◌, inl, inr, false, Option, none,
  some, arith,
}
use kyro_kernel.Base.Bits.{bit, bit-zero}
use kyro_kernel.Heap.{Heap, heap_end, kmalloc, kmalloc_a}
use kyro_kernel.Heap.Blocks
use kyro_kernel.Heap.Room.{kmalloc-room, kmalloc_a-room}
use kyro_kernel.Paging.{page_entries}
use kyro_kernel.Paging.Frames.Used.{IsBitmap, used}
use kyro_kernel.Paging.Directory.{
  PageTable, Boot, Directory, cleared_directory, page_dir_index, page_table_index, paging_init,
  identity_map, get_physical_address,
}
use kyro_kernel.Paging.Directory.Entry.{
  IsDirectory, cleared-IsDirectory, entry_of, entry, translate, get_physical_address-entry,
}
use kyro_kernel.Paging.Directory.Mapped.{table_room}
use kyro_kernel.Paging.Directory.Translate.{entry_value, translate-mapped}
use kyro_kernel.Paging.Directory.Identity.{
  identity_entry, own_entry, one_table, identity_map-append,
}

cleared-entry : (p w : ℕ) → entry (cleared_directory p) w ≡ 0
unfolding entry
cleared-entry p w =
    ap (λ (u : Option PageTable). entry_of u (page_table_index w))
      (get_or-replicate {A = Option PageTable} page_entries (page_dir_index w) none)

two_tables :
    (d d1 : Directory) (w : ℕ)
    → entry d w ≡ 0
    → ((w : ℕ) → entry d1 w ≡ identity_entry d 1024 (0 * 2 ^ 22) w)
    → identity_entry d1 1024 (1 * 2 ^ 22) w ≡ (if ltb w 0x800000 then own_entry w else 0)
two_tables d d1 w h e = ground (arith, e w)

own-translate : (w : ℕ) → w < 2 ^ 32 → translate (own_entry w) w ≡ w
own-translate w h =
    ap (λ (e : ℕ). translate e w) (sym (entry_value w 3 h (omega arith)))
    ∙ translate-mapped w 3 w h (omega arith) refl
    ∙ omega arith

identity :
    (w : ℕ)
    → translate (if ltb w 0x800000 then own_entry w else 0) w ≡ (if ltb w 0x800000 then w else 0)
unfolding translate
identity w = elim (Bool-cases (ltb w 0x800000)) [
  | inl low ↦ let small : w < 2 ^ 32 = ground arith in rw low (own-translate w small)
  | inr high ↦ rw high refl
]

-- Both tables, from a directory that is cleared.
eight_mb :
    (h : Heap)
    → Blocks.IsValid h
    → h.current + (table_room + table_room) ≤ heap_end
    → (d : Directory) × (h' : Heap) × (identity_map 2048 0 (cleared_directory 0) h ≡ some (d, h'))
      × IsDirectory d
      × ((w : ℕ) → get_physical_address w d ≡ (if ltb w 0x800000 then w else 0))
      × Blocks.IsValid h'
      × (h'.current ≤ h.current + (table_room + table_room))
      × (d.physical_addr ≡ 0)
eight_mb h v room =
    let d0 : Directory = cleared_directory 0 in
    let a = one_table 0 d0 h (cleared-IsDirectory 0) v (omega arith) (omega arith) in
    let up : a.h'.current ≤ h.current + table_room = a.heap_up in
    let b = one_table 1 a.d' a.h' a.ok a.heap_ok (omega arith) (omega arith) in
    (
      b.d',
      b.h',
      identity_map-append 1024 1024 0 d0 h
          ∙ ap
              (λ (o : Option (Directory × Heap)).
                o >>= λ (r : Directory × Heap). identity_map 1024 (0 + 1024 * 4096) r.0 r.1)
              a.run
          ∙ b.run,
      b.ok,
      λ w.
          get_physical_address-entry w b.d'
          ∙ ap (λ (e : ℕ). translate e w)
              (b.entries w ∙ two_tables d0 a.d' w (cleared-entry 0 w) a.entries)
          ∙ identity w,
      b.heap_ok,
      omega (arith, a.heap_up, b.heap_up),
      b.same_addr ∙ a.same_addr,
    )

init-run :
    (cr0 : ℕ) (h h1 h2 h3 : Heap) (x y : ℕ) (d : Directory)
    → kmalloc 512 h ≡ (x, h1)
    → kmalloc_a 8196 h1 ≡ (y, h2)
    → (x == 0) ≡ false
    → (y == 0) ≡ false
    → identity_map 2048 0 (cleared_directory 0) h2 ≡ some (d, h3)
    → paging_init cr0 h
      ≡ some (record {
        frames = record { words = replicate 128 0; nframes = 4096 };
        current_directory = d;
        kernel_directory = y;
        heap = h3;
        cr3 = d.physical_addr;
        cr0 = bit_or cr0 0x80000000;
      })
unfolding paging_init
init-run cr0 h h1 h2 h3 x y d a b nx ny run = rw (a, b, nx, ny, run) refl

no_frame_used : (n : ℕ) → used (record { words = replicate 128 0; nframes = 4096 }) n ≡ 0
unfolding used
no_frame_used n = ap (bit (n % 32)) (get_or-replicate {A = ℕ} 128 (n / 32) 0) ∙ bit-zero (n % 32)

-- The start of paging: what `paging_init` leaves, in a heap of which it takes at most 64 KB.
pub record Boots (cr0 : ℕ) (h : Heap) (r : Option Boot) : Type 0 where
  pub b : Boot
  pub run : r ≡ some b
  pub dir_ok : IsDirectory b.current_directory
  pub bits : IsBitmap b.frames
  pub none_used : (n : ℕ) → used b.frames n ≡ 0
  pub address :
      (w : ℕ) → get_physical_address w b.current_directory ≡ (if ltb w 0x800000 then w else 0)
  pub count : b.frames.nframes ≡ 4096
  pub loads : b.cr3 ≡ 0
  pub paging_on : b.cr0 ≡ bit_or cr0 0x80000000
  pub heap_ok : Blocks.IsValid b.heap
  pub heap_up : b.heap.current ≤ h.current + 0x10000

pub paging_init-Boots :
    (cr0 : ℕ) (h : Heap)
    → Blocks.IsValid h
    → h.current + 0x10000 ≤ heap_end
    → Boots cr0 h (paging_init cr0 h)
paging_init-Boots cr0 h v room =
    let (x, h1, a, px, v1, up1) = kmalloc-room 512 h v (omega arith) in
    let (y, h2, b, py, v2, up2) = kmalloc_a-room 8196 h1 v1 (omega arith) in
    let (d, h3, run, ok, address, v3, up3, zero_addr) = eight_mb h2 v2 (omega arith) in
    record {
      b = record {
        frames = record { words = replicate 128 0; nframes = 4096 };
        current_directory = d;
        kernel_directory = y;
        heap = h3;
        cr3 = d.physical_addr;
        cr0 = bit_or cr0 0x80000000;
      };
      run = init-run cr0 h h1 h2 h3 x y d a b (ground arith) (ground arith) run;
      dir_ok = ok;
      bits = record { size = ap (λ (n : ℕ). n * 32) (length-replicate {A = ℕ} 128 0) };
      none_used = no_frame_used;
      address = address;
      count = refl;
      loads = zero_addr;
      paging_on = refl;
      heap_ok = v3;
      heap_up = omega arith;
    }

-- With 64 KB of room in a valid heap, `paging_init` ends; then there is one bit for each frame and
-- no frame is in use, an address below 8 MB goes to itself, and every other address nowhere. What
-- is loaded into cr3 is 0, since the address of the kernel's directory is never set, and the top
-- bit of cr0 is set.
pub paging_init-identity :
    (cr0 : ℕ) (h : Heap)
    → Blocks.IsValid h
    → h.current + 0x10000 ≤ heap_end
    → (b : Boot) × (paging_init cr0 h ≡ some b)
      × IsDirectory b.current_directory
      × IsBitmap b.frames
      × ((n : ℕ) → used b.frames n ≡ 0)
      × ((w : ℕ) → get_physical_address w b.current_directory ≡ (if ltb w 0x800000 then w else 0))
      × (b.cr3 ≡ 0)
      × (b.cr0 ≡ bit_or cr0 0x80000000)
paging_init-identity cr0 h v room =
    let s = paging_init-Boots cr0 h v room in
    (s.b, s.run, s.dir_ok, s.bits, s.none_used, s.address, s.loads, s.paging_on)
