-- ===== src/Tests/Pages.antt =====
-- The page directory and the frames.
use kyro_kernel.Base.{
  ltb, ◌==◌, if◌then◌else◌, replicate, length-replicate, ℕ, ◌+◌, ◌*◌, ◌/◌, ◌%◌, ◌<◌, bit_or, ◌≡◌,
  refl, ap, ◌⊎◌, true, false, some, arith,
}
use kyro_kernel.Heap.{Heap, fresh_heap}
use kyro_kernel.Heap.Blocks
use kyro_kernel.Paging.Frames.{Frames}
use kyro_kernel.Paging.Frames.Used.{IsBitmap, used}
use kyro_kernel.Paging.Directory.{
  Boot, paging_init, Directory, cleared_directory, map_page, get_physical_address, alloc_frame,
}
use kyro_kernel.Paging.Directory.Entry.{IsDirectory, cleared-IsDirectory}
use kyro_kernel.Paging.Directory.Translate.{map_page-get_physical_address}
use kyro_kernel.Paging.Directory.Alloc.{Allocated, alloc_frame-Allocated}
use kyro_kernel.Paging.Directory.Start.{paging_init-identity}

-- The bitmap of `paging_init`.
abbrev no_frames : Frames
no_frames = record { words = replicate 128 0; nframes = 4096 }

no_frames-IsBitmap : IsBitmap no_frames
no_frames-IsBitmap = record { size = ap (λ (n : ℕ). n * 32) (length-replicate {A = ℕ} 128 0) }

pub fresh-IsValid : Blocks.IsValid fresh_heap
fresh-IsValid = record { above = omega arith; below = omega arith; aligned = refl }

abbrev no_pages : Directory
no_pages = cleared_directory 0

map_page-get_physical_address_example :
    (d' : Directory) × (h' : Heap) × (map_page 0x5000 0x9000 3 no_pages fresh_heap ≡ some (d', h'))
    × IsDirectory d'
    × ((w : ℕ)
        → get_physical_address w d' ≡ (
            if w / 4096 == 0x5000 / 4096
            then 0x9000 / 4096 * 4096 + w % 4096
            else get_physical_address w no_pages))
map_page-get_physical_address_example =
    map_page-get_physical_address 0x5000 0x9000 3 no_pages fresh_heap (cleared-IsDirectory 0)
      fresh-IsValid (omega arith) (omega arith) (omega arith) (omega arith) refl

alloc_frame-Allocated_example :
    (frame : ℕ) × Allocated 0x5000 no_frames frame
      (alloc_frame 0x5000 false true no_frames no_pages fresh_heap)
    × (((frame < 4096) × (used no_frames frame ≡ 0) × ((k : ℕ) → k < frame → used no_frames k ≡ 1))
        ⊎ ((frame ≡ 0xfffff) × ((k : ℕ) → k < 4096 → used no_frames k ≡ 1)))
alloc_frame-Allocated_example =
    alloc_frame-Allocated 0x5000 false true no_frames no_pages fresh_heap no_frames-IsBitmap
      (omega arith) (cleared-IsDirectory 0) fresh-IsValid (omega arith) (omega arith)

paging_init-identity_example :
    (b : Boot) × (paging_init 0x11 fresh_heap ≡ some b)
    × IsDirectory b.current_directory
    × IsBitmap b.frames
    × ((n : ℕ) → used b.frames n ≡ 0)
    × ((w : ℕ) → get_physical_address w b.current_directory ≡ (if ltb w 0x800000 then w else 0))
    × (b.cr3 ≡ 0)
    × (b.cr0 ≡ bit_or 0x11 0x80000000)
paging_init-identity_example = paging_init-identity 0x11 fresh_heap fresh-IsValid (omega arith)
