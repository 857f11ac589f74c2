-- ===== src/Paging/Directory/Alloc.antt =====
-- `alloc_frame`, and the user flag of a new table.
use kyro_kernel.Base.{
  ◌==◌, if◌then◌else◌, ==_iff, Bool-cases, ℕ, ◌+◌, ◌-◌, ◌*◌, ◌/◌, ◌%◌, ◌^◌, ◌≤◌, ◌<◌, bit_and,
  bit_or, ◌≡◌, refl, sym, ◌∙◌, ◌⊎◌, inl, inr, Bool, true, false, Option, some, arith,
}
use kyro_kernel.Base.Bits.{bit, bit-le-one, bit-bit_or, bit_and-pow_zero}
use kyro_kernel.Paging.{page_user}
use kyro_kernel.Paging.Frames.Used.{IsBitmap, used}
use kyro_kernel.Paging.Frames.First.{FindsFrame, first_free_frame-FindsFrame, found, full}
use kyro_kernel.Heap.{Heap, heap_end, u32}
use kyro_kernel.Heap.Blocks
use kyro_kernel.Paging.Frames.{Frames, first_free_frame, set_frame}
use kyro_kernel.Paging.Directory.{
  Directory, alloc_frame, frame_flags, get_physical_address, directory_entry, map_page,
}
use kyro_kernel.Paging.Directory.Entry.{IsDirectory}
use kyro_kernel.Paging.Directory.Mapped.{table_room}
use kyro_kernel.Paging.Directory.Translate.{map_page-get_physical_address}

pub frame_flags-present : (k w : Bool) → (frame_flags k w < 4096) × (frame_flags k w % 2 ≡ 1)
unfolding frame_flags
frame_flags-present true true = (omega arith, refl)
frame_flags-present true false = (omega arith, refl)
frame_flags-present false true = (omega arith, refl)
frame_flags-present false false = (omega arith, refl)

-- What `alloc_frame` does: the page of `v` goes to a frame, which is then in use.
pub record Allocated (v : ℕ) (f : Frames) (frame : ℕ) (r : Option (Frames × (Directory × Heap)))
    : Type 0 where
  pub d' : Directory
  pub h' : Heap
  pub run : r ≡ some (set_frame (frame * 4096) f, (d', h'))
  pub ok : IsDirectory d'
  pub address : (w : ℕ) → w / 4096 ≡ v / 4096 → get_physical_address w d' ≡ frame * 4096 + w % 4096

at_page : (v w a b : ℕ) → w / 4096 ≡ v / 4096 → (if w / 4096 == v / 4096 then a else b) ≡ a
at_page v w a b e = let t : (w / 4096 == v / 4096) ≡ true = (==_iff _ _).1 e in rw t refl

alloc-run :
    (v frame : ℕ) (k wr : Bool) (f : Frames) (d d' : Directory) (h h' : Heap)
    → frame < 2 ^ 20
    → u32 (first_free_frame f * 4096) ≡ frame * 4096
    → map_page v (frame * 4096) (frame_flags k wr) d h ≡ some (d', h')
    → alloc_frame v k wr f d h ≡ some (set_frame (frame * 4096) f, (d', h'))
unfolding alloc_frame
alloc-run v frame k wr f d d' h h' hf e run =
    let test : (frame * 4096 == 0xffffffff) ≡ false = ground arith in rw (e, test, run) refl

-- Any frame number but a multiple of 2 ^ 20 less one is taken for a frame.
alloc-Allocated :
    (v frame : ℕ) (is_kernel is_writable : Bool) (f : Frames) (d : Directory) (h : Heap)
    → IsDirectory d
    → Blocks.IsValid h
    → h.current + table_room ≤ heap_end
    → v < 2 ^ 32
    → frame < 2 ^ 20
    → u32 (first_free_frame f * 4096) ≡ frame * 4096
    → Allocated v f frame (alloc_frame v is_kernel is_writable f d h)
unfolding alloc_frame
alloc-Allocated v frame k wr f d h ok heap room hv hf e =
    let (small, here) = frame_flags-present k wr in
    let (d', h', run, ok', address) =
      map_page-get_physical_address v (frame * 4096) (frame_flags k wr) d h ok heap room hv
        (omega arith) small here in
    record {
      d' = d';
      h' = h';
      run = alloc-run v frame k wr f d d' h h' hf e run;
      ok = ok';
      address = λ w same. address w ∙ at_page v w _ _ same ∙ omega arith;
    }

-- With a valid heap that has room for a table, a directory of full size, and one bit for each of
-- fewer than 2 ^ 20 frames, `alloc_frame` maps the page of `v` to the first frame that is not in
-- use, and calls `set_frame` of it; when all are in use it maps the page to frame 0xFFFFF, which
-- is not one of them.
pub alloc_frame-Allocated :
    (v : ℕ) (is_kernel is_writable : Bool) (f : Frames) (d : Directory) (h : Heap)
    → IsBitmap f
    → f.nframes < 2 ^ 20
    → IsDirectory d
    → Blocks.IsValid h
    → h.current + table_room ≤ heap_end
    → v < 2 ^ 32
    → (frame : ℕ) × Allocated v f frame (alloc_frame v is_kernel is_writable f d h)
      × (((frame < f.nframes) × (used f frame ≡ 0) × ((k : ℕ) → k < frame → used f k ≡ 1))
          ⊎ ((frame ≡ 0xfffff) × ((k : ℕ) → k < f.nframes → used f k ≡ 1)))
alloc_frame-Allocated v k wr f d h bits few ok heap room hv =
    go (first_free_frame f) refl (first_free_frame-FindsFrame f bits)
  where
    go :
        (r : ℕ)
        → first_free_frame f ≡ r
        → FindsFrame f 0 f.nframes r
        → (frame : ℕ) × Allocated v f frame (alloc_frame v k wr f d h)
          × (((frame < f.nframes) × (used f frame ≡ 0) × ((k : ℕ) → k < frame → used f k ≡ 1))
              ⊎ ((frame ≡ 0xfffff) × ((k : ℕ) → k < f.nframes → used f k ≡ 1)))
    go _ e (found i ge lt here before) = (
      i,
      alloc-Allocated v i k wr f d h ok heap room hv (omega arith) (omega arith),
      inl (lt, here, λ k less. before k (omega arith) less),
    )
    go _ e (full before) = (
      0xfffff,
      alloc-Allocated v 0xfffff k wr f d h ok heap room hv (omega arith) (omega arith),
      inr (refl, λ k less. before k (omega arith) less),
    )

-- The directory's entry of a new table that begins a page has the user bit exactly when the flags
-- have not.
pub directory_entry-user :
    (tmp flags : ℕ) → tmp % 4096 ≡ 0 → bit 2 (directory_entry tmp flags) ≡ 1 - bit 2 flags
unfolding directory_entry bit
directory_entry-user tmp flags h =
    let aligned : bit 2 tmp ≡ 0 = omega arith in
    let base : bit 2 (bit_or (bit_or tmp 1) 2) ≡ 0 =
      bit-bit_or 2 (bit_or tmp 1) 2 ∙ omega (arith, bit-bit_or 2 tmp 1) in
    elim (Bool-cases (bit_and flags page_user == 0)) [
      | inl no_user ↦
          let off : bit 2 flags ≡ 0 = (==_iff _ _).0 (sym (bit_and-pow_zero 2 flags) ∙ no_user) in
          rw no_user (bit-bit_or 2 (bit_or (bit_or tmp 1) 2) 4 ∙ omega (arith, off, base))
      | inr user ↦
          let on : (bit 2 flags == 0) ≡ false = sym (bit_and-pow_zero 2 flags) ∙ user in
          rw user (base ∙ ground (arith, bit-le-one 2 flags, on))
    ]
