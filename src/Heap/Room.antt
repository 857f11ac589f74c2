-- ===== src/Heap/Room.antt =====
-- Requests that are granted.
use kyro_kernel.Base.{leb, ℕ, ◌+◌, ◌≤◌, ◌<◌, ◌≡◌, refl, false, arith}
use kyro_kernel.Heap.{Heap, heap_end, align_page, kmalloc, kmalloc_a, kmalloc_ap, u32, align_word}
use kyro_kernel.Heap.Blocks.{IsValid, align_word_lem, align_page_lem}

-- With room for the block, the page that aligning may cost and the word that rounding may cost,
-- the block is granted, and takes no more than that.
pub kmalloc_ap-room :
    (size : ℕ) (h : Heap)
    → IsValid h
    → h.current + (size + 0x1004) ≤ heap_end
    → (a : ℕ) × (h' : Heap) × (kmalloc_ap size h ≡ ((a, a), h'))
      × (0 < a)
      × IsValid h'
      × (h'.current ≤ h.current + (size + 0x1004))
unfolding kmalloc_ap kmalloc_a kmalloc
kmalloc_ap-room size h v room =
    let p : ℕ = align_page h.current in
    let low : p ≤ h.current + 0xfff = omega (arith, align_page_lem h.current, v.below) in
    let up : h.current ≤ p = omega (arith, align_page_lem h.current, v.below) in
    let word : align_word size ≤ size + 3 = omega (arith, align_word_lem size) in
    let fits : u32 (p + align_word size) ≡ p + align_word size = omega arith in
    let test : leb heap_end (u32 (p + align_word size)) ≡ false = ground arith in
    (
      p,
      record { current = u32 (p + align_word size) },
      rw test refl,
      omega (arith, v.above),
      record {
        above = omega (arith, v.above);
        below = omega arith;
        aligned = omega (arith, align_word_lem size, align_page_lem h.current);
      },
      omega arith,
    )

pub kmalloc-room :
    (size : ℕ) (h : Heap)
    → IsValid h
    → h.current + (size + 4) ≤ heap_end
    → (a : ℕ) × (h' : Heap) × (kmalloc size h ≡ (a, h'))
      × (0 < a)
      × IsValid h'
      × (h'.current ≤ h.current + (size + 4))
unfolding kmalloc
kmalloc-room size h v room =
    let word : align_word size ≤ size + 3 = omega (arith, align_word_lem size) in
    let fits : u32 (h.current + align_word size) ≡ h.current + align_word size = omega arith in
    let test : leb heap_end (u32 (h.current + align_word size)) ≡ false = ground arith in
    (
      h.current,
      record { current = u32 (h.current + align_word size) },
      rw test refl,
      omega (arith, v.above),
      record {
        above = omega (arith, v.above);
        below = omega arith;
        aligned = omega (arith, align_word_lem size, v.aligned);
      },
      omega arith,
    )

pub kmalloc_a-room :
    (size : ℕ) (h : Heap)
    → IsValid h
    → h.current + (size + 0x1004) ≤ heap_end
    → (a : ℕ) × (h' : Heap) × (kmalloc_a size h ≡ (a, h'))
      × (0 < a)
      × IsValid h'
      × (h'.current ≤ h.current + (size + 0x1004))
unfolding kmalloc_a
kmalloc_a-room size h v room =
    let low : align_page h.current ≤ h.current + 0xfff =
      omega (arith, align_page_lem h.current, v.below) in
    let up : h.current ≤ align_page h.current = omega (arith, align_page_lem h.current, v.below) in
    let g : Heap = record { current = align_page h.current } in
    let (a, h', run, pos, ok, top) =
      kmalloc-room size g
        (record {
          above = omega (arith, v.above);
          below = omega arith;
          aligned = omega (arith, align_page_lem h.current);
        })
        (omega arith) in
    (a, h', run, pos, ok, omega (arith, top))
