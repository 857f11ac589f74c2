-- ===== src/Heap.antt =====
-- The kernel's allocator, the first part of kernel/utils/memory.c: a pointer that only moves up.
pub mod Blocks
pub mod Room
use kyro_kernel.Base.{leb, if◌then◌else◌, ℕ, ◌+◌, ◌%◌, ◌^◌, bit_and}

-- `uint32_t`
abbrev pub u32 : ℕ → ℕ
u32 n = n % 2 ^ 32

-- `heap_current` and `heap_end` at start; nothing changes `heap_end`.
abbrev pub heap_start : ℕ
heap_start = 0x300000

abbrev pub heap_end : ℕ
heap_end = 0x800000

pub record Heap : Type 0 where
  pub current : ℕ

abbrev pub fresh_heap : Heap
fresh_heap = record { current = heap_start }

-- `(size + 3) & ~3`
pub align_word : ℕ → ℕ
align_word size = bit_and (u32 (size + 3)) 0xfffffffc

-- `(heap_current + 0xFFF) & ~0xFFF`
pub align_page : ℕ → ℕ
align_page p = bit_and (u32 (p + 0xfff)) 0xfffff000

-- The address, 0 if there is no room, and the heap it leaves.
unfoldable pub kmalloc : ℕ → Heap → ℕ × Heap
unfolding align_word
kmalloc size h =
    let size' = align_word size in
    let top = u32 (h.current + size') in
    if leb heap_end top then (0, h) else (h.current, record { current = top })

unfoldable pub kmalloc_a : ℕ → Heap → ℕ × Heap
unfolding align_page kmalloc
kmalloc_a size h = kmalloc size (record { current = align_page h.current })

-- Virtual is physical: the second component is what goes through `phys_addr`.
pub kmalloc_p : ℕ → Heap → (ℕ × ℕ) × Heap
unfolding kmalloc
kmalloc_p size h = let (addr, h') = kmalloc size h in ((addr, addr), h')

unfoldable pub kmalloc_ap : ℕ → Heap → (ℕ × ℕ) × Heap
unfolding kmalloc_a
kmalloc_ap size h = let (addr, h') = kmalloc_a size h in ((addr, addr), h')

-- Nothing is given back.
unfoldable pub kfree : ℕ → Heap → Heap
kfree ptr h = h

pub malloc : ℕ → Heap → ℕ × Heap
unfolding kmalloc
malloc size h = kmalloc size h

pub free : ℕ → Heap → Heap
unfolding kfree
free ptr h = kfree ptr h
