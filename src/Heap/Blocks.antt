-- ===== src/Heap/Blocks.antt =====
-- The blocks that the allocator hands out.
use kyro_kernel.Base.{
  leb, ◌==◌, if◌then◌else◌, Bool-cases, ℕ, ◌+◌, ◌-◌, ◌*◌, ◌/◌, ◌%◌, ◌^◌, ◌≤◌, ◌<◌, ◌≡◌, inl, inr,
  false, List, [], ◌∷◌, arith,
}
use kyro_kernel.Base.Bits.{bit_and-high_mask}
use kyro_kernel.Heap.{u32, heap_start, heap_end, Heap, align_word, align_page, kmalloc, kmalloc_a}

-- The bounds of `heap_current`: on a word, inside the heap or at its end.
pub record IsValid (h : Heap) : Type 0 where
  pub above : heap_start ≤ h.current
  pub below : h.current ≤ heap_end
  pub aligned : h.current % 4 ≡ 0

-- Rounding up by masking is rounding up by arithmetic, without wrap below the last page.
pub align_word_lem : (size : ℕ) → align_word size ≡ u32 (size + 3) / 4 * 4
unfolding align_word
align_word_lem size = omega (arith, bit_and-high_mask 30 2 (u32 (size + 3)))

pub align_page_lem : (p : ℕ) → align_page p ≡ u32 (p + 0xfff) / 4096 * 4096
unfolding align_page
align_page_lem p = omega (arith, bit_and-high_mask 20 12 (u32 (p + 0xfff)))

-- A request that cannot wrap the sums of `kmalloc`.
abbrev pub max_request : ℕ
max_request = 2 ^ 32 - 0x800004

-- What a request may do: nothing, or hand out a block that starts at or above the old pointer and
-- ends at or below the new one.
pub data Allocates (h : Heap) (size : ℕ) : ℕ × Heap → Type 0 where
  refused : (h' : Heap) → h.current ≤ h'.current → IsValid h' → Allocates h size (0, h')
  granted :
      (a : ℕ) (h' : Heap)
      → h.current ≤ a
      → a + size ≤ h'.current
      → a % 4 ≡ 0
      → IsValid h'
      → Allocates h size (a, h')

-- Given a request that is not huge, `kmalloc` keeps the pointer in the heap and on a word, and
-- either returns 0, or a block of at least the requested size above all earlier ones.
pub kmalloc-Allocates :
    (size : ℕ) (h : Heap) → size ≤ max_request → IsValid h → Allocates h size (kmalloc size h)
unfolding kmalloc
kmalloc-Allocates size h small v =
    elim (Bool-cases (leb heap_end (u32 (h.current + align_word size)))) [
      | inl full ↦ rw full (refused h (omega arith) v)
      | inr room ↦
          let fits : u32 (h.current + align_word size) < heap_end = ground arith in
          rw room (
            granted h.current _ (omega arith) (omega (arith, align_word_lem size)) (omega arith)
              (record {
                above = omega (arith, align_word_lem size);
                below = omega arith;
                aligned = omega (arith, align_word_lem size);
              }))
    ]

align_page-le :
    (p : ℕ)
    → p ≤ heap_end
    → (p ≤ align_page p) × (align_page p ≤ heap_end) × (align_page p % 4096 ≡ 0)
align_page-le p h = (
  omega (arith, align_page_lem p),
  omega (arith, align_page_lem p),
  omega (arith, align_page_lem p),
)

IsValid-align_page : {h : Heap} → IsValid h → IsValid (record { current = align_page h.current })
IsValid-align_page {h} v = omega (arith, align_page_lem h.current)

Allocates-from :
    {h g : Heap} {size : ℕ} {r : ℕ × Heap}
    → h.current ≤ g.current
    → Allocates g size r
    → Allocates h size r
Allocates-from le (refused h' up v) = refused h' (omega arith) v
Allocates-from le (granted a h' up end at v) = granted a h' (omega arith) end at v

-- `kmalloc_a` does as `kmalloc`.
pub kmalloc_a-Allocates :
    (size : ℕ) (h : Heap) → size ≤ max_request → IsValid h → Allocates h size (kmalloc_a size h)
unfolding kmalloc_a
kmalloc_a-Allocates size h small v =
    Allocates-from ((align_page-le h.current v.below).0)
      (kmalloc-Allocates size _ small (IsValid-align_page v))

-- A block that `kmalloc_a` returns begins a page.
pub kmalloc_a-page : (size : ℕ) (h : Heap) → IsValid h → (kmalloc_a size h).0 % 4096 ≡ 0
unfolding kmalloc_a kmalloc
kmalloc_a-page size h v = ground (arith, align_page-le h.current v.below)

-- A client's calls.
pub data Request : Type 0 where
  words : ℕ → Request
  pages : ℕ → Request

abbrev pub size_of : Request → ℕ
size_of (words n) = n
size_of (pages n) = n

pub allocate : Request → Heap → ℕ × Heap
allocate (words n) h = kmalloc n h
allocate (pages n) h = kmalloc_a n h

-- The blocks, address and size, of the requests that were granted, in order, and the heap left.
pub blocks : List Request → Heap → List (ℕ × ℕ)
unfolding allocate
blocks [] h = []
blocks (r ∷ rs) h =
    let (a, h') = allocate r h in
    let rest = blocks rs h' in if a == 0 then rest else (a, size_of r) ∷ rest

-- Blocks one above the other from `lo` to the end of the heap, each on a word.
abbrev pub Ascending : ℕ → List (ℕ × ℕ) → Type 0
Ascending lo [] = lo ≤ heap_end
Ascending lo ((a, n) ∷ bs) = (lo ≤ a) × (a % 4 ≡ 0) × Ascending (a + n) bs

abbrev pub AllSmall : List Request → Type 0
AllSmall [] = Unit
AllSmall (r ∷ rs) = (size_of r ≤ max_request) × AllSmall rs

Ascending-le : {lo hi : ℕ} (bs : List (ℕ × ℕ)) → lo ≤ hi → Ascending hi bs → Ascending lo bs
Ascending-le [] le h = omega arith
Ascending-le ((a, n) ∷ bs) le h = (omega arith, h.1, h.2)

allocate-Allocates :
    (r : Request) (h : Heap)
    → size_of r ≤ max_request
    → IsValid h
    → Allocates h (size_of r) (allocate r h)
unfolding allocate
allocate-Allocates (words n) h small v = kmalloc-Allocates n h small v
allocate-Allocates (pages n) h small v = kmalloc_a-Allocates n h small v

-- One request, then the others.
blocks-step :
    (n : ℕ) (h : Heap) (r : ℕ × Heap) (rest : Heap → List (ℕ × ℕ))
    → IsValid h
    → Allocates h n r
    → ((g : Heap) → IsValid g → Ascending g.current (rest g))
    → Ascending h.current (if r.0 == 0 then rest r.1 else (r.0, n) ∷ rest r.1)
blocks-step n h r rest v (refused g up w) ih = Ascending-le (rest g) up (ih g w)
blocks-step n h r rest v (granted a g up end at w) ih =
    let pos : (a == 0) ≡ false = ground (arith, v.above) in
    rw pos (up, at, Ascending-le (rest g) end (ih g w))

-- From a valid heap, whatever is asked for in requests that are not huge, the blocks that are
-- handed out lie in the heap from the pointer up, on words, each above the one before: no two of
-- them overlap.
pub blocks-Ascending :
    (rs : List Request) (h : Heap) → AllSmall rs → IsValid h → Ascending h.current (blocks rs h)
unfolding blocks
blocks-Ascending [] h small v = v.below
blocks-Ascending (r ∷ rs) h small v =
    blocks-step (size_of r) h (allocate r h) (blocks rs) v (allocate-Allocates r h small.0 v)
      (λ g w. blocks-Ascending rs g small.1 w)
