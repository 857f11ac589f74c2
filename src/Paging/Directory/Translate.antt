-- ===== src/Paging/Directory/Translate.antt =====
-- The addresses that a mapping gives.
use kyro_kernel.Base.{
  ◌==◌, if◌then◌else◌, ℕ, ◌+◌, ◌*◌, ◌/◌, ◌%◌, ◌^◌, ◌≤◌, ◌<◌, bit_and, bit_or, ◌≡◌, refl, sym, ap,
  ◌∙◌, Bool, true, false, some, arith,
}
use kyro_kernel.Base.Bits.{bit_and-low_mask, bit_and-high_mask, bit_or-disjoint}
use kyro_kernel.Heap.{Heap, heap_end}
use kyro_kernel.Heap.Blocks
use kyro_kernel.Paging.Directory.{Directory, map_page, unmap_page, get_physical_address}
use kyro_kernel.Paging.Directory.Entry.{IsDirectory, entry, translate, get_physical_address-entry}
use kyro_kernel.Paging.Directory.Mapped.{table_room, map_page-Mapped, unmap_page-entry}

-- An entry that `map_page` makes, when it is marked present.
pub entry_value :
    (p flags : ℕ)
    → p < 2 ^ 32
    → flags < 4096
    → bit_or (bit_and p 0xfffff000) flags ≡ p / 4096 * 4096 + flags
entry_value p flags hp hf =
    let e : bit_and p 0xfffff000 ≡ p / 4096 * 2 ^ 12 = omega (arith, bit_and-high_mask 20 12 p) in
    rw e (bit_or-disjoint 12 (p / 4096) flags hf)

pub translate-mapped :
    (p flags w : ℕ)
    → p < 2 ^ 32
    → flags < 4096
    → flags % 2 ≡ 1
    → translate (bit_or (bit_and p 0xfffff000) flags) w ≡ p / 4096 * 4096 + w % 4096
unfolding translate
translate-mapped p flags w hp hf here =
    let e : ℕ = p / 4096 * 4096 + flags in
    let present : bit_and e 1 ≡ 1 = bit_and-low_mask 1 e ∙ omega arith in
    let frame : bit_and e 0xfffff000 ≡ p / 4096 * 2 ^ 12 =
      omega (arith, bit_and-high_mask 20 12 e) in
    let offset : bit_and w 0xfff ≡ w % 4096 = bit_and-low_mask 12 w in
    rw (entry_value p flags hp hf, present, frame, offset)
      (bit_or-disjoint 12 (p / 4096) (w % 4096) (omega arith))

-- With a valid heap that has room for a table, and a directory of full size, mapping the page of
-- `v` to the frame of `p` with flags below 4096 that have the present bit succeeds; then every
-- address of the page goes to the same offset in the frame, and every other address where it went
-- before.
pub map_page-get_physical_address :
    (v p flags : ℕ) (d : Directory) (h : Heap)
    → IsDirectory d
    → Blocks.IsValid h
    → h.current + table_room ≤ heap_end
    → v < 2 ^ 32
    → p < 2 ^ 32
    → flags < 4096
    → flags % 2 ≡ 1
    → (d' : Directory) × (h' : Heap) × (map_page v p flags d h ≡ some (d', h'))
      × IsDirectory d'
      × ((w : ℕ)
          → get_physical_address w d' ≡ (
              if w / 4096 == v / 4096
              then p / 4096 * 4096 + w % 4096
              else get_physical_address w d))
map_page-get_physical_address v p flags d h ok heap room hv hp hf here =
    let m = map_page-Mapped v p flags d h ok heap room hv in
    (
      m.d',
      m.h',
      m.run,
      m.ok,
      λ w.
          get_physical_address-entry w m.d'
          ∙ ap (λ (e : ℕ). translate e w) (m.entries w)
          ∙ by_page (w / 4096 == v / 4096) w,
    )
  where
    by_page :
        (b : Bool) (w : ℕ)
        → translate (if b then bit_or (bit_and p 0xfffff000) flags else entry d w) w
          ≡ (if b then p / 4096 * 4096 + w % 4096 else get_physical_address w d)
    by_page true w = translate-mapped p flags w hp hf here
    by_page false w = sym (get_physical_address-entry w d)

-- In a directory of full size, after `unmap_page` of an address of 32 bits its page has no
-- address, and every other address goes where it went.
pub unmap_page-get_physical_address :
    (v w : ℕ) (d : Directory)
    → IsDirectory d
    → v < 2 ^ 32
    → get_physical_address w (unmap_page v d)
      ≡ (if w / 4096 == v / 4096 then 0 else get_physical_address w d)
unfolding translate
unmap_page-get_physical_address v w d ok hv =
    get_physical_address-entry w (unmap_page v d)
    ∙ ap (λ (e : ℕ). translate e w) ((unmap_page-entry v w d ok hv).1)
    ∙ by_page (w / 4096 == v / 4096)
  where
    by_page :
        (b : Bool)
        → translate (if b then 0 else entry d w) w ≡ (if b then 0 else get_physical_address w d)
    by_page true = refl
    by_page false = sym (get_physical_address-entry w d)
