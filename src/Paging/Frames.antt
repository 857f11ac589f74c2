-- ===== src/Paging/Frames.antt =====
-- The bitmap of frames.
pub mod Used
pub mod First
use kyro_kernel.Base.{
  leb, ◌==◌, if◌then◌else◌, get_or, set, ℕ, zero, suc, ◌+◌, ◌-◌, ◌*◌, ◌/◌, ◌%◌, ◌^◌, bit_and,
  bit_or, Option, none, some, List,
}
use kyro_kernel.Paging.{page_size}

-- `frames` and `nframes`; a word of the bitmap is a `uint32_t`.
pub record Frames : Type 0 where
  pub words : List ℕ
  pub nframes : ℕ

unfoldable pub set_frame : ℕ → Frames → Frames
set_frame frame_addr f =
    let frame = frame_addr / page_size in
    if leb f.nframes frame then f else record f {
      words = set f.words (frame / 32) (bit_or (get_or f.words (frame / 32) 0) (2 ^ (frame % 32)));
    }

pub clear_frame : ℕ → Frames → Frames
clear_frame frame_addr f =
    let frame = frame_addr / page_size in
    if leb f.nframes frame then f else record f {
      words =
          set f.words (frame / 32)
            (bit_and (get_or f.words (frame / 32) 0) (2 ^ 32 - 1 - 2 ^ (frame % 32)));
    }

pub test_frame : ℕ → Frames → ℕ
test_frame frame_addr f =
    let frame = frame_addr / page_size in
    if leb f.nframes frame then 1 else bit_and (get_or f.words (frame / 32) 0) (2 ^ (frame % 32))

-- The loop on `j`, with `n` bits left.
pub free_bit : ℕ → ℕ → ℕ → Option ℕ
free_bit word j zero = none
free_bit word j (suc n) =
    let rest = free_bit word (j + 1) n in if bit_and word (2 ^ j) == 0 then some j else rest

-- The loop on `i`, with `n` words left; `(uint32_t)-1` when there is no free frame.
pub first_free_loop : Frames → ℕ → ℕ → ℕ
unfolding free_bit
first_free_loop f i zero = 0xffffffff
first_free_loop f i (suc n) =
    let rest = first_free_loop f (i + 1) n in
    if get_or f.words i 0 == 0xffffffff
    then rest
    else elim (free_bit (get_or f.words i 0) 0 32) [ some j ↦ i * 32 + j | none ↦ rest ]

unfoldable pub first_free_frame : Frames → ℕ
unfolding first_free_loop
first_free_frame f = first_free_loop f 0 (f.nframes / 32)
