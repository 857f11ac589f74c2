-- ===== src/Tests/Memory.antt =====
-- Bytes and blocks.
use kyro_kernel.Base.{codes, ℕ, ◌+◌, refl, inr, List, [], ◌∷◌, arith}
use kyro_kernel.Memory.{memcpy, memmove}
use kyro_kernel.Memory.Move.{Writes, byte_at, memcpy_lem, memmove_lem}
use kyro_kernel.Heap.{fresh_heap, heap_start}
use kyro_kernel.Heap.Blocks.{IsValid, Ascending, blocks, words, pages, blocks-Ascending}

abbrev bytes : List ℕ
bytes = codes "abcdefgh"

memmove_lem_example : Writes bytes 2 4 (λ i. byte_at bytes (0 + i)) (memmove bytes 2 0 4)
memmove_lem_example = memmove_lem 4 bytes 2 0 (omega arith) (omega arith)

memcpy_lem_example : Writes bytes 4 4 (λ i. byte_at bytes (0 + i)) (memcpy bytes 4 0 4)
memcpy_lem_example = memcpy_lem 4 bytes 4 0 (omega arith) (omega arith) (inr (omega arith))

fresh_heap-IsValid : IsValid fresh_heap
fresh_heap-IsValid = record { above = omega arith; below = omega arith; aligned = refl }

blocks-Ascending_example : Ascending heap_start (blocks (words 10 ∷ pages 4096 ∷ []) fresh_heap)
blocks-Ascending_example =
    blocks-Ascending (words 10 ∷ pages 4096 ∷ []) fresh_heap (omega arith, (omega arith, tt))
      fresh_heap-IsValid
