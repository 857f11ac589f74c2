-- ===== src/Tests/Streams.antt =====
-- The streams of the small library, as the program starts.
use kyro_kernel.Base.{
  length, get_elem?, replicate, ℕ, zero, suc, ◌+◌, ◌%◌, ◌<◌, ◌≡◌, refl, false, none, some, List,
  arith,
}
use kyro_kernel.Table.Model.{All}
use kyro_kernel.Stdio.{Stream, going, stream_size, streams_at_start, stdio_init, ends_line, gets}
use kyro_kernel.Stdio.Gets.{gets_turns, reads_at, IsOpen, gets-endless}

All-zero : (n : ℕ) → All (λ c. ends_line c ≡ false) (replicate n 0)
All-zero zero = tt
All-zero (suc n) = (refl, All-zero n)

stdin-IsOpen : IsOpen (stdio_init streams_at_start).stdin_file (replicate stream_size 0)
unfolding stdio_init
stdin-IsOpen = record { buffer = refl; size = refl; some_room = omega arith }

abbrev zeros : List ℕ
zeros = replicate stream_size 0

abbrev ones : List ℕ
ones = replicate 64 1

abbrev stdin : Stream
stdin = (stdio_init streams_at_start).stdin_file

gets-endless_example :
    (gets 5000 ones stdin ≡ none)
    × ((target : List ℕ) × (f : Stream) × (gets_turns 3 0 ones stdin ≡ some (going target f))
        × (length target ≡ 64)
        × ((i : ℕ)
            → i < 3
            → get_elem? target i ≡ get_elem? zeros ((reads_at stdin + i) % length zeros)))
    × (gets_turns 65 0 ones stdin ≡ none)
gets-endless_example =
    gets-endless 5000 3 ones zeros stdin stdin-IsOpen (All-zero stream_size) (omega arith)
