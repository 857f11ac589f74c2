-- ===== src/Stdio.antt =====
-- lib/stdio/stdio.c: the three streams, and the functions on streams.
pub mod Gets
use kyro_kernel.Base.{
  leb, ◌==◌, if◌then◌else◌, ◌>>=◌, get_elem?, replicate, codes, ℕ, zero, suc, ◌+◌, Bool, ◌||◌,
  Option, none, some, List, [], ◌∷◌,
}
use mathlib.Core.Option
use kyro_kernel.CString.{strcpy, strlen}
use kyro_kernel.Heap.{Heap, malloc, free}
use kyro_kernel.Memory.{store}
use kyro_kernel.Printf.{Arg, vsprintf}
use kyro_kernel.Input.{vsscanf}
use kyro_kernel.Screen.{Screen, putchar}

abbrev pub stream_size : ℕ
stream_size = 1024

-- `FILE`; the buffer is `none` where the pointer is NULL.
pub record Stream : Type 0 where
  pub fd : ℕ
  pub buffer : Option (List ℕ)
  pub buffer_size : ℕ
  pub buffer_index : ℕ

-- `stdin_file`, `stdout_file` and `stderr_file`, and the arrays that become their buffers.
pub record Streams : Type 0 where
  pub stdin_file : Stream
  pub stdout_file : Stream
  pub stderr_file : Stream
  pub stdin_buffer : List ℕ
  pub stdout_buffer : List ℕ
  pub stderr_buffer : List ℕ

abbrev no_stream : ℕ → Stream
no_stream fd = record { fd = fd; buffer = none; buffer_size = 0; buffer_index = 0 }

-- As the program starts.
abbrev pub streams_at_start : Streams
streams_at_start = record {
  stdin_file = no_stream 0;
  stdout_file = no_stream 1;
  stderr_file = no_stream 2;
  stdin_buffer = replicate stream_size 0;
  stdout_buffer = replicate stream_size 0;
  stderr_buffer = replicate stream_size 0;
}

abbrev attach : List ℕ → Stream → Stream
attach b f = record f { buffer = some b; buffer_size = stream_size; buffer_index = 0 }

unfoldable pub stdio_init : Streams → Streams
stdio_init s = record s {
  stdin_file = attach s.stdin_buffer s.stdin_file;
  stdout_file = attach s.stdout_buffer s.stdout_file;
  stderr_file = attach s.stderr_buffer s.stderr_file;
}

-- The pointer and what it points to, `none` for NULL, and the heap that is left.
pub fopen : (filename mode : List ℕ) → Heap → Option (ℕ × Stream) × Heap
fopen filename mode h =
    let (fp, h') = malloc 16 h in if fp == 0 then (none, h') else (some (fp, no_stream 0), h')

pub fclose : Option ℕ → Heap → ℕ × Heap
fclose none h = (0, h)
fclose (some fp) h = (0, free fp h)

-- The array as it is left; the size and the stream are not looked at.
pub fgets : List ℕ → ℕ → Stream → Option (List ℕ)
fgets target size fp = strcpy target (codes "Hello, World!\0")

-- `none` is a write through NULL, or behind the buffer.
pub fprintf : Stream → List ℕ → List Arg → Option (ℕ × Stream)
fprintf fp format args = do
  b ← fp.buffer
  (b', len) ← vsprintf b format args
  some (len, record fp { buffer = some b' })

pub fscanf : Stream → List ℕ → ℕ
fscanf fp format = vsscanf [] format

-- The next byte of the buffer, which is read again from its start behind its end.
pub getchar_stdio : Stream → Option (ℕ × Stream)
getchar_stdio f =
    let i = if leb f.buffer_size f.buffer_index then 0 else f.buffer_index in
    do b ← f.buffer; c ← get_elem? b i; some (c, record f { buffer_index = i + 1 })

-- `for (i = 0; i < len; i++) putchar(str[i]);`
pub put_loop : List ℕ → ℕ → Screen → Option Screen
put_loop l zero s = some s
put_loop [] (suc n) s = none
put_loop (c ∷ cs) (suc n) s = do s' ← putchar c s; put_loop cs n s'

-- The count, and the screen.
pub puts_stdio : List ℕ → Screen → Option (ℕ × Screen)
unfolding put_loop
puts_stdio l s = do len ← strlen l; s1 ← put_loop l len s; s2 ← putchar b'\n' s1; some (len + 1, s2)

-- A newline, or a byte that is -1 as a `char`.
abbrev pub ends_line : ℕ → Bool
ends_line c = c == b'\n' || c == 255

-- What a turn of the loop of `gets` comes to: the line is closed with its NUL, or a byte is stored.
-- With it go the array and the stream.
pub data Got : Type 0 where
  closed : List ℕ → Stream → Got
  going : List ℕ → Stream → Got

-- The body of the loop, at `len`; `none` is a fault.
pub gets_turn : ℕ → List ℕ → Stream → Option Got
gets_turn len target f = do
  (c, f') ← getchar_stdio f
  if ends_line c
      then Option.map (λ b. closed b f') (store target len 0)
      else Option.map (λ b. going b f') (store target len c)

-- The loop of `gets`, on fuel, and the NUL behind it.
pub gets_loop : ℕ → ℕ → List ℕ → Stream → Option (List ℕ × Stream)
unfolding gets_turn
gets_loop zero len target f = none
gets_loop (suc fuel) len target f = gets_turn len target f >>= λ t. elim t [
  | closed b f' ↦ some (b, f')
  | going b f' ↦ gets_loop fuel (len + 1) b f'
]

pub gets : ℕ → List ℕ → Stream → Option (List ℕ × Stream)
unfolding gets_loop
gets fuel target f = gets_loop fuel 0 target f
