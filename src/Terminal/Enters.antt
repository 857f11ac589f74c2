-- ===== src/Terminal/Enters.antt =====
-- What `terminal_get_line` enters.
use kyro_kernel.Base.{length, ℕ, ◌-◌, ◌<◌, ◌≡◌, refl, some, List, []}
use kyro_kernel.Console.Line.Acts.{IsShown, put-Acts, erase-Acts}
use kyro_kernel.Console.{Console}
use kyro_kernel.Console.Line.{Arrives, edit, IsReader, Entered}
use kyro_kernel.Console.Line.Loop.{line_loop-Entered}
use kyro_kernel.Terminal.{read_key, terminal_reader, terminal_get_line}

terminal_reader-IsReader : IsReader IsShown terminal_reader
unfolding read_key
terminal_reader-IsReader = record {
  reads = λ con c keys v e. (record con { keys = keys }, rw e refl, refl, v);
  at_newline = put-Acts b'\n';
  at_erased = erase-Acts;
  at_stored = put-Acts;
}

-- On a screen that shows a page, with a buffer longer than `max_length - 1`, when the characters
-- that arrive close a line, `terminal_get_line` returns, on fuel for each of them. The buffer then
-- holds the line as a text: what the editor of lines makes of the characters, each printable. The
-- characters behind the line are still to come, and the screen shows a page.
pub terminal_get_line-Entered :
    (max_length fuel : ℕ) (cs buffer line rest : List ℕ) (con : Console)
    → max_length - 1 < length buffer
    → Arrives con.keys cs
    → IsShown con
    → length cs < fuel
    → edit (max_length - 1) [] cs ≡ some (line, rest)
    → Entered IsShown (length buffer) line rest (terminal_get_line fuel buffer max_length con)
unfolding terminal_get_line
terminal_get_line-Entered max_length fuel cs buffer line rest con room a v h e =
    line_loop-Entered IsShown terminal_reader max_length fuel cs buffer line rest con
      terminal_reader-IsReader room a v h e
