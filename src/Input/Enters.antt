-- ===== src/Input/Enters.antt =====
-- What `gets_simple` and `scanf` enter.
use kyro_kernel.Base.{
  ltb, ◌==◌, Bool-cases, length, codes, ℕ, ◌-◌, ◌≤◌, ◌<◌, ◌≡◌, refl, sym, inl, inr, true, false,
  none, some, List, [], ◌∷◌, arith,
}
use kyro_kernel.CString.{text, strcmp, char_diff}
use kyro_kernel.CString.Compare.{is_equal}
use kyro_kernel.CString.Copy.{strcpy-text, stored, text-stored}
use kyro_kernel.Keyboard.{Keyboard, keyboard_get_char, keyboard_data_available}
use kyro_kernel.Keyboard.Poll.{get_char-empty}
use kyro_kernel.Console.{Keys, Console, next_char, is_newline, is_printable}
use kyro_kernel.Console.Line.{Arrives, edit, Acts, IsReader, Entered}
use kyro_kernel.Console.Line.Loop.{line_loop-Entered}
use kyro_kernel.Console.Line.Acts.{IsShown, put-Acts, erase-Acts}
use kyro_kernel.Input.{
  poll_key, wait_key, echo, getchar_blocking, simple_reader, gets_simple, scanf, Scanned,
}

poll_key-get : (k : Keyboard) → poll_key k ≡ keyboard_get_char k
unfolding poll_key
poll_key-get k = elim (Bool-cases (keyboard_data_available k)) [
  | inl waiting ↦ rw waiting refl
  | inr nothing ↦ rw nothing (sym (get_char-empty k nothing))
]

-- Both waits give the same characters.
pub wait_key-next_char :
    (k : Keyboard) (is : List (Keyboard → Keyboard)) → wait_key k is ≡ next_char k is
unfolding wait_key next_char
wait_key-next_char k [] = rw (poll_key-get k) refl
wait_key-next_char k (i ∷ is) =
    rw (poll_key-get k, wait_key-next_char (i (keyboard_get_char k).1) is) refl

echo-Acts : (c : ℕ) → Acts IsShown (echo c)
unfolding echo
echo-Acts c con v = elim (Bool-cases (c == 8)) [
  | inl back ↦ rw back (put-Acts 8 con v)
  | inr other ↦ elim (Bool-cases (is_newline c)) [
    | inl ends ↦ rw (other, ends) (put-Acts b'\n' con v)
    | inr inside ↦ elim (Bool-cases (is_printable c)) [
      | inl shown ↦ rw (other, inside, shown) (put-Acts c con v)
      | inr ignored ↦ rw (other, inside, ignored) (con, refl, refl, v)
    ]
  ]
]

getchar-reads :
    (con : Console) (c : ℕ) (keys : Keys)
    → IsShown con
    → next_char con.keys.keyboard con.keys.interrupts ≡ some (c, keys)
    → (con' : Console) × (getchar_blocking con ≡ some (c, con')) × (con'.keys ≡ keys) × IsShown con'
unfolding getchar_blocking
getchar-reads con c keys v e =
    let (con', run, k, v') = echo-Acts c (record con { keys = keys }) v in
    (con', rw (wait_key-next_char con.keys.keyboard con.keys.interrupts, e, run) refl, k, v')

simple_reader-IsReader : IsReader IsShown simple_reader
simple_reader-IsReader = record {
  reads = getchar-reads;
  at_newline = λ con v. (con, refl, refl, v);
  at_erased = erase-Acts;
  at_stored = λ c con v. (con, refl, refl, v);
}

-- On a screen that shows a page, with a buffer longer than `max_len - 1`, when the characters that
-- arrive close a line, `gets_simple` enters the line that `terminal_get_line` does.
pub gets_simple-Entered :
    (max_len fuel : ℕ) (cs buffer line rest : List ℕ) (con : Console)
    → max_len - 1 < length buffer
    → Arrives con.keys cs
    → IsShown con
    → length cs < fuel
    → edit (max_len - 1) [] cs ≡ some (line, rest)
    → Entered IsShown (length buffer) line rest (gets_simple fuel buffer max_len con)
unfolding gets_simple
gets_simple-Entered max_len fuel cs buffer line rest con room a v h e =
    line_loop-Entered IsShown simple_reader max_len fuel cs buffer line rest con
      simple_reader-IsReader room a v h e

-- The buffer of `scanf` has 256 bytes. With the format `%s`, on a screen that shows a page and fuel
-- for each character that arrives, when those close a line of up to 255 characters, `scanf` copies
-- it to its argument and returns 1 if the argument has room for it and its NUL; otherwise it writes
-- behind the argument.
pub scanf-line :
    (fuel : ℕ) (cs target input_buffer line rest : List ℕ) (con : Console)
    → length input_buffer ≡ 256
    → Arrives con.keys cs
    → IsShown con
    → length cs < fuel
    → edit 255 [] cs ≡ some (line, rest)
    → (length line < length target
        → (r : Scanned) × (scanf fuel (codes "%s\0") target input_buffer con ≡ some r)
          × (r.matched ≡ 1)
          × (text r.target ≡ some line)
          × Arrives r.con.keys rest)
      × (length target ≤ length line → scanf fuel (codes "%s\0") target input_buffer con ≡ none)
unfolding scanf strcmp char_diff is_equal
scanf-line fuel cs target input_buffer line rest con size a v h e =
    let en = gets_simple-Entered 256 fuel cs input_buffer line rest con (omega arith) a v h e in
    let copy = strcpy-text target en.buffer en.holds in
    (
      λ room.
          let fits : ltb (length line) (length target) ≡ true = ground arith in
          (
            record {
              matched = 1;
              target = stored line target;
              input_buffer = en.buffer;
              con = en.con;
            },
            rw (en.run, copy, fits) refl,
            refl,
            text-stored en.buffer target en.holds,
            en.arrives,
          ),
      λ full.
          let over : ltb (length line) (length target) ≡ false = ground arith in
          rw (en.run, copy, over) refl,
    )
