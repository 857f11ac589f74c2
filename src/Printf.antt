-- ===== src/Printf.antt =====
-- The formatted output of kernel/printf.c. What `putchar` is given is a list of bytes, in order.
-- `long`, `unsigned long` and pointers have 32 bits (the build has -m32).
pub mod Number
pub mod Format
pub mod Stored
pub mod Steps
use kyro_kernel.Base.{
  leb, ◌==◌, if◌then◌else◌, ◌>>=◌, get_elem?, codes, ℕ, zero, suc, ◌+◌, ◌-◌, ◌/◌, ◌%◌, ◌^◌, ◌||◌,
  Option, none, some, List, [], ◌∷◌, ◌++◌,
}
use mathlib.Core.Option
use kyro_kernel.CString.{text}

-- What a caller passes behind the format: a number, as the bits of its word, or a `char *`, NULL
-- or what is left of its array.
pub data Arg : Type 0 where
  int : ℕ → Arg
  str : Option (List ℕ) → Arg

-- `char digits[] = "0123456789ABCDEF"`
abbrev pub digit_chars : List ℕ
digit_chars = codes "0123456789ABCDEF"

-- `while (num > 0) { buffer[i++] = digits[num % base]; num /= base; }` with `room` places left of
-- the 32 of the buffer. The digits are then taken from the last stored to the first, so the list
-- that is built up is what is printed. No room is a fault, and so is base 0.
unfoldable pub digits_loop : ℕ → ℕ → ℕ → List ℕ → Option (List ℕ)
digits_loop zero num base acc = if num == 0 then some acc else none
digits_loop (suc room) num base acc =
    let rest =
      get_elem? digit_chars (num % base) >>= λ d. digits_loop room (num / base) base (d ∷ acc) in
    if num == 0 then some acc else if base == 0 then none else rest

unfoldable pub print_number : ℕ → ℕ → Option (List ℕ)
print_number num base = if num == 0 then some (b'0' ∷ []) else digits_loop 32 num base []

-- `puts` of printf.c: no newline is added.
pub puts : List ℕ → Option (List ℕ)
unfolding text
puts s = text s

-- What one conversion prints, what it adds to the count, and the arguments it leaves.
pub record Piece : Type 0 where
  pub out : List ℕ
  pub count : ℕ
  pub args : List Arg

-- `case 'd': case 'i':`
unfoldable pub print_signed : ℕ → List Arg → Option Piece
unfolding print_number
print_signed w args =
    if leb (2 ^ 31) w
    then Option.map (λ ds. record { out = b'-' ∷ ds; count = 2; args = args })
        (print_number (2 ^ 32 - w) 10)
    else Option.map (λ ds. record { out = ds; count = 1; args = args }) (print_number w 10)

-- `case 'u':`, `case 'x':` and `case 'X':`
pub print_unsigned : ℕ → ℕ → List Arg → Option Piece
unfolding print_number
print_unsigned base w args =
    Option.map (λ ds. record { out = ds; count = 1; args = args }) (print_number w base)

-- `case 'p':`
pub print_pointer : ℕ → List Arg → Option Piece
unfolding print_number
print_pointer w args =
    Option.map (λ ds. record { out = b'0' ∷ b'x' ∷ ds; count = 1; args = args }) (print_number w 16)

-- `case 's':`
pub print_string : Option (List ℕ) → List Arg → Option Piece
unfolding puts
print_string none args = some (record { out = codes "(null)"; count = 1; args = args })
print_string (some s) args = Option.map (λ t. record { out = t; count = 1; args = args }) (puts s)

-- The conversions that take an argument; one of the wrong kind, or none, is undefined in C.
unfoldable pub with_number : (ℕ → List Arg → Option Piece) → List Arg → Option Piece
with_number f [] = none
with_number f (int w ∷ args) = f w args
with_number f (str s ∷ args) = none

pub with_string : (Option (List ℕ) → List Arg → Option Piece) → List Arg → Option Piece
with_string f [] = none
with_string f (int w ∷ args) = none
with_string f (str s ∷ args) = f s args

-- The `switch` on the byte behind a `%`.
unfoldable pub directive : ℕ → List Arg → Option Piece
unfolding print_signed print_unsigned print_pointer print_string with_number with_string
directive c args =
    if c == b'd' || c == b'i'
    then with_number print_signed args
    else if c == b'u'
    then with_number (print_unsigned 10) args
    else if c == b'x' || c == b'X'
    then with_number (print_unsigned 16) args
    else if c == b'p'
    then with_number print_pointer args
    else if c == b'c'
    then with_number (λ w rest. some (record { out = w % 2 ^ 8 ∷ []; count = 1; args = rest })) args
    else if c == b's'
    then with_string print_string args
    else if c == b'%'
    then some (record { out = b'%' ∷ []; count = 1; args = args })
    else some (record { out = b'%' ∷ c ∷ []; count = 2; args = args })

abbrev pub Printed : Type 0
Printed = List ℕ × ℕ

-- The bytes and the count of one step, before those of the rest.
abbrev pub before : List ℕ → ℕ → Option Printed → Option Printed
before out n rest = Option.map (λ (r : Printed). (out ++ r.0, n + r.1)) rest

-- The loop over the format. A `%` takes the next byte too, whatever it is.
unfoldable pub printf : List ℕ → List Arg → Option Printed
unfolding directive
printf [] args = none
printf (c ∷ []) args = if c == 0 then some ([], 0) else none
printf (c ∷ d ∷ fs) args =
    let plain = before (c ∷ []) 1 (printf (d ∷ fs) args) in
    let formatted = directive d args >>= λ p. before p.out p.count (printf fs p.args) in
    if c == 0 then some ([], 0) else if c == b'%' then formatted else plain

-- `*buffer++ = b;` for each byte.
pub put_bytes : List ℕ → List ℕ → Option (List ℕ)
put_bytes dest [] = some dest
put_bytes [] (b ∷ bs) = none
put_bytes (d ∷ ds) (b ∷ bs) = put_bytes ds bs

-- `char digits[] = "0123456789ABCDEF"` of `print_number_to_buffer`.
abbrev pub buffer_digit_chars : List ℕ
buffer_digit_chars = codes "0123456789ABCDEF"

-- Its loop, with `room` places left of the 32 of `temp`, which is then stored from the last place
-- to the first. No room is a fault, and so is base 0.
pub temp_loop : ℕ → ℕ → ℕ → List ℕ → Option (List ℕ)
temp_loop zero num base acc = if num == 0 then some acc else none
temp_loop (suc room) num base acc =
    let rest = get_elem? buffer_digit_chars (num % base) >>= λ d.
    temp_loop room (num / base) base (d ∷ acc) in
    if num == 0 then some acc else if base == 0 then none else rest

-- The bytes that are stored at `*buffer`, in order.
pub print_number_to_buffer : ℕ → ℕ → Option (List ℕ)
unfolding temp_loop
print_number_to_buffer num base = if num == 0 then some (b'0' ∷ []) else temp_loop 32 num base []

-- `vsprintf` has a `switch` of its own, whose cases store where those of `printf` print. The piece
-- is what one conversion stores. `case 'd': case 'i':`
pub store_signed : ℕ → List Arg → Option Piece
unfolding print_number_to_buffer
store_signed w args =
    let negative =
      Option.map (λ ds. record { out = b'-' ∷ ds; count = 2; args = args })
        (print_number_to_buffer (2 ^ 32 - w) 10) in
    let positive =
      Option.map (λ ds. record { out = ds; count = 1; args = args })
        (print_number_to_buffer w 10) in
    if leb (2 ^ 31) w then negative else positive

-- `case 'u':`, `case 'x':` and `case 'X':`
pub store_unsigned : ℕ → ℕ → List Arg → Option Piece
unfolding print_number_to_buffer
store_unsigned base w args =
    Option.map (λ ds. record { out = ds; count = 1; args = args }) (print_number_to_buffer w base)

-- `case 'p':`
pub store_pointer : ℕ → List Arg → Option Piece
unfolding print_number_to_buffer
store_pointer w args =
    Option.map (λ ds. record { out = b'0' ∷ b'x' ∷ ds; count = 1; args = args })
      (print_number_to_buffer w 16)

-- `while (*s) *buffer++ = *s++;`
pub copied : List ℕ → Option (List ℕ)
copied [] = none
copied (c ∷ s) = let rest = copied s in if c == 0 then some [] else Option.map (◌∷◌ c) rest

-- `case 's':`
pub store_string : Option (List ℕ) → List Arg → Option Piece
unfolding copied
store_string none args =
    Option.map (λ t. record { out = t; count = 1; args = args }) (copied (codes "(null)\0"))
store_string (some s) args = Option.map (λ t. record { out = t; count = 1; args = args }) (copied s)

-- The `switch` of `vsprintf`.
pub store_directive : ℕ → List Arg → Option Piece
unfolding store_signed store_unsigned store_pointer store_string with_number with_string
store_directive c args =
    if c == b'd' || c == b'i'
    then with_number store_signed args
    else if c == b'u'
    then with_number (store_unsigned 10) args
    else if c == b'x'
    then with_number (store_unsigned 16) args
    else if c == b'X'
    then with_number (store_unsigned 16) args
    else if c == b'p'
    then with_number store_pointer args
    else if c == b'c'
    then with_number (λ w rest. some (record { out = w % 2 ^ 8 ∷ []; count = 1; args = rest })) args
    else if c == b's'
    then with_string store_string args
    else if c == b'%'
    then some (record { out = b'%' ∷ []; count = 1; args = args })
    else some (record { out = b'%' ∷ c ∷ []; count = 2; args = args })

-- The loop of `vsprintf`: `dest` is what is left of the destination, and the list is what has been
-- stored, then the NUL.
pub vsprintf_loop : List ℕ → List ℕ → List Arg → Option Printed
unfolding store_directive put_bytes
vsprintf_loop dest [] args = none
vsprintf_loop [] (c ∷ []) args = none
vsprintf_loop (d ∷ dest) (c ∷ []) args = if c == 0 then some (0 ∷ dest, 0) else none
vsprintf_loop dest (c ∷ d ∷ fs) args =
    let plain =
      put_bytes dest (c ∷ []) >>= λ dest'. before (c ∷ []) 1 (vsprintf_loop dest' (d ∷ fs) args) in
    let formatted = store_directive d args >>= λ p.
    put_bytes dest p.out >>= λ dest'. before p.out p.count (vsprintf_loop dest' fs p.args) in
    let finish = put_bytes dest (0 ∷ []) >>= λ dest'. some (0 ∷ dest', 0) in
    if c == 0 then finish else if c == b'%' then formatted else plain

-- The destination as `vsprintf` leaves it, and what it returns.
pub vsprintf : List ℕ → List ℕ → List Arg → Option Printed
vsprintf dest format args = vsprintf_loop dest format args

pub sprintf : List ℕ → List ℕ → List Arg → Option Printed
unfolding vsprintf
sprintf dest format args = vsprintf dest format args

-- A call of `printf` with a literal.
pub record Call : Type 0 where
  pub format : List ℕ
  pub args : List Arg

-- The bytes that a sequence of calls prints.
unfoldable pub render : List Call → Option (List ℕ)
unfolding printf
render [] = some []
render (c ∷ cs) = do
  (out, n) ← printf (c.format ++ 0 ∷ []) c.args
  Option.map (◌++◌ out) (render cs)
