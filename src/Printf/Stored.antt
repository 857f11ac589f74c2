-- ===== src/Printf/Stored.antt =====
-- The `switch` of `vsprintf` in kernel/printf.c against that of `printf`.
use kyro_kernel.Base.{
  ◌==◌, if◌then◌else◌, ◌>>=◌, get_elem?, ℕ, zero, suc, ◌-◌, ◌/◌, ◌%◌, ◌^◌, ◌≡◌, refl, ap, fun_ext,
  Bool, true, false, ◌||◌, Option, none, some, List, [], ◌∷◌,
}
use mathlib.Core.Option
use kyro_kernel.CString.{text}
use kyro_kernel.Printf.{
  Arg, digit_chars, digits_loop, print_number, puts, print_signed, print_unsigned, print_pointer,
  print_string, directive, temp_loop, print_number_to_buffer, store_signed, store_unsigned,
  store_pointer, copied, store_string, store_directive,
}

temp_loop-digits_loop :
    (room num base : ℕ) (acc : List ℕ) → temp_loop room num base acc ≡ digits_loop room num base acc
unfolding temp_loop digits_loop
temp_loop-digits_loop zero num base acc = refl
temp_loop-digits_loop (suc room) num base acc =
    ap
      (λ (f : ℕ → Option (List ℕ)).
        if num == 0
        then some acc
        else if base == 0
        then none
        else get_elem? digit_chars (num % base) >>= f)
      (fun_ext (λ d. temp_loop-digits_loop room (num / base) base (d ∷ acc)))

-- The two functions on numbers make the same bytes.
number_same : (num base : ℕ) → print_number_to_buffer num base ≡ print_number num base
unfolding print_number_to_buffer print_number
number_same num base =
    ap (λ (o : Option (List ℕ)). if num == 0 then some (b'0' ∷ []) else o)
      (temp_loop-digits_loop 32 num base [])

signed_same : store_signed ≡ print_signed
unfolding store_signed print_signed
signed_same =
    fun_ext (λ w. fun_ext (λ args. rw (number_same (2 ^ 32 - w) 10, number_same w 10) refl))

unsigned_same : store_unsigned ≡ print_unsigned
unfolding store_unsigned print_unsigned
unsigned_same = fun_ext (λ base. fun_ext (λ w. fun_ext (λ args. rw (number_same w base) refl)))

pointer_same : store_pointer ≡ print_pointer
unfolding store_pointer print_pointer
pointer_same = fun_ext (λ w. fun_ext (λ args. rw (number_same w 16) refl))

copied-text : (s : List ℕ) → copied s ≡ text s
unfolding copied text
copied-text [] = refl
copied-text (c ∷ s) =
    ap (λ (o : Option (List ℕ)). if c == 0 then some [] else Option.map (◌∷◌ c) o) (copied-text s)

string_at : (o : Option (List ℕ)) (args : List Arg) → store_string o args ≡ print_string o args
unfolding store_string print_string copied puts
string_at none args = refl
string_at (some s) args = rw (copied-text s) refl

string_same : store_string ≡ print_string
string_same = fun_ext (λ o. fun_ext (λ args. string_at o args))

if-or :
    {A : Type 0} (a b : Bool) (x y : A)
    → (if a then x else if b then x else y) ≡ (if a || b then x else y)
if-or true b x y = refl
if-or false b x y = refl

-- A conversion stores what it prints, counts the same and leaves the same arguments.
pub store_directive-directive :
    (c : ℕ) (args : List Arg) → store_directive c args ≡ directive c args
unfolding store_directive directive
store_directive-directive c args =
    rw (if-or (c == b'x') (c == b'X'), signed_same, unsigned_same, pointer_same, string_same) refl
