-- ===== src/CString.antt =====
-- The functions of kernel/utils/string.c. A `char *` is what is left of its array from the place
-- it points to, a list of bytes; reading or writing past the array is a fault, `none`. A function
-- that writes through its first argument returns that array as it is left.
pub mod HasText
pub mod Copy
pub mod Compare
pub mod Search
use kyro_kernel.Base.{
  ltb, ◌==◌, if◌then◌else◌, ◌>>=◌, ℕ, zero, suc, ◌+◌, ◌-◌, ◌^◌, Bool, not, ◌&&◌, Option, none, some,
  List, [], ◌∷◌,
}
use mathlib.Core.Option

-- The text that a buffer holds: the bytes before its first NUL.
unfoldable pub text : List ℕ → Option (List ℕ)
text [] = none
text (c ∷ cs) = if c == 0 then some [] else Option.map (◌∷◌ c) (text cs)

pub strlen : List ℕ → Option ℕ
strlen [] = none
strlen (c ∷ cs) = if c == 0 then some 0 else Option.map suc (strlen cs)

pub strcpy : (dest src : List ℕ) → Option (List ℕ)
strcpy [] src = none
strcpy (d ∷ ds) [] = none
strcpy (d ∷ ds) (c ∷ cs) = if c == 0 then some (0 ∷ ds) else Option.map (◌∷◌ c) (strcpy ds cs)

-- `while (n--) *dest++ = '\0';`
pub zero_fill : ℕ → List ℕ → Option (List ℕ)
zero_fill zero ds = some ds
zero_fill (suc n) [] = none
zero_fill (suc n) (d ∷ ds) = Option.map (◌∷◌ 0) (zero_fill n ds)

-- The first loop stops at the NUL it has just stored, before `n--`, so the second loop still
-- fills `n` bytes behind it.
pub strncpy : (dest src : List ℕ) → ℕ → Option (List ℕ)
strncpy dest src zero = some dest
strncpy [] src (suc n) = none
strncpy (d ∷ ds) [] (suc n) = none
strncpy (d ∷ ds) (c ∷ cs) (suc n) =
    if c == 0
    then Option.map (◌∷◌ c) (zero_fill (suc n) ds)
    else Option.map (◌∷◌ c) (strncpy ds cs n)

pub strcat : (dest src : List ℕ) → Option (List ℕ)
unfolding strcpy
strcat [] src = none
strcat (d ∷ ds) src = if d == 0 then strcpy (d ∷ ds) src else Option.map (◌∷◌ d) (strcat ds src)

-- The second loop of `strncat` and the store behind it: at most `n` bytes, then a NUL.
pub strncat_copy : (dest src : List ℕ) → ℕ → Option (List ℕ)
strncat_copy [] src n = none
strncat_copy (d ∷ ds) src zero = some (0 ∷ ds)
strncat_copy (d ∷ ds) [] (suc n) = none
strncat_copy (d ∷ ds) (c ∷ cs) (suc n) =
    if c == 0 then some (c ∷ ds) else Option.map (◌∷◌ c) (strncat_copy ds cs n)

pub strncat : (dest src : List ℕ) → ℕ → Option (List ℕ)
unfolding strncat_copy
strncat [] src n = none
strncat (d ∷ ds) src n =
    if d == 0 then strncat_copy (d ∷ ds) src n else Option.map (◌∷◌ d) (strncat ds src n)

-- An `int`, as it is compared by the callers: below, equal or above zero, with its amount.
pub data Diff : Type 0 where
  below : ℕ → Diff
  equal : Diff
  above : ℕ → Diff

-- `(unsigned char)*s1 - (unsigned char)*s2`
unfoldable pub char_diff : ℕ → ℕ → Diff
char_diff a b = if ltb a b then below (b - a) else if ltb b a then above (a - b) else equal

unfoldable pub strcmp : (s1 s2 : List ℕ) → Option Diff
unfolding char_diff
strcmp [] s2 = none
strcmp (a ∷ as') [] = none
strcmp (a ∷ as') (b ∷ bs) = if not (a == 0) && (a == b) then strcmp as' bs else some (char_diff a b)

pub strncmp : (s1 s2 : List ℕ) → ℕ → Option Diff
unfolding char_diff
strncmp s1 s2 zero = some equal
strncmp [] s2 (suc n) = none
strncmp (a ∷ as') [] (suc n) = none
strncmp (a ∷ as') (b ∷ bs) (suc n) =
    if not (a == 0) && (a == b) then strncmp as' bs n else some (char_diff a b)

-- A `char` is signed: what it becomes when it is compared with an `int`, as the bits of that.
abbrev pub sign_extend : ℕ → ℕ
sign_extend c = if ltb c 128 then c else c + (2 ^ 32 - 256)

-- The pointers that the searches return are offsets from `s`; NULL is the inner `none`.
pub strchr : List ℕ → ℕ → Option (Option ℕ)
strchr [] c = none
strchr (x ∷ s) c =
    let rest = Option.map (Option.map suc) (strchr s c) in
    if x == 0
    then (if c == 0 then some (some 0) else some none)
    else if sign_extend x == c
    then some (some 0)
    else rest

-- The loop of `strrchr` at offset `i`, `last` being the last match so far.
pub strrchr_loop : List ℕ → ℕ → ℕ → Option ℕ → Option (Option ℕ)
strrchr_loop [] c i last = none
strrchr_loop (x ∷ s) c i last =
    let rest = strrchr_loop s c (suc i) (if sign_extend x == c then some i else last) in
    if x == 0 then (if c == 0 then some (some i) else some last) else rest

pub strrchr : List ℕ → ℕ → Option (Option ℕ)
unfolding strrchr_loop
strrchr s c = strrchr_loop s c 0 none

-- The inner loop of `strstr`: is the needle used up when the two first differ?
pub match_here : (haystack needle : List ℕ) → Option Bool
match_here [] needle = none
match_here (h ∷ hs) [] = none
match_here (h ∷ hs) (n ∷ ns) =
    if not (h == 0) && (not (n == 0) && (h == n)) then match_here hs ns else some (n == 0)

-- The outer loop of `strstr`.
pub strstr_loop : (haystack needle : List ℕ) → Option (Option ℕ)
unfolding match_here
strstr_loop [] needle = none
strstr_loop (h ∷ hs) needle =
    let rest = Option.map (Option.map suc) (strstr_loop hs needle) in
    if h == 0
    then some none
    else match_here (h ∷ hs) needle >>= λ found. if found then some (some 0) else rest

pub strstr : (haystack needle : List ℕ) → Option (Option ℕ)
unfolding strstr_loop
strstr haystack [] = none
strstr haystack (n ∷ ns) = if n == 0 then some (some 0) else strstr_loop haystack (n ∷ ns)
