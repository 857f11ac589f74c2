-- ===== src/CString/Copy.antt =====
-- What the length and the copying functions of string.c do, in terms of the texts of the buffers.
use kyro_kernel.Base.{
  ltb, if◌then◌else◌, length, take, drop, replicate, ℕ, zero, suc, ◌+◌, ◌-◌, ◌≤◌, ◌<◌, min, ◌≡◌,
  refl, ap, none, some, List, [], ◌∷◌, ◌++◌, arith,
}
use mathlib.Core.Option
use kyro_kernel.CString.{strncat, text, strlen, strcpy, zero_fill, strncpy, strcat, strncat_copy}
use kyro_kernel.CString.HasText.{
  text_of_HasText, HasText, finish, more, HasText-text, HasText-append,
}

-- `strlen` is the length of the text that the buffer holds, and faults exactly where the buffer
-- holds none.
pub strlen-text : (s : List ℕ) → strlen s ≡ Option.map length (text s)
unfolding strlen text
strlen-text [] = refl
strlen-text (c ∷ cs) = ground (arith, strlen-text cs)

-- What a copy leaves in the destination: `s`, its NUL, and the bytes that were there behind them.
abbrev pub stored : List ℕ → List ℕ → List ℕ
stored s dest = s ++ 0 ∷ drop (suc (length s)) dest

strcpy-HasText :
    (dest : List ℕ) {src s : List ℕ}
    → HasText src s
    → strcpy dest src ≡ (if ltb (length s) (length dest) then some (stored s dest) else none)
unfolding strcpy
strcpy-HasText [] (finish e) = ground arith
strcpy-HasText [] (more e h) = ground arith
strcpy-HasText (d ∷ ds) (finish e) = ground arith
strcpy-HasText (d ∷ ds) (more {s} e h) = ground (arith, strcpy-HasText ds h)

-- For a source that holds a text, `strcpy` stores the text with its NUL and leaves the rest of the
-- destination, and faults exactly on a destination too short for the text and its NUL.
pub strcpy-text :
    (dest src : List ℕ) {s : List ℕ}
    → text src ≡ some s
    → strcpy dest src ≡ (if ltb (length s) (length dest) then some (stored s dest) else none)
strcpy-text dest src h = strcpy-HasText dest (HasText-text src h)

zero_fill-replicate :
    (n : ℕ) (ds : List ℕ)
    → zero_fill n ds ≡ (if ltb (length ds) n then none else some (replicate n 0 ++ drop n ds))
unfolding zero_fill
zero_fill-replicate zero ds = ground arith
zero_fill-replicate (suc n) [] = ground arith
zero_fill-replicate (suc n) (d ∷ ds) = ground (arith, zero_fill-replicate n ds)

strncpy-HasText_short :
    (n : ℕ) (dest : List ℕ) {src s : List ℕ}
    → HasText src s
    → length s < n
    → strncpy dest src n ≡ (
        if ltb n (length dest)
        then some (s ++ (replicate (suc (n - length s)) 0 ++ drop (suc n) dest))
        else none)
unfolding strncpy
strncpy-HasText_short zero dest h lt = absurd (omega arith)
strncpy-HasText_short (suc n) [] (finish e) lt = ground arith
strncpy-HasText_short (suc n) [] (more e h) lt = ground arith
strncpy-HasText_short (suc n) (d ∷ ds) (finish e) lt =
    ground (arith, zero_fill-replicate (suc n) ds)
strncpy-HasText_short (suc n) (d ∷ ds) (more {s} e h) lt =
    ground (arith, strncpy-HasText_short n ds h (omega arith))

-- For a text shorter than `n`, `strncpy` stores the text and `n + 1 - strlen` NULs: `n + 1` bytes,
-- one more than `n`. So it faults on a destination of exactly `n` bytes.
pub strncpy-short :
    (n : ℕ) (dest src : List ℕ) {s : List ℕ}
    → text src ≡ some s
    → length s < n
    → strncpy dest src n ≡ (
        if ltb n (length dest)
        then some (s ++ (replicate (suc (n - length s)) 0 ++ drop (suc n) dest))
        else none)
strncpy-short n dest src h lt = strncpy-HasText_short n dest (HasText-text src h) lt

strncpy-HasText_long :
    (n : ℕ) (dest : List ℕ) {src s : List ℕ}
    → HasText src s
    → n ≤ length s
    → strncpy dest src n ≡ (if ltb (length dest) n then none else some (take n s ++ drop n dest))
unfolding strncpy
strncpy-HasText_long zero dest h le = ground arith
strncpy-HasText_long (suc n) [] (finish e) le = absurd (omega arith)
strncpy-HasText_long (suc n) [] (more e h) le = ground arith
strncpy-HasText_long (suc n) (d ∷ ds) (finish e) le = absurd (omega arith)
strncpy-HasText_long (suc n) (d ∷ ds) (more {s} e h) le =
    ground (arith, strncpy-HasText_long n ds h (omega arith))

-- For a text of at least `n` bytes, `strncpy` stores its first `n` bytes and no NUL.
pub strncpy-long :
    (n : ℕ) (dest src : List ℕ) {s : List ℕ}
    → text src ≡ some s
    → n ≤ length s
    → strncpy dest src n ≡ (if ltb (length dest) n then none else some (take n s ++ drop n dest))
strncpy-long n dest src h le = strncpy-HasText_long n dest (HasText-text src h) le

strcat-HasText :
    {dest d : List ℕ} (src : List ℕ) {s : List ℕ}
    → HasText dest d
    → HasText src s
    → strcat dest src
      ≡ (if ltb (length d + length s) (length dest) then some (stored (d ++ s) dest) else none)
unfolding strcat
strcat-HasText src (finish {c} {rest} e) k = ground (arith, strcpy-HasText (c ∷ rest) k)
strcat-HasText src (more e h) k = ground (arith, strcat-HasText src h k)

-- For two buffers that hold texts, `strcat` stores the source's text behind the destination's, if
-- both fit with one NUL, and faults otherwise.
pub strcat-text :
    (dest src : List ℕ) {d s : List ℕ}
    → text dest ≡ some d
    → text src ≡ some s
    → strcat dest src
      ≡ (if ltb (length d + length s) (length dest) then some (stored (d ++ s) dest) else none)
strcat-text dest src h k = strcat-HasText src (HasText-text dest h) (HasText-text src k)

strncat_copy-HasText :
    (n : ℕ) (dest : List ℕ) {src s : List ℕ}
    → HasText src s
    → strncat_copy dest src n
      ≡ (if ltb (min n (length s)) (length dest) then some (stored (take n s) dest) else none)
unfolding strncat_copy
strncat_copy-HasText zero [] h = ground arith
strncat_copy-HasText (suc n) [] h = ground arith
strncat_copy-HasText zero (d ∷ ds) h = ground arith
strncat_copy-HasText (suc n) (d ∷ ds) (finish e) = ground arith
strncat_copy-HasText (suc n) (d ∷ ds) (more {s} e h) = ground (arith, strncat_copy-HasText n ds h)

strncat-HasText :
    (n : ℕ) {dest d : List ℕ} (src : List ℕ) {s : List ℕ}
    → HasText dest d
    → HasText src s
    → strncat dest src n ≡ (
        if ltb (length d + min n (length s)) (length dest)
        then some (stored (d ++ take n s) dest)
        else none)
unfolding strncat
strncat-HasText n src (finish {c} {rest} e) k = ground (arith, strncat_copy-HasText n (c ∷ rest) k)
strncat-HasText n src (more e h) k = ground (arith, strncat-HasText n src h k)

-- For two buffers that hold texts, `strncat` stores the first `n` bytes at most of the source's
-- text behind the destination's, if they fit with one NUL, and faults otherwise.
pub strncat-text :
    (dest src : List ℕ) (n : ℕ) {d s : List ℕ}
    → text dest ≡ some d
    → text src ≡ some s
    → strncat dest src n ≡ (
        if ltb (length d + min n (length s)) (length dest)
        then some (stored (d ++ take n s) dest)
        else none)
strncat-text dest src n h k = strncat-HasText n src (HasText-text dest h) (HasText-text src k)

-- The text of what a copy leaves in the destination is the text that was copied.
pub text-stored :
    (src dest : List ℕ) {s : List ℕ} → text src ≡ some s → text (stored s dest) ≡ some s
text-stored src dest h = text_of_HasText (HasText-append (HasText-text src h) _)

pub length-stored :
    (s dest : List ℕ) → length s < length dest → length (stored s dest) ≡ length dest
length-stored [] [] h = absurd (omega arith)
length-stored [] (d ∷ ds) h = refl
length-stored (x ∷ s) [] h = absurd (omega arith)
length-stored (x ∷ s) (d ∷ ds) h = ap suc (length-stored s ds (omega arith))
