-- ===== src/CString/Search.antt =====
-- What the searches of string.c find.
use kyro_kernel.Base.{
  ◌==◌, if◌then◌else◌, length, ℕ, suc, ◌+◌, ◌≡◌, Bool, true, false, ◌&&◌, Option, none, some, List,
  [], ◌∷◌, arith,
}
use mathlib.Core.Option
use kyro_kernel.CString.{
  text, sign_extend, strchr, strrchr, strrchr_loop, match_here, strstr, strstr_loop,
}
use kyro_kernel.CString.HasText.{HasText, finish, more, HasText-text}

-- The first and the last place of a list where a test holds.
pub first_index : (ℕ → Bool) → List ℕ → Option ℕ
first_index p [] = none
first_index p (x ∷ s) = if p x then some 0 else Option.map suc (first_index p s)

pub last_index : (ℕ → Bool) → List ℕ → Option ℕ
last_index p [] = none
last_index p (x ∷ s) = elim (last_index p s) [
  | some i ↦ some (suc i)
  | none ↦ if p x then some 0 else none
]

-- The bytes that a search for the `int` `c` stops at.
abbrev pub is_char : ℕ → ℕ → Bool
is_char c x = sign_extend x == c

strchr-HasText :
    {b s : List ℕ} (c : ℕ)
    → HasText b s
    → strchr b c ≡ some (if c == 0 then some (length s) else first_index (is_char c) s)
unfolding strchr first_index
strchr-HasText c (finish e) = ground arith
strchr-HasText c (more e h) = ground (arith, strchr-HasText c h)

-- `strchr` finds the first byte of the text that is `c`, or the NUL if `c` is 0.
pub strchr-text :
    (b : List ℕ) (c : ℕ) {s : List ℕ}
    → text b ≡ some s
    → strchr b c ≡ some (if c == 0 then some (length s) else first_index (is_char c) s)
strchr-text b c h = strchr-HasText c (HasText-text b h)

-- The places of the tail, moved by `i`, or `last` where there is none.
abbrev latest : Option ℕ → ℕ → Option ℕ → Option ℕ
latest none i last = last
latest (some j) i last = some (i + j)

strrchr_loop-HasText :
    {b s : List ℕ} (c i : ℕ) (last : Option ℕ)
    → HasText b s
    → strrchr_loop b c i last
      ≡ some (if c == 0 then some (i + length s) else latest (last_index (is_char c) s) i last)
unfolding strrchr_loop last_index
strrchr_loop-HasText c i last (finish e) = ground arith
strrchr_loop-HasText c i last (more {c = x} e h) =
    ground (arith, strrchr_loop-HasText c (suc i) (if is_char c x then some i else last) h)

-- In a buffer that holds a text, `strrchr` finds the last byte of the text that is `c`, or the NUL
-- if `c` is 0.
pub strrchr-text :
    (b : List ℕ) (c : ℕ) {s : List ℕ}
    → text b ≡ some s
    → strrchr b c ≡ some (if c == 0 then some (length s) else last_index (is_char c) s)
unfolding strrchr
strrchr-text b c h = ground (arith, strrchr_loop-HasText c 0 none (HasText-text b h))

-- Does the text begin with the needle?
pub starts : (needle s : List ℕ) → Bool
starts [] s = true
starts (n ∷ ns) [] = false
starts (n ∷ ns) (x ∷ s) = (n == x) && starts ns s

-- The first place where the needle stands in the text.
pub first_match : (needle s : List ℕ) → Option ℕ
unfolding starts
first_match needle [] = if starts needle [] then some 0 else none
first_match needle (x ∷ s) =
    if starts needle (x ∷ s) then some 0 else Option.map suc (first_match needle s)

match_here-HasText :
    {a b s t : List ℕ} → HasText a s → HasText b t → match_here a b ≡ some (starts t s)
unfolding match_here starts
match_here-HasText (finish e) (finish f) = ground arith
match_here-HasText (finish e) (more f k) = ground arith
match_here-HasText (more e h) (finish f) = ground arith
match_here-HasText (more e h) (more f k) = ground (arith, match_here-HasText h k)

strstr_loop-HasText :
    {a b s : List ℕ} {n : ℕ} {t : List ℕ}
    → HasText a s
    → HasText b (n ∷ t)
    → strstr_loop a b ≡ some (first_match (n ∷ t) s)
unfolding strstr_loop first_match starts
strstr_loop-HasText (finish e) k = ground arith
strstr_loop-HasText {n} {t} (more {c} {cs} {s} e h) k =
    ground (arith, match_here-HasText (more e h) k, strstr_loop-HasText h k)

strstr-HasText :
    {a b s t : List ℕ} → HasText a s → HasText b t → strstr a b ≡ some (first_match t s)
unfolding strstr first_match starts
strstr-HasText {s = []} h (finish e) = rw e
strstr-HasText {s = x ∷ s} h (finish e) = rw e
strstr-HasText h (more e k) = rw e (strstr_loop-HasText h (more e k))

-- For two buffers that hold texts, `strstr` finds the first place where the needle's text stands
-- in the haystack's.
pub strstr-text :
    (a b : List ℕ) {s t : List ℕ}
    → text a ≡ some s
    → text b ≡ some t
    → strstr a b ≡ some (first_match t s)
strstr-text a b h k = strstr-HasText (HasText-text a h) (HasText-text b k)
