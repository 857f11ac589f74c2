-- ===== src/CString/Compare.antt =====
-- What the comparisons of string.c decide.
use kyro_kernel.Base.{
  ◌==◌, if◌then◌else◌, ◌>>=◌, take, ℕ, zero, suc, ◌≡◌, refl, ◌↔◌, Bool, true, false, ◌&&◌, Option,
  some, List, [], ◌∷◌, arith,
}
use kyro_kernel.CString.{text, Diff, below, equal, above, char_diff, strcmp, strncmp}
use kyro_kernel.CString.HasText.{HasText, finish, more, HasText-text}

-- The difference at the first place where two texts differ; a text is below its extensions.
pub text_diff : List ℕ → List ℕ → Diff
text_diff [] [] = equal
text_diff [] (y ∷ t) = below y
text_diff (x ∷ s) [] = above x
text_diff (x ∷ s) (y ∷ t) = if x == y then text_diff s t else char_diff x y

unfoldable pub same_text : List ℕ → List ℕ → Bool
same_text [] [] = true
same_text [] (y ∷ t) = false
same_text (x ∷ s) [] = false
same_text (x ∷ s) (y ∷ t) = (x == y) && same_text s t

unfoldable pub is_equal : Diff → Bool
is_equal equal = true
is_equal (below n) = false
is_equal (above n) = false

pub same_text_iff : (s t : List ℕ) → (same_text s t ≡ true) ↔ (s ≡ t)
unfolding same_text
same_text_iff [] [] = ground arith
same_text_iff [] (y ∷ t) = ground arith
same_text_iff (x ∷ s) [] = ground arith
same_text_iff (x ∷ s) (y ∷ t) = ground (arith, same_text_iff s t)

pub same_text_refl : (s : List ℕ) → same_text s s ≡ true
same_text_refl s = (same_text_iff s s).1 refl

strcmp-HasText : {a b s t : List ℕ} → HasText a s → HasText b t → strcmp a b ≡ some (text_diff s t)
unfolding strcmp text_diff
strcmp-HasText (finish e) (finish f) = ground arith
strcmp-HasText (finish e) (more f k) = ground arith
strcmp-HasText (more e h) (finish f) = ground arith
strcmp-HasText (more e h) (more f k) = ground (arith, strcmp-HasText h k)

-- Of two buffers that hold texts, `strcmp` returns the difference of the bytes at the first place
-- where the texts differ, the NUL at the end of one included.
pub strcmp-text_diff :
    (a b : List ℕ) {s t : List ℕ}
    → text a ≡ some s
    → text b ≡ some t
    → strcmp a b ≡ some (text_diff s t)
strcmp-text_diff a b h k = strcmp-HasText (HasText-text a h) (HasText-text b k)

pub is_equal-text_diff :
    {a b s t : List ℕ} → HasText a s → HasText b t → is_equal (text_diff s t) ≡ same_text s t
unfolding is_equal text_diff same_text char_diff
is_equal-text_diff (finish e) (finish f) = refl
is_equal-text_diff (finish e) (more f k) = refl
is_equal-text_diff (more e h) (finish f) = refl
is_equal-text_diff (more e h) (more f k) = ground (arith, is_equal-text_diff h k)

-- `strcmp` of two buffers that hold texts returns 0 exactly when the texts are the same.
pub strcmp-equal_iff :
    (a b : List ℕ) {s t : List ℕ}
    → text a ≡ some s
    → text b ≡ some t
    → (strcmp a b ≡ some equal) ↔ (s ≡ t)
unfolding is_equal
strcmp-equal_iff a b {s} {t} h k =
    let same = is_equal-text_diff (HasText-text a h) (HasText-text b k) in
    ground (arith, strcmp-text_diff a b h k, same_text_iff s t, same)

strncmp-HasText :
    (n : ℕ) {a b s t : List ℕ}
    → HasText a s
    → HasText b t
    → strncmp a b n ≡ some (text_diff (take n s) (take n t))
unfolding strncmp text_diff
strncmp-HasText zero h k = refl
strncmp-HasText (suc n) (finish e) (finish f) = ground arith
strncmp-HasText (suc n) (finish e) (more f k) = ground arith
strncmp-HasText (suc n) (more e h) (finish f) = ground arith
strncmp-HasText (suc n) (more e h) (more f k) = ground (arith, strncmp-HasText n h k)

-- Of two buffers that hold texts, `strncmp` returns the difference at the first place where the
-- first `n` bytes of the texts differ.
pub strncmp-text_diff :
    (n : ℕ) (a b : List ℕ) {s t : List ℕ}
    → text a ≡ some s
    → text b ≡ some t
    → strncmp a b n ≡ some (text_diff (take n s) (take n t))
strncmp-text_diff n a b h k = strncmp-HasText n (HasText-text a h) (HasText-text b k)

-- A branch on `strcmp(a, b) == 0` is a branch on the texts being the same.
pub strcmp-branch :
    {A : Type 0} (a b : List ℕ) {s t : List ℕ} (p q : Option A)
    → text a ≡ some s
    → text b ≡ some t
    → (strcmp a b >>= λ d. if is_equal d then p else q) ≡ (if same_text s t then p else q)
strcmp-branch a b p q h k =
    rw (strcmp-text_diff a b h k, is_equal-text_diff (HasText-text a h) (HasText-text b k)) refl

pub same_text_comm : (s t : List ℕ) → same_text s t ≡ same_text t s
unfolding same_text
same_text_comm [] [] = refl
same_text_comm [] (y ∷ t) = refl
same_text_comm (x ∷ s) [] = refl
same_text_comm (x ∷ s) (y ∷ t) = ground (arith, same_text_comm s t)
