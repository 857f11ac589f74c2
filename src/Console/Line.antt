-- ===== src/Console/Line.antt =====
-- What the loop that reads a line enters: an editor of lines on the characters that arrive.
pub mod Loop
pub mod Acts
use kyro_kernel.Base.{
  ltb, ◌==◌, if◌then◌else◌, length, set, take, length-append, length-set, length-take, take-suc-set,
  ℕ, zero, suc, ◌-◌, ◌≤◌, ◌<◌, ◌≡◌, refl, sym, ap, ◌∙◌, subst, true, false, Option, none, some,
  List, [], ◌∷◌, ◌++◌, arith,
}
use kyro_kernel.CString.{text}
use kyro_kernel.CString.HasText.{HasText, finish, more}
use kyro_kernel.Memory.{store}
use kyro_kernel.Table.Model.{All}
use kyro_kernel.Console.{
  Keys, Console, Action, Reader, Turn, again, next_char, is_newline, is_printable,
}

-- The characters that the waits for one give, one after the other.
pub data Arrives : Keys → List ℕ → Type 0 where
  stop : {keys : Keys} → Arrives keys []
  key :
      {keys keys' : Keys} {c : ℕ} {cs : List ℕ}
      → next_char keys.keyboard keys.interrupts ≡ some (c, keys')
      → Arrives keys' cs
      → Arrives keys (c ∷ cs)

-- A line after a character that does not end it: a backspace takes the last character away, a
-- printable one is added, and any other does nothing.
unfoldable pub edited : ℕ → List ℕ → List ℕ
edited c t = if c == 8 then take (length t - 1) t else if is_printable c then t ++ c ∷ [] else t

-- The line, which is closed by a newline or by `n` characters, and the characters behind it; `none`
-- if it is not closed.
unfoldable pub edit : ℕ → List ℕ → List ℕ → Option (List ℕ × List ℕ)
unfolding edited
edit n t [] = if ltb (length t) n then none else some (t, [])
edit n t (c ∷ cs) =
    let rest = edit n (edited c t) cs in
    if ltb (length t) n then (if is_newline c then some (t, cs) else rest) else some (t, c ∷ cs)

abbrev pub IsPrintable : ℕ → Type 0
IsPrintable c = is_printable c ≡ true

-- The buffer holds the line so far, which has at most `n` characters, and has room for a NUL.
pub record HasLine (n : ℕ) (t buffer : List ℕ) : Type 0 where
  pub fits : length t ≤ n
  pub room : n < length buffer
  pub starts : take (length t) buffer ≡ t
  pub printable : All IsPrintable t

-- The outcome: the buffer holds the line as a text, and the characters behind it are still to come.
pub record Entered (P : Console → Type 0) (size : ℕ) (line rest : List ℕ)
    (r : Option (List ℕ × Console)) : Type 0 where
  pub buffer : List ℕ
  pub con : Console
  pub run : r ≡ some (buffer, con)
  pub holds : text buffer ≡ some line
  pub printable : All IsPrintable line
  pub same_size : length buffer ≡ size
  pub arrives : Arrives con.keys rest
  pub keeps : P con

-- An action that always succeeds, leaves the keys alone and keeps `P`.
abbrev pub Acts : (Console → Type 0) → Action → Type 0
Acts P a =
    (con : Console)
    → P con
    → (con' : Console) × (a con ≡ some con') × (con'.keys ≡ con.keys) × P con'

-- A reader that reads what arrives.
pub record IsReader (P : Console → Type 0) (r : Reader) : Type 0 where
  pub reads :
      (con : Console) (c : ℕ) (keys : Keys)
      → P con
      → next_char con.keys.keyboard con.keys.interrupts ≡ some (c, keys)
      → (con' : Console) × (r.read con ≡ some (c, con')) × (con'.keys ≡ keys) × P con'
  pub at_newline : Acts P r.newline
  pub at_erased : Acts P r.erased
  pub at_stored : (c : ℕ) → Acts P (r.stored c)

-- The text of a buffer whose line is closed.
pub closed-HasText :
    (t buffer : List ℕ)
    → All IsPrintable t
    → length t < length buffer
    → take (length t) buffer ≡ t
    → HasText (set buffer (length t) 0) t
closed-HasText [] [] p lt e = absurd (omega arith)
closed-HasText [] (b ∷ bs) p lt e = finish refl
closed-HasText (c ∷ t) [] p lt e = absurd (omega arith)
closed-HasText (c ∷ t) (b ∷ bs) p lt e =
    let h : b ≡ c = cc in
    let tl : take (length t) bs ≡ t = cc in
    subst (λ (x : ℕ). HasText (x ∷ set bs (length t) 0) (c ∷ t)) (sym h)
      (more (ground (arith, p.0)) (closed-HasText t bs p.1 (omega arith) tl))

pub All-take : (n : ℕ) (t : List ℕ) → All IsPrintable t → All IsPrintable (take n t)
All-take zero t h = tt
All-take (suc n) [] h = tt
All-take (suc n) (c ∷ t) h = (h.0, All-take n t h.1)

pub All-snoc :
    (t : List ℕ) (c : ℕ) → All IsPrintable t → IsPrintable c → All IsPrintable (t ++ c ∷ [])
All-snoc [] c h p = (p, tt)
All-snoc (x ∷ t) c h p = (h.0, All-snoc t c h.1 p)

pub take-take : (n m : ℕ) (l : List ℕ) → n ≤ m → take n (take m l) ≡ take n l
take-take zero m l h = refl
take-take (suc n) zero l h = absurd (omega arith)
take-take (suc n) (suc m) [] h = refl
take-take (suc n) (suc m) (x ∷ l) h = ap (◌∷◌ x) (take-take n m l (omega arith))

-- A line with one character less.
pub shorter :
    (n : ℕ) (t buffer : List ℕ) → HasLine n t buffer → HasLine n (take (length t - 1) t) buffer
shorter n t buffer v =
    let len : length (take (length t - 1) t) ≡ length t - 1 =
      omega (arith, length-take (length t - 1) t) in
    record {
      fits = omega (arith, len, v.fits);
      room = v.room;
      starts =
          ap (λ (k : ℕ). take k buffer) len
          ∙ sym (take-take (length t - 1) (length t) buffer (omega arith))
          ∙ ap (take (length t - 1)) v.starts;
      printable = All-take (length t - 1) t v.printable;
    }

-- A line with one character more.
pub longer :
    (n c : ℕ) (t buffer : List ℕ)
    → HasLine n t buffer
    → length t < n
    → IsPrintable c
    → HasLine n (t ++ c ∷ []) (set buffer (length t) c)
longer n c t buffer v lt p =
    let len : length (t ++ c ∷ []) ≡ suc (length t) = omega (arith, length-append t (c ∷ [])) in
    record {
      fits = omega (arith, len);
      room = omega (arith, length-set buffer (length t) c, v.room);
      starts =
          ap (λ (k : ℕ). take k (set buffer (length t) c)) len
          ∙ take-suc-set (length t) buffer c (omega (arith, v.room))
          ∙ ap (λ (l : List ℕ). l ++ c ∷ []) v.starts;
      printable = All-snoc t c v.printable p;
    }

pub store-in :
    (buffer : List ℕ) (p v : ℕ) → p < length buffer → store buffer p v ≡ some (set buffer p v)
store-in buffer p v h = let t : ltb p (length buffer) ≡ true = ground arith in rw t refl

pub edit-full : (n : ℕ) (t cs : List ℕ) → n ≤ length t → edit n t cs ≡ some (t, cs)
unfolding edit
edit-full n t [] h = let test : ltb (length t) n ≡ false = ground arith in rw test refl
edit-full n t (c ∷ cs) h = let test : ltb (length t) n ≡ false = ground arith in rw test refl

pub edit-open :
    (n c : ℕ) (t cs : List ℕ)
    → length t < n
    → edit n t (c ∷ cs) ≡ (if is_newline c then some (t, cs) else edit n (edited c t) cs)
unfolding edit
edit-open n c t cs h = let test : ltb (length t) n ≡ true = ground arith in rw test refl

pub edit-empty : (n : ℕ) (t : List ℕ) → length t < n → edit n t [] ≡ none
unfolding edit
edit-empty n t h = let test : ltb (length t) n ≡ true = ground arith in rw test refl

-- What a character that does not end the line leaves.
pub record Taken (P : Console → Type 0) (n : ℕ) (t buffer : List ℕ) (con : Console)
    (r : Option Turn) : Type 0 where
  pub b : List ℕ
  pub con' : Console
  pub run : r ≡ some (again (length t) b con')
  pub holds : HasLine n t b
  pub same_size : length b ≡ length buffer
  pub same_keys : con'.keys ≡ con.keys
  pub keeps : P con'
