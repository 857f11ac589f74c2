-- ===== src/Console/Line/Loop.antt =====
-- The loop that reads a line.
use native.Mathlib.Decide.{dec_lt}
use kyro_kernel.Base.{
  ltb, ◌==◌, Bool-cases, ◌>>=◌, length, set, take, length-append, length-set, length-take, ℕ, zero,
  suc, ◌+◌, ◌-◌, ◌≤◌, ◌<◌, ◌≡◌, refl, sym, ap, ◌∙◌, subst, inl, inr, true, false, Option, some,
  some-injective, List, [], ◌∷◌, ◌++◌, arith,
}
use kyro_kernel.CString.HasText.{text_of_HasText}
use kyro_kernel.Console.{
  Keys, Console, Reader, Turn, finished, again, is_newline, is_printable, take_char, line_turn,
  line_loop,
}
use kyro_kernel.Console.Line.{
  Arrives, edited, edit, HasLine, Entered, IsReader, closed-HasText, shorter, longer, store-in,
  edit-full, edit-open, edit-empty, Taken, key,
}

module _ (P : Console → Type 0) (r : Reader) (ok : IsReader P r) (n : ℕ) where
  take_char-Taken :
      (c : ℕ) (t buffer : List ℕ) (con : Console)
      → HasLine n t buffer
      → length t < n
      → is_newline c ≡ false
      → P con
      → Taken P n (edited c t) buffer con (take_char r c (length t) buffer con)
  unfolding edited take_char
  take_char-Taken c t buffer con v lt inside pc = elim (Bool-cases (c == 8)) [
    | inl back ↦
        let len : length (take (length t - 1) t) ≡ length t - 1 =
          omega (arith, length-take (length t - 1) t) in
        elim (Bool-cases (ltb 0 (length t))) [
          | inl some_left ↦
              let (con', run, k, p') = ok.at_erased con pc in
              rw (inside, back, some_left)
                (record {
                  b = buffer;
                  con' = con';
                  run = rw run (ap (λ (m : ℕ). some (again m buffer con')) (sym len));
                  holds = shorter n t buffer v;
                  same_size = refl;
                  same_keys = k;
                  keeps = p';
                })
          | inr empty ↦
              let zero_len : length t ≡ length t - 1 = ground arith in
              rw (inside, back, empty)
                (record {
                  b = buffer;
                  con' = con;
                  run = ap (λ (m : ℕ). some (again m buffer con)) (zero_len ∙ sym len);
                  holds = shorter n t buffer v;
                  same_size = refl;
                  same_keys = refl;
                  keeps = pc;
                })
        ]
    | inr other ↦ elim (Bool-cases (is_printable c)) [
      | inl shown ↦
          let (con', run, k, p') = ok.at_stored c con pc in
          let len : length t + 1 ≡ length (t ++ c ∷ []) = omega (arith, length-append t (c ∷ [])) in
          rw (inside, other, shown)
            (record {
              b = set buffer (length t) c;
              con' = con';
              run =
                  rw (store-in buffer (length t) c (omega (arith, v.room)), run)
                    (ap (λ (m : ℕ). some (again m (set buffer (length t) c) con')) len);
              holds = longer n c t buffer v lt shown;
              same_size = length-set buffer (length t) c;
              same_keys = k;
              keeps = p';
            })
      | inr ignored ↦
          rw (inside, other, ignored)
            (record {
              b = buffer;
              con' = con;
              run = refl;
              holds = v;
              same_size = refl;
              same_keys = refl;
              keeps = pc;
            })
    ]
  ]

  -- A line that is closed.
  closed-Entered :
      (t buffer rest : List ℕ) (con : Console) (o : Option (List ℕ × Console)) (size : ℕ)
      → HasLine n t buffer
      → length buffer ≡ size
      → Arrives con.keys rest
      → P con
      → o ≡ some (set buffer (length t) 0, con)
      → Entered P size t rest o
  closed-Entered t buffer rest con o size v sz a pc run = record {
    buffer = set buffer (length t) 0;
    con = con;
    run = run;
    holds =
        text_of_HasText
          (closed-HasText t buffer v.printable (omega (arith, v.fits, v.room)) v.starts);
    printable = v.printable;
    same_size = length-set buffer (length t) 0 ∙ sz;
    arrives = a;
    keeps = pc;
  }

  -- The loop at a line that is full.
  full-run :
      (fuel max_length : ℕ) (t buffer : List ℕ) (con : Console)
      → max_length - 1 ≡ n
      → HasLine n t buffer
      → n ≤ length t
      → line_loop r (suc fuel) max_length (length t) buffer con
        ≡ some (set buffer (length t) 0, con)
  unfolding line_loop line_turn
  full-run fuel max_length t buffer con e v full =
      let test : ltb (length t) (max_length - 1) ≡ false = ground arith in
      rw (test, store-in buffer (length t) 0 (omega (arith, v.fits, v.room))) refl

  turn-run :
      (fuel max_length c pos : ℕ) (buffer : List ℕ) (con con' : Console)
      → pos < max_length - 1
      → r.read con ≡ some (c, con')
      → line_loop r (suc fuel) max_length pos buffer con ≡ (
          take_char r c pos buffer con' >>= λ (t : Turn). elim t [
            | finished b con'' ↦ some (b, con'')
            | again pos' b con'' ↦ line_loop r fuel max_length pos' b con''
          ])
  unfolding line_loop line_turn
  turn-run fuel max_length c pos buffer con con' lt run =
      let test : ltb pos (max_length - 1) ≡ true = ground arith in rw (test, run) refl

  newline-run :
      (c : ℕ) (t buffer : List ℕ) (con con' : Console)
      → HasLine n t buffer
      → is_newline c ≡ true
      → r.newline con ≡ some con'
      → take_char r c (length t) buffer con ≡ some (finished (set buffer (length t) 0) con')
  unfolding take_char
  newline-run c t buffer con con' v e run =
      rw (e, store-in buffer (length t) 0 (omega (arith, v.fits, v.room)), run) refl

  -- The outcome, when the editor has closed the line here.
  here-Entered :
      (t buffer cs line rest : List ℕ) (con : Console) (o : Option (List ℕ × Console)) (size : ℕ)
      (ed : Option (List ℕ × List ℕ))
      → HasLine n t buffer
      → length buffer ≡ size
      → Arrives con.keys cs
      → P con
      → o ≡ some (set buffer (length t) 0, con)
      → ed ≡ some (t, cs)
      → ed ≡ some (line, rest)
      → Entered P size line rest o
  here-Entered t buffer cs line rest con o size ed v sz a pc run e1 e2 =
      subst (λ (x : List ℕ × List ℕ). Entered P size x.0 x.1 o) (some-injective _ _ (sym e1 ∙ e2))
        (closed-Entered t buffer cs con o size v sz a pc run)

  same-Entered :
      {size : ℕ} {line rest : List ℕ} {o o' : Option (List ℕ × Console)}
      → o' ≡ o
      → Entered P size line rest o
      → Entered P size line rest o'
  same-Entered {size} {line} {rest} e v = subst (Entered P size line rest) (sym e) v

  line_loop-go :
      (max_length fuel size : ℕ) (cs t buffer line rest : List ℕ) (con : Console)
      → max_length - 1 ≡ n
      → HasLine n t buffer
      → length buffer ≡ size
      → Arrives con.keys cs
      → P con
      → length cs < fuel
      → edit n t cs ≡ some (line, rest)
      → Entered P size line rest (line_loop r fuel max_length (length t) buffer con)
  line_loop-go m zero size cs t buffer line rest con e v sz a pc h ed = absurd (omega arith)
  line_loop-go m (suc fuel) size [] t buffer line rest con e v sz a pc h ed =
      elim (dec_lt (length t) n) [
        | no full ↦
            here-Entered t buffer [] line rest con _ size _ v sz a pc
              (full-run fuel m t buffer con e v (omega arith)) (edit-full n t [] (omega arith)) ed
        | yes lt ↦ cc (edit-empty n t lt, ed)
      ]
  line_loop-go m (suc fuel) size (c ∷ cs) t buffer line rest con e v sz (key got a) pc h ed =
      elim (dec_lt (length t) n) [
        | no full ↦
            here-Entered t buffer (c ∷ cs) line rest con _ size _ v sz (key got a) pc
              (full-run fuel m t buffer con e v (omega arith))
              (edit-full n t (c ∷ cs) (omega arith)) ed
        | yes lt ↦
            let (con1, read, k1, p1) = ok.reads con c _ pc got in
            let a1 = subst (λ (x : Keys). Arrives x cs) (sym k1) a in
            elim (Bool-cases (is_newline c)) [
              | inl ends ↦
                  let (con2, run, k2, p2) = ok.at_newline con1 p1 in
                  here-Entered t buffer cs line rest con2 _ size _ v sz
                    (subst (λ (x : Keys). Arrives x cs) (sym k2) a1) p2
                    (turn-run fuel m c (length t) buffer con con1 (omega arith) read
                      ∙ rw (newline-run c t buffer con1 con2 v ends run) refl)
                    (edit-open n c t cs lt ∙ rw ends refl) ed
              | inr inside ↦
                  let k = take_char-Taken c t buffer con1 v lt inside p1 in
                  same-Entered
                    (turn-run fuel m c (length t) buffer con con1 (omega arith) read
                      ∙ rw k.run refl)
                    (line_loop-go m fuel size cs (edited c t) k.b line rest k.con' e k.holds
                      (k.same_size ∙ sz) (subst (λ (x : Keys). Arrives x cs) (sym k.same_keys) a1)
                      k.keeps (omega arith) (sym (edit-open n c t cs lt ∙ rw inside refl) ∙ ed))
            ]
      ]

-- A reader of a line that has room for it returns when the characters that arrive close the line,
-- on fuel for each of them.
pub line_loop-Entered :
    (P : Console → Type 0) (r : Reader) (max_length fuel : ℕ) (cs buffer line rest : List ℕ)
    (con : Console)
    → IsReader P r
    → max_length - 1 < length buffer
    → Arrives con.keys cs
    → P con
    → length cs < fuel
    → edit (max_length - 1) [] cs ≡ some (line, rest)
    → Entered P (length buffer) line rest (line_loop r fuel max_length 0 buffer con)
line_loop-Entered P r max_length fuel cs buffer line rest con ok room a pc h ed =
    line_loop-go P r ok (max_length - 1) max_length fuel (length buffer) cs [] buffer line rest con
      refl (record { fits = omega arith; room = room; starts = refl; printable = tt }) refl a pc h
      ed
