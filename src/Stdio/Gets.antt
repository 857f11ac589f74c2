-- ===== src/Stdio/Gets.antt =====
-- Where `gets` stops, and what `puts_stdio` writes.
use kyro_kernel.Base.{
  ltb, leb, ◌==◌, if◌then◌else◌, lt→ltb, ==_iff, Bool-cases, ◌>>=◌, length, get_elem?, get_or, set,
  length-set, get_elem?-eq-get_or, get_elem?-set_ne, get_elem?-set_self, ℕ, zero, suc, ◌+◌, ◌%◌,
  ◌≤◌, ◌<◌, ◌≡◌, refl, sym, ap, ◌∙◌, subst, fun_ext, inl, inr, false, Option, none, some, List,
  arith,
}
use native.Mathlib.Nat.{mod_self, mod-add-mod, mod-eq_of_lt, add-zero}
use kyro_kernel.CString.{text}
use kyro_kernel.CString.Copy.{strlen-text}
use kyro_kernel.CString.HasText.{HasText, finish, more, HasText-text}
use kyro_kernel.Screen.{Screen, putchar}
use kyro_kernel.Screen.Shows.{Page, Settled}
use kyro_kernel.Screen.Refine.{put_page, putchar-Ends}
use kyro_kernel.Output.{put_chars}
use kyro_kernel.Output.Shown.{put_pages, put_chars-Ends}
use kyro_kernel.Table.Model.{All, All-get_elem?}
use kyro_kernel.Stdio.{
  Got, closed, going, gets_turn, Stream, getchar_stdio, gets_loop, gets, ends_line, put_loop,
  puts_stdio,
}

-- The stream has a buffer of its size, which is not empty.
pub record IsOpen (f : Stream) (b : List ℕ) : Type 0 where
  pub buffer : f.buffer ≡ some b
  pub size : f.buffer_size ≡ length b
  pub some_room : 0 < length b

-- The array and the stream after so many turns, if the line is not closed before.
pub gets_turns : ℕ → ℕ → List ℕ → Stream → Option Got
unfolding gets_turn
gets_turns zero len target f = some (going target f)
gets_turns (suc n) len target f = gets_turn len target f >>= λ t. elim t [
  | closed b f' ↦ some (closed b f')
  | going b f' ↦ gets_turns n (len + 1) b f'
]

-- Where the next byte is read.
abbrev pub reads_at : Stream → ℕ
reads_at f = if leb f.buffer_size f.buffer_index then 0 else f.buffer_index

reads_at-inside : (f : Stream) (b : List ℕ) → IsOpen f b → reads_at f < length b
reads_at-inside f b v = elim (Bool-cases (leb f.buffer_size f.buffer_index)) [
  | inl behind ↦ rw behind v.some_room
  | inr inside ↦ rw inside (ground (arith, v.size))
]

getchar-run :
    (f : Stream) (b : List ℕ)
    → IsOpen f b
    → (c : ℕ) × (getchar_stdio f ≡ some (c, record f { buffer_index = reads_at f + 1 }))
      × (get_elem? b (reads_at f) ≡ some c)
unfolding getchar_stdio
getchar-run f b v =
    let got = get_elem?-eq-get_or b (reads_at f) 0 (reads_at-inside f b v) in
    (get_or b (reads_at f) 0, rw (v.buffer, got) refl, got)

-- The next place in a ring.
next_place : (n x : ℕ) → 0 < n → (if leb n (x % n + 1) then 0 else x % n + 1) ≡ (x + 1) % n
next_place n x h =
    let small : x % n < n = grind arith in
    let one_more : (x % n + 1) % n ≡ (x + 1) % n = mod-add-mod x n 1 in
    elim (Bool-cases (leb n (x % n + 1))) [
      | inl last ↦
          let full : x % n + 1 ≡ n = ground arith in
          rw last (sym (mod_self n) ∙ ap (λ (y : ℕ). y % n) (sym full) ∙ one_more)
      | inr inside ↦ rw inside (sym (mod-eq_of_lt (ground arith)) ∙ one_more)
    ]

-- After `len` turns from the place `at`: the array holds the bytes of the ring from there on.
record Round (b : List ℕ) (at size len : ℕ) (target : List ℕ) (f : Stream) : Type 0 where
  opened : IsOpen f b
  place : reads_at f ≡ (at + len) % length b
  same_size : length target ≡ size
  bytes : (i : ℕ) → i < len → get_elem? target i ≡ get_elem? b ((at + i) % length b)

module _ (b : List ℕ) (at size : ℕ) (no_line : All (λ c. ends_line c ≡ false) b) where
  gets_turn-Round :
      (len : ℕ) (target : List ℕ) (f : Stream)
      → Round b at size len target f
      → len < size
      → (target' : List ℕ) × (f' : Stream) × (gets_turn len target f ≡ some (going target' f'))
        × Round b at size (len + 1) target' f'
  unfolding gets_turn
  gets_turn-Round len target f r lt =
      let (c, run, got) = getchar-run f b r.opened in
      let on : ends_line c ≡ false = All-get_elem? (λ x. ends_line x ≡ false) b _ no_line got in
      let inside : len < length target = omega (arith, r.same_size) in
      (
        set target len c,
        record f { buffer_index = reads_at f + 1 },
        rw (run, on, lt→ltb len (length target) inside) refl,
        record {
          opened = record {
            buffer = r.opened.buffer;
            size = r.opened.size;
            some_room = r.opened.some_room;
          };
          place =
              rw (r.place, r.opened.size)
                (next_place (length b) (at + len) r.opened.some_room
                  ∙ ap (λ (x : ℕ). x % length b) (omega arith));
          same_size = length-set target len c ∙ r.same_size;
          bytes = λ i h. elim (Bool-cases (i == len)) [
            | inl here ↦
                let e : i ≡ len = (==_iff i len).0 here in
                ap (get_elem? (set target len c)) e
                ∙ get_elem?-set_self target len c (get_elem?-eq-get_or target len 0 inside)
                ∙ sym got
                ∙ ap (get_elem? b) (r.place ∙ ap (λ (x : ℕ). (at + x) % length b) (sym e))
            | inr before ↦
                get_elem?-set_ne target len i c (ground (arith, before))
                ∙ r.bytes i (ground (arith, before))
          ];
        },
      )

  -- Behind the array the store is a fault.
  gets_turn-out :
      (target : List ℕ) (f : Stream)
      → Round b at size size target f
      → gets_turn size target f ≡ none
  unfolding gets_turn
  gets_turn-out target f r =
      let (c, run, got) = getchar-run f b r.opened in
      let on : ends_line c ≡ false = All-get_elem? (λ x. ends_line x ≡ false) b _ no_line got in
      let full : ltb size (length target) ≡ false = ground (arith, r.same_size) in
      rw (run, on, full) refl

  gets_turn-full :
      (len : ℕ) (target : List ℕ) (f : Stream)
      → Round b at size len target f
      → len + 0 ≡ size
      → gets_turn len target f ≡ none
  gets_turn-full len target f r e =
      let full : len ≡ size = omega (arith, e) in
      subst (λ (k : ℕ). gets_turn k target f ≡ none) (sym full)
        (gets_turn-out target f (subst (λ (k : ℕ). Round b at size k target f) full r))

  gets_turns-Round :
      (n len : ℕ) (target : List ℕ) (f : Stream)
      → Round b at size len target f
      → len + n ≤ size
      → (target' : List ℕ) × (f' : Stream) × (gets_turns n len target f ≡ some (going target' f'))
        × Round b at size (len + n) target' f'
  unfolding gets_turns
  gets_turns-Round zero len target f r le = (target, f, refl, rw (add-zero len) r)
  gets_turns-Round (suc n) len target f r le =
      let (t1, f1, run, r1) = gets_turn-Round len target f r (omega arith) in
      let (t2, f2, rest, r2) = gets_turns-Round n (len + 1) t1 f1 r1 (omega arith) in
      let count : len + 1 + n ≡ len + suc n = omega arith in
      (t2, f2, rw run rest, subst (λ (k : ℕ). Round b at size k t2 f2) count r2)

  gets_loop-out :
      (left fuel len : ℕ) (target : List ℕ) (f : Stream)
      → Round b at size len target f
      → len + left ≡ size
      → gets_loop fuel len target f ≡ none
  unfolding gets_loop
  gets_loop-out left zero len target f r e = refl
  gets_loop-out zero (suc fuel) len target f r e = rw (gets_turn-full len target f r e) refl
  gets_loop-out (suc left) (suc fuel) len target f r e =
      let (t1, f1, run, r1) = gets_turn-Round len target f r (omega (arith, e)) in
      rw run (gets_loop-out left fuel (len + 1) t1 f1 r1 (omega (arith, e)))

  gets_turns-out :
      (left len : ℕ) (target : List ℕ) (f : Stream)
      → Round b at size len target f
      → len + left ≡ size
      → gets_turns (suc left) len target f ≡ none
  unfolding gets_turns
  gets_turns-out zero len target f r e = rw (gets_turn-full len target f r e) refl
  gets_turns-out (suc left) len target f r e =
      let (t1, f1, run, r1) = gets_turn-Round len target f r (omega (arith, e)) in
      rw run (gets_turns-out left (len + 1) t1 f1 r1 (omega (arith, e)))

-- `gets` of a stream whose buffer has no newline and no byte 255 does not return, whatever the
-- array and the fuel: after `n` turns, as many as the array has places or fewer, the first `n`
-- places hold the bytes of the buffer in order from where the stream was, round and round; then the
-- next byte is stored behind the array, which is a fault.
pub gets-endless :
    (fuel n : ℕ) (target b : List ℕ) (f : Stream)
    → IsOpen f b
    → All (λ c. ends_line c ≡ false) b
    → n ≤ length target
    → (gets fuel target f ≡ none)
      × ((target' : List ℕ) × (f' : Stream) × (gets_turns n 0 target f ≡ some (going target' f'))
          × (length target' ≡ length target)
          × ((i : ℕ) → i < n → get_elem? target' i ≡ get_elem? b ((reads_at f + i) % length b)))
      × (gets_turns (suc (length target)) 0 target f ≡ none)
unfolding gets
gets-endless fuel n target b f v h le =
    let round : Round b (reads_at f) (length target) 0 target f = record {
      opened = v;
      place = sym (rw (add-zero (reads_at f)) (mod-eq_of_lt (reads_at-inside f b v)));
      same_size = refl;
      bytes = λ i lt. absurd (omega arith);
    } in
    let (t, f', run, r) =
      gets_turns-Round b (reads_at f) (length target) h n 0 target f round (omega arith) in
    (
      gets_loop-out b (reads_at f) (length target) h (length target) fuel 0 target f round
          (omega arith),
      (t, f', run, r.same_size, λ i lt. r.bytes i (omega arith)),
      gets_turns-out b (reads_at f) (length target) h (length target) 0 target f round
          (omega arith),
    )

put_loop-put_chars :
    {l t : List ℕ} → HasText l t → (s : Screen) → put_loop l (length t) s ≡ put_chars t s
unfolding put_loop put_chars
put_loop-put_chars (finish e) s = refl
put_loop-put_chars (more {c} {cs} {s = t} e h) s =
    ap (λ (f : Screen → Option Screen). putchar c s >>= f) (fun_ext (put_loop-put_chars h))

-- On a screen that shows a page, `puts_stdio` of a text returns one more than its length, and puts
-- the text and a newline on the screen.
pub puts_stdio-Ends :
    (l t : List ℕ) (s : Screen) (g : Page)
    → text l ≡ some t
    → Settled s g
    → (s' : Screen) × (puts_stdio l s ≡ some (length t + 1, s'))
      × Settled s' (put_page b'\n' (put_pages t g))
unfolding puts_stdio
puts_stdio-Ends l t s g h v =
    let (s1, run1, v1) = put_chars-Ends t s g v in
    let (s2, run2, v2) = putchar-Ends b'\n' s1 (put_pages t g) v1 in
    (s2, rw (strlen-text l, h) (rw (put_loop-put_chars (HasText-text l h) s, run1, run2) refl), v2)
