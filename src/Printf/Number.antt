-- ===== src/Printf/Number.antt =====
-- The digits that `print_number` prints stand for its number.
use kyro_kernel.Base.{
  ltb, leb, ◌==◌, if◌then◌else◌, lt→ltb, ==_iff, Bool-cases, ◌>>=◌, get_elem?, ℕ, zero, suc, ◌+◌,
  ◌-◌, ◌*◌, ◌/◌, ◌%◌, ◌^◌, ◌≤◌, ◌<◌, ◌≡◌, refl, sym, ap, ◌∙◌, ◌≢◌, inl, inr, Bool, true, false,
  ◌&&◌, Option, none, some, some-injective, List, [], ◌∷◌, arith,
}
use kyro_kernel.Base.Check.{all_below, all_below_sound}
use native.Mathlib.Nat.{pow-suc}
use kyro_kernel.Printf.{digit_chars, digits_loop, print_number}

-- The digit that a byte stands for: `0` to `9` and `A` to `F`, and nothing else.
abbrev pub hex_digit : ℕ → Option ℕ
hex_digit c =
    if leb b'0' c && leb c b'9'
    then some (c - b'0')
    else if leb b'A' c && leb c b'F'
    then some (c - b'A' + 10)
    else none

-- The same in a base, of which a digit is less than the base.
abbrev pub digit_in : ℕ → ℕ → Option ℕ
digit_in base c = hex_digit c >>= λ d. if ltb d base then some d else none

-- The number that digits of the base stand for behind those of `n`; `none` if one of the bytes is
-- not a digit of the base.
unfoldable pub value : ℕ → ℕ → List ℕ → Option ℕ
value base n [] = some n
value base n (c ∷ cs) = digit_in base c >>= λ d. value base (n * base + d) cs

-- The number that a numeral stands for, which has at least one digit.
unfoldable pub numeral : ℕ → List ℕ → Option ℕ
unfolding value
numeral base [] = none
numeral base (c ∷ cs) = value base 0 (c ∷ cs)

abbrev same_option : ℕ → Option ℕ → Bool
same_option k none = false
same_option k (some d) = d == k

abbrev reads_back : ℕ → Bool
reads_back k = elim (get_elem? digit_chars k) [
  | none ↦ false
  | some d ↦ same_option k (hex_digit d)
]

reads_back_table : all_below 16 reads_back ≡ true
unfolding all_below
reads_back_table = refl

same_option→eq : (k : ℕ) (o : Option ℕ) → same_option k o ≡ true → o ≡ some k
same_option→eq k none h = cc
same_option→eq k (some d) h = ap some ((==_iff d k).0 h)

reads_back→digit :
    (k : ℕ) (o : Option ℕ)
    → elim o [ none ↦ false | some d ↦ same_option k (hex_digit d) ] ≡ true
    → (d : ℕ) × (o ≡ some d) × (hex_digit d ≡ some k)
reads_back→digit k none h = cc
reads_back→digit k (some d) h = (d, refl, same_option→eq k (hex_digit d) h)

digit_of :
    (base k : ℕ)
    → k < base
    → base ≤ 16
    → (d : ℕ) × (get_elem? digit_chars k ≡ some d)
      × (digit_in base d ≡ some k)
      × (hex_digit d ≡ some k)
digit_of base k h le =
    let (d, got, is) =
      reads_back→digit k (get_elem? digit_chars k)
        (all_below_sound 16 reads_back k reads_back_table (omega arith)) in
    (d, got, rw is (rw (lt→ltb k base h) refl), is)

-- The digits of a number other than 0 do not begin with 0.
abbrev pub NoLeadingZero : List ℕ → Type 0
NoLeadingZero [] = ⊥
NoLeadingZero (c ∷ cs) = c ≢ b'0'

-- With room for its binary digits, the loop puts the number's digits in front.
record IsDigits (base num : ℕ) (acc : List ℕ) (out : List ℕ) : Type 0 where
  stands_for : value base 0 out ≡ value base num acc
  at_zero : num ≡ 0 → out ≡ acc
  canonical : num ≢ 0 → NoLeadingZero out

module _ (base : ℕ) (two_le : 2 ≤ base) (le_16 : base ≤ 16) where
  zero_digit : numeral base (b'0' ∷ []) ≡ some 0
  unfolding numeral value
  zero_digit = rw (lt→ltb 0 base (omega arith)) (ap some (omega arith))

  numeral-value : (out : List ℕ) → NoLeadingZero out → numeral base out ≡ value base 0 out
  unfolding numeral
  numeral-value [] h = absurd h
  numeral-value (c ∷ cs) h = refl

  digits_loop-IsDigits :
      (room num : ℕ) (acc : List ℕ)
      → num < 2 ^ room
      → (out : List ℕ) × (digits_loop room num base acc ≡ some out) × IsDigits base num acc out
  unfolding digits_loop value
  digits_loop-IsDigits zero num acc h =
      let e : num ≡ 0 = omega arith in
      (
        acc,
        rw e,
        record { stands_for = rw e; at_zero = λ _. refl; canonical = λ ne. absurd (ne e) },
      )
  digits_loop-IsDigits (suc room) num acc h = elim (Bool-cases (num == 0)) [
    | inl z ↦
        let e : num ≡ 0 = (==_iff num 0).0 z in
        (
          acc,
          rw z,
          record { stands_for = rw e; at_zero = λ _. refl; canonical = λ ne. absurd (ne e) },
        )
    | inr nz ↦
        let nonzero : (base == 0) ≡ false = ground arith in
        let (d, got, is, reads) = digit_of base (num % base) (grind arith) le_16 in
        let (out, run, ds) =
          digits_loop-IsDigits room (num / base) (d ∷ acc) (grind (arith, pow-suc 2 room)) in
        (
          out,
          rw (nz, nonzero, got) run,
          record {
            stands_for = ds.stands_for ∙ rw is (ap (λ (t : ℕ). value base t acc) (grind arith));
            at_zero = λ e. absurd (ground arith);
            canonical = λ ne. elim (Bool-cases (num / base == 0)) [
              | inl last ↦
                  let low : num % base ≡ num = grind (arith, (==_iff (num / base) 0).0 last) in
                  rw (ds.at_zero ((==_iff (num / base) 0).0 last))
                    (λ same. ne (sym low ∙ some-injective _ _ (sym reads ∙ ap hex_digit same)))
              | inr more ↦ ds.canonical (ground arith)
            ];
          },
        )
  ]

  -- In a base from 2 to 16, `print_number` of a word of 32 bits returns, and prints a numeral: each
  -- byte is a digit of the base, `0` to `9` and `A` to `F`, and the number is what they stand for,
  -- without leading zeros but for 0 itself. The 32 places of the buffer are enough.
  pub print_number-value :
      (num : ℕ)
      → num < 2 ^ 32
      → (out : List ℕ) × (print_number num base ≡ some out)
        × (numeral base out ≡ some num)
        × (num ≢ 0 → NoLeadingZero out)
  unfolding print_number numeral value
  print_number-value num h = elim (Bool-cases (num == 0)) [
    | inl z ↦
        let e : num ≡ 0 = (==_iff num 0).0 z in
        (b'0' ∷ [], rw z, zero_digit ∙ ap some (sym e), λ ne. absurd (ne e))
    | inr nz ↦
        let (out, run, ds) = digits_loop-IsDigits 32 num [] h in
        let first = ds.canonical (ground arith) in
        (out, rw nz run, numeral-value out first ∙ ds.stands_for, λ ne. first)
  ]
