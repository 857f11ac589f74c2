-- ===== src/Idt/Address.antt =====
-- The address that the handler of page faults prints.
use kyro_kernel.Printf.Number.{digit_in, value, numeral}
use kyro_kernel.Idt.{halted, hex_digits, print_all, page_fault_handler, halted}
use kyro_kernel.CString.{text}
use kyro_kernel.CString.HasText.{HasText, finish, more, text_of_HasText}
use kyro_kernel.Screen.{Screen}
use kyro_kernel.Screen.Shows.{Page, Settled}
use kyro_kernel.Screen.Refine.{Ends, typed_text, print_message-Ends}
use kyro_kernel.Base.{
  ◌==◌, ==_iff, length, get_or, codes, ℕ, zero, suc, ◌+◌, ◌*◌, ◌/◌, ◌%◌, ◌^◌, ◌<◌, bit_and, ◌≡◌,
  refl, ap, ◌∙◌, Bool, true, false, not, Option, none, some, List, [], ◌∷◌, ◌++◌, arith,
}
use kyro_kernel.Base.Check.{all_below_sound, all_below}
use kyro_kernel.Base.Bits.{bit_and-low_mask}

abbrev digit_char : ℕ → ℕ
digit_char d = get_or (codes "0123456789ABCDEF") d 0

abbrev reads_as : ℕ → Bool
reads_as d = elim (digit_in 16 (digit_char d)) [ none ↦ false | some e ↦ e == d ]

digits_check : all_below 16 reads_as ≡ true
unfolding all_below
digits_check = refl

reads_as→eq : (d : ℕ) (o : Option ℕ) → elim o [ none ↦ false | some e ↦ e == d ] ≡ true → o ≡ some d
reads_as→eq d none h = cc
reads_as→eq d (some e) h = ap some ((==_iff e d).0 h)

digit_table : (d : ℕ) → d < 16 → digit_in 16 (digit_char d) ≡ some d
digit_table d h = reads_as→eq d _ (all_below_sound 16 reads_as d digits_check h)

step :
    (acc i a : ℕ)
    → value 16 acc (hex_digits (suc i) a)
      ≡ value 16 (acc * 16 + a / 2 ^ (i * 4) % 16) (hex_digits i a)
unfolding value hex_digits
step acc i a =
    let low : bit_and (a / 2 ^ (i * 4)) 0xf ≡ a / 2 ^ (i * 4) % 16 =
      bit_and-low_mask 4 (a / 2 ^ (i * 4)) in
    rw (digit_table (bit_and (a / 2 ^ (i * 4)) 0xf) (omega (arith, low)))
      (ap (λ (d : ℕ). value 16 (acc * 16 + d) (hex_digits i a)) low)

-- The eight bytes that are printed for a faulting address below 2 ^ 32 are its numeral.
pub hex_digits-numeral : (a : ℕ) → a < 2 ^ 32 → numeral 16 (hex_digits 8 a) ≡ some a
unfolding numeral value hex_digits
hex_digits-numeral a h =
    step 0 7 a ∙ rw (step, step, step, step, step, step, step) (ap some (omega arith))

nonzero_check : all_below 16 (λ d. not (get_or (codes "0123456789ABCDEF") d 0 == 0)) ≡ true
unfolding all_below
nonzero_check = refl

hex_digits-HasText : (n a : ℕ) → HasText (hex_digits n a ++ 0 ∷ []) (hex_digits n a)
unfolding hex_digits
hex_digits-HasText zero a = finish refl
hex_digits-HasText (suc i) a =
    let low : bit_and (a / 2 ^ (i * 4)) 0xf ≡ a / 2 ^ (i * 4) % 16 =
      bit_and-low_mask 4 (a / 2 ^ (i * 4)) in
    let nonzero =
      all_below_sound 16 _ (bit_and (a / 2 ^ (i * 4)) 0xf) nonzero_check (omega (arith, low)) in
    more (ground (arith, nonzero)) (hex_digits-HasText i a)

-- The messages have these texts.
abbrev pub HaveTexts : List (List ℕ) → List (List ℕ) → Type 0
HaveTexts [] [] = Unit
HaveTexts [] (t ∷ ts) = ⊥
HaveTexts (m ∷ ms) [] = ⊥
HaveTexts (m ∷ ms) (t ∷ ts) = (text m ≡ some t) × HaveTexts ms ts

-- The page after several texts.
abbrev pub typed_texts : List (List ℕ) → Page → Page
typed_texts [] g = g
typed_texts (t ∷ ts) g = typed_texts ts (typed_text t g)

pub print_all-Ends :
    (ms ts : List (List ℕ)) (s : Screen) (g : Page)
    → HaveTexts ms ts
    → Settled s g
    → Ends (typed_texts ts g) (print_all ms s)
unfolding print_all
print_all-Ends [] [] s g h v = (s, refl, v)
print_all-Ends [] (t ∷ ts) s g h v = absurd h
print_all-Ends (m ∷ ms) [] s g h v = absurd h
print_all-Ends (m ∷ ms) (t ∷ ts) s g h v =
    let (s', run, ok) = print_message-Ends m t s g h.0 v in
    let (s'', run', ok') = print_all-Ends ms ts s' (typed_text t g) h.1 ok in
    (s'', rw run run', ok')

-- The report of a page fault, with these digits.
abbrev pub report : List ℕ → List (List ℕ)
report digits =
    codes "EXCEPTION: Page Fault\n"
    ∷ codes "Faulting address: 0x"
    ∷ digits
    ∷ codes "\n"
    ∷ codes "System halted.\n"
    ∷ []

length-hex_digits : (n a : ℕ) → length (hex_digits n a) ≡ n
unfolding hex_digits
length-hex_digits zero a = refl
length-hex_digits (suc n) a = ap suc (length-hex_digits n a)

-- On a screen that shows a page, `page_fault_handler` of an address below 2 ^ 32 writes its report
-- and stays on the screen. The report has eight hexadecimal digits, `0` to `9` and `A` to `F`,
-- which stand for the address.
pub page_fault_handler-Ends :
    (a : ℕ) (s : Screen) (g : Page)
    → a < 2 ^ 32
    → Settled s g
    → (digits : List ℕ) × (length digits ≡ 8)
      × (numeral 16 digits ≡ some a)
      × Ends (typed_texts (report digits) g) (page_fault_handler a s)
unfolding page_fault_handler text
page_fault_handler-Ends a s g h v = (
  hex_digits 8 a,
  length-hex_digits 8 a,
  hex_digits-numeral a h,
  print_all-Ends
      (codes "EXCEPTION: Page Fault\n\0"
        ∷ codes "Faulting address: 0x\0"
        ∷ (hex_digits 8 a ++ 0 ∷ [])
        ∷ codes "\n\0"
        ∷ halted
        ∷ [])
      (report (hex_digits 8 a)) s g
      (refl, (refl, (text_of_HasText (hex_digits-HasText 8 a), (refl, (refl, tt))))) v,
)
