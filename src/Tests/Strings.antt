-- ===== src/Tests/Strings.antt =====
-- Strings and formats.
use kyro_kernel.Base.{replicate, codes, ℕ, ◌≡◌, refl, ◌≢◌, some, List, [], ◌∷◌, ◌++◌, arith}
use kyro_kernel.CString.{text, strncpy}
use kyro_kernel.CString.Copy.{stored, strncpy-short}
use kyro_kernel.Printf.{
  directive, print_signed, digits_loop, with_number, int, printf, vsprintf, print_number,
}
use kyro_kernel.Printf.Number.{numeral, NoLeadingZero, print_number-value}
use kyro_kernel.Printf.Format.{vsprintf-printf}

abbrev kyro : List ℕ
kyro = codes "kyro" ++ 0 ∷ []

abbrev os : List ℕ
os = codes "os" ++ 0 ∷ []

abbrev room : List ℕ
room = codes "kyro" ++ replicate 8 0

strncpy-short_example : strncpy room os 5 ≡ some (codes "os" ++ replicate 10 0)
unfolding text
strncpy-short_example = strncpy-short 5 room os refl (omega arith)

abbrev all_bits : ℕ
all_bits = 255

print_number-value_example :
    (out : List ℕ) × (print_number all_bits 16 ≡ some out)
    × (numeral 16 out ≡ some all_bits)
    × (all_bits ≢ 0 → NoLeadingZero out)
print_number-value_example =
    print_number-value 16 (omega arith) (omega arith) all_bits (omega arith)

vsprintf-printf_example :
    vsprintf (replicate 8 0) (codes "pid %d" ++ 0 ∷ []) (int 12 ∷ [])
    ≡ some (stored (codes "pid 12") (replicate 8 0), 5)
unfolding printf directive print_signed print_number digits_loop with_number
vsprintf-printf_example =
    vsprintf-printf (replicate 8 0) (codes "pid %d" ++ 0 ∷ []) (int 12 ∷ []) printed (omega arith)
  where
    printed : printf (codes "pid %d" ++ 0 ∷ []) (int 12 ∷ []) ≡ some (codes "pid 12", 5)
    printed = refl
