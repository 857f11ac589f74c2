-- ===== src/Table.antt =====
-- The loops that kernel/fs.c and kernel/user.c share over their arrays of structs: the search for
-- a name, and the shift that closes the gap of a removed element. An access past the array is a
-- fault, `none`.
pub mod Model
use kyro_kernel.Base.{
  if◌then◌else◌, ◌>>=◌, get_elem?, set, ℕ, zero, suc, ◌+◌, Option, none, some, List, [], ◌∷◌,
}
use mathlib.Core.Option
use kyro_kernel.CString.{strcmp}
use kyro_kernel.CString.Compare.{is_equal}

module _ {A : Type 0} (key : A → List ℕ) where
  -- `for (i = 0; i < count; i++) if (strcmp(a[i].name, name) == 0) ...`: the index at which the
  -- loop is left, or the inner `none` where it runs to its end.
  pub find : List A → ℕ → List ℕ → Option (Option ℕ)
  find l zero name = some none
  find [] (suc n) name = none
  find (x ∷ l) (suc n) name =
      let rest = Option.map (Option.map suc) (find l n name) in
      strcmp (key x) name >>= λ d. if is_equal d then some (some 0) else rest

module _ {A : Type 0} where
  -- `for (j = i; j < count - 1; j++) a[j] = a[j + 1];` with `n` rounds left.
  pub shift : ℕ → ℕ → List A → Option (List A)
  shift j zero l = some l
  shift j (suc n) l = get_elem? l (j + 1) >>= λ x. shift (j + 1) n (set l j x)
