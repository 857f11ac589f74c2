-- ===== src/User/Refine/Listing.antt =====
-- What `list_users` prints.
use kyro_kernel.Base.{
  if◌then◌else◌, length, codes, ℕ, ◌^◌, ◌<◌, ◌≡◌, refl, sym, ap, ◌∙◌, subst, Bool, true, false,
  Option, some, List, [], ◌∷◌, ◌++◌,
}
use kyro_kernel.CString.{text}
use kyro_kernel.Printf.{Call, int, str, printf, before, render}
use kyro_kernel.Printf.Number.{numeral}
use kyro_kernel.Printf.Format.{printf-plain}
use kyro_kernel.Printf.Steps.{printf-string, printf-number, printf-prefix}
use kyro_kernel.Table.Model.{All, Holds}
use kyro_kernel.User.{User, list_loop, Users, list_users}
use kyro_kernel.User.Spec.{Account, Book}
use kyro_kernel.User.Refine.{IsAccount, Models, by_accounts}

abbrev kind_of : Bool → List ℕ
kind_of b = codes (if b then "admin" else "user")

-- The line of an account, with the digits of its number.
abbrev line_of : Account → List ℕ → List ℕ
line_of a ds =
    codes "  "
    ++ (a.username
        ++ (codes " (UID: " ++ (ds ++ (codes ", " ++ (kind_of a.is_admin ++ codes ")\n")))))

-- The lines of a listing.
pub data Lists : List Account → List ℕ → Type 0 where
  no_lines : Lists [] []
  account_line :
      {a : Account} (ds : List ℕ) {l : List Account} {rest : List ℕ}
      → numeral 10 ds ≡ some a.uid
      → Lists l rest
      → Lists (a ∷ l) (line_of a ds ++ rest)

-- A number that `%d` does not take for a negative one.
abbrev pub IsId : Account → Type 0
IsId a = a.uid < 2 ^ 31

abbrev line_call : User → Call
line_call u = record {
  format = codes "  %s (UID: %d, %s)\n";
  args =
      str (some u.username)
      ∷ int u.uid
      ∷ str (some (codes (if u.is_admin then "admin" else "user") ++ 0 ∷ []))
      ∷ [];
}

kind-text : (b : Bool) → text (kind_of b ++ 0 ∷ []) ≡ some (kind_of b)
unfolding text
kind-text true = refl
kind-text false = refl

-- What stands behind the number.
kind-printf :
    (b : Bool)
    → printf (codes ", %s)\n\0") (str (some (kind_of b ++ 0 ∷ [])) ∷ [])
      ≡ some (codes ", " ++ (kind_of b ++ codes ")\n"), 5)
kind-printf b =
    printf-prefix (codes ", ") b'%' (codes "s)\n\0") _ (refl, refl, (refl, refl, tt))
    ∙ ap (before (codes ", ") 2) (
        printf-string (kind_of b ++ 0 ∷ []) (kind_of b) b')' (codes "\n\0") [] (kind-text b)
        ∙ ap (before (kind_of b) 1) (printf-plain (codes ")\n") [] (refl, refl, (refl, refl, tt))))

line-printf :
    (u : User) (a : Account)
    → IsAccount u a
    → u.uid < 2 ^ 31
    → (ds : List ℕ) × (numeral 10 ds ≡ some u.uid)
      × (n : ℕ) × (printf (codes "  %s (UID: %d, %s)\n" ++ 0 ∷ []) (line_call u).args
          ≡ some (line_of a ds, n))
line-printf u a is h =
    let rest = str (some (kind_of u.is_admin ++ 0 ∷ [])) ∷ [] in
    let (ds, at, run) = printf-number u.uid b',' (codes " %s)\n\0") rest h in
    (
      ds,
      at,
      16,
      printf-prefix (codes "  ") b'%' (codes "s (UID: %d, %s)\n\0") _ (refl, refl, (refl, refl, tt))
          ∙ ap (before (codes "  ") 2) (
              printf-string u.username a.username b' ' (codes "(UID: %d, %s)\n\0") _
                is.same_username
              ∙ ap (before a.username 1) (
                  printf-prefix (codes " (UID: ") b'%' (codes "d, %s)\n\0") _ (
                    refl,
                    refl,
                    (
                      refl,
                      refl,
                      (refl, refl, (refl, refl, (refl, refl, (refl, refl, (refl, refl, tt))))),
                    ),
                  )
                  ∙ ap (before (codes " (UID: ") 7) (
                      run
                      ∙ ap (before ds 1) (
                          kind-printf u.is_admin
                          ∙ ap (λ (b : Bool). some (codes ", " ++ (kind_of b ++ codes ")\n"), 5))
                              is.same_admin)))),
    )

-- The calls are made, and print the lines.
abbrev Listed : List Account → Option (List Call) → Type 0
Listed l r =
    (calls : List Call) × (r ≡ some calls)
    × (out : List ℕ) × (render calls ≡ some out)
    × Lists l out

list_loop-Listed :
    (l : List User) (es : List Account)
    → Holds IsAccount l es
    → All IsId es
    → Listed es (list_loop l (length es))
unfolding list_loop render
list_loop-Listed l [] h v = ([], refl, [], refl, no_lines)
list_loop-Listed [] (a ∷ es) h v = absurd h
list_loop-Listed (u ∷ l) (a ∷ es) h v =
    let (calls, run, out, printed, ls) = list_loop-Listed l es h.1 v.1 in
    let (ds, at, n, one) =
      line-printf u a h.0 (subst (λ (x : ℕ). x < 2 ^ 31) (sym h.0.same_uid) v.0) in
    (
      line_call u ∷ calls,
      rw run refl,
      line_of a ds ++ out,
      rw (one, printed) refl,
      account_line ds (at ∙ ap some h.0.same_uid) ls,
    )

-- Given a table that models a book of accounts with numbers below 2 ^ 31, `list_users` returns, and
-- what it prints is a heading and a line for each account, oldest first: its name, its number in
-- decimal digits, and whether it is an administrator.
pub list_users-Listed :
    {us : Users} {b : Book}
    → Models us b
    → All IsId b.accounts
    → (calls : List Call) × (list_users us ≡ some calls)
      × (out : List ℕ) × (render calls ≡ some (codes "Users:\n" ++ out))
      × Lists b.accounts out
list_users-Listed {us} {b} m v =
    by_accounts
      (λ us.
        (calls : List Call) × (list_users us ≡ some calls)
        × (out : List ℕ) × (render calls ≡ some (codes "Users:\n" ++ out))
        × Lists b.accounts out)
      m
      λ m.
        let (calls, run, out, printed, ls) = list_loop-Listed us.users b.accounts m.holds v in
        unfold list_users render printf in
        (
          record { format = codes "Users:\n"; args = [] } ∷ calls,
          rw run refl,
          out,
          rw printed refl,
          ls,
        )
