-- ===== src/User/Refine/Query.antt =====
-- `authenticate_user` and `get_user` against the book of accounts.
use kyro_kernel.Base.{Option-cases, ◌>>=◌, ℕ, ◌≡◌, refl, inl, inr, some, List}
use kyro_kernel.CString.Compare.{strcmp-text_diff, is_equal-text_diff, same_text, is_equal}
use kyro_kernel.CString.HasText.{HasText-text}
use kyro_kernel.CString.Compare.{is_equal, same_text}
use kyro_kernel.CString.{text, strcmp}
use kyro_kernel.Table.Model.{position, position-IsNamed}
use kyro_kernel.User.{check_password, authenticate_user, get_user, User, Users}
use kyro_kernel.User.Spec
use kyro_kernel.User.Spec.{Account, Book}
use kyro_kernel.User.Refine.{table, Models, by_accounts, find-text, user_at}

strcmp-same :
    (a b : List ℕ) {s t : List ℕ}
    → text a ≡ some s
    → text b ≡ some t
    → (strcmp a b >>= λ d. some (is_equal d)) ≡ some (same_text s t)
strcmp-same a b h k =
    rw (strcmp-text_diff a b h k, is_equal-text_diff (HasText-text a h) (HasText-text b k)) refl

-- Given a table that models a book of accounts, and arguments that hold texts, `authenticate_user`
-- returns, and says yes exactly where the first account of the name has the password.
pub authenticate_user-Spec :
    {us : Users} {b : Book} (username password : List ℕ) {s p : List ℕ}
    → Models us b
    → text username ≡ some s
    → text password ≡ some p
    → authenticate_user username password us ≡ some (Spec.authenticate s p b)
authenticate_user-Spec {us} {b} username password {s} {p} m t q =
    by_accounts (λ us. authenticate_user username password us ≡ some (Spec.authenticate s p b)) m
      (λ m. go us.users m)
  where
    go :
        (l : List User)
        → Models (table l b) b
        → authenticate_user username password (table l b) ≡ some (Spec.authenticate s p b)
    go l m =
        unfold authenticate_user Spec.authenticate check_password in
        rw (find-text l b m username t)
          (elim (Option-cases (position Account.username s b.accounts)) [
            | inl free ↦ rw (free, Spec.authenticate, check_password)
            | inr (i, found) ↦
                let (a, at, named, lt) = position-IsNamed Account.username s b.accounts i found in
                let (u, got, is) = user_at l b m i at lt in
                rw (found, Spec.authenticate, check_password, got, at)
                  (strcmp-same u.password password is.same_password q)
          ])

-- `get_user` points to the element of the account of the name, and returns NULL exactly where
-- there is none.
pub get_user-position :
    {us : Users} {b : Book} (username : List ℕ) {s : List ℕ}
    → Models us b
    → text username ≡ some s
    → get_user username us ≡ some (position Account.username s b.accounts)
get_user-position {us} {b} username {s} m t =
    by_accounts (λ us. get_user username us ≡ some (position Account.username s b.accounts)) m
      λ m. unfold get_user in find-text us.users b m username t
