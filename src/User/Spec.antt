-- ===== src/User/Spec.antt =====
-- What user.c promises: accounts with different names, oldest first, at most `max_users`.
use kyro_kernel.Base.{
  leb, if◌then◌else◌, length, get_elem?, ℕ, ◌+◌, ◌%◌, ◌^◌, Bool, true, false, none, some, List, [],
  ◌∷◌, ◌++◌,
}
use kyro_kernel.CString.Compare.{same_text}
use kyro_kernel.Table.Model.{position, remove_at}
use kyro_kernel.Printf.{Call}
use kyro_kernel.User.{say, max_users, username_length, password_length}

pub record Account : Type 0 where
  pub username : List ℕ
  pub password : List ℕ
  pub is_admin : Bool
  pub uid : ℕ
  pub gid : ℕ

-- The accounts, and the id that the next one gets.
pub record Book : Type 0 where
  pub accounts : List Account
  pub next_uid : ℕ

abbrev pub Reply : Type 0
Reply = Bool × Book × List Call

abbrev pub new_account : (username password : List ℕ) → Bool → ℕ → Account
new_account username password is_admin uid = record {
  username = username;
  password = password;
  is_admin = is_admin;
  uid = uid;
  gid = if is_admin then 0 else 1000;
}

unfoldable pub add : (username password : List ℕ) → Bool → Book → Reply
add username password is_admin b =
    if leb max_users (length b.accounts)
    then (false, b, say "Maximum number of users reached.\n")
    else if leb username_length (length username)
    then (false, b, say "Username too long.\n")
    else if leb password_length (length password)
    then (false, b, say "Password too long.\n")
    else elim (position Account.username username b.accounts) [
      | some i ↦ (false, b, say "User already exists.\n")
      | none ↦ (
        true,
        record {
          accounts = b.accounts ++ new_account username password is_admin b.next_uid ∷ [];
          next_uid = (b.next_uid + 1) % 2 ^ 32;
        },
        [],
      )
    ]

unfoldable pub remove : List ℕ → Book → Reply
remove username b = elim (position Account.username username b.accounts) [
  | none ↦ (false, b, [])
  | some i ↦ (true, record b { accounts = remove_at i b.accounts }, [])
]

-- The account of the name exists and has the password.
unfoldable pub authenticate : (username password : List ℕ) → Book → Bool
authenticate username password b = elim (position Account.username username b.accounts) [
  | none ↦ false
  | some i ↦ elim (get_elem? b.accounts i) [ none ↦ false | some a ↦ same_text a.password password ]
]
