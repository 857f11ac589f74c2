-- ===== src/User.antt =====
-- kernel/user.c, include/user.h and the accounts of tools/init.c: an array of users, a count, and
-- the next user id. `none` is an access outside an array; the `printf` calls are recorded.
pub mod Spec
pub mod Refine
pub mod Invariant
pub mod Run
use kyro_kernel.Base.{
  leb, if◌then◌else◌, ◌>>=◌, get_elem?, set, codes, ℕ, zero, suc, ◌+◌, ◌-◌, ◌%◌, ◌^◌, Bool, true,
  false, Option, none, some, List, [], ◌∷◌, ◌++◌,
}
use Prim.Native.String.{String}
use mathlib.Core.Option
use kyro_kernel.CString.{strlen, strcpy, strcmp}
use kyro_kernel.CString.Compare.{is_equal}
use kyro_kernel.Printf.{Call, int, str}
use kyro_kernel.Table.{find, shift}

abbrev pub max_users : ℕ
max_users = 100

abbrev pub username_length : ℕ
username_length = 32

abbrev pub password_length : ℕ
password_length = 64

-- `user_t`
pub record User : Type 0 where
  pub username : List ℕ
  pub password : List ℕ
  pub is_admin : Bool
  pub uid : ℕ
  pub gid : ℕ

-- The globals `users`, `user_count` and `next_uid`.
pub record Users : Type 0 where
  pub users : List User
  pub user_count : ℕ
  pub next_uid : ℕ

pub record Done : Type 0 where
  pub result : Bool
  pub state : Users
  pub prints : List Call

abbrev pub say : String → List Call
say s = record { format = codes s; args = [] } ∷ []

abbrev pub done : Bool → Users → List Call → Option Done
done b us calls = some (record { result = b; state = us; prints = calls })

unfoldable pub user_init : Users → Option Done
user_init us = done true (record us { user_count = 0 }) (say "User system initialized.\n")

-- The checks passed: the slot behind the last user is filled, and `next_uid++` wraps at 32 bits.
pub store_user : (username password : List ℕ) → Bool → Users → Option Done
store_user username password is_admin us = do
  slot ← get_elem? us.users us.user_count
  username' ← strcpy slot.username username
  password' ← strcpy slot.password password
  let user : User = record {
    username = username';
    password = password';
    is_admin = is_admin;
    uid = us.next_uid;
    gid = if is_admin then 0 else 1000;
  }
  done true
      (record {
        users = set us.users us.user_count user;
        user_count = us.user_count + 1;
        next_uid = (us.next_uid + 1) % 2 ^ 32;
      })
      []

-- `return false` out of the search where it finds the name, else on behind it.
pub check_new : (username password : List ℕ) → Bool → Users → Option ℕ → Option Done
check_new username password is_admin us (some i) = done false us (say "User already exists.\n")
check_new username password is_admin us none = store_user username password is_admin us

pub add_user : (username password : List ℕ) → Bool → Users → Option Done
unfolding check_new
add_user username password is_admin us =
    if leb max_users us.user_count
    then done false us (say "Maximum number of users reached.\n")
    else strlen username >>= λ n.
        if leb username_length n
        then done false us (say "Username too long.\n")
        else strlen password >>= λ m.
            if leb password_length m
            then done false us (say "Password too long.\n")
            else find User.username us.users us.user_count username
              >>= check_new username password is_admin us

pub remove_at_index : Users → Option ℕ → Option Done
remove_at_index us none = done false us []
remove_at_index us (some i) = shift i (us.user_count - 1 - i) us.users >>= λ l.
    done true (record us { users = l; user_count = us.user_count - 1 }) []

pub remove_user : List ℕ → Users → Option Done
unfolding remove_at_index
remove_user username us = find User.username us.users us.user_count username >>= remove_at_index us

pub check_password : List ℕ → Users → Option ℕ → Option Bool
check_password password us none = some false
check_password password us (some i) =
    get_elem? us.users i >>= λ u. strcmp u.password password >>= λ d. some (is_equal d)

pub authenticate_user : (username password : List ℕ) → Users → Option Bool
unfolding check_password
authenticate_user username password us =
    find User.username us.users us.user_count username >>= check_password password us

-- The pointer that is returned, as the index of the user; the inner `none` is NULL.
pub get_user : List ℕ → Users → Option (Option ℕ)
get_user username us = find User.username us.users us.user_count username

-- `printf("  %s (UID: %d, %s)\n", ...)` for each of the `n` users left.
pub list_loop : List User → ℕ → Option (List Call)
list_loop l zero = some []
list_loop [] (suc n) = none
list_loop (u ∷ l) (suc n) =
    Option.map
      (◌∷◌ (record {
        format = codes "  %s (UID: %d, %s)\n";
        args =
            str (some u.username)
            ∷ int u.uid
            ∷ str (some (codes (if u.is_admin then "admin" else "user") ++ 0 ∷ []))
            ∷ [];
      }))
      (list_loop l n)

unfoldable pub list_users : Users → Option (List Call)
unfolding list_loop
list_users us = Option.map (λ calls. say "Users:\n" ++ calls) (list_loop us.users us.user_count)

-- `init_users`: the results of the two additions are not looked at.
unfoldable pub init_users : Users → Option Done
unfolding add_user
init_users us = do
  first ← add_user (codes "admin" ++ 0 ∷ []) (codes "password1" ++ 0 ∷ []) true us
  second ← add_user (codes "user1" ++ 0 ∷ []) (codes "userpass1" ++ 0 ∷ []) false first.state
  done true second.state (
      first.prints
      ++ second.prints
      ++ record {
        format = codes "User system initialized with %d users.\n";
        args = int second.state.user_count ∷ [];
      }
        ∷ [])
