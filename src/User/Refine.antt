-- ===== src/User/Refine.antt =====
-- The user table of user.c implements the book of accounts.
pub mod Add
pub mod Query
pub mod Listing
pub mod First
use kyro_kernel.Base.{
  length, get_elem?, get_or, get_elem?-eq-get_or, ℕ, ◌<◌, ◌≡◌, refl, sym, subst, Bool, false,
  Option, some, List, [], arith,
}
use kyro_kernel.Printf.{Call}
use kyro_kernel.CString.{text}
use kyro_kernel.Table.{find}
use kyro_kernel.Table.Model.{All, Holds, position, Holds-get, length-le_of_Holds, find-position}
use kyro_kernel.User.{User, Users, Done, max_users, username_length, password_length, done}
use kyro_kernel.User.Spec
use kyro_kernel.User.Spec.{Account, Book}

-- The buffers of an element, which the struct fixes.
pub record Sized (u : User) : Type 0 where
  pub username_size : length u.username ≡ username_length
  pub password_size : length u.password ≡ password_length

pub record IsAccount (u : User) (a : Account) : Type 0 where
  pub same_username : text u.username ≡ some a.username
  pub same_password : text u.password ≡ some a.password
  pub same_admin : u.is_admin ≡ a.is_admin
  pub same_uid : u.uid ≡ a.uid
  pub same_gid : u.gid ≡ a.gid

-- The table `us` holds the accounts of `b`.
pub record Models (us : Users) (b : Book) : Type 0 where
  pub counted : us.user_count ≡ length b.accounts
  pub same_next : us.next_uid ≡ b.next_uid
  pub table_size : length us.users ≡ max_users
  pub sized : All Sized us.users
  pub holds : Holds IsAccount us.users b.accounts

abbrev pub Refines : Option Done → Spec.Reply → Type 0
Refines r (res, b, calls) =
    (d : Done) × (r ≡ some d) × (d.result ≡ res) × (d.prints ≡ calls) × Models d.state b

-- The table with these users, as many as there are accounts.
abbrev pub table : List User → Book → Users
table l b = record { users = l; user_count = length b.accounts; next_uid = b.next_uid }

-- A table that holds accounts is of that form.
pub by_accounts :
    {us : Users} {b : Book} (P : Users → Type 0)
    → Models us b
    → (Models (table us.users b) b → P (table us.users b))
    → P us
by_accounts {us} {b} P m h =
    let same : table us.users b ≡ us = λ i. record {
      users = us.users;
      user_count = sym m.counted i;
      next_uid = sym m.same_next i;
    } in
    subst P same (
      h (record {
        counted = refl;
        same_next = refl;
        table_size = m.table_size;
        sized = m.sized;
        holds = m.holds;
      }))

pub unchanged :
    {us : Users} {b : Book} (res : Bool) (calls : List Call)
    → Models us b
    → Refines (done res us calls) (res, b, calls)
unchanged {us} res calls m =
    (record { result = res; state = us; prints = calls }, refl, refl, refl, m)

module _ (l : List User) (b : Book) (m : Models (table l b) b) where
  pub find-text :
      (name : List ℕ) {s : List ℕ}
      → text name ≡ some s
      → find User.username l (length b.accounts) name
        ≡ some (position Account.username s b.accounts)
  find-text name t =
      find-position IsAccount User.username Account.username (λ u a h. h.same_username) l b.accounts
        name t m.holds

  pub user_at :
      (i : ℕ) {a : Account}
      → get_elem? b.accounts i ≡ some a
      → i < length b.accounts
      → (u : User) × (get_elem? l i ≡ some u) × IsAccount u a
  user_at i at lt =
      let size = length-le_of_Holds IsAccount l b.accounts m.holds in
      let got = get_elem?-eq-get_or l i blank (omega (arith, size)) in
      (get_or l i blank, got, Holds-get IsAccount l b.accounts i m.holds got at)
    where
      blank : User
      blank = record { username = []; password = []; is_admin = false; uid = 0; gid = 0 }
