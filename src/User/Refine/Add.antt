-- ===== src/User/Refine/Add.antt =====
-- `add_user` and `remove_user` against the book of accounts.
use kyro_kernel.Base.{
  leb, if◌then◌else◌, lt→ltb, Bool-cases, Option-cases, length, get_or, set, length-append,
  length-set, get_elem?-eq-get_or, ℕ, ◌+◌, ◌-◌, ◌%◌, ◌^◌, ◌<◌, ◌≡◌, refl, ◌∙◌, inl, inr, Bool, true,
  false, some, List, [], ◌∷◌, ◌++◌, arith,
}
use kyro_kernel.CString.{text, strcpy}
use kyro_kernel.CString.Copy.{stored, strlen-text, strcpy-text, text-stored, length-stored}
use kyro_kernel.Table.Model.{
  remove_at, position, All-get_elem?, All-set, length-remove_at, Holds-push, shift-remove_at,
  position-IsNamed,
}
use kyro_kernel.User.{
  User, store_user, add_user, remove_at_index, remove_user, say, max_users, username_length,
  password_length, Users,
}
use kyro_kernel.User.Spec
use kyro_kernel.User.Spec.{Account, Book, new_account}
use kyro_kernel.User.Refine.{
  table, unchanged, Sized, IsAccount, Models, Refines, by_accounts, find-text,
}

-- A copy of a text that fits its buffer, and what it leaves.
module _ (dest src : List ℕ) {s : List ℕ} (n : ℕ) (size : length dest ≡ n) (t : text src ≡ some s)
    (short : length s < n) where
  strcpy-fits : strcpy dest src ≡ some (stored s dest)
  strcpy-fits =
      strcpy-text dest src t
      ∙ rw (lt→ltb (length s) (length dest) (omega (arith, size, short))) refl

  length-fits : length (stored s dest) ≡ n
  length-fits = length-stored s dest (omega (arith, size, short)) ∙ size

store_user-Refines :
    (l : List User) (b : Book) (username password : List ℕ) {s p : List ℕ} (admin : Bool)
    → Models (table l b) b
    → text username ≡ some s
    → text password ≡ some p
    → length b.accounts < max_users
    → length s < username_length
    → length p < password_length
    → Refines (store_user username password admin (table l b)) (
      true,
      record {
        accounts = b.accounts ++ new_account s p admin b.next_uid ∷ [];
        next_uid = (b.next_uid + 1) % 2 ^ 32;
      },
      [],
    )
unfolding store_user
store_user-Refines l b username password {s} {p} admin m t q room short short' =
    let n : ℕ = length b.accounts in
    let at = get_elem?-eq-get_or l n blank (omega (arith, m.table_size)) in
    let slot : User = get_or l n blank in
    let sized = All-get_elem? Sized l n m.sized at in
    let new : User = record {
      username = stored s slot.username;
      password = stored p slot.password;
      is_admin = admin;
      uid = b.next_uid;
      gid = if admin then 0 else 1000;
    } in
    (
      record {
        result = true;
        state = record {
          users = set l n new;
          user_count = n + 1;
          next_uid = (b.next_uid + 1) % 2 ^ 32;
        };
        prints = [];
      },
      rw
          (
            at,
            strcpy-fits slot.username username 32 sized.username_size t short,
            strcpy-fits slot.password password 64 sized.password_size q short',
          )
          refl,
      refl,
      refl,
      record {
        counted = omega (arith, length-append b.accounts (new_account s p admin b.next_uid ∷ []));
        same_next = refl;
        table_size = length-set l n new ∙ m.table_size;
        sized = All-set Sized l n new m.sized (record {
          username_size = length-fits slot.username username 32 sized.username_size t short;
          password_size = length-fits slot.password password 64 sized.password_size q short';
        });
        holds =
            Holds-push IsAccount l b.accounts new _ (omega (arith, m.table_size)) m.holds (record {
              same_username = text-stored username slot.username t;
              same_password = text-stored password slot.password q;
              same_admin = refl;
              same_uid = refl;
              same_gid = refl;
            });
      },
    )
  where
    blank : User
    blank = record { username = []; password = []; is_admin = false; uid = 0; gid = 0 }

-- Given a table that models a book of accounts, and arguments that hold texts, `add_user` refuses
-- a full table, a name of 32 bytes or more, a password of 64 bytes or more and a name that is
-- taken, in this order and each with its message; otherwise it puts the account behind the others,
-- with the next user id, and group 0 for an administrator or 1000. In every case it stays inside
-- its arrays and keeps the table a model of the accounts.
pub add_user-Refines :
    {us : Users} {b : Book} (username password : List ℕ) {s p : List ℕ} (admin : Bool)
    → Models us b
    → text username ≡ some s
    → text password ≡ some p
    → Refines (add_user username password admin us) (Spec.add s p admin b)
add_user-Refines {us} {b} username password {s} {p} admin m t q =
    by_accounts (λ us. Refines (add_user username password admin us) (Spec.add s p admin b)) m
      (λ m. add-table us.users m)
  where
    add-table :
        (l : List User)
        → Models (table l b) b
        → Refines (add_user username password admin (table l b)) (Spec.add s p admin b)
    add-table l m =
        unfold add_user Spec.add in
        elim (Bool-cases (leb max_users (length b.accounts))) [
          | inl full ↦ rw full (unchanged false (say "Maximum number of users reached.\n") m)
          | inr room ↦
              rw (room, strlen-text username, t)
                (elim (Bool-cases (leb username_length (length s))) [
                  | inl long ↦ rw long (unchanged false (say "Username too long.\n") m)
                  | inr short ↦
                      rw (short, strlen-text password, q)
                        (elim (Bool-cases (leb password_length (length p))) [
                          | inl long ↦ rw long (unchanged false (say "Password too long.\n") m)
                          | inr short' ↦
                              rw (short', find-text l b m username t)
                                (elim (Option-cases (position Account.username s b.accounts)) [
                                  | inl new ↦ rw new (
                                      store_user-Refines l b username password admin m t q
                                        (ground arith) (ground arith) (ground arith))
                                  | inr (i, taken) ↦
                                      rw taken (unchanged false (say "User already exists.\n") m)
                                ])
                        ])
                ])
        ]

remove-Refines :
    (l : List User) (b : Book) (i : ℕ)
    → Models (table l b) b
    → i < length b.accounts
    → Refines
        (remove_at_index (table l b) (some i))
        (true, record b { accounts = remove_at i b.accounts }, [])
unfolding remove_at_index
remove-Refines l b i m lt =
    let n : ℕ = length b.accounts in
    let (out, run, is, holds) =
      shift-remove_at IsAccount Sized l b.accounts i (n - 1 - i) (omega arith) m.sized m.holds in
    (
      record {
        result = true;
        state = record { users = out; user_count = n - 1; next_uid = b.next_uid };
        prints = [];
      },
      rw run refl,
      refl,
      refl,
      record {
        counted = omega (arith, length-remove_at i b.accounts lt);
        same_next = refl;
        table_size = is.same_length ∙ m.table_size;
        sized = is.kept;
        holds = holds;
      },
    )

-- Given a table that models a book of accounts, and arguments that hold texts, `remove_user`
-- removes the account of the name and keeps the order of the others; where there is none, it
-- returns false and changes nothing.
pub remove_user-Refines :
    {us : Users} {b : Book} (username : List ℕ) {s : List ℕ}
    → Models us b
    → text username ≡ some s
    → Refines (remove_user username us) (Spec.remove s b)
remove_user-Refines {us} {b} username {s} m t =
    by_accounts (λ us. Refines (remove_user username us) (Spec.remove s b)) m
      λ m.
        unfold remove_user Spec.remove in
        rw (find-text us.users b m username t)
          (elim (Option-cases (position Account.username s b.accounts)) [
            | inl free ↦ rw (free, Spec.remove) (unchanged false [] m)
            | inr (i, found) ↦
                let (a, at, named, lt) = position-IsNamed Account.username s b.accounts i found in
                rw (found, Spec.remove) (remove-Refines us.users b i m lt)
          ])
