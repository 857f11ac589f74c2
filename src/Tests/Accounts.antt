-- ===== src/Tests/Accounts.antt =====
-- The user table.
use kyro_kernel.Base.{
  replicate, length-replicate, codes, ℕ, zero, suc, ◌+◌, ◌≡◌, refl, ap, true, false, some, List, [],
  ◌∷◌, ◌++◌, arith,
}
use kyro_kernel.CString.{text}
use kyro_kernel.Table.Model.{All}
use kyro_kernel.User.{User, Users, add_user, remove_user, list_users}
use kyro_kernel.User.Spec
use kyro_kernel.User.Spec.{Book}
use kyro_kernel.User.Refine.{Sized, Models, Refines}
use kyro_kernel.User.Refine.Listing.{list_users-Listed, Lists}
use kyro_kernel.User.{list_users}
use kyro_kernel.Printf.{Call, render}
use kyro_kernel.User.Refine.Add.{add_user-Refines, remove_user-Refines}
use kyro_kernel.User.Invariant.{IsValid, empty_book, empty-IsValid}
use kyro_kernel.User.Run.{run, adding, removing, run-IsValid}

abbrev pub no_user : User
no_user = record {
  username = replicate 32 0;
  password = replicate 64 0;
  is_admin = false;
  uid = 0;
  gid = 0;
}

abbrev pub root_user : User
root_user = record {
  username = codes "root" ++ replicate 28 0;
  password = codes "toor" ++ replicate 60 0;
  is_admin = true;
  uid = 1000;
  gid = 0;
}

abbrev pub no_users : Users
no_users = record { users = replicate 100 no_user; user_count = 0; next_uid = 1000 }

abbrev pub one_user : Users
one_user = record { users = root_user ∷ replicate 99 no_user; user_count = 1; next_uid = 1001 }

abbrev pub root_book : Book
root_book = record {
  accounts =
      record {
        username = codes "root";
        password = codes "toor";
        is_admin = true;
        uid = 1000;
        gid = 0;
      }
      ∷ [];
  next_uid = 1001;
}

All-Sized : (n : ℕ) → All Sized (replicate n no_user)
All-Sized zero = tt
All-Sized (suc n) = (record { username_size = refl; password_size = refl }, All-Sized n)

pub no_users-Models : Models no_users empty_book
no_users-Models = record {
  counted = refl;
  same_next = refl;
  table_size = length-replicate 100 no_user;
  sized = All-Sized 100;
  holds = tt;
}

pub one_user-Models : Models one_user root_book
unfolding text
one_user-Models = record {
  counted = refl;
  same_next = refl;
  table_size = ap (λ (n : ℕ). 1 + n) (length-replicate 99 no_user);
  sized = (record { username_size = refl; password_size = refl }, All-Sized 99);
  holds = (
    record {
      same_username = refl;
      same_password = refl;
      same_admin = refl;
      same_uid = refl;
      same_gid = refl;
    },
    tt,
  );
}

abbrev root_name : List ℕ
root_name = codes "root" ++ 0 ∷ []

abbrev toor : List ℕ
toor = codes "toor" ++ 0 ∷ []

abbrev guest : List ℕ
guest = codes "guest" ++ 0 ∷ []

add_user-Refines_example :
    Refines
      (add_user guest toor false one_user)
      (Spec.add (codes "guest") (codes "toor") false root_book)
unfolding text
add_user-Refines_example = add_user-Refines guest toor false one_user-Models refl refl

remove_user-Refines_example :
    Refines (remove_user root_name one_user) (Spec.remove (codes "root") root_book)
unfolding text
remove_user-Refines_example = remove_user-Refines root_name one_user-Models refl

run-IsValid_example :
    (us' : Users) × (run (adding guest toor false ∷ removing guest ∷ []) no_users ≡ some us')
    × ((b' : Book) × Models us' b' × IsValid b')
unfolding text
run-IsValid_example =
    run-IsValid (adding guest toor false ∷ removing guest ∷ []) no_users empty_book no_users-Models
      empty-IsValid ((_, refl), (_, refl), ((_, refl), tt)) (omega arith)

list_users-Listed_example :
    (calls : List Call) × (list_users one_user ≡ some calls)
    × (out : List ℕ) × (render calls ≡ some (codes "Users:\n" ++ out))
    × Lists root_book.accounts out
list_users-Listed_example = list_users-Listed one_user-Models (omega arith, tt)
