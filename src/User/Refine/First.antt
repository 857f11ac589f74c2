-- ===== src/User/Refine/First.antt =====
-- The accounts that the kernel starts with.
use kyro_kernel.Base.{codes, ◌≡◌, refl, subst, true, false, some, List, [], ◌∷◌, ◌++◌}
use kyro_kernel.CString.{text}
use kyro_kernel.CString.Compare.{same_text}
use kyro_kernel.Printf.{Call, int}
use kyro_kernel.Table.Model.{position}
use kyro_kernel.User.{Done, Users, init_users, add_user}
use kyro_kernel.User.Spec
use kyro_kernel.User.Spec.{Book, new_account}
use kyro_kernel.User.Invariant.{empty_book}
use kyro_kernel.User.Refine.{Models, Refines}
use kyro_kernel.User.Refine.Add.{add_user-Refines}

abbrev pub first_book : Book
first_book = record {
  accounts =
      new_account (codes "admin") (codes "password1") true 1000
      ∷ new_account (codes "user1") (codes "userpass1") false 1001
      ∷ [];
  next_uid = 1002;
}

abbrev admin_book : Book
admin_book = record {
  accounts = new_account (codes "admin") (codes "password1") true 1000 ∷ [];
  next_uid = 1001;
}

first_reply : Spec.add (codes "admin") (codes "password1") true empty_book ≡ (true, admin_book, [])
unfolding Spec.add position
first_reply = refl

second_reply :
    Spec.add (codes "user1") (codes "userpass1") false admin_book ≡ (true, first_book, [])
unfolding Spec.add position same_text
second_reply = refl

-- The message at the end.
abbrev pub first_calls : List Call
first_calls =
    record { format = codes "User system initialized with %d users.\n"; args = int 2 ∷ [] } ∷ []

-- From an empty table `init_users` returns, and the table is that of the two first accounts.
pub init_users-first :
    {us : Users}
    → Models us empty_book
    → (d : Done) × (init_users us ≡ some d) × (d.prints ≡ first_calls) × Models d.state first_book
unfolding init_users text
init_users-first {us} m =
    let (d1, run1, res1, p1, m1) : Refines
        (add_user (codes "admin" ++ 0 ∷ []) (codes "password1" ++ 0 ∷ []) true us)
        (true, admin_book, []) =
      subst (Refines _) first_reply (add_user-Refines _ _ true m refl refl) in
    let (d2, run2, res2, p2, m2) : Refines
        (add_user (codes "user1" ++ 0 ∷ []) (codes "userpass1" ++ 0 ∷ []) false d1.state)
        (true, first_book, []) =
      subst (Refines _) second_reply (add_user-Refines _ _ false m1 refl refl) in
    (
      record {
        result = true;
        state = d2.state;
        prints =
            d1.prints
            ++ d2.prints
            ++ record {
              format = codes "User system initialized with %d users.\n";
              args = int d2.state.user_count ∷ [];
            }
              ∷ [];
      },
      rw (run1, run2) refl,
      rw (p1, p2, m2.counted) refl,
      m2,
    )
