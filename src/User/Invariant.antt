-- ===== src/User/Invariant.antt =====
-- What every sequence of additions and removals keeps of the accounts.
use kyro_kernel.Base.{
  leb, if◌then◌else◌, Bool-cases, Option-cases, length, length-append, ℕ, zero, suc, ◌+◌, ◌%◌, ◌^◌,
  ◌≤◌, ◌<◌, ◌≡◌, refl, ◌∙◌, ◌↔◌, inl, inr, Bool, false, none, List, [], ◌∷◌, ◌++◌, arith,
}
use kyro_kernel.CString.Compare.{same_text_comm, same_text}
use kyro_kernel.Table.Model.{position, All, remove_at}
use kyro_kernel.CString.Compare.{same_text}
use kyro_kernel.User.Spec
use kyro_kernel.User.{max_users, username_length, password_length}
use kyro_kernel.User.Spec.{Account, Book, new_account, remove}

abbrev pub Accounts : Type 0
Accounts = List Account

-- No two accounts have one name.
abbrev pub DistinctNames : Accounts → Type 0
DistinctNames [] = Unit
DistinctNames (a ∷ as') = (position Account.username a.username as' ≡ none) × DistinctNames as'

-- The user ids rise from `lo` on and stay below `hi`.
abbrev pub Rising : ℕ → ℕ → Accounts → Type 0
Rising lo hi [] = lo ≤ hi
Rising lo hi (a ∷ as') = (lo ≤ a.uid) × Rising (a.uid + 1) hi as'

-- Administrators are in group 0, the others in group 1000.
abbrev pub HasGroup : Account → Type 0
HasGroup a = a.gid ≡ (if a.is_admin then 0 else 1000)

pub record IsValid (b : Book) : Type 0 where
  pub few : length b.accounts ≤ max_users
  pub names : DistinctNames b.accounts
  pub ids : Rising 1000 b.next_uid b.accounts
  pub groups : All HasGroup b.accounts

-- The book of `user.c` at start.
abbrev pub empty_book : Book
empty_book = record { accounts = []; next_uid = 1000 }

pub empty-IsValid : IsValid empty_book
empty-IsValid = record { few = omega arith; names = tt; ids = omega arith; groups = tt }

-- No account of the name, in parts.
position-none :
    (n : List ℕ) (a : Account) (as' : Accounts)
    → (position Account.username n (a ∷ as') ≡ none)
      ↔ ((same_text a.username n ≡ false) × (position Account.username n as' ≡ none))
unfolding position
position-none n a as' = ground arith

position-append :
    (n : List ℕ) (as' : Accounts) (a : Account)
    → position Account.username n as' ≡ none
    → same_text a.username n ≡ false
    → position Account.username n (as' ++ a ∷ []) ≡ none
position-append n [] a h ne = (position-none n a []).1 (ne, h)
position-append n (b ∷ as') a h ne =
    let (here, rest) = (position-none n b as').0 h in
    (position-none n b (as' ++ a ∷ [])).1 (here, position-append n as' a rest ne)

DistinctNames-push :
    (as' : Accounts) (a : Account)
    → DistinctNames as'
    → position Account.username a.username as' ≡ none
    → DistinctNames (as' ++ a ∷ [])
DistinctNames-push [] a d new = (new, tt)
DistinctNames-push (b ∷ as') a d new =
    let (other, rest) = (position-none a.username b as').0 new in
    (
      position-append b.username as' a d.0 (same_text_comm a.username b.username ∙ other),
      DistinctNames-push as' a d.1 rest,
    )

Rising-push :
    (as' : Accounts) (lo hi : ℕ) (a : Account)
    → Rising lo hi as'
    → a.uid ≡ hi
    → Rising lo (hi + 1) (as' ++ a ∷ [])
Rising-push [] lo hi a h e = (omega arith, omega arith)
Rising-push (b ∷ as') lo hi a h e = (h.0, Rising-push as' (b.uid + 1) hi a h.1 e)

Rising-le : (as' : Accounts) (lo lo' hi : ℕ) → lo' ≤ lo → Rising lo hi as' → Rising lo' hi as'
Rising-le [] lo lo' hi le h = omega arith
Rising-le (a ∷ as') lo lo' hi le h = (omega arith, h.1)

All-push :
    (as' : Accounts) (a : Account) → All HasGroup as' → HasGroup a → All HasGroup (as' ++ a ∷ [])
All-push [] a h p = (p, tt)
All-push (b ∷ as') a h p = (h.0, All-push as' a h.1 p)

position-remove :
    (n : List ℕ) (i : ℕ) (as' : Accounts)
    → position Account.username n as' ≡ none
    → position Account.username n (remove_at i as') ≡ none
unfolding remove_at
position-remove n i [] h = h
position-remove n zero (a ∷ as') h = ((position-none n a as').0 h).1
position-remove n (suc i) (a ∷ as') h =
    let (here, rest) = (position-none n a as').0 h in
    (position-none n a (remove_at i as')).1 (here, position-remove n i as' rest)

DistinctNames-remove :
    (i : ℕ) (as' : Accounts) → DistinctNames as' → DistinctNames (remove_at i as')
unfolding remove_at
DistinctNames-remove i [] d = tt
DistinctNames-remove zero (a ∷ as') d = d.1
DistinctNames-remove (suc i) (a ∷ as') d =
    (position-remove a.username i as' d.0, DistinctNames-remove i as' d.1)

Rising-remove :
    (i : ℕ) (as' : Accounts) (lo hi : ℕ) → Rising lo hi as' → Rising lo hi (remove_at i as')
unfolding remove_at
Rising-remove i [] lo hi h = h
Rising-remove zero (a ∷ as') lo hi h = Rising-le as' (a.uid + 1) lo hi (omega arith) h.1
Rising-remove (suc i) (a ∷ as') lo hi h = (h.0, Rising-remove i as' (a.uid + 1) hi h.1)

All-remove : (i : ℕ) (as' : Accounts) → All HasGroup as' → All HasGroup (remove_at i as')
unfolding remove_at
All-remove i [] h = tt
All-remove zero (a ∷ as') h = h.1
All-remove (suc i) (a ∷ as') h = (h.0, All-remove i as' h.1)

length-remove-le : (i : ℕ) (as' : Accounts) → length (remove_at i as') ≤ length as'
unfolding remove_at
length-remove-le i [] = omega arith
length-remove-le zero (a ∷ as') = omega arith
length-remove-le (suc i) (a ∷ as') = omega (arith, length-remove-le i as')

IsValid-push :
    (b : Book) (a : Account)
    → b.next_uid + 1 < 2 ^ 32
    → IsValid b
    → length b.accounts < max_users
    → position Account.username a.username b.accounts ≡ none
    → a.uid ≡ b.next_uid
    → HasGroup a
    → IsValid (record { accounts = b.accounts ++ a ∷ []; next_uid = (b.next_uid + 1) % 2 ^ 32 })
IsValid-push b a small v room new e g =
    let next : (b.next_uid + 1) % 2 ^ 32 ≡ b.next_uid + 1 = omega arith in
    record {
      few = omega (arith, length-append b.accounts (a ∷ []));
      names = DistinctNames-push b.accounts a v.names new;
      ids = rw next (Rising-push b.accounts 1000 b.next_uid a v.ids e);
      groups = All-push b.accounts a v.groups g;
    }

-- Adding keeps the invariant, as long as the ids have not used up 32 bits.
pub add-IsValid :
    (username password : List ℕ) (admin : Bool) (b : Book)
    → b.next_uid + 1 < 2 ^ 32
    → IsValid b
    → IsValid (Spec.add username password admin b).1
unfolding Spec.add
add-IsValid username password admin b small v =
    elim (Bool-cases (leb max_users (length b.accounts))) [
      | inl full ↦ rw full v
      | inr room ↦ rw room (elim (Bool-cases (leb username_length (length username))) [
        | inl long ↦ rw long v
        | inr short ↦ rw short (elim (Bool-cases (leb password_length (length password))) [
          | inl long ↦ rw long v
          | inr short' ↦
              rw short' (elim (Option-cases (position Account.username username b.accounts)) [
                | inr (i, taken) ↦ rw taken v
                | inl new ↦ rw new (
                    IsValid-push b (new_account username password admin b.next_uid) small v
                      (ground arith) new refl refl)
              ])
        ])
      ])
    ]

pub remove-IsValid : (username : List ℕ) (b : Book) → IsValid b → IsValid (Spec.remove username b).1
unfolding Spec.remove
remove-IsValid username b v = elim (Option-cases (position Account.username username b.accounts)) [
  | inl free ↦ rw (free, Spec.remove) v
  | inr (i, found) ↦
      rw (found, Spec.remove)
        (record {
          few = omega (arith, length-remove-le i b.accounts, v.few);
          names = DistinctNames-remove i b.accounts v.names;
          ids = Rising-remove i b.accounts 1000 b.next_uid v.ids;
          groups = All-remove i b.accounts v.groups;
        })
]
