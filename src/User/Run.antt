-- ===== src/User/Run.antt =====
-- Sequences of calls of `add_user` and `remove_user`.
use kyro_kernel.Base.{
  ◌>>=◌, length, ℕ, ◌+◌, ◌^◌, ◌≤◌, ◌<◌, ◌≡◌, refl, Bool, Option, some, List, [], ◌∷◌, arith,
}
use kyro_kernel.User.Refine.Add.{add_user-Refines, remove_user-Refines}
use kyro_kernel.User.Invariant.{IsValid, add-IsValid, remove-IsValid}
use kyro_kernel.User.Refine.{Models}
use kyro_kernel.CString.{text}
use kyro_kernel.User.{Users, add_user, remove_user}
use kyro_kernel.User.Spec
use kyro_kernel.User.Spec.{Book, add, remove}

-- A call, with the buffers that are passed.
pub data Op : Type 0 where
  adding : (username password : List ℕ) → Bool → Op
  removing : (username : List ℕ) → Op

-- The table after the calls, whatever each of them returned.
pub run : List Op → Users → Option Users
run [] us = some us
run (adding u p admin ∷ ops) us = add_user u p admin us >>= λ d. run ops d.state
run (removing u ∷ ops) us = remove_user u us >>= λ d. run ops d.state

-- Every buffer holds a text.
abbrev pub HaveTexts : List Op → Type 0
HaveTexts [] = Unit
HaveTexts (adding u p admin ∷ ops) =
    ((s : List ℕ) × (text u ≡ some s)) × ((s : List ℕ) × (text p ≡ some s)) × HaveTexts ops
HaveTexts (removing u ∷ ops) = ((s : List ℕ) × (text u ≡ some s)) × HaveTexts ops

next-add :
    (s p : List ℕ) (admin : Bool) (b : Book)
    → b.next_uid + 1 < 2 ^ 32
    → (Spec.add s p admin b).1.next_uid ≤ b.next_uid + 1
unfolding Spec.add
next-add s p admin b small = ground arith

next-remove : (s : List ℕ) (b : Book) → (Spec.remove s b).1.next_uid ≡ b.next_uid
unfolding Spec.remove
next-remove s b = ground arith

-- From a table of valid accounts no sequence of calls of `add_user` and `remove_user` on texts
-- leaves an array, and the table it leaves holds accounts with different names, rising user ids
-- and the groups of their kind, at most 100 of them; as long as the calls cannot use up the user
-- ids of 32 bits.
pub run-IsValid :
    (ops : List Op) (us : Users) (b : Book)
    → Models us b
    → IsValid b
    → HaveTexts ops
    → b.next_uid + length ops < 2 ^ 32
    → (us' : Users) × (run ops us ≡ some us') × ((b' : Book) × Models us' b' × IsValid b')
unfolding run
run-IsValid [] us b m v t small = (us, refl, (b, m, v))
run-IsValid (adding u p admin ∷ ops) us b m v ((s, su), (q, pq), t) small =
    let (d, ran, same, says, m') = add_user-Refines u p admin m su pq in
    let v' = add-IsValid s q admin b (omega arith) v in
    rw ran (
      run-IsValid ops d.state (Spec.add s q admin b).1 m' v' t
        (omega (arith, next-add s q admin b (omega arith))))
run-IsValid (removing u ∷ ops) us b m v ((s, su), t) small =
    let (d, ran, same, says, m') = remove_user-Refines u m su in
    let v' = remove-IsValid s b v in
    rw ran (run-IsValid ops d.state (Spec.remove s b).1 m' v' t (omega (arith, next-remove s b)))
