-- ===== src/Keyboard/Ring.antt =====
-- The ring buffer holds a queue of at most 256 scancodes.
use kyro_kernel.Base.{
  ltb, if◌then◌else◌, ltb→lt, ltb→le, Bool-cases, length, get_or, set, length-set, length-replicate,
  get_or-set_self, get_or-set_ne, ℕ, zero, suc, ◌+◌, ◌-◌, ◌%◌, ◌≤◌, ◌<◌, ◌≡◌, refl, sym, ap, ap₂,
  inl, inr, List, [], ◌∷◌, ◌++◌, arith,
}
use kyro_kernel.Keyboard.{
  Keyboard, buffer_size, keyboard_init, keyboard_buffer_put, keyboard_buffer_get,
}

pub record IsRing (k : Keyboard) : Type 0 where
  pub size : length k.buffer ≡ buffer_size
  pub tail_in : k.buffer_tail < buffer_size
  pub count_in : k.buffer_count ≤ buffer_size
  pub head_at : k.buffer_head ≡ (k.buffer_tail + k.buffer_count) % buffer_size

-- The `n` scancodes from index `t` on, going round at the end.
pub queue_from : List ℕ → ℕ → ℕ → List ℕ
queue_from buf t zero = []
queue_from buf t (suc n) = get_or buf t 0 ∷ queue_from buf ((t + 1) % buffer_size) n

unfoldable pub queue : Keyboard → List ℕ
unfolding queue_from
queue k = queue_from k.buffer k.buffer_tail k.buffer_count

length-queue_from : (buf : List ℕ) (t n : ℕ) → length (queue_from buf t n) ≡ n
unfolding queue_from
length-queue_from buf t zero = refl
length-queue_from buf t (suc n) = ap suc (length-queue_from buf ((t + 1) % buffer_size) n)

pub length-queue : (k : Keyboard) → length (queue k) ≡ k.buffer_count
unfolding queue
length-queue k = length-queue_from k.buffer k.buffer_tail k.buffer_count

-- A store just behind the queue appends to it.
queue_from-set :
    (buf : List ℕ) (x n t i : ℕ)
    → length buf ≡ buffer_size
    → t < buffer_size
    → n < buffer_size
    → i ≡ (t + n) % buffer_size
    → queue_from (set buf i x) t (suc n) ≡ queue_from buf t n ++ x ∷ []
unfolding queue_from
queue_from-set buf x zero t i size ht hn e =
    let at : i ≡ t = omega arith in
    rw at (ap (λ (v : ℕ). v ∷ []) (get_or-set_self buf t x 0 (omega arith)))
queue_from-set buf x (suc n) t i size ht hn e =
    ap₂ (λ (v : ℕ) (vs : List ℕ). v ∷ vs) (get_or-set_ne buf i t x 0 (omega arith))
      (queue_from-set buf x n ((t + 1) % buffer_size) i size (omega arith) (omega arith)
        (omega arith))

queue_from-pos :
    (buf : List ℕ) (t n : ℕ)
    → 0 < n
    → queue_from buf t n ≡ get_or buf t 0 ∷ queue_from buf ((t + 1) % buffer_size) (n - 1)
unfolding queue_from
queue_from-pos buf t zero h = absurd (omega arith)
queue_from-pos buf t (suc n) h =
    ap (λ (m : ℕ). get_or buf t 0 ∷ queue_from buf ((t + 1) % buffer_size) m) (omega arith)

pub put-IsRing : (c : ℕ) (k : Keyboard) → IsRing k → IsRing (keyboard_buffer_put c k)
unfolding keyboard_buffer_put
put-IsRing c k v = ground (arith, length-set k.buffer k.buffer_head c)

pub put-others :
    (c : ℕ) (k : Keyboard)
    → ((keyboard_buffer_put c k).flags ≡ k.flags)
      × ((keyboard_buffer_put c k).led_state ≡ k.led_state)
unfolding keyboard_buffer_put
put-others c k = elim (Bool-cases (ltb k.buffer_count buffer_size)) [
  | inl room ↦ rw room (refl, refl)
  | inr full ↦ rw full (refl, refl)
]

pub get-IsRing : (k : Keyboard) → IsRing k → IsRing (keyboard_buffer_get k).1
unfolding keyboard_buffer_get
get-IsRing k v = ground arith

put-room :
    (c : ℕ) (k : Keyboard)
    → IsRing k
    → k.buffer_count < buffer_size
    → queue_from (set k.buffer k.buffer_head c) k.buffer_tail (k.buffer_count + 1)
      ≡ queue k ++ c ∷ []
unfolding queue
put-room c k v lt =
    let e : k.buffer_count + 1 ≡ suc k.buffer_count = omega arith in
    rw e (
      queue_from-set k.buffer c k.buffer_count k.buffer_tail k.buffer_head v.size v.tail_in lt
        v.head_at)

-- In a ring in order, a scancode that is put goes behind the others, and is dropped if there are
-- 256 already.
pub put-queue :
    (c : ℕ) (k : Keyboard)
    → IsRing k
    → queue (keyboard_buffer_put c k)
      ≡ (if ltb (length (queue k)) buffer_size then queue k ++ c ∷ [] else queue k)
unfolding keyboard_buffer_put queue
put-queue c k v = rw (length-queue k) (elim (Bool-cases (ltb k.buffer_count buffer_size)) [
  | inl room ↦
      let lt : k.buffer_count < buffer_size = ltb→lt k.buffer_count buffer_size room in
      rw room (put-room c k v lt)
  | inr full ↦ rw full refl
])

-- What `keyboard_buffer_get` makes of a queue.
pub pop : List ℕ → ℕ × List ℕ
pop [] = (0, [])
pop (c ∷ q) = (c, q)

-- `keyboard_buffer_get` takes the oldest scancode out of the queue, and returns 0 and leaves the
-- queue if there is none.
pub get-queue :
    (k : Keyboard) → ((keyboard_buffer_get k).0, queue (keyboard_buffer_get k).1) ≡ pop (queue k)
unfolding keyboard_buffer_get queue
get-queue k = elim (Bool-cases (ltb 0 k.buffer_count)) [
  | inl some_left ↦ rw some_left (
      sym (
        unfold pop in
        ap pop (
          queue_from-pos k.buffer k.buffer_tail k.buffer_count
            (ltb→lt 0 k.buffer_count some_left))))
  | inr empty ↦
      let e : k.buffer_count ≡ 0 = omega (arith, ltb→le 0 k.buffer_count empty) in
      rw empty (unfold pop queue_from in rw e refl)
]

-- The buffer of `keyboard_init` is an empty ring.
pub init-IsRing : (k : Keyboard) → IsRing (keyboard_init k) × (queue (keyboard_init k) ≡ [])
unfolding keyboard_init queue
init-IsRing k = (
  record {
    size = length-replicate {A = ℕ} buffer_size 0;
    tail_in = omega arith;
    count_in = omega arith;
    head_at = refl;
  },
  refl,
)
