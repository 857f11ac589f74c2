-- ===== src/Keyboard/Device.antt =====
-- The keyboard's side of the ports: waiting for the controller, commands and lights.
use kyro_kernel.Base.{
  ◌==◌, if◌then◌else◌, Bool-cases, ◌>>=◌, ℕ, zero, suc, bit_and, bit_or, ◌≡◌, refl, inl, inr,
  Option, none, some, List, [], ◌∷◌, ◌++◌,
}
use kyro_kernel.Port.{Io, outb, inb}
use kyro_kernel.Keyboard.{Keyboard, flag_caps_lock, flag_num_lock, flag_scroll_lock, has_flag}

abbrev pub data_port : ℕ
data_port = 0x60

abbrev pub status_port : ℕ
status_port = 0x64

-- `while (keyboard_read_status() & KEYBOARD_STATUS_INPUT_FULL);` over the answers of the status
-- port: those that are left when the loop ends.
pub wait_ready : List (ℕ × ℕ) → Option (List (ℕ × ℕ))
wait_ready [] = none
wait_ready ((p, a) ∷ as') =
    let rest = wait_ready as' in
    if p == status_port then (if bit_and a 0x02 == 0 then some as' else rest) else none

pub keyboard_wait_input : Io → Option Io
unfolding wait_ready
keyboard_wait_input io = wait_ready io.answers >>= λ as'. some (record io { answers = as' })

-- `while (!(keyboard_read_status() & KEYBOARD_STATUS_OUTPUT_FULL));`
pub wait_data : List (ℕ × ℕ) → Option (List (ℕ × ℕ))
wait_data [] = none
wait_data ((p, a) ∷ as') =
    let rest = wait_data as' in
    if p == status_port then (if bit_and a 0x01 == 0 then rest else some as') else none

pub keyboard_wait_output : Io → Option Io
unfolding wait_data
keyboard_wait_output io = wait_data io.answers >>= λ as'. some (record io { answers = as' })

unfoldable pub keyboard_read_data : Io → Option (ℕ × Io)
unfolding inb
keyboard_read_data io = inb data_port io

pub keyboard_read_status : Io → Option (ℕ × Io)
unfolding inb
keyboard_read_status io = inb status_port io

pub keyboard_write_data : ℕ → Io → Option Io
unfolding keyboard_wait_input outb
keyboard_write_data value io = keyboard_wait_input io >>= λ io'. some (outb data_port value io')

pub keyboard_write_command : ℕ → Io → Option Io
unfolding keyboard_wait_input outb
keyboard_write_command command io =
    keyboard_wait_input io >>= λ io'. some (outb status_port command io')

pub keyboard_set_leds : ℕ → Keyboard → Io → Option (Keyboard × Io)
unfolding keyboard_write_data
keyboard_set_leds leds k io = do
  io' ← keyboard_write_data 0xed io
  io'' ← keyboard_write_data leds io'
  some (record k { led_state = leds }, io'')

-- The lights that `keyboard_update_leds` works out from the flags.
unfoldable pub leds_of : ℕ → ℕ
leds_of flags =
    let scroll = if has_flag flags flag_scroll_lock then bit_or 0 0x01 else 0 in
    let num = if has_flag flags flag_num_lock then bit_or scroll 0x02 else scroll in
    if has_flag flags flag_caps_lock then bit_or num 0x04 else num

unfoldable pub keyboard_update_leds : Keyboard → Io → Option (Keyboard × Io)
unfolding leds_of keyboard_set_leds
keyboard_update_leds k io = keyboard_set_leds (leds_of k.flags) k io

pub keyboard_enable : Io → Option Io
unfolding keyboard_write_data
keyboard_enable io = keyboard_write_data 0xf4 io

pub keyboard_disable : Io → Option Io
unfolding keyboard_write_data
keyboard_disable io = keyboard_write_data 0xf5 io

-- The answers are those of the status port, and let the next `n` waits for the controller end,
-- after any number of busy ones.
abbrev pub LetsWrite : ℕ → List (ℕ × ℕ) → Type 0
LetsWrite zero as' = Unit
LetsWrite (suc n) [] = ⊥
LetsWrite (suc n) ((p, a) ∷ as') =
    if p == status_port
    then (if bit_and a 0x02 == 0 then LetsWrite n as' else LetsWrite (suc n) as')
    else ⊥

wait_ready-ok :
    (n : ℕ) (as' : List (ℕ × ℕ))
    → LetsWrite (suc n) as'
    → (rest : List (ℕ × ℕ)) × (wait_ready as' ≡ some rest) × LetsWrite n rest
unfolding wait_ready
wait_ready-ok n [] h = absurd h
wait_ready-ok n ((p, a) ∷ as') h = elim (Bool-cases (p == status_port)) [
  | inl its ↦ elim (Bool-cases (bit_and a 0x02 == 0)) [
    | inl ready ↦ (as', rw (its, ready), rw (its, ready) at h)
    | inr busy ↦
        let (rest, run, more) = wait_ready-ok n as' (rw (its, busy) at h) in
        (rest, rw (its, busy) run, more)
  ]
  | inr other ↦ let no : ⊥ = rw other at h in absurd no
]

keyboard_write_data-ok :
    (n value : ℕ) (io : Io)
    → LetsWrite (suc n) io.answers
    → (rest : List (ℕ × ℕ)) × (keyboard_write_data value io
        ≡ some (record { answers = rest; written = io.written ++ (data_port, value) ∷ [] }))
      × LetsWrite n rest
unfolding keyboard_write_data keyboard_wait_input
keyboard_write_data-ok n value io h =
    let (rest, run, more) = wait_ready-ok n io.answers h in (rest, rw run refl, more)

-- When the controller takes two bytes, the lights are set by the command and their bits, in this
-- order, and the state remembers them.
pub keyboard_update_leds-ok :
    (k : Keyboard) (io : Io)
    → LetsWrite 2 io.answers
    → (rest : List (ℕ × ℕ)) × (keyboard_update_leds k io
        ≡ some (
          record k { led_state = leds_of k.flags },
          record {
            answers = rest;
            written = (io.written ++ (data_port, 0xed) ∷ []) ++ (data_port, leds_of k.flags) ∷ [];
          },
        ))
unfolding keyboard_update_leds keyboard_set_leds
keyboard_update_leds-ok k io h =
    let (rest, run, more) = keyboard_write_data-ok 1 0xed io h in
    let (rest', run', more') =
      keyboard_write_data-ok 0 (leds_of k.flags)
        (record { answers = rest; written = io.written ++ (data_port, 0xed) ∷ [] }) more in
    (rest', rw (run, run') refl)
