-- ===== src/Keyboard/Handler/View.antt =====
-- The six switches and the queue of typed scancodes, and what a key does to them.
use kyro_kernel.Base.{
  ltb, leb, ◌==◌, if◌then◌else◌, length, ℕ, ◌+◌, ◌%◌, ◌<◌, bit_xor, ◌≡◌, refl, sym, ap, ap₂, ◌∙◌,
  Bool, true, false, not, ◌||◌, Option, some, List, [], ◌∷◌, ◌++◌, arith,
}
use mathlib.Core.List.{append_assoc, append-nil}
use kyro_kernel.Port.{Io}
use kyro_kernel.Keyboard.{Keyboard, buffer_size, keyboard_buffer_put}
use kyro_kernel.Keyboard.Device.{leds_of, LetsWrite, keyboard_update_leds-ok}
use kyro_kernel.Keyboard.Ring.{IsRing, queue, put-IsRing, put-others, put-queue}
use kyro_kernel.Keyboard.Handler.{
  toggle, key_ctrl, key_shift_l, key_shift_r, key_alt, key_caps_lock, key_num_lock, key_scroll_lock,
}
use kyro_kernel.Keyboard.Handler.Flags.{Flags, flags_of, lights, leds_of-lights}

pub record View : Type 0 where
  pub switches : Flags
  pub typed : List ℕ

abbrev pub view : Keyboard → View
view k = record { switches = flags_of k.flags; typed = queue k }

-- What a press or a release of the key `code` means: modifiers hold while they are pressed, locks
-- turn over at each press, and any other key is queued when it is pressed, if there is room.
unfoldable pub key : ℕ → Bool → View → View
key code released v =
    if code == key_shift_l || code == key_shift_r
    then record v { switches = record (v.switches) { shift = not released } }
    else if code == key_ctrl
    then record v { switches = record (v.switches) { ctrl = not released } }
    else if code == key_alt
    then record v { switches = record (v.switches) { alt = not released } }
    else if code == key_caps_lock
    then record v {
      switches = record (v.switches) {
        caps = if released then v.switches.caps else not v.switches.caps;
      };
    }
    else if code == key_num_lock
    then record v {
      switches = record (v.switches) {
        num = if released then v.switches.num else not v.switches.num;
      };
    }
    else if code == key_scroll_lock
    then record v {
      switches = record (v.switches) {
        scroll = if released then v.switches.scroll else not v.switches.scroll;
      };
    }
    else record v {
      typed =
          if released
          then v.typed
          else if ltb (length v.typed) buffer_size
          then v.typed ++ code ∷ []
          else v.typed;
    }

-- The byte that the keyboard sends: 0xE0 announces an extended key and means nothing by itself;
-- the upper half are releases.
unfoldable pub sent : ℕ → View → View
unfolding key
sent scancode v = if scancode == 0xe0 then v else key (scancode % 128) (leb 128 scancode) v

-- What is written to the ports, given the new switches.
abbrev pub Words : Type 0
Words = Flags → List (ℕ × ℕ)

abbrev pub no_words : Words
no_words f = []

-- At the press of a lock, the command for the lights and a byte with the light of each lock in its
-- bit go to the data port, in this order.
abbrev pub lock_words : Bool → Words
lock_words released f = if released then [] else (0x60, 0xed) ∷ (0x60, lights f) ∷ []

-- Only the locks tell the keyboard anything.
unfoldable pub told : ℕ → Bool → Words
told code released =
    if code == key_shift_l || code == key_shift_r
    then no_words
    else if code == key_ctrl
    then no_words
    else if code == key_alt
    then no_words
    else if code == key_caps_lock
    then lock_words released
    else if code == key_num_lock
    then lock_words released
    else if code == key_scroll_lock
    then lock_words released
    else no_words

unfoldable pub told_at : ℕ → Words
unfolding told
told_at scancode = if scancode == 0xe0 then no_words else told (scancode % 128) (leb 128 scancode)

-- The ring is in order, the flags are a byte, and the lights show the locks: scroll lock in bit 0,
-- number lock in bit 1 and caps lock in bit 2.
pub record IsValid (k : Keyboard) : Type 0 where
  pub ring : IsRing k
  pub byte : k.flags < 256
  pub lit : k.led_state ≡ lights (flags_of k.flags)

-- A run that ends in a valid state of this view and writes these words behind the others.
abbrev pub Comes : View → Io → Words → Option (Keyboard × Io) → Type 0
Comes v io words r =
    (k' : Keyboard) × (io' : Io) × (r ≡ some (k', io'))
    × IsValid k'
    × (view k' ≡ v)
    × (io'.written ≡ io.written ++ words v.switches)

pub nothing_told : (io : Io) → io.written ≡ io.written ++ []
nothing_told io = sym (append-nil io.written)

-- The ring does not look at the other fields.
pub IsRing-record :
    (k k' : Keyboard)
    → IsRing k
    → k'.buffer ≡ k.buffer
    → k'.buffer_head ≡ k.buffer_head
    → k'.buffer_tail ≡ k.buffer_tail
    → k'.buffer_count ≡ k.buffer_count
    → IsRing k'
IsRing-record k k' v a b c d = record {
  size = ap (λ (l : List ℕ). length l) a ∙ v.size;
  tail_in = omega (arith, v.tail_in);
  count_in = omega (arith, v.count_in);
  head_at = b ∙ v.head_at ∙ ap₂ (λ (x y : ℕ). (x + y) % buffer_size) (sym c) (sym d);
}

-- New flags, of known switches whose lock lights are the old ones.
pub flags-Comes :
    (k : Keyboard) (io : Io) (w : ℕ) (f : Flags)
    → IsValid k
    → (w < 256) × (flags_of w ≡ f)
    → lights f ≡ lights (flags_of k.flags)
    → Comes
        (record { switches = f; typed = queue k })
        io
        no_words
        (some (record k { flags = w }, io))
unfolding queue
flags-Comes k io w f v (small, e) same = (
  record k { flags = w },
  io,
  refl,
  record {
    ring = IsRing-record k (record k { flags = w }) v.ring refl refl refl refl;
    byte = small;
    lit = v.lit ∙ sym same ∙ ap lights (sym e);
  },
  λ i. record { switches = e i; typed = queue k },
  nothing_told io,
)

-- A lock: `f true` are the old switches, and `f false` those of the new flags.
pub toggle-Comes :
    (k : Keyboard) (io : Io) (flag : ℕ) (f : Bool → Flags) (released : Bool)
    → IsValid k
    → LetsWrite 2 io.answers
    → flags_of k.flags ≡ f true
    → (bit_xor k.flags flag < 256) × (flags_of (bit_xor k.flags flag) ≡ f false)
    → Comes
        (record { switches = f released; typed = queue k })
        io
        (lock_words released)
        (toggle flag released k io)
unfolding toggle queue
toggle-Comes k io flag f true v ready old (small, e) =
    (k, io, refl, v, λ i. record { switches = old i; typed = queue k }, nothing_told io)
toggle-Comes k io flag f false v ready old (small, e) =
    let k' : Keyboard = record k { flags = bit_xor k.flags flag } in
    let (rest, run) = keyboard_update_leds-ok k' io ready in
    (
      record k' { led_state = leds_of k'.flags },
      _,
      run,
      record {
        ring =
            IsRing-record k (record k' { led_state = leds_of k'.flags }) v.ring refl refl refl refl;
        byte = small;
        lit = leds_of-lights k'.flags;
      },
      λ i. record { switches = e i; typed = queue k },
      ap (λ (n : ℕ). (io.written ++ (0x60, 0xed) ∷ []) ++ (0x60, n) ∷ [])
            (leds_of-lights k'.flags ∙ ap lights e)
          ∙ append_assoc io.written ((0x60, 0xed) ∷ []) ((0x60, lights (f false)) ∷ []),
    )

-- Any other key.
pub put-Comes :
    (k : Keyboard) (io : Io) (code : ℕ) (released : Bool)
    → IsValid k
    → Comes
        (record (view k) {
          typed =
              if released
              then queue k
              else if ltb (length (queue k)) buffer_size
              then queue k ++ code ∷ []
              else queue k;
        })
        io
        no_words
        (some (if released then k else keyboard_buffer_put code k, io))
put-Comes k io code true v = (k, io, refl, v, refl, nothing_told io)
put-Comes k io code false v =
    let (a, b) = put-others code k in
    (
      keyboard_buffer_put code k,
      io,
      refl,
      record {
        ring = put-IsRing code k v.ring;
        byte = omega (arith, v.byte);
        lit = b ∙ v.lit ∙ ap (λ (w : ℕ). lights (flags_of w)) (sym a);
      },
      λ i. record { switches = flags_of (a i); typed = put-queue code k v.ring i },
      nothing_told io,
    )
