-- ===== src/Keyboard/Handler/Refine.antt =====
-- The handler against the switches and the queue.
use kyro_kernel.Base.Check.{all_below, all_below_sound}
use kyro_kernel.Base.{
  leb, ◌==◌, if◌then◌else◌, ◌>>=◌, ℕ, ◌%◌, ◌<◌, bit_and, ◌≡◌, refl, ap, Bool, true, false, not,
  ◌||◌, Option, some,
}
use kyro_kernel.Base.Bits.{bit_and-low_mask}
use kyro_kernel.Port.{Io}
use kyro_kernel.Keyboard.{
  Keyboard, flag_shift, flag_ctrl, flag_alt, flag_caps_lock, flag_num_lock, flag_scroll_lock,
}
use kyro_kernel.Keyboard.Device.{LetsWrite}
use kyro_kernel.Keyboard.Ring.{queue}
use kyro_kernel.Keyboard.Handler.{
  key_ctrl, key_shift_l, key_shift_r, key_alt, key_caps_lock, key_num_lock, key_scroll_lock, hold,
  set_held, key_event, handle_scancode,
}
use kyro_kernel.Keyboard.Handler.Flags.{
  flags_of, same_bool, same_bool→eq, hold-flags, shift_table, ctrl_table, alt_table, caps-flags,
  num-flags, scroll-flags,
}
use kyro_kernel.Keyboard.Handler.View.{
  Words, no_words, lock_words, told, told_at, nothing_told, key, sent, view, View, IsValid, Comes,
  IsRing-record, flags-Comes, toggle-Comes, put-Comes,
}

pick :
    (b : Bool) (io : Io) (v w : View) (m n : Words) (x y : Option (Keyboard × Io))
    → Comes v io m x
    → Comes w io n y
    → Comes (if b then v else w) io (if b then m else n) (if b then x else y)
pick true io v w m n x y h g = h
pick false io v w m n x y h g = g

key_event-Comes :
    (code : ℕ) (released : Bool) (k : Keyboard) (io : Io)
    → IsValid k
    → LetsWrite 2 io.answers
    → Comes (key code released (view k)) io (told code released) (key_event code released k io)
unfolding key key_event set_held flags_of told
key_event-Comes code r k io v ready =
    pick (code == key_shift_l || code == key_shift_r) io _ _ no_words _ _ _
      (flags-Comes k io (hold flag_shift r k.flags) _ v
        (hold-flags flag_shift r (shift_table r) k.flags v.byte) refl)
      (pick (code == key_ctrl) io _ _ no_words _ _ _
        (flags-Comes k io (hold flag_ctrl r k.flags) _ v
          (hold-flags flag_ctrl r (ctrl_table r) k.flags v.byte) refl)
        (pick (code == key_alt) io _ _ no_words _ _ _
          (flags-Comes k io (hold flag_alt r k.flags) _ v
            (hold-flags flag_alt r (alt_table r) k.flags v.byte) refl)
          (pick (code == key_caps_lock) io _ _ (lock_words r) _ _ _
            (toggle-Comes k io flag_caps_lock
              (λ b. record (flags_of k.flags) {
                caps = if b then (flags_of k.flags).caps else not ((flags_of k.flags).caps);
              })
              r v ready refl (caps-flags k.flags v.byte))
            (pick (code == key_num_lock) io _ _ (lock_words r) _ _ _
              (toggle-Comes k io flag_num_lock
                (λ b. record (flags_of k.flags) {
                  num = if b then (flags_of k.flags).num else not ((flags_of k.flags).num);
                })
                r v ready refl (num-flags k.flags v.byte))
              (pick (code == key_scroll_lock) io _ _ (lock_words r) no_words _ _
                (toggle-Comes k io flag_scroll_lock
                  (λ b. record (flags_of k.flags) {
                    scroll =
                        if b then (flags_of k.flags).scroll else not ((flags_of k.flags).scroll);
                  })
                  r v ready refl (scroll-flags k.flags v.byte))
                (put-Comes k io code r v))))))

release_bit : (x : ℕ) → x < 256 → not (bit_and x 0x80 == 0) ≡ leb 128 x
unfolding all_below
release_bit x h =
    same_bool→eq _ _
      (all_below_sound 256 (λ y. same_bool (not (bit_and y 0x80 == 0)) (leb 128 y)) x refl h)

-- The mark of an extended key is not part of the view.
marked-Comes :
    (v : View) (io : Io) (w : Words) (r : Option (Keyboard × Io)) (b : Bool)
    → Comes v io w r
    → Comes v io w (r >>= λ (p : Keyboard × Io). some (record (p.0) { extended_scancode = b }, p.1))
unfolding queue
marked-Comes v io0 w r b (k, io, e, ok, h, told_words) = (
  record k { extended_scancode = b },
  io,
  ap
      (λ (q : Option (Keyboard × Io)).
        q >>= λ (p : Keyboard × Io). some (record (p.0) { extended_scancode = b }, p.1))
      e,
  record {
    ring = IsRing-record k (record k { extended_scancode = b }) ok.ring refl refl refl refl;
    byte = ok.byte;
    lit = ok.lit;
  },
  h,
  told_words,
)

-- From a valid state, and if the controller lets two bytes through, a byte that the keyboard sends
-- is handled as `sent` says: a modifier holds while it is pressed, a lock turns over at each
-- press, and any other key that is pressed is queued if there is room. The state is valid again,
-- with the lights of the locks that are on. At the press of a lock the command for the lights and
-- the byte of these lights are written to port 0x60, in this order; otherwise nothing is written.
pub handle_scancode-Refines :
    (scancode : ℕ) (k : Keyboard) (io : Io)
    → scancode < 256
    → IsValid k
    → LetsWrite 2 io.answers
    → Comes (sent scancode (view k)) io (told_at scancode) (handle_scancode scancode k io)
unfolding sent told_at handle_scancode
handle_scancode-Refines scancode k io small v ready =
    pick (scancode == 0xe0) io _ _ no_words (told (scancode % 128) (leb 128 scancode)) _ _
      (marked-Comes (view k) io no_words (some (k, io)) true
        (k, io, refl, v, refl, nothing_told io))
      (rw (bit_and-low_mask 7 scancode, release_bit scancode small)
        (marked-Comes _ io (told (scancode % 128) (leb 128 scancode)) _ false
          (key_event-Comes (scancode % 128) (leb 128 scancode) k io v ready)))
