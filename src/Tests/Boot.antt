-- ===== src/Tests/Boot.antt =====
-- The start of the kernel.
use kyro_kernel.Base.{replicate, codes, ℕ, refl, false, none, List, [], ◌∷◌, arith}
use kyro_kernel.Keyboard.{Keyboard, keyboard_init, keyboard_buffer_put, keyboard_get_char}
use kyro_kernel.Console.{next_char}
use kyro_kernel.Console.Line.{Arrives, key, stop, edit}
use kyro_kernel.Start.{kernel_main, Kernel, kernel_init}
use kyro_kernel.Start.Idle.{Idles, kernel_main-Idles}
use kyro_kernel.Heap.{fresh_heap}
use kyro_kernel.Screen.{clear_screen}
use kyro_kernel.Screen.Refine.{blank_page}
use kyro_kernel.Start.Ready.{IsLoaded, Ready, kernel_init-Ready}
use kyro_kernel.Tests.Display.{at_boot, cleared}
use kyro_kernel.Tests.Keys.{at_start}
use kyro_kernel.Tests.Hardware.{no_idt, stubs, stubs-IsPlaced}
use kyro_kernel.Tests.Accounts.{no_users, no_users-Models}
use kyro_kernel.Tests.Tables.{no_files, no_files-Models}
use kyro_kernel.Tests.Pages.{fresh-IsValid}

abbrev booting : Kernel
booting = record {
  screen = clear_screen at_boot;
  idt = no_idt;
  timer = record {
    tick_count = 0;
    io = record { answers = (0x21, 0xff) ∷ (0x21, 0xfe) ∷ []; written = [] };
  };
  system = record {
    processes = [];
    current_process = none;
    process_list = none;
    next_pid = 1;
    directories = [];
    current_directory = 0;
    kernel_directory = 0;
    frames = record { words = []; nframes = 0 };
    heap = fresh_heap;
  };
  cr3 = 0;
  cr0 = 0x11;
  file_system = no_files;
  users = no_users;
  terminal = record {
    buffer = [];
    buffer_index = 0;
    cursor_x = 0;
    cursor_y = 0;
    color = 0;
    echo_enabled = false;
  };
  keyboard = at_start;
}

booting-IsLoaded : IsLoaded booting
booting-IsLoaded = record {
  shown = (blank_page, cleared);
  no_process = refl;
  heap_ok = fresh-IsValid;
  heap_room = omega arith;
  users_ok = no_users-Models;
  files_ok = no_files-Models;
}

kernel_init-Ready_example : Ready stubs booting 0xff 0xfe (kernel_init stubs booting)
kernel_init-Ready_example =
    kernel_init-Ready stubs booting 0xff 0xfe [] stubs-IsPlaced booting-IsLoaded refl

-- The interrupts of the keys that are typed: `user1` and `userpass1`.
abbrev presses : List ℕ → List (Keyboard → Keyboard)
presses [] = []
presses (c ∷ cs) = keyboard_buffer_put c ∷ presses cs

abbrev typed : List ℕ
typed =
    0x16 ∷ 0x1f ∷ 0x12 ∷ 0x13 ∷ 0x2 ∷ 0x1c ∷ 0x16 ∷ 0x1f ∷ 0x12 ∷ 0x13 ∷ 0x19 ∷ 0x1e ∷ 0x1f ∷ 0x1f
    ∷ 0x2 ∷ 0x1c ∷ []

abbrev typed_chars : List ℕ
typed_chars = codes "user1\nuserpass1\n"

typed-Arrives :
    Arrives (record { keyboard = keyboard_init at_start; interrupts = presses typed }) typed_chars
unfolding next_char keyboard_get_char keyboard_buffer_put keyboard_init
typed-Arrives = key refl (
    key refl (
      key refl (
        key refl (
          key refl (
            key refl (
              key refl (
                key refl (
                  key refl (
                    key refl (
                      key refl (key refl (key refl (key refl (key refl (key refl stop)))))))))))))))

kernel_main-Idles_example :
    Idles stubs booting
      (codes "user1")
      (codes "userpass1")
      (kernel_main stubs 17 (replicate 64 0) (replicate 64 0) (presses typed) 0x100000 booting)
unfolding edit
kernel_main-Idles_example =
    kernel_main-Idles stubs 17 (replicate 64 0) (replicate 64 0) (presses typed) 0x100000 booting
      0xff 0xfe [] typed_chars (codes "user1") (codes "userpass1\n") (codes "userpass1") []
      stubs-IsPlaced booting-IsLoaded refl refl refl typed-Arrives (omega arith) refl refl
