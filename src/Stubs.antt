-- ===== src/Stubs.antt =====
-- The parts of the kernel that only say what they would do: kernel/package_manager.c,
-- kernel/scripting.c, kernel/networking.c, kernel/drivers/mouse.c and kernel/drivers/network.c. A
-- function is the calls of `printf` that it makes, with what it returns; a message that goes
-- through `print_message` is an action on the screen.
use kyro_kernel.Base.{◌==◌, if◌then◌else◌, codes, ℕ, ◌-◌, ◌^◌, Option, some, List, [], ◌∷◌, ◌++◌}
use kyro_kernel.Printf.{Call, Arg, int, str}
use kyro_kernel.Screen.{Screen, print_message}

abbrev call : List ℕ → List Arg → List Call
call format args = record { format = format; args = args } ∷ []

pub add_package : (name version : List ℕ) → List Call
add_package name version =
    call (codes "Package added: %s %s\n") (str (some name) ∷ str (some version) ∷ [])

pub install_package : List ℕ → List Call
install_package name = call (codes "Package installed: %s\n") (str (some name) ∷ [])

pub update_package : List ℕ → List Call
update_package name = call (codes "Package updated: %s\n") (str (some name) ∷ [])

pub remove_package : List ℕ → List Call
remove_package name = call (codes "Package removed: %s\n") (str (some name) ∷ [])

unfoldable pub package_manager_init : Screen → Option Screen
package_manager_init s = print_message (codes "Package manager initialized.\n\0") s

pub add_script : List ℕ → List Call
add_script script = call (codes "Script added: %s\n") (str (some script) ∷ [])

pub run_script : List ℕ → List Call
run_script script = call (codes "Script ran: %s\n") (str (some script) ∷ [])

unfoldable pub scripting_init : Screen → Option Screen
scripting_init s = print_message (codes "Scripting system initialized.\n\0") s

unfoldable pub mouse_init : Screen → Option Screen
mouse_init s = print_message (codes "Mouse driver initialized (stub)\n\0") s

unfoldable pub network_init : Screen → Option Screen
network_init s = print_message (codes "Network driver initialized (stub)\n\0") s

pub check_tor_installed : ℕ × List Call
check_tor_installed = (0, call (codes "Tor check not implemented in kernel mode\n") [])

pub install_tor : List Call
install_tor = call (codes "Tor installation not implemented in kernel mode\n") []

pub is_first_boot : ℕ
is_first_boot = 1

pub create_first_boot_flag : List Call
create_first_boot_flag = call (codes "Creating first boot flag through kernel filesystem\n") []

pub start_tor : List Call
unfolding is_first_boot create_first_boot_flag
start_tor =
    call (codes "Tor functionality not available in kernel mode\n") []
    ++ call (codes "This would need to be implemented as a userspace service\n") []
    ++ (if is_first_boot == 0
        then []
        else call (codes "First boot detected\n") [] ++ create_first_boot_flag)

pub networking_init : List Call
networking_init = call (codes "Network subsystem initialized\n") []

-- An `int` that is -1.
abbrev minus_one : ℕ
minus_one = 2 ^ 32 - 1

pub network_connect : List ℕ → ℕ → ℕ × List Call
network_connect host port = (
  minus_one,
  call (codes "Network connect to %s:%d not implemented\n") (str (some host) ∷ int port ∷ []),
)

pub network_disconnect : ℕ → ℕ × List Call
network_disconnect socket =
    (0, call (codes "Network disconnect socket %d not implemented\n") (int socket ∷ []))

pub network_send : ℕ → ℕ → ℕ × List Call
network_send socket size = (
  minus_one,
  call (codes "Network send %zu bytes on socket %d not implemented\n") (int size ∷ int socket ∷ []),
)

pub network_receive : ℕ → ℕ → ℕ × List Call
network_receive socket size = (
  minus_one,
  call (codes "Network receive %zu bytes on socket %d not implemented\n")
      (int size ∷ int socket ∷ []),
)

pub network_set_config : List Call
network_set_config = call (codes "Network config set not implemented\n") []

pub network_get_config : List Call
network_get_config = call (codes "Network config get not implemented\n") []
