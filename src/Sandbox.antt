-- ===== src/Sandbox.antt =====
-- nexpackd/src/sandbox.rs: the arguments for bubblewrap. A run of `args.push` is the list of what is
-- pushed; the loops are recursions over their lists.
pub mod Expand
pub mod Bwrap
pub mod Segments
pub mod Isolation
use nexpack.Prelude.{
  Bool, Option, none, some, List, [], ◌∷◌, ◌++◌, Text, codes, text_eq, if◌then◌else◌,
}
use nexpack.Permission.{PermissionSet}
use nexpack.Seccomp.{has_network}
use Expand.{shellexpand}
-- What the code asks of the system: `std::env::var`, `Path::exists`, `char::is_alphanumeric`.
pub use Expand.{Env}

abbrev pub ro_bind : Text → List Text
ro_bind path = codes "--ro-bind" ∷ path ∷ path ∷ []

abbrev pub set_env : Text → Text → List Text
set_env var val = codes "--setenv" ∷ var ∷ val ∷ []

-- `if Path::new(path).exists()`
unfoldable pub ro_bind_existing : Env → Text → List Text
ro_bind_existing env path = if env.exists path then ro_bind path else []

-- `if let Ok(val) = std::env::var(var)`
unfoldable pub set_env_present : Env → Text → List Text
set_env_present env var = elim (env.var var) [ none ↦ [] | some val ↦ set_env var val ]

abbrev pub sys_paths : List Text
sys_paths =
    codes "/usr"
    ∷ codes "/lib"
    ∷ codes "/lib64"
    ∷ codes "/bin"
    ∷ codes "/sbin"
    ∷ codes "/etc"
    ∷ codes "/nix/store"
    ∷ []

unfoldable pub sys_args : Env → List Text → List Text
unfolding ro_bind_existing
sys_args env [] = []
sys_args env (path ∷ paths) = ro_bind_existing env path ++ sys_args env paths

unfoldable pub filesystem_args : Env → List Text → List Text
filesystem_args env [] = []
filesystem_args env (path ∷ paths) =
    codes "--bind" ∷ shellexpand env path ∷ shellexpand env path ∷ filesystem_args env paths

unfoldable pub device_path : Text → Option Text
device_path dev =
    if text_eq dev (codes "dri")
    then some (codes "/dev/dri")
    else if text_eq dev (codes "audio")
    then some (codes "/dev/snd")
    else if text_eq dev (codes "input")
    then some (codes "/dev/input")
    else none

unfoldable pub device_arg : Env → Text → List Text
unfolding device_path ro_bind_existing
device_arg env dev = elim (device_path dev) [ none ↦ [] | some path ↦ ro_bind_existing env path ]

unfoldable pub device_args : Env → List Text → List Text
unfolding device_arg
device_args env [] = []
device_args env (dev ∷ devices) = device_arg env dev ++ device_args env devices

-- A path below `$XDG_RUNTIME_DIR`, bound if the variable is set and the path exists.
unfoldable pub runtime_bind : Env → Text → List Text
unfolding ro_bind_existing
runtime_bind env suffix = elim (env.var (codes "XDG_RUNTIME_DIR")) [
  | none ↦ []
  | some runtime ↦ ro_bind_existing env (runtime ++ suffix)
]

unfoldable pub ipc_arg : Env → Text → List Text
unfolding runtime_bind set_env_present
ipc_arg env ipc =
    if text_eq ipc (codes "wayland")
    then runtime_bind env (codes "/wayland-0")
    else if text_eq ipc (codes "x11")
    then ro_bind (codes "/tmp/.X11-unix") ++ set_env_present env (codes "DISPLAY")
    else if text_eq ipc (codes "dbus-session")
    then runtime_bind env (codes "/bus") ++ set_env_present env (codes "DBUS_SESSION_BUS_ADDRESS")
    else []

unfoldable pub ipc_args : Env → List Text → List Text
unfolding ipc_arg
ipc_args env [] = []
ipc_args env (ipc ∷ rest) = ipc_arg env ipc ++ ipc_args env rest

unfoldable pub xauthority_arg : Env → List Text
xauthority_arg env = elim (env.var (codes "XAUTHORITY")) [
  | none ↦ []
  | some xa ↦ codes "--ro-bind-try" ∷ xa ∷ xa ∷ []
]

unfoldable pub display_args : Env → Text → List Text
unfolding set_env_present xauthority_arg
display_args env display =
    if text_eq display (codes "wayland")
    then set_env (codes "WAYLAND_DISPLAY") (codes "wayland-0")
      ++ set_env (codes "XDG_SESSION_TYPE") (codes "wayland")
    else if text_eq display (codes "x11")
    then set_env_present env (codes "DISPLAY") ++ xauthority_arg env
    else []

abbrev pub passed_vars : List Text
passed_vars =
    codes "HOME"
    ∷ codes "USER"
    ∷ codes "LANG"
    ∷ codes "LC_ALL"
    ∷ codes "PATH"
    ∷ codes "TERM"
    ∷ codes "XAUTHORITY"
    ∷ []

unfoldable pub var_args : Env → List Text → List Text
unfolding set_env_present
var_args env [] = []
var_args env (var ∷ vars) = set_env_present env var ++ var_args env vars

abbrev pub base_args : Text → List Text
base_args rootfs =
    codes "--proc"
    ∷ codes "/proc"
    ∷ codes "--dev"
    ∷ codes "/dev"
    ∷ codes "--tmpfs"
    ∷ codes "/tmp"
    ∷ codes "--tmpfs"
    ∷ codes "/run"
    ∷ codes "--ro-bind"
    ∷ rootfs
    ∷ codes "/run/app"
    ∷ []

abbrev pub namespace_args : List Text
namespace_args =
    codes "--unshare-pid"
    ∷ codes "--unshare-uts"
    ∷ codes "--unshare-ipc"
    ∷ codes "--die-with-parent"
    ∷ codes "--unshare-user"
    ∷ codes "--uid"
    ∷ codes "0"
    ∷ codes "--gid"
    ∷ codes "0"
    ∷ []

unfoldable pub network_args : PermissionSet → List Text
unfolding has_network
network_args perm = if has_network perm then [] else codes "--unshare-net" ∷ []

-- Everything before the `--`.
unfoldable pub option_args : Env → Text → PermissionSet → List Text
option_args env rootfs perm =
    base_args rootfs
    ++ (sys_args env sys_paths
        ++ (filesystem_args env perm.filesystem
            ++ (namespace_args
                ++ (network_args perm
                    ++ (device_args env perm.devices
                        ++ (ipc_args env perm.ipc
                            ++ (runtime_bind env (codes "/doc/by-app")
                                ++ (display_args env perm.display
                                    ++ var_args env passed_vars))))))))

unfoldable pub build_bwrap_args : Env → Text → PermissionSet → Text → List Text → List Text
unfolding option_args sys_args filesystem_args network_args device_args ipc_args display_args
    var_args runtime_bind
build_bwrap_args env rootfs perm entrypoint app_args =
    option_args env rootfs perm ++ (codes "--" ∷ (codes "/run/app" ++ entrypoint) ∷ app_args)
