-- ===== src/Compat/Arguments.antt =====
-- `build_bwrap_args_generic` and `expand_path`.
use nexpack.Prelude.{
  ℕ, zero, suc, ◌-◌, Bool, true, false, ◌==◌, Option, none, some, List, [], ◌∷◌, ◌++◌, Text, codes,
  strip_prefix, drop, length, if◌then◌else◌,
}
use nexpack.Permission.{PermissionValue, bool, patterns, PermissionSet}
use nexpack.Paths.{join}
use nexpack.Sandbox.{Env, ro_bind_existing}

abbrev pub starts_with : Text → Text → Bool
starts_with prefix t = elim (strip_prefix prefix t) [ none ↦ false | some _ ↦ true ]

-- `str::replace`; the number counts the characters of a match that are still to be passed over.
unfoldable pub replace_from : Text → Text → ℕ → Text → Text
unfolding strip_prefix
replace_from pattern to skip [] = []
replace_from pattern to (suc skip) (c ∷ t) = replace_from pattern to skip t
replace_from pattern to zero (c ∷ t) =
    let behind = replace_from pattern to (length pattern - 1) t in
    let kept = replace_from pattern to zero t in
    if starts_with pattern (c ∷ t) then to ++ behind else c ∷ kept

abbrev pub or_else : Option Text → Text → Text
or_else none t = t
or_else (some found) t = found

-- The text before the first slash, and what is behind it.
unfoldable pub split_slash : Text → Text × Option Text
split_slash [] = ([], none)
split_slash (c ∷ t) =
    let rest = split_slash t in if c == b'/' then ([], some t) else (c ∷ rest.0, rest.1)

-- Of the pieces of `splitn(3, '/')` the first two are used.
unfoldable pub expand_xdg : Env → Text → Text
unfolding split_slash join
expand_xdg env path =
    let parts = split_slash path in
    elim parts.1 [
      | none ↦ path
      | some behind ↦
          join (or_else (env.var (drop 1 parts.0)) (codes "/tmp/" ++ parts.0))
            (split_slash behind).0
    ]

unfoldable pub expand_path : Env → Text → Text
unfolding expand_xdg replace_from
expand_path env path =
    if starts_with (codes "$HOME") path
    then replace_from (codes "$HOME") (or_else (env.var (codes "HOME")) (codes "/tmp")) 0 path
    else if starts_with (codes "$XDG_") path
    then expand_xdg env path
    else path

abbrev pub set_env : Text → Text → List Text
set_env var val = codes "--set-env" ∷ var ∷ val ∷ []

unfoldable pub bind_existing : Env → Text → List Text
bind_existing env path = if env.exists path then codes "--bind" ∷ path ∷ path ∷ [] else []

unfoldable pub filesystem_args : Env → List Text → List Text
unfolding bind_existing expand_path
filesystem_args env [] = []
filesystem_args env (path ∷ paths) =
    bind_existing env (expand_path env path) ++ filesystem_args env paths

unfoldable pub device_args : Env → List Text → List Text
unfolding ro_bind_existing join
device_args env [] = []
device_args env (dev ∷ devices) =
    ro_bind_existing env (join (codes "/dev") dev) ++ device_args env devices

-- A piece for a variable that is set.
abbrev pub for_var : Env → Text → (Text → List Text) → List Text
for_var env var f = elim (env.var var) [ none ↦ [] | some val ↦ f val ]

unfoldable pub network_args : PermissionValue → List Text
network_args (bool net) = if net then [] else codes "--unshare-net" ∷ []
network_args (patterns _) = []

-- The socket of the display: below the runtime folder, if there is one.
abbrev pub wayland_socket : Env → Text → Text
wayland_socket env display = elim (env.var (codes "XDG_RUNTIME_DIR")) [
  | none ↦ display
  | some runtime ↦ join runtime display
]

unfoldable pub wayland_args : Env → Text → List Text
unfolding ro_bind_existing join
wayland_args env display =
    ro_bind_existing env (wayland_socket env display) ++ set_env (codes "WAYLAND_DISPLAY") display

abbrev pub rooted : Text → Text
rooted entrypoint = if starts_with (codes "/") entrypoint then entrypoint else b'/' ∷ entrypoint

abbrev pub base_args : Text → List Text
base_args rootfs =
    codes "--ro-bind"
    ∷ rootfs
    ∷ codes "/"
    ∷ codes "--proc"
    ∷ codes "/proc"
    ∷ codes "--dev"
    ∷ codes "/dev"
    ∷ codes "--tmpfs"
    ∷ codes "/tmp"
    ∷ []

abbrev pub namespace_args : List Text
namespace_args =
    codes "--unshare-pid"
    ∷ codes "--unshare-uts"
    ∷ codes "--unshare-ipc"
    ∷ codes "--die-with-parent"
    ∷ []

-- What is pushed up to the variables that are always set.
unfoldable pub host_args : Env → Text → PermissionSet → List Text
unfolding ro_bind_existing wayland_args join
host_args env rootfs perms =
    base_args rootfs
    ++ (filesystem_args env perms.filesystem
        ++ (network_args perms.network
            ++ (namespace_args
                ++ (device_args env perms.devices
                    ++ (for_var env (codes "XDG_RUNTIME_DIR") (ro_bind_existing env)
                        ++ (for_var env (codes "WAYLAND_DISPLAY") (wayland_args env)
                            ++ (for_var env (codes "XAUTHORITY") (ro_bind_existing env)
                                ++ (for_var env (codes "DISPLAY") (set_env (codes "DISPLAY"))
                                    ++ for_var env (codes "XDG_RUNTIME_DIR") (λ runtime.
                                      ro_bind_existing env (join runtime (codes "bus")))))))))))

unfoldable pub build_bwrap_args_generic : Env → Text → PermissionSet → Text → List Text → List Text
unfolding host_args filesystem_args network_args device_args strip_prefix
build_bwrap_args_generic env rootfs perms entrypoint app_args =
    host_args env rootfs perms
    ++ (set_env (codes "HOME") (or_else (env.var (codes "HOME")) (codes "/tmp"))
        ++ (set_env (codes "PATH") (codes "/usr/bin:/bin:/usr/local/bin")
            ++ (codes "--" ∷ rooted entrypoint ∷ app_args)))
