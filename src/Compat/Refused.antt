-- ===== src/Compat/Refused.antt =====
-- What bubblewrap makes of the arguments in compat mode.
use nexpack.Prelude.{
  ◌≡◌, refl, Bool, true, false, Option, none, some, List, [], ◌∷◌, ◌++◌, append_assoc, Text, codes,
  text_eq, if◌then◌else◌,
}
use nexpack.Permission.{PermissionValue, bool, patterns, PermissionSet}
use nexpack.Paths.{join}
use nexpack.Sandbox.{Env, ro_bind, ro_bind_existing}
use nexpack.Sandbox.Bwrap.{kind, option, read_args}
use nexpack.Compat.Arguments.{
  or_else, expand_path, set_env, bind_existing, filesystem_args, device_args, for_var, network_args,
  wayland_socket, wayland_args, rooted, base_args, namespace_args, host_args,
  build_bwrap_args_generic,
}

-- What is refused stays so behind these arguments.
record IsPassed (args : List Text) : Type 0 where
  pub pass :
      (rest : List Text) → read_args option rest ≡ none → read_args option (args ++ rest) ≡ none

IsPassed-append : {xs ys : List Text} → IsPassed xs → IsPassed ys → IsPassed (xs ++ ys)
IsPassed-append {xs} {ys} hx hy = record {
  pass = λ rest h. rw (append_assoc xs ys rest) (hx.pass (ys ++ rest) (hy.pass rest h));
}

IsPassed-if :
    (b : Bool) (xs ys : List Text) → IsPassed xs → IsPassed ys → IsPassed (if b then xs else ys)
IsPassed-if true xs ys hx hy = hx
IsPassed-if false xs ys hx hy = hy

IsPassed-nil : IsPassed []
IsPassed-nil = record { pass = λ rest h. h }

set_env-refused :
    (var val : Text) (rest : List Text) → read_args option (set_env var val ++ rest) ≡ none
unfolding read_args kind text_eq
set_env-refused var val rest = refl

IsPassed-set_env : (var val : Text) → IsPassed (set_env var val)
IsPassed-set_env var val = record { pass = λ rest h. set_env-refused var val rest }

IsPassed-ro_bind : (path : Text) → IsPassed (ro_bind path)
unfolding read_args kind text_eq
IsPassed-ro_bind path = record { pass = λ rest h. rw h refl }

IsPassed-bind : (path : Text) → IsPassed (codes "--bind" ∷ path ∷ path ∷ [])
unfolding read_args kind text_eq
IsPassed-bind path = record { pass = λ rest h. rw h refl }

IsPassed-base_args : (rootfs : Text) → IsPassed (base_args rootfs)
unfolding read_args kind text_eq
IsPassed-base_args rootfs = record { pass = λ rest h. rw h refl }

IsPassed-namespace_args : IsPassed namespace_args
unfolding read_args kind text_eq
IsPassed-namespace_args = record { pass = λ rest h. rw h refl }

IsPassed-network_args : (v : PermissionValue) → IsPassed (network_args v)
unfolding network_args read_args kind text_eq
IsPassed-network_args (bool true) = record { pass = λ rest h. h }
IsPassed-network_args (bool false) = record { pass = λ rest h. rw h refl }
IsPassed-network_args (patterns p) = record { pass = λ rest h. h }

module _ (env : Env) where
  IsPassed-for_var :
      (var : Text) (f : Text → List Text)
      → ((val : Text) → IsPassed (f val))
      → IsPassed (for_var env var f)
  IsPassed-for_var var f h = IsPassed-option (env.var var)
    where
      IsPassed-option : (o : Option Text) → IsPassed (elim o [ none ↦ [] | some val ↦ f val ])
      IsPassed-option none = IsPassed-nil
      IsPassed-option (some val) = h val

  IsPassed-ro_bind_existing : (path : Text) → IsPassed (ro_bind_existing env path)
  unfolding ro_bind_existing
  IsPassed-ro_bind_existing path =
      IsPassed-if (env.exists path) (ro_bind path) [] (IsPassed-ro_bind path) IsPassed-nil

  IsPassed-filesystem_args : (paths : List Text) → IsPassed (filesystem_args env paths)
  unfolding filesystem_args bind_existing
  IsPassed-filesystem_args [] = IsPassed-nil
  IsPassed-filesystem_args (path ∷ paths) =
      let expanded = expand_path env path in
      IsPassed-append
        (IsPassed-if (env.exists expanded) (codes "--bind" ∷ expanded ∷ expanded ∷ []) []
          (IsPassed-bind expanded) IsPassed-nil)
        (IsPassed-filesystem_args paths)

  IsPassed-device_args : (devices : List Text) → IsPassed (device_args env devices)
  unfolding device_args
  IsPassed-device_args [] = IsPassed-nil
  IsPassed-device_args (dev ∷ devices) =
      IsPassed-append (IsPassed-ro_bind_existing (join (codes "/dev") dev))
        (IsPassed-device_args devices)

  IsPassed-wayland_args : (display : Text) → IsPassed (wayland_args env display)
  unfolding wayland_args
  IsPassed-wayland_args display =
      IsPassed-append (IsPassed-ro_bind_existing (wayland_socket env display))
        (IsPassed-set_env (codes "WAYLAND_DISPLAY") display)

  IsPassed-host_args :
      (rootfs : Text) (perms : PermissionSet) → IsPassed (host_args env rootfs perms)
  unfolding host_args
  IsPassed-host_args rootfs perms = IsPassed-append (IsPassed-base_args rootfs) (
      IsPassed-append (IsPassed-filesystem_args perms.filesystem) (
        IsPassed-append (IsPassed-network_args perms.network) (
          IsPassed-append IsPassed-namespace_args (
            IsPassed-append (IsPassed-device_args perms.devices) (
              IsPassed-append
                (IsPassed-for_var (codes "XDG_RUNTIME_DIR") (ro_bind_existing env)
                  IsPassed-ro_bind_existing)
                (IsPassed-append
                  (IsPassed-for_var (codes "WAYLAND_DISPLAY") (wayland_args env)
                    IsPassed-wayland_args)
                  (IsPassed-append
                    (IsPassed-for_var (codes "XAUTHORITY") (ro_bind_existing env)
                      IsPassed-ro_bind_existing)
                    (IsPassed-append
                      (IsPassed-for_var (codes "DISPLAY") (set_env (codes "DISPLAY"))
                        (IsPassed-set_env (codes "DISPLAY")))
                      (IsPassed-for_var (codes "XDG_RUNTIME_DIR")
                        (λ runtime. ro_bind_existing env (join runtime (codes "bus")))
                        (λ runtime. IsPassed-ro_bind_existing (join runtime (codes "bus"))))))))))))

  -- Bubblewrap refuses every list of arguments that compat mode builds: `--set-env` is none of its
  -- options.
  pub build_bwrap_args_generic_refused :
      (rootfs : Text) (perms : PermissionSet) (entrypoint : Text) (app_args : List Text)
      → read_args option (build_bwrap_args_generic env rootfs perms entrypoint app_args) ≡ none
  unfolding build_bwrap_args_generic
  build_bwrap_args_generic_refused rootfs perms entrypoint app_args =
      (IsPassed-host_args rootfs perms).pass
        (set_env (codes "HOME") (or_else (env.var (codes "HOME")) (codes "/tmp")) ++ tail)
        (set_env-refused (codes "HOME") (or_else (env.var (codes "HOME")) (codes "/tmp")) tail)
    where
      tail : List Text
      tail =
          set_env (codes "PATH") (codes "/usr/bin:/bin:/usr/local/bin")
          ++ (codes "--" ∷ rooted entrypoint ∷ app_args)
