-- ===== src/Sandbox/Segments.antt =====
-- Rules for how bubblewrap reads a list of arguments piece by piece, and the pieces of
-- nexpackd/src/sandbox.rs that only take operands: binds that cannot be written, variables, devices.
use nexpack.Prelude.{
  ◌≡◌, Bool, true, false, Option, none, some, List, [], ◌∷◌, ◌++◌, append_assoc, Text, codes,
  text_eq, if◌then◌else◌,
}
use nexpack.Sandbox.{
  Env, ro_bind_existing, set_env_present, sys_args, device_path, device_arg, device_args,
  runtime_bind, ipc_arg, ipc_args, xauthority_arg, display_args, var_args, ro_bind, set_env,
}
use nexpack.Sandbox.Bwrap.{
  Namespace, Op, other_option, kind, option, read_args, writable_binds, unshared, filters,
}

-- What a list of arguments reads as.
pub record Reads (args : List Text) (binds : List (Text × Text)) (spaces : List Namespace)
    (loaded cmd : List Text) : Type 0 where
  pub ops : List Op
  pub reads : read_args option args ≡ some (ops, cmd)
  pub binds_of : writable_binds ops ≡ binds
  pub spaces_of : unshared ops ≡ spaces
  pub filters_of : filters ops ≡ loaded

-- Arguments that put these binds and namespaces in front of whatever comes behind them.
pub record Adds (args : List Text) (binds : List (Text × Text)) (spaces : List Namespace)
    : Type 0 where
  pub add :
      (rest : List Text) (b : List (Text × Text)) (n : List Namespace) (f cmd : List Text)
      → Reads rest b n f cmd
      → Reads (args ++ rest) (binds ++ b) (spaces ++ n) f cmd

abbrev pub Harmless : List Text → Type 0
Harmless args = Adds args [] []

pub Harmless-nil : Harmless []
Harmless-nil = record { add = λ rest b n f cmd r. r }

pub Adds-append :
    {xs ys : List Text} {b c : List (Text × Text)} {m n : List Namespace}
    → Adds xs b m
    → Adds ys c n
    → Adds (xs ++ ys) (b ++ c) (m ++ n)
Adds-append {xs} {ys} {b} {c} {m} {n} x y = record {
  add = λ rest b' n' f cmd r.
      let inner = y.add rest b' n' f cmd r in
      simp append_assoc (x.add (ys ++ rest) (c ++ b') (n ++ n') f cmd inner);
}

Harmless-ro_bind : (path : Text) → Harmless (ro_bind path)
unfolding read_args kind writable_binds unshared filters
Harmless-ro_bind path = record {
  add = λ rest b n f cmd r. record {
    ops = other_option ∷ r.ops;
    reads = rw r.reads;
    binds_of = r.binds_of;
    spaces_of = r.spaces_of;
    filters_of = r.filters_of;
  };
}

Harmless-set_env : (var val : Text) → Harmless (set_env var val)
unfolding read_args kind writable_binds unshared filters
Harmless-set_env var val = record {
  add = λ rest b n f cmd r. record {
    ops = other_option ∷ r.ops;
    reads = rw r.reads;
    binds_of = r.binds_of;
    spaces_of = r.spaces_of;
    filters_of = r.filters_of;
  };
}

Harmless-ro_bind_try : (path : Text) → Harmless (codes "--ro-bind-try" ∷ path ∷ path ∷ [])
unfolding read_args kind writable_binds unshared filters
Harmless-ro_bind_try path = record {
  add = λ rest b n f cmd r. record {
    ops = other_option ∷ r.ops;
    reads = rw r.reads;
    binds_of = r.binds_of;
    spaces_of = r.spaces_of;
    filters_of = r.filters_of;
  };
}

Harmless-if :
    (b : Bool) (xs ys : List Text) → Harmless xs → Harmless ys → Harmless (if b then xs else ys)
Harmless-if true xs ys hx hy = hx
Harmless-if false xs ys hx hy = hy

Harmless-option :
    (o : Option Text) (f : Text → List Text)
    → ((t : Text) → Harmless (f t))
    → Harmless (elim o [ none ↦ [] | some t ↦ f t ])
Harmless-option none f h = Harmless-nil
Harmless-option (some t) f h = h t

module _ (env : Env) where
  Harmless-ro_bind_existing : (path : Text) → Harmless (ro_bind_existing env path)
  unfolding ro_bind_existing
  Harmless-ro_bind_existing path =
      Harmless-if (env.exists path) _ _ (Harmless-ro_bind path) Harmless-nil

  Harmless-set_env_present : (var : Text) → Harmless (set_env_present env var)
  unfolding set_env_present
  Harmless-set_env_present var = Harmless-option (env.var var) (set_env var) (Harmless-set_env var)

  pub Harmless-runtime_bind : (suffix : Text) → Harmless (runtime_bind env suffix)
  unfolding runtime_bind
  Harmless-runtime_bind suffix =
      Harmless-option (env.var (codes "XDG_RUNTIME_DIR"))
        (λ dir. ro_bind_existing env (dir ++ suffix))
        (λ dir. Harmless-ro_bind_existing (dir ++ suffix))

  Harmless-xauthority_arg : Harmless (xauthority_arg env)
  unfolding xauthority_arg
  Harmless-xauthority_arg =
      Harmless-option (env.var (codes "XAUTHORITY")) (λ xa. codes "--ro-bind-try" ∷ xa ∷ xa ∷ [])
        Harmless-ro_bind_try

  pub Harmless-sys_args : (paths : List Text) → Harmless (sys_args env paths)
  unfolding sys_args
  Harmless-sys_args [] = Harmless-nil
  Harmless-sys_args (path ∷ paths) =
      Adds-append (Harmless-ro_bind_existing path) (Harmless-sys_args paths)

  Harmless-device_arg : (dev : Text) → Harmless (device_arg env dev)
  unfolding device_arg
  Harmless-device_arg dev =
      Harmless-option (device_path dev) (ro_bind_existing env) Harmless-ro_bind_existing

  pub Harmless-device_args : (devices : List Text) → Harmless (device_args env devices)
  unfolding device_args
  Harmless-device_args [] = Harmless-nil
  Harmless-device_args (dev ∷ devices) =
      Adds-append (Harmless-device_arg dev) (Harmless-device_args devices)

  Harmless-ipc_arg : (protocol : Text) → Harmless (ipc_arg env protocol)
  unfolding ipc_arg
  Harmless-ipc_arg protocol =
      Harmless-if (text_eq protocol (codes "wayland")) _ _
        (Harmless-runtime_bind (codes "/wayland-0"))
        (Harmless-if (text_eq protocol (codes "x11")) _ _
          (Adds-append (Harmless-ro_bind (codes "/tmp/.X11-unix"))
            (Harmless-set_env_present (codes "DISPLAY")))
          (Harmless-if (text_eq protocol (codes "dbus-session")) _ _
            (Adds-append (Harmless-runtime_bind (codes "/bus"))
              (Harmless-set_env_present (codes "DBUS_SESSION_BUS_ADDRESS")))
            Harmless-nil))

  pub Harmless-ipc_args : (protocols : List Text) → Harmless (ipc_args env protocols)
  unfolding ipc_args
  Harmless-ipc_args [] = Harmless-nil
  Harmless-ipc_args (p ∷ protocols) = Adds-append (Harmless-ipc_arg p) (Harmless-ipc_args protocols)

  pub Harmless-display_args : (display : Text) → Harmless (display_args env display)
  unfolding display_args
  Harmless-display_args display =
      Harmless-if (text_eq display (codes "wayland")) _ _
        (Adds-append (Harmless-set_env _ _) (Harmless-set_env _ _))
        (Harmless-if (text_eq display (codes "x11")) _ _
          (Adds-append (Harmless-set_env_present (codes "DISPLAY")) Harmless-xauthority_arg)
          Harmless-nil)

  pub Harmless-var_args : (vars : List Text) → Harmless (var_args env vars)
  unfolding var_args
  Harmless-var_args [] = Harmless-nil
  Harmless-var_args (var ∷ vars) =
      Adds-append (Harmless-set_env_present var) (Harmless-var_args vars)
