-- ===== src/Sandbox/Isolation.antt =====
-- What bubblewrap makes of the arguments: user-supplied texts are operands only, the writable paths
-- are the declared ones, and the namespaces are unshared as the permissions say.
use nexpack.Prelude.{
  ◌≡◌, refl, Bool-cases, inl, inr, some, List, [], ◌∷◌, ◌++◌, map, append-nil, Text, codes,
  if◌then◌else◌,
}
use nexpack.Permission.{PermissionSet}
use nexpack.Seccomp.{has_network}
use nexpack.Sandbox.{
  Env, sys_paths, filesystem_args, passed_vars, base_args, namespace_args, network_args,
  option_args, build_bwrap_args,
}
use nexpack.Sandbox.Expand.{shellexpand}
use nexpack.Sandbox.Bwrap.{
  Namespace, pid, uts, ipc, user, net, Op, bind, unshare, other_option, kind, option, read_args,
  writable_binds, unshared, filters,
}
use nexpack.Sandbox.Segments.{
  Reads, Adds, Harmless, Harmless-nil, Adds-append, Harmless-sys_args, Harmless-device_args,
  Harmless-ipc_args, Harmless-runtime_bind, Harmless-display_args, Harmless-var_args,
}

-- The pair that `--bind` takes for a declared path.
abbrev pub declared : Env → Text → Text × Text
declared env path = (shellexpand env path, shellexpand env path)

-- The `--` ends the options.
pub Reads-end : (cmd : List Text) → Reads (codes "--" ∷ cmd) [] [] [] cmd
unfolding read_args kind writable_binds unshared filters
Reads-end cmd = record {
  ops = [];
  reads = refl;
  binds_of = refl;
  spaces_of = refl;
  filters_of = refl;
}

module _ (env : Env) (perm : PermissionSet) where
  Adds-filesystem_args :
      (paths : List Text) → Adds (filesystem_args env paths) (map (declared env) paths) []
  unfolding filesystem_args read_args kind writable_binds unshared filters
  Adds-filesystem_args [] = Harmless-nil
  Adds-filesystem_args (path ∷ paths) = record {
    add = λ rest b n f cmd r.
        let inner = (Adds-filesystem_args paths).add rest b n f cmd r in
        record {
          ops = bind (shellexpand env path) (shellexpand env path) ∷ inner.ops;
          reads = rw inner.reads;
          binds_of = rw inner.binds_of;
          spaces_of = inner.spaces_of;
          filters_of = inner.filters_of;
        };
  }

  Adds-namespace_args : Adds namespace_args [] (pid ∷ uts ∷ ipc ∷ user ∷ [])
  unfolding read_args kind writable_binds unshared filters
  Adds-namespace_args = record {
    add = λ rest b n f cmd r. record {
      ops =
          unshare pid
          ∷ unshare uts
          ∷ unshare ipc
          ∷ other_option
          ∷ unshare user
          ∷ other_option
          ∷ other_option
          ∷ r.ops;
      reads = rw r.reads;
      binds_of = r.binds_of;
      spaces_of = rw r.spaces_of;
      filters_of = r.filters_of;
    };
  }

  abbrev pub net_unshared : List Namespace
  net_unshared = if has_network perm then [] else net ∷ []

  Adds-network_args : Adds (network_args perm) [] net_unshared
  Adds-network_args = elim (Bool-cases (has_network perm)) [
    | inl on ↦ unfold network_args in rw on Harmless-nil
    | inr off ↦
        unfold network_args read_args kind writable_binds unshared filters in
        rw off (record {
          add = λ rest b n f cmd r. record {
            ops = unshare net ∷ r.ops;
            reads = rw r.reads;
            binds_of = r.binds_of;
            spaces_of = rw r.spaces_of;
            filters_of = r.filters_of;
          };
        })
  ]

  Harmless-base_args : (rootfs : Text) → Harmless (base_args rootfs)
  unfolding read_args kind writable_binds unshared filters
  Harmless-base_args rootfs = record {
    add = λ rest b n f cmd r. record {
      ops = other_option ∷ other_option ∷ other_option ∷ other_option ∷ other_option ∷ r.ops;
      reads = rw r.reads;
      binds_of = r.binds_of;
      spaces_of = r.spaces_of;
      filters_of = r.filters_of;
    };
  }

  pub Adds-option_args :
      (rootfs : Text)
      → Adds
          (option_args env rootfs perm)
          (map (declared env) perm.filesystem ++ [])
          (pid ∷ uts ∷ ipc ∷ user ∷ (net_unshared ++ []))
  unfolding option_args
  Adds-option_args rootfs = Adds-append (Harmless-base_args rootfs) (
      Adds-append (Harmless-sys_args env sys_paths) (
        Adds-append (Adds-filesystem_args perm.filesystem) (
          Adds-append Adds-namespace_args (
            Adds-append Adds-network_args (
              Adds-append (Harmless-device_args env perm.devices) (
                Adds-append (Harmless-ipc_args env perm.ipc) (
                  Adds-append (Harmless-runtime_bind env (codes "/doc/by-app")) (
                    Adds-append (Harmless-display_args env perm.display)
                      (Harmless-var_args env passed_vars)))))))))

  -- Bubblewrap reads the arguments to their `--` with no operand taken for an option, whatever the
  -- permissions, the environment and the paths hold, and then the entry point with the program's own
  -- arguments. What it may write to is what the permissions declare, and it shares the network only
  -- if they grant it.
  pub build_bwrap_args_isolates :
      (rootfs entrypoint : Text) (app_args : List Text)
      → (ops : List Op) × (read_args option (build_bwrap_args env rootfs perm entrypoint app_args)
          ≡ some (ops, (codes "/run/app" ++ entrypoint) ∷ app_args))
        × (writable_binds ops ≡ map (declared env) perm.filesystem)
        × (unshared ops ≡ pid ∷ uts ∷ ipc ∷ user ∷ net_unshared)
  unfolding build_bwrap_args
  build_bwrap_args_isolates rootfs entrypoint app_args =
      let cmd = (codes "/run/app" ++ entrypoint) ∷ app_args in
      let r = (Adds-option_args rootfs).add (codes "--" ∷ cmd) [] [] [] cmd (Reads-end cmd) in
      (r.ops, r.reads, simp append-nil at r.binds_of, simp append-nil at r.spaces_of)
