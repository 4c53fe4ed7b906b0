-- ===== src/Run/Filtered.antt =====
-- What bubblewrap makes of the arguments that `run` gives it: those of nexpackd/src/sandbox.rs, with
-- the filter put in and the user's arguments behind.
use nexpack.Prelude.{
  arith, to_le_bytes, ◌≡◌, refl, sym, ap, ◌∙◌, true, false, Option, some, List, [], ◌∷◌, ◌++◌,
  append_assoc, append-nil, map, All, Text, codes, text_eq, Bytes, ok, Bool-cases, inl, inr,
  >>=-eq-ok, ok-injective, ◌>>=◌,
}
use nexpack.Permission.{PermissionSet}
use nexpack.Bundle.{Bundle}
use nexpack.Header.Wire.{Capnp}
use nexpack.Seccomp.{generate_seccomp_filter, seccomp_allow_all, block_network_syscalls, bpf_stmt}
use nexpack.Paths.{find_bwrap}
use nexpack.Sandbox.{Env, option_args, build_bwrap_args}
use nexpack.Sandbox.Bwrap.{
  Op, seccomp, pid, uts, ipc, user, kind, option, read_args, writable_binds, unshared, filters,
}
use nexpack.Sandbox.Segments.{Reads}
use nexpack.Sandbox.Isolation.{declared, net_unshared, Adds-option_args}
use nexpack.Daemon.{MountReply, Host, reply_for}
use nexpack.Run.{Program, Client, insert_filter, bwrap_command, is_nil, filter_fd, launch_sandboxed}

-- None of the arguments is the `--` that ends the options.
abbrev pub IsOptions : List Text → Type 0
IsOptions args = All (λ arg. text_eq arg (codes "--") ≡ false) args

insert_filter-inserted : (fd : Option Text) (args : List Text) → insert_filter fd true args ≡ args
unfolding insert_filter
insert_filter-inserted fd [] = refl
insert_filter-inserted fd (arg ∷ args) = elim (Bool-cases (text_eq arg (codes "--"))) [
  | inl end ↦ rw end (ap (λ l. arg ∷ l) (insert_filter-inserted fd args))
  | inr operand ↦ rw operand (ap (λ l. arg ∷ l) (insert_filter-inserted fd args))
]

insert_filter-append :
    (fd : Text) (args rest : List Text)
    → IsOptions args
    → insert_filter (some fd) false (args ++ (codes "--" ∷ rest))
      ≡ args ++ (codes "--seccomp" ∷ fd ∷ codes "--" ∷ rest)
unfolding insert_filter text_eq
insert_filter-append fd [] rest h = rw (insert_filter-inserted (some fd) rest) refl
insert_filter-append fd (arg ∷ args) rest (here, there) =
    rw (here, insert_filter-append fd args rest there) refl

Reads-filter :
    (fd : Text) (cmd : List Text)
    → Reads (codes "--seccomp" ∷ fd ∷ codes "--" ∷ cmd) [] [] (fd ∷ []) cmd
unfolding read_args kind writable_binds unshared filters
Reads-filter fd cmd = record {
  ops = seccomp fd ∷ [];
  reads = refl;
  binds_of = refl;
  spaces_of = refl;
  filters_of = refl;
}

module _ (env : Env) (perm : PermissionSet) where
  bwrap_command-shape :
      (fd rootfs entrypoint : Text) (args : List Text)
      → IsOptions (option_args env rootfs perm)
      → bwrap_command (some fd) (build_bwrap_args env rootfs perm entrypoint []) args
        ≡ option_args env rootfs perm
          ++ (codes "--seccomp" ∷ fd ∷ codes "--" ∷ (codes "/run/app" ++ entrypoint) ∷ args)
  unfolding bwrap_command build_bwrap_args
  bwrap_command-shape fd rootfs entrypoint args h =
      rw
        (insert_filter-append fd (option_args env rootfs perm)
          ((codes "/run/app" ++ entrypoint) ∷ []) h)
        (append_assoc (option_args env rootfs perm) _ args)

  bwrap_command-filters :
      (fd rootfs entrypoint : Text) (args : List Text)
      → IsOptions (option_args env rootfs perm)
      → (ops : List Op) × (read_args option
            (bwrap_command (some fd) (build_bwrap_args env rootfs perm entrypoint []) args)
          ≡ some (ops, (codes "/run/app" ++ entrypoint) ∷ args))
        × (filters ops ≡ fd ∷ [])
        × (writable_binds ops ≡ map (declared env) perm.filesystem)
        × (unshared ops ≡ pid ∷ uts ∷ ipc ∷ user ∷ net_unshared env perm)
  bwrap_command-filters fd rootfs entrypoint args h =
      let cmd = (codes "/run/app" ++ entrypoint) ∷ args in
      let r =
        (Adds-option_args env perm rootfs).add (codes "--seccomp" ∷ fd ∷ codes "--" ∷ cmd) [] []
          (fd ∷ []) cmd (Reads-filter fd cmd) in
      (
        r.ops,
        ap (read_args option) (bwrap_command-shape fd rootfs entrypoint args h) ∙ r.reads,
        r.filters_of,
        simp append-nil at r.binds_of,
        simp append-nil at r.spaces_of,
      )

filter-written : (perm : PermissionSet) → is_nil (generate_seccomp_filter perm) ≡ false
unfolding generate_seccomp_filter seccomp_allow_all block_network_syscalls bpf_stmt to_le_bytes
filter-written perm = ground arith

module _ (blake3_hex : Bytes → Text) (cp : Capnp) (client : Client) where
  filter_fd-ok :
      (filter : Bytes) (fd : Option Text)
      → is_nil filter ≡ false
      → filter_fd blake3_hex cp client filter ≡ ok fd
      → (number : Text) × (client.setup_seccomp_fd filter ≡ ok number) × (fd ≡ some number)
  unfolding filter_fd
  filter_fd-ok filter fd h e =
      let (number, made, named) =
        >>=-eq-ok (client.setup_seccomp_fd filter) (λ number. ok (some number)) (rw h at e) in
      (number, made, sym (ok-injective named))

  launch_sandboxed-ok :
      (m : MountReply) (args : List Text) (p : Program)
      → is_nil m.seccomp_filter ≡ false
      → launch_sandboxed blake3_hex cp client m args ≡ ok p
      → (fd : Text) × (client.setup_seccomp_fd m.seccomp_filter ≡ ok fd)
        × (p.args ≡ bwrap_command (some fd) m.bwrap_args args)
  unfolding launch_sandboxed
  launch_sandboxed-ok m args p h e =
      let (path, _, e1) =
        >>=-eq-ok (find_bwrap client.files)
          (λ path. filter_fd blake3_hex cp client m.seccomp_filter >>= λ fd.
            ok (record { path = path; args = bwrap_command fd m.bwrap_args args }))
          e in
      let (found, filtered, e2) =
        >>=-eq-ok (filter_fd blake3_hex cp client m.seccomp_filter)
          (λ fd. ok (record { path = path; args = bwrap_command fd m.bwrap_args args })) e1 in
      let (fd, made, named) = filter_fd-ok m.seccomp_filter found h filtered in
      (
        fd,
        made,
        ap (λ (q : Program). q.args) (sym (ok-injective e2))
            ∙ ap (λ f. bwrap_command f m.bwrap_args args) named,
      )

  -- When `run` starts a sandbox with what the daemon answers to a mount, and none of the daemon's
  -- options and operands is itself `--`, bubblewrap reads its arguments as the daemon's options, the
  -- descriptor of the daemon's filter as the only filter, and then the entry point with the user's
  -- arguments: what it may write to is what the permissions declare, and the network is shared only
  -- if they grant it.
  pub launch_sandboxed-filters :
      (host : Host) (b : Bundle) (merged : Text) (args : List Text) (p : Program)
      → IsOptions (option_args host.env merged b.header.permissions)
      → launch_sandboxed blake3_hex cp client (reply_for blake3_hex cp host b merged) args ≡ ok p
      → (fd : Text) × (ops : List Op) × (client.setup_seccomp_fd
            (generate_seccomp_filter b.header.permissions)
          ≡ ok fd)
        × (read_args option p.args ≡ some (ops, (codes "/run/app" ++ b.header.entrypoint) ∷ args))
        × (filters ops ≡ fd ∷ [])
        × (writable_binds ops ≡ map (declared host.env) b.header.permissions.filesystem)
        × (unshared ops ≡ pid ∷ uts ∷ ipc ∷ user ∷ net_unshared host.env b.header.permissions)
  launch_sandboxed-filters host b merged args p h e =
      let (fd, made, shape) =
        launch_sandboxed-ok (reply_for blake3_hex cp host b merged) args p
          (filter-written b.header.permissions) e in
      let (ops, reads, loaded, binds, spaces) =
        bwrap_command-filters host.env b.header.permissions fd merged b.header.entrypoint args h in
      (fd, ops, made, ap (read_args option) shape ∙ reads, loaded, binds, spaces)
