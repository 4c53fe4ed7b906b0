-- ===== src/Run.antt =====
-- nxpk/src/commands/run.rs: `run`, up to the program that it becomes. What the daemon answers, the
-- descriptor of the filter's file and the files on disk are parameters; what is printed (the
-- signature and the trust policy too) is left out.
pub mod Filtered
use nexpack.Prelude.{
  Bool, true, false, not, ◌&&◌, Option, none, some, List, [], ◌∷◌, ◌++◌, Text, codes, text_eq,
  strip_prefix, Bytes, Outcome, ok, err, panic, other, ensure, ◌>>=◌, ◌>>◌, if◌then◌else◌,
}
use nexpack.Header.Wire.{Capnp}
use nexpack.Bundle.{Bundle, parse_bundle}
use nexpack.Verify.{verify_layers}
use nexpack.Paths.{Files, join, find_bwrap}
use nexpack.Daemon.{
  MountReply, Request, mount_request, Response, mount_response, unmount_response, list_response,
  status_response, error_response,
}

-- The program that `exec` starts, with its arguments.
pub record Program : Type 0 where
  pub path : Text
  pub args : List Text

abbrev pub filter_args : Option Text → List Text
filter_args none = []
filter_args (some fd) = codes "--seccomp" ∷ fd ∷ []

-- The loop over the daemon's arguments; the flag is `seccomp_inserted`.
unfoldable pub insert_filter : Option Text → Bool → List Text → List Text
insert_filter fd inserted [] = []
insert_filter fd inserted (arg ∷ args) =
    let before = insert_filter fd true args in
    let after = insert_filter fd inserted args in
    if text_eq arg (codes "--") && not inserted
    then filter_args fd ++ (arg ∷ before)
    else arg ∷ after

-- What `bwrap` is given.
unfoldable pub bwrap_command : Option Text → List Text → List Text → List Text
unfolding insert_filter
bwrap_command fd bwrap_args args = insert_filter fd false bwrap_args ++ args

-- The answer to the mount request, or the error of another one.
unfoldable pub mounted_answer : Response → Outcome MountReply
mounted_answer (mount_response m) = ok m
mounted_answer (error_response e) = err (other "daemon error")
mounted_answer (unmount_response _) = err (other "unexpected daemon response")
mounted_answer (list_response _) = err (other "unexpected daemon response")
mounted_answer status_response = err (other "unexpected daemon response")

abbrev pub is_nil : Bytes → Bool
is_nil [] = true
is_nil (b ∷ bytes) = false

-- `entrypoint.strip_prefix("/").unwrap_or(&entrypoint)`
unfoldable pub relative : Text → Text
unfolding strip_prefix
relative entrypoint = elim (strip_prefix (codes "/") entrypoint) [ none ↦ entrypoint | some t ↦ t ]

pub record Client : Type 0 where
  pub files : Files
  pub read_file : Text → Outcome Bytes
  -- starting the daemon where its socket is missing, and connecting
  pub connect : Outcome (Unit {0})
  pub daemon : Request → Outcome Response
  -- the descriptor's number, from `setup_seccomp_fd`
  pub setup_seccomp_fd : Bytes → Outcome Text

module _ (blake3_hex : Bytes → Text) (cp : Capnp) (client : Client) where
  unfoldable pub filter_fd : Bytes → Outcome (Option Text)
  filter_fd filter =
      if is_nil filter then ok none else (do fd ← client.setup_seccomp_fd filter; ok (some fd))

  unfoldable pub launch_sandboxed : MountReply → List Text → Outcome Program
  unfolding filter_fd bwrap_command find_bwrap
  launch_sandboxed m args = do
    bwrap_path ← find_bwrap client.files
    fd ← filter_fd m.seccomp_filter
    ok (record { path = bwrap_path; args = bwrap_command fd m.bwrap_args args })

  unfoldable pub launch_direct : Bundle → MountReply → List Text → Outcome Program
  unfolding relative join
  launch_direct b m args = do
    ensure (client.files.is_file (join m.rootfs (relative b.header.entrypoint)))
        (other "entrypoint not found")
    ok (record { path = join m.rootfs (relative b.header.entrypoint); args = args })

  unfoldable pub run : Text → List Text → Option Bool → Bool → Outcome Program
  unfolding launch_sandboxed launch_direct mounted_answer
  run bundle_path args sandbox offline = do
    contents ← client.read_file bundle_path
    b ← parse_bundle cp contents
    verify_layers blake3_hex b
    client.connect
    response ← client.daemon (mount_request bundle_path offline)
    m ← mounted_answer response
    ensure (text_eq m.status (codes "mounted")) (other "daemon mount failed")
    (elim sandbox [
      | none ↦ launch_direct b m args
      | some use_sandbox ↦ if use_sandbox then launch_sandboxed m args else launch_direct b m args
    ])
