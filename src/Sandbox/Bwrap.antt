-- ===== src/Sandbox/Bwrap.antt =====
-- How bubblewrap reads its arguments: options with a fixed number of operands, whatever the operands
-- look like, up to `--`, and then the command. This is the reference for nexpackd/src/sandbox.rs.
use nexpack.Prelude.{Option, none, some, List, [], ◌∷◌, Text, codes, text_eq, if◌then◌else◌}

pub data Namespace : Type 0 where
  pid uts ipc user net : Namespace

-- An option with its operands.
pub data Op : Type 0 where
  bind : Text → Text → Op
  unshare : Namespace → Op
  seccomp : Text → Op
  other_option : Op

-- What an option's name asks for.
pub data Kind : Type 0 where
  finish unknown skip0 skip1 skip2 writable filter : Kind
  space : Namespace → Kind

unfoldable pub kind : Text → Kind
unfolding text_eq
kind o =
    if text_eq o (codes "--")
    then finish
    else if text_eq o (codes "--bind")
    then writable
    else if text_eq o (codes "--ro-bind")
    then skip2
    else if text_eq o (codes "--ro-bind-try")
    then skip2
    else if text_eq o (codes "--seccomp")
    then filter
    else if text_eq o (codes "--setenv")
    then skip2
    else if text_eq o (codes "--proc")
    then skip1
    else if text_eq o (codes "--dev")
    then skip1
    else if text_eq o (codes "--tmpfs")
    then skip1
    else if text_eq o (codes "--uid")
    then skip1
    else if text_eq o (codes "--gid")
    then skip1
    else if text_eq o (codes "--unshare-pid")
    then space pid
    else if text_eq o (codes "--unshare-uts")
    then space uts
    else if text_eq o (codes "--unshare-ipc")
    then space ipc
    else if text_eq o (codes "--unshare-user")
    then space user
    else if text_eq o (codes "--unshare-net")
    then space net
    else if text_eq o (codes "--die-with-parent")
    then skip0
    else unknown

-- Waiting for an option, or for operands of one.
pub data Mode : Type 0 where
  option : Mode
  skip_one skip_two bind_source filter_fd : Mode
  bind_target : Text → Mode

abbrev pub prepend : Op → Option (List Op × List Text) → Option (List Op × List Text)
prepend op none = none
prepend op (some (ops, cmd)) = some (op ∷ ops, cmd)

-- The options and the command; `none` for an unknown option, or where the list ends too early.
unfoldable pub read_args : Mode → List Text → Option (List Op × List Text)
read_args _ [] = none
read_args skip_one (a ∷ rest) = prepend other_option (read_args option rest)
read_args skip_two (a ∷ rest) = read_args skip_one rest
read_args bind_source (a ∷ rest) = read_args (bind_target a) rest
read_args (bind_target s) (a ∷ rest) = prepend (bind s a) (read_args option rest)
read_args filter_fd (a ∷ rest) = prepend (seccomp a) (read_args option rest)
read_args option (o ∷ rest) = elim (kind o) [
  | finish ↦ some ([], rest)
  | unknown ↦ none
  | skip0 ↦ prepend other_option (read_args option rest)
  | skip1 ↦ read_args skip_one rest
  | skip2 ↦ read_args skip_two rest
  | writable ↦ read_args bind_source rest
  | filter ↦ read_args filter_fd rest
  | space n ↦ prepend (unshare n) (read_args option rest)
]

-- What of the host the sandbox may write to (`--tmpfs` and `--dev` are folders of its own, made anew
-- for each run), the namespaces that it does not share, and the descriptors that
-- system call filters are read from.
unfoldable pub writable_binds : List Op → List (Text × Text)
writable_binds [] = []
writable_binds (bind s t ∷ ops) = (s, t) ∷ writable_binds ops
writable_binds (unshare n ∷ ops) = writable_binds ops
writable_binds (seccomp f ∷ ops) = writable_binds ops
writable_binds (other_option ∷ ops) = writable_binds ops

unfoldable pub unshared : List Op → List Namespace
unshared [] = []
unshared (unshare n ∷ ops) = n ∷ unshared ops
unshared (bind s t ∷ ops) = unshared ops
unshared (seccomp f ∷ ops) = unshared ops
unshared (other_option ∷ ops) = unshared ops

unfoldable pub filters : List Op → List Text
filters [] = []
filters (seccomp f ∷ ops) = f ∷ filters ops
filters (unshare n ∷ ops) = filters ops
filters (bind s t ∷ ops) = filters ops
filters (other_option ∷ ops) = filters ops
