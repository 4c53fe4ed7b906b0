-- ===== src/Daemon/Start.antt =====
-- nexpackd/src/main.rs: what the daemon reads when it starts, the state it starts with, and the idle
-- cleaner's step for one app with the overlay that it unmounts. The TOML library is a parameter.
use nexpack.Prelude.{ℕ, Option, none, some, [], Text, codes, Outcome, ok, err, panic, if◌then◌else◌}
use nexpack.Prelude.Dict
use nexpack.Paths.{join}
use nexpack.Sandbox.Expand.{Env}
use nexpack.Mounts.{MountEntry, DaemonState, is_idle, clean_one}
use nexpack.Overlay.{Table, System, unmount_overlay}
use nexpack.Daemon.{is_done}

pub record DaemonConfig : Type 0 where
  pub idle_timeout : Option ℕ
  pub update_interval : Option ℕ

abbrev pub no_config : DaemonConfig
no_config = record { idle_timeout = none; update_interval = none }

-- Reading a file, and `toml::from_str`.
pub record Reading : Type 0 where
  pub env : Env
  pub read_to_string : Text → Outcome Text
  pub from_str : Text → Option DaemonConfig

-- The folder below `HOME`, or below nothing.
abbrev home_config : Option Text → Text
home_config none = []
home_config (some home) = join home (codes ".config")

unfoldable pub config_path : Env → Text
unfolding join
config_path env = elim (env.var (codes "XDG_CONFIG_HOME")) [
  | some path ↦ join (join path (codes "nexpack")) (codes "daemon.toml")
  | none ↦
      join (join (home_config (env.var (codes "HOME"))) (codes "nexpack")) (codes "daemon.toml")
]

abbrev config_or_none : Option DaemonConfig → DaemonConfig
config_or_none none = no_config
config_or_none (some config) = config

-- A file that is missing, or is no configuration, counts as one without settings.
unfoldable pub parse_config : (Text → Option DaemonConfig) → Outcome Text → DaemonConfig
parse_config from_str (ok content) = config_or_none (from_str content)
parse_config from_str (err e) = no_config
parse_config from_str panic = no_config

unfoldable pub load_config : Reading → DaemonConfig
unfolding config_path parse_config
load_config reading =
    parse_config reading.from_str (reading.read_to_string (config_path reading.env))

abbrev or_default : Option ℕ → ℕ → ℕ
or_default none n = n
or_default (some m) n = m

-- The time between two rounds of the update checker, in seconds.
unfoldable pub update_interval : DaemonConfig → ℕ
update_interval config = or_default config.update_interval 3600

-- No mounts, whatever an earlier daemon has left mounted.
unfoldable pub initial_state : DaemonConfig → DaemonState
initial_state config = record { mounts = []; idle_timeout = or_default config.idle_timeout 300 }

unfoldable pub socket_path : Env → Text
unfolding join
socket_path env = elim (env.var (codes "XDG_RUNTIME_DIR")) [
  | some dir ↦ join dir (codes "nexpack.sock")
  | none ↦ join (codes "/tmp") (codes "nexpack.sock")
]

-- What the cleaner does while it holds the lock, for an app that may be idle no more.
unfoldable pub clean_found :
    System → ℕ → Text → Option MountEntry → Table → DaemonState → Table × DaemonState
unfolding clean_one is_idle unmount_overlay
clean_found sys now app_id none t s = (t, s)
clean_found sys now app_id (some entry) t s =
    let gone = unmount_overlay sys entry.rootfs t in
    if is_idle now s.idle_timeout entry
    then (gone.1, clean_one (is_done gone.0) app_id now s)
    else (t, s)

unfoldable pub clean_mount : System → ℕ → Text → Table → DaemonState → Table × DaemonState
unfolding clean_found
clean_mount sys now app_id t s = clean_found sys now app_id (Dict.lookup app_id s.mounts) t s
