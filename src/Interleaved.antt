-- ===== src/Interleaved.antt =====
-- All that changes what one user has, in any order: the commands of nxpk/src/main.rs, and of
-- nexpackd/src/main.rs the start, the clients' requests, the idle cleaner and the update checker.
-- A step is a command, a request, or what a thread does for one app.
pub mod Kept
use nexpack.Prelude.{ℕ, Option, none, some, List, [], ◌∷◌, Text, Bytes}
use nexpack.Header.Wire.{Capnp}
use nexpack.Store.{Store, Disk}
use nexpack.Update.Command.{Network}
use nexpack.Update.Background.{background_update}
use nexpack.Overlay.{Table, System}
use nexpack.Mounts.{DaemonState}
use nexpack.Daemon.{World, Host, Request, handle_client}
use nexpack.Daemon.Start.{Reading, load_config, initial_state, clean_mount}
use nexpack.Commands.Line.{Commands, Machine, User, Done, dispatch}

-- The user's files, what is mounted, and the daemon's table.
pub record Whole : Type 0 where
  pub user : User
  pub table : Table
  pub state : DaemonState

pub data Step : Type 0 where
  command : Machine → Commands → Step
  request : Host → ℕ → Request → Step
  clean : System → ℕ → Text → Step
  check : Disk → Network → Text → Step
  start : Reading → Step

abbrev pub set_store : User → Store → User
set_store u s = record u { store = s }

-- A command that never ends has changed nothing.
unfoldable pub after_command : Option Done → Whole → Whole
after_command none w = w
after_command (some done) w = record w { user = done.1 }

module _ (blake3_hex : Bytes → Text) (cp : Capnp) where
  unfoldable pub served : World → Whole → Whole
  served world w = record {
    user = set_store w.user world.store;
    table = world.table;
    state = world.state;
  }

  unfoldable pub step : Step → Whole → Whole
  unfolding after_command served dispatch handle_client clean_mount background_update load_config
      initial_state
  step (command machine c) w = after_command (dispatch blake3_hex cp machine c w.user) w
  step (request host now r) w =
      served
        (handle_client blake3_hex cp host now r
          (record { store = w.user.store; table = w.table; state = w.state })).1
        w
  step (clean sys now app_id) w =
      let cleaned = clean_mount sys now app_id w.table w.state in
      record w { table = cleaned.0; state = cleaned.1 }
  step (check disk net app_id) w = record w {
    user = set_store w.user (background_update disk cp net app_id w.user.store).1;
  }
  step (start reading) w = record w { state = initial_state (load_config reading) }

  unfoldable pub steps : List Step → Whole → Whole
  unfolding step
  steps [] w = w
  steps (s ∷ rest) w = steps rest (step s w)
