-- ===== src/Commands.antt =====
-- The commands that change the store, as one user runs them one after the other: `install`,
-- `update`, nxpk/src/commands/remove.rs and nxpk/src/commands/gc.rs. Each is a process of its own,
-- with its own disk and network, and may end in an error or a panic.
pub mod History
pub mod Line
pub mod Leftovers
pub mod Permissions
use nexpack.Prelude.{Bool, List, [], ◌∷◌, Text, Bytes, Outcome, ok, err, other, if◌then◌else◌}
use nexpack.Prelude.Dict
use nexpack.Header.Wire.{Capnp}
use nexpack.Bundle.{Bundle}
use nexpack.Store.{Store, Disk, remove_app, gc}
use nexpack.Store.Install.{install}
use nexpack.Update.Command.{Network, check_and_apply_updates, update_all}

-- `remove` of an app that is not installed is an error.
unfoldable pub remove_command : Bool → Text → Store → Outcome (Unit {0}) × Store
unfolding remove_app
remove_command removes app_id s =
    if Dict.has_key app_id s.apps
    then remove_app removes app_id s
    else (err (other "app is not installed"), s)

unfoldable pub gc_command : (Text → Bool) → Store → Outcome (Unit {0}) × Store
unfolding gc
gc_command removes s = (ok tt, (gc removes s).0)

pub data Command : Type 0 where
  install_bundle : Disk → Bundle → Command
  update_app : Disk → Network → Text → Command
  update_apps : Disk → Network → List Text → Command
  remove : Bool → Text → Command
  collect : (Text → Bool) → Command

module _ (blake3_hex : Bytes → Text) (cp : Capnp) where
  unfoldable pub run_command : Command → Store → Outcome (Unit {0}) × Store
  unfolding install check_and_apply_updates update_all remove_command gc_command
  run_command (install_bundle disk b) s = install blake3_hex disk cp b s
  run_command (update_app disk net app_id) s =
      check_and_apply_updates disk blake3_hex cp net app_id s
  run_command (update_apps disk net apps) s = update_all disk blake3_hex cp net apps s
  run_command (remove removes app_id) s = remove_command removes app_id s
  run_command (collect removes) s = gc_command removes s

  unfoldable pub run_commands : List Command → Store → Store
  unfolding run_command
  run_commands [] s = s
  run_commands (c ∷ commands) s = run_commands commands (run_command c s).1
