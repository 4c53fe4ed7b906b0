-- ===== src/Commands/History.antt =====
-- The store through a sequence of commands.
use nexpack.Prelude.{◌≡◌, Bool, List, [], ◌∷◌, Text, Bytes, All, arith}
use nexpack.Header.Wire.{Capnp}
use nexpack.Store.{Store, remove_app}
use nexpack.Store.Sound.{IsSound}
use nexpack.Store.Keeps.{IsAtomic, IsSound-same, gc_keeps}
use nexpack.Store.Install.Keeps.{install_keeps}
use nexpack.Update.Command.Keeps.{check_and_apply_updates_keeps, update_all_keeps}
use nexpack.Commands.{
  Command, install_bundle, update_app, update_apps, remove, collect, remove_command, gc_command,
  run_command, run_commands,
}

-- A write of an image that fails leaves none.
abbrev pub IsCareful : Command → Type 0
IsCareful (install_bundle disk b) = IsAtomic disk
IsCareful (update_app disk net app_id) = IsAtomic disk
IsCareful (update_apps disk net apps) = IsAtomic disk
IsCareful (remove removes app_id) = Unit
IsCareful (collect removes) = Unit

pub remove_command-layers :
    (removes : Bool) (app_id : Text) (s : Store)
    → (remove_command removes app_id s).1.layers ≡ s.layers
unfolding remove_command remove_app
remove_command-layers removes app_id s = ground arith

module _ (blake3_hex : Bytes → Text) (cp : Capnp) where
  run_command_keeps :
      (c : Command) (s : Store)
      → IsCareful c
      → IsSound blake3_hex s
      → IsSound blake3_hex (run_command blake3_hex cp c s).1
  unfolding run_command gc_command
  run_command_keeps (install_bundle disk b) s atomic sound =
      install_keeps blake3_hex disk atomic cp b s sound
  run_command_keeps (update_app disk net app_id) s atomic sound =
      check_and_apply_updates_keeps blake3_hex disk atomic cp net app_id s sound
  run_command_keeps (update_apps disk net apps) s atomic sound =
      update_all_keeps blake3_hex disk atomic cp net apps s sound
  run_command_keeps (remove removes app_id) s atomic sound =
      IsSound-same blake3_hex s (remove_command removes app_id s).1
        (remove_command-layers removes app_id s) sound
  run_command_keeps (collect removes) s atomic sound = gc_keeps blake3_hex removes s sound

  -- Installing, updating, removing and collecting, in any order and with whatever bundles and
  -- downloads, each ending well, in an error or in a panic, keep it so that every image in the store
  -- hashes to the digest in its folder's name, if a write of an image that fails leaves no image.
  pub run_commands-IsSound :
      (commands : List Command) (s : Store)
      → All IsCareful commands
      → IsSound blake3_hex s
      → IsSound blake3_hex (run_commands blake3_hex cp commands s)
  unfolding run_commands
  run_commands-IsSound [] s careful sound = sound
  run_commands-IsSound (c ∷ commands) s (here, there) sound =
      run_commands-IsSound commands (run_command blake3_hex cp c s).1 there
        (run_command_keeps c s here sound)
