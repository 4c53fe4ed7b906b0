-- ===== src/Interleaved/Kept.antt =====
-- The store through any interleaving.
use nexpack.Prelude.{Option, none, some, List, [], ◌∷◌, Text, Bytes, All}
use nexpack.Header.Wire.{Capnp}
use nexpack.Store.Sound.{IsSound}
use nexpack.Store.Keeps.{IsAtomic}
use nexpack.Update.Background.Honest.{IsHonest, background_update_keeps}
use nexpack.Daemon.Sound.{handle_client_keeps}
use nexpack.Commands.Line.{Done, dispatch}
use nexpack.Commands.Line.Keeps.{KeptBy, dispatch_keeps}
use nexpack.Interleaved.{
  Whole, Step, command, request, clean, check, start, after_command, served, step, steps,
}

module _ (blake3_hex : Bytes → Text) (cp : Capnp) where
  -- A write of an image that fails leaves none, and the update checker is delivered what its feeds
  -- announce.
  abbrev pub IsCareful : Step → Type 0
  IsCareful (command machine c) = IsAtomic machine.disk
  IsCareful (request host now r) = IsAtomic host.disk
  IsCareful (clean sys now app_id) = Unit
  IsCareful (check disk net app_id) = IsAtomic disk × IsHonest blake3_hex net
  IsCareful (start reading) = Unit

  after_command_keeps :
      (ended : Option Done) (w : Whole)
      → KeptBy blake3_hex ended
      → IsSound blake3_hex w.user.store
      → IsSound blake3_hex (after_command ended w).user.store
  unfolding after_command
  after_command_keeps none w kept sound = sound
  after_command_keeps (some done) w kept sound = kept

  step_keeps :
      (s : Step) (w : Whole)
      → IsCareful s
      → IsSound blake3_hex w.user.store
      → IsSound blake3_hex (step blake3_hex cp s w).user.store
  unfolding step served
  step_keeps (command machine c) w atomic sound =
      after_command_keeps (dispatch blake3_hex cp machine c w.user) w
        (dispatch_keeps blake3_hex cp machine atomic c w.user sound) sound
  step_keeps (request host now r) w atomic sound =
      handle_client_keeps blake3_hex cp host atomic now r
        (record { store = w.user.store; table = w.table; state = w.state }) sound
  step_keeps (clean sys now app_id) w careful sound = sound
  step_keeps (check disk net app_id) w (atomic, honest) sound =
      background_update_keeps blake3_hex net disk atomic cp honest app_id w.user.store sound
  step_keeps (start reading) w careful sound = sound

  -- Commands of any kind, requests to the daemon, its cleaner, its update checker and its restarts,
  -- in any order and however each ends, keep it so that every image in the store hashes to the
  -- digest in its folder's name, if a write of an image that fails leaves no image, and if what the
  -- update checker downloads has the digest that the feed gives it.
  pub steps-IsSound :
      (path : List Step) (w : Whole)
      → All IsCareful path
      → IsSound blake3_hex w.user.store
      → IsSound blake3_hex (steps blake3_hex cp path w).user.store
  unfolding steps
  steps-IsSound [] w careful sound = sound
  steps-IsSound (s ∷ path) w (here, there) sound =
      steps-IsSound path (step blake3_hex cp s w) there (step_keeps s w here sound)
