-- ===== src/Commands/Line.antt =====
-- nxpk/src/main.rs: the command line as clap delivers it, and what each command does with what the
-- user has: the store, the desktop entries, the trust policies and the bundles that were written.
-- What a command that fails leaves of the bundle it was writing is left out.
pub mod Keeps
use nexpack.Prelude.{
  ℕ, suc, Bool, true, false, Option, none, some, List, [], ◌∷◌, Text, codes, Bytes, length, Outcome,
  ok, err, panic, other, store_path, ensure, ◌>>=◌, ◌>>◌, if◌then◌else◌,
}
use nexpack.Prelude.Dict
use nexpack.Prelude.Dict.{Dict}
use nexpack.Header.Wire.{Capnp}
use nexpack.Bundle.{Bundle, parse_bundle}
use nexpack.Store.{Store, Disk}
use nexpack.Store.Apps.{list_apps}
use nexpack.Store.Install.Desktop.{Home, install_command}
use nexpack.Update.Command.{Network, check_and_apply_updates, update_all}
use nexpack.Commands.{remove_command, gc_command}
use nexpack.Commands.Permissions.{Input, permissions}
use nexpack.Trust.Config.{Setting, trust, edit_trust}
use nexpack.Inspect.{Report, inspect}
use nexpack.Verify.Command.{verify_command}
use nexpack.Run.{Client, Program, run}
use nexpack.Pack.Command.{Host, pack_command}
use nexpack.Export.{export_app, export_name}
use nexpack.Signing.Sign.Command.{Signer, sign_command}
use nexpack.Compat.Programs
use nexpack.Compat.Programs.{open_appimage}
use nexpack.Compat.Convert.{run_compat, convert_appimage}

pub data CompatCommands : Type 0 where
  compat_run : Text → List Text → CompatCommands
  compat_convert : Text → Option Text → CompatCommands

pub data Commands : Type 0 where
  -- the bundle, `--sandbox`, `--no-sandbox`, `--offline`, and the program's arguments
  run_bundle : Text → Bool → Bool → Bool → List Text → Commands
  install : Text → Commands
  update : Option Text → Bool → Commands
  remove : Text → Commands
  gc : Commands
  inspect_bundle : Text → Bool → Commands
  verify : Text → Bool → Commands
  edit_permissions : Text → Bool → Commands
  trust_policy : Option Text → Option Text → Bool → Commands
  pack : Text → Commands
  export : Text → Commands
  sign : Text → Option Text → Commands
  compat : CompatCommands → Commands

-- What one run of the program finds: its input, its disk and network, and other programs.
pub record Machine : Type 0 where
  pub has_home : Bool
  pub read_file : Text → Outcome Bytes
  pub disk : Disk
  pub home : Home
  pub net : Network
  pub removes_app : Bool
  pub removes_layer : Text → Bool
  pub input : Input
  -- whether the terminal fails at the end of the input
  pub broken : Bool
  pub setting : Setting
  pub client : Client
  pub packer : Host
  -- the stub that is built into the program
  pub stub_bytes : Bytes
  pub signer : Signer
  pub appimages : Programs.Host

pub record User : Type 0 where
  pub store : Store
  pub entries : Dict Text
  pub trust_file : Option Text
  pub bundles : Dict Bytes

-- `sandbox_mode`
unfoldable pub sandbox_mode : Bool → Bool → Option Bool
sandbox_mode sandbox no_sandbox =
    if sandbox then some true else if no_sandbox then some false else none

abbrev pub Done : Type 0
Done = Outcome (Unit {0}) × User

-- A command that changes nothing here.
unfoldable pub only_result {ℓ} : {A : Type ℓ} → Outcome A → User → Done
only_result (ok _) u = (ok tt, u)
only_result (err e) u = (err e, u)
only_result panic u = (panic, u)

abbrev pub with_store : User → Outcome (Unit {0}) × Store → Done
with_store u ended = (ended.0, record u { store = ended.1 })

-- `Store::user`
abbrev pub store_user : Bool → Outcome (Unit {0})
store_user has_home = ensure has_home (store_path "$HOME not set")

-- The store is opened first.
unfoldable pub in_store : Bool → (Store → Outcome (Unit {0}) × Store) → User → Done
in_store has_home command u =
    if has_home then with_store u (command u.store) else (err (store_path "$HOME not set"), u)

unfoldable pub write_bundle : Outcome (Text × Bytes) → User → Done
write_bundle (ok (path, file)) u = (ok tt, record u { bundles = Dict.insert path file u.bundles })
write_bundle (err e) u = (err e, u)
write_bundle panic u = (panic, u)

-- Nothing is written for a bundle that was signed before.
unfoldable pub write_signed : Outcome (Option (Text × Bytes)) → User → Done
unfolding write_bundle
write_signed (ok none) u = (ok tt, u)
write_signed (ok (some written)) u = write_bundle (ok written) u
write_signed (err e) u = (err e, u)
write_signed panic u = (panic, u)

abbrev pub with_trust : User → Outcome (Unit {0}) × Option Text → Done
with_trust u ended = (ended.0, record u { trust_file = ended.1 })

-- A session that does not end leaves the user with what there was.
unfoldable pub edited : Option (Outcome (Unit {0}) × Store) → User → Option Done
edited none u = none
edited (some ended) u = some (with_store u ended)

unfoldable pub if_home : Bool → Option Done → User → Option Done
if_home true ended u = ended
if_home false ended u = some (err (store_path "$HOME not set"), u)

module _ (blake3_hex : Bytes → Text) (cp : Capnp) (machine : Machine) where
  -- The bundle is opened, then the store.
  unfoldable pub install_opened : Outcome Bundle → User → Done
  unfolding install_command
  install_opened (ok b) u =
      let ended = install_command blake3_hex machine.disk machine.home cp b u.store u.entries in
      if machine.has_home
      then (ended.0, record u { store = ended.1.0; entries = ended.1.1 })
      else (err (store_path "$HOME not set"), u)
  install_opened (err e) u = (err e, u)
  install_opened panic u = (panic, u)

  unfoldable pub open_bundle : Text → Outcome Bundle
  open_bundle path = do contents ← machine.read_file path; parse_bundle cp contents

  -- With neither an app nor `--all` only the usage is printed.
  unfoldable pub update_command : Option Text → Bool → User → Done
  unfolding in_store update_all check_and_apply_updates list_apps
  update_command app_id all u =
      if all
      then in_store machine.has_home
          (λ s. update_all machine.disk blake3_hex cp machine.net (list_apps s) s) u
      else elim app_id [
        | none ↦ (ok tt, u)
        | some id ↦
            in_store machine.has_home
              (check_and_apply_updates machine.disk blake3_hex cp machine.net id) u
      ]

  -- `--edit` goes before the two arguments.
  unfoldable pub trust_command : Option Text → Option Text → Bool → User → Done
  unfolding trust edit_trust
  trust_command pattern identity edit u =
      if edit then with_trust u (edit_trust machine.setting u.trust_file) else elim pattern [
        | none ↦ (err (other "usage: nxpk trust"), u)
        | some p ↦ elim identity [
          | none ↦ (err (other "usage: nxpk trust"), u)
          | some i ↦ with_trust u (trust machine.setting p i u.trust_file)
        ]
      ]

  unfoldable pub compat_command : CompatCommands → User → Done
  unfolding only_result write_bundle run_compat convert_appimage
  compat_command (compat_run appimage args) u =
      only_result
        (do
          a ← open_appimage machine.appimages (codes "nexpack-compat-") appimage
          run_compat a args)
        u
  compat_command (compat_convert appimage output) u =
      write_bundle
        (do
          a ← open_appimage machine.appimages (codes "nexpack-convert-") appimage
          convert_appimage blake3_hex cp a output)
        u

  unfoldable pub export_command : Text → Store → Outcome (Text × Bytes)
  unfolding export_app export_name
  export_command app_id s = do
    store_user machine.has_home
    file ← export_app blake3_hex cp machine.stub_bytes app_id s
    ok (export_name app_id, file)

  -- The menu's loop is given one round more than the input has lines.
  unfoldable pub permissions_command : Text → Bool → User → Option Done
  unfolding edited if_home permissions
  permissions_command app_id edit u =
      if_home machine.has_home
        (edited
          (permissions cp machine.disk machine.broken edit (suc (length machine.input))
            machine.input app_id u.store)
          u)
        u

  -- The `match` of `main`. `none` is a command that never ends.
  unfoldable pub dispatch : Commands → User → Option Done
  unfolding install_opened open_bundle update_command in_store trust_command compat_command
      export_command permissions_command only_result write_bundle write_signed sandbox_mode
  dispatch (run_bundle bundle sandbox no_sandbox offline args) u = some (
      only_result
        (run blake3_hex cp machine.client bundle args (sandbox_mode sandbox no_sandbox) offline) u)
  dispatch (install bundle) u = some (install_opened (open_bundle bundle) u)
  dispatch (update app_id all) u = some (update_command app_id all u)
  dispatch (remove app_id) u =
      some (in_store machine.has_home (remove_command machine.removes_app app_id) u)
  dispatch gc u = some (in_store machine.has_home (gc_command machine.removes_layer) u)
  dispatch (inspect_bundle bundle as_json) u =
      some (only_result (inspect cp blake3_hex machine.read_file bundle as_json) u)
  dispatch (verify bundle offline) u = some (
      only_result (do contents ← machine.read_file bundle; verify_command blake3_hex cp contents) u)
  dispatch (edit_permissions app_id edit) u = permissions_command app_id edit u
  dispatch (trust_policy pattern identity edit) u = some (trust_command pattern identity edit u)
  dispatch (pack spec) u =
      some (write_bundle (pack_command machine.packer cp machine.stub_bytes spec) u)
  dispatch (export app_id) u = some (write_bundle (export_command app_id u.store) u)
  dispatch (sign bundle output) u =
      some (write_signed (sign_command machine.signer cp machine.read_file bundle output) u)
  dispatch (compat command) u = some (compat_command command u)
