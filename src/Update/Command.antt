-- ===== src/Update/Command.antt =====
-- nxpk/src/commands/update.rs: `check_and_apply_updates` and `update`, without their messages. A
-- file that is there is taken to be readable.
pub mod Keeps
pub mod Applied
use nexpack.Prelude.{
  Bool, true, false, ◌&&◌, not, Option, none, some, List, [], ◌∷◌, Text, Bytes, text_eq, last?, map,
  Outcome, ok, err, panic, other, ensure, ok_or, ◌>>=◌, ◌>>◌, io, if◌then◌else◌,
}
use nexpack.Prelude.Dict
use nexpack.Header.{BundleHeader, encode, parse}
use nexpack.Header.Wire.{Capnp}
use nexpack.Store.{
  App, Store, Disk, Effect, done, failed, has_layer, app_folder, current_target, add_gc_root,
}
use nexpack.Store.Install.{next}
use nexpack.Update.{
  LayerInfo, ReleaseInfo, UpdateFeed, latest_release, hex_of, updated_header, fetch_missing,
}

-- What the network delivers: `fetch_feed` and `download_layer`, by the URL.
pub record Network : Type 0 where
  pub fetch_feed : Text → Outcome UpdateFeed
  pub download_layer : Text → Outcome Bytes

-- The bytes of an installed app's `meta.capnp`.
abbrev pub meta_of : Store → Text → Option Bytes
meta_of s app_id = elim (Dict.lookup app_id s.apps) [ none ↦ none | some app ↦ app.meta ]

abbrev set_app : Store → Text → App → Store
set_app s app_id app = record s { apps = Dict.insert app_id app s.apps }

-- `new_digest`
abbrev pub new_digest : ReleaseInfo → Text
new_digest release = elim (last? release.layers) [ none ↦ [] | some layer ↦ hex_of layer ]

abbrev pub is_empty : Text → Bool
is_empty [] = true
is_empty (c ∷ t) = false

-- A step whose error is only reported.
unfoldable pub go_on :
    Outcome (Unit {0}) × Store → (Store → Outcome (Unit {0}) × Store) → Outcome (Unit {0}) × Store
go_on (ok _, s) f = f s
go_on (err _, s) f = f s
go_on (panic, s) f = (panic, s)

module _ (disk : Disk) where
  -- The link is made under another name, which `App` leaves out, and moved over the old one.
  unfoldable pub replace_current : Text → Text → Store → Outcome (Unit {0}) × Store
  replace_current app_id digest s =
      if disk.make_tmp_link app_id && disk.rename_tmp app_id
      then (
        ok tt,
        set_app s app_id (record (app_folder s app_id) { current = some (current_target digest) }),
      )
      else (err (io "replacing current"), s)

  -- The new layer becomes the current one if the store has it.
  unfoldable pub switch_current : Text → Text → Store → Outcome (Unit {0}) × Store
  unfolding next replace_current
  switch_current app_id digest s =
      if not (is_empty digest) && has_layer s digest
      then next (replace_current app_id digest s) (λ _ s. add_gc_root disk app_id digest s)
      else (ok tt, s)

  unfoldable pub write_effect : Effect Bytes → Text → Bytes → Store → Outcome (Unit {0}) × Store
  write_effect done app_id meta s =
      (ok tt, set_app s app_id (record (app_folder s app_id) { meta = some meta }))
  write_effect (failed left) app_id meta s =
      (err (io "writing meta"), set_app s app_id (record (app_folder s app_id) { meta = left }))

  -- `std::fs::write(&meta_path, &new_meta)`
  unfoldable pub write_meta : Text → Bytes → Store → Outcome (Unit {0}) × Store
  unfolding write_effect
  write_meta app_id meta s = write_effect (disk.write_meta app_id) app_id meta s

  module _ (blake3_hex : Bytes → Text) (cp : Capnp) (net : Network) where
    -- From the release on: fetch the layers, switch to the last one, write the new header.
    unfoldable pub apply_release :
        Text → BundleHeader → ReleaseInfo → Store → Outcome (Unit {0}) × Store
    unfolding next switch_current write_meta
    apply_release app_id header release s =
        next (fetch_missing blake3_hex disk net.download_layer release s) λ _ s.
          next (switch_current app_id (new_digest release) s) λ _ s.
            next (encode cp (updated_header header release), s)
              λ new_meta s. write_meta app_id new_meta s

    abbrev newest : UpdateFeed → Outcome (Option ReleaseInfo)
    newest feed = do
      release ← ok_or (latest_release feed) (other "feed has no release for version")
      ok (some release)

    -- The release that the feed offers; `none` if the app is up to date.
    unfoldable pub offered : Text → BundleHeader → UpdateFeed → Outcome (Option ReleaseInfo)
    offered app_id header feed = do
      ensure (text_eq feed.app_id app_id) (other "feed app_id doesn't match installed app")
      (if text_eq feed.latest header.app_version then ok none else newest feed)

    -- The header of the installed app and the release to go to, if there is one.
    unfoldable pub choose_release : Text → Store → Outcome (Option (BundleHeader × ReleaseInfo))
    unfolding offered
    choose_release app_id s = do
      meta ← ok_or (meta_of s app_id) (other "app is not installed")
      header ← parse cp meta
      elim header.update_url [
        | none ↦ ok none
        | some url ↦ do
          feed ← net.fetch_feed url
          release ← offered app_id header feed
          ok (elim release [ none ↦ none | some r ↦ some (header, r) ])
      ]

    unfoldable pub check_and_apply_updates : Text → Store → Outcome (Unit {0}) × Store
    unfolding next apply_release choose_release
    check_and_apply_updates app_id s =
        next (choose_release app_id s, s)
          λ choice s. elim choice [
            | none ↦ (ok tt, s)
            | some (header, release) ↦ apply_release app_id header release s
          ]

    -- The loop of `update --all`: an error is reported, and the next app is tried.
    unfoldable pub update_all : List Text → Store → Outcome (Unit {0}) × Store
    unfolding go_on
    update_all [] s = (ok tt, s)
    update_all (app_id ∷ apps) s = go_on (check_and_apply_updates app_id s) λ s. update_all apps s
