-- ===== src/Update/Background.antt =====
-- nexpackd/src/main.rs: `background_update_checker`, what it does for one app and in one round. It
-- goes on after every error; a panic ends its thread.
pub mod Unchecked
pub mod Honest
use nexpack.Prelude.{
  ◌&&◌, not, Option, none, some, List, [], ◌∷◌, Text, Bytes, text_eq, Outcome, ok, err, panic,
  other, ok_or, ◌>>=◌, if◌then◌else◌,
}
use nexpack.Header.{BundleHeader, encode, parse}
use nexpack.Header.Wire.{Capnp}
use nexpack.Store.{Store, Disk, has_layer, store_layer, add_gc_root}
use nexpack.Store.Install.{next}
use nexpack.Update.{
  LayerInfo, ReleaseInfo, UpdateFeed, latest_release, missing_layers, hex_of, shown, updated_header,
}
use nexpack.Update.Command.{
  Network, meta_of, new_digest, is_empty, replace_current, write_meta, go_on,
}

module _ (disk : Disk) where
  -- `download_layer` stands for the same calls here: a response of status 200, read to its end.
  unfoldable pub store_download : Outcome Bytes → LayerInfo → Store → Outcome (Unit {0}) × Store
  store_download (ok piece) layer s = (ok tt, (store_layer disk piece (hex_of layer) s).1)
  store_download (err e) layer s = (ok tt, s)
  store_download panic layer s = (panic, s)

  -- The errors of the link and of the root are ignored.
  unfoldable pub adopt_layer : Text → Text → Store → Store
  adopt_layer app_id digest s =
      if not (is_empty digest) && has_layer s digest
      then (add_gc_root disk app_id digest (replace_current disk app_id digest s).1).1
      else s

  unfoldable pub adopt_header : Text → Outcome Bytes → Store → Outcome (Unit {0}) × Store
  adopt_header app_id (ok new_meta) s = (ok tt, (write_meta disk app_id new_meta s).1)
  adopt_header app_id (err e) s = (ok tt, s)
  adopt_header app_id panic s = (panic, s)

  module _ (cp : Capnp) (net : Network) where
    unfoldable pub prefetch_layer : LayerInfo → Store → Outcome (Unit {0}) × Store
    unfolding next store_download
    prefetch_layer layer s =
        next (shown layer, s) λ _ s. store_download (net.download_layer layer.url) layer s

    unfoldable pub prefetch_layers : List LayerInfo → Store → Outcome (Unit {0}) × Store
    unfolding next prefetch_layer
    prefetch_layers [] s = (ok tt, s)
    prefetch_layers (layer ∷ layers) s =
        next (prefetch_layer layer s) λ _ s. prefetch_layers layers s

    -- What the checker goes through before it changes anything: each error means `continue`.
    unfoldable pub find_update : Text → Store → Outcome (Option (BundleHeader × ReleaseInfo))
    find_update app_id s = do
      meta ← ok_or (meta_of s app_id) (other "no meta")
      header ← parse cp meta
      url ← ok_or header.update_url (other "no update url")
      feed ← net.fetch_feed url
      (if text_eq feed.latest header.app_version
          then ok none
          else elim (latest_release feed) [ none ↦ ok none | some r ↦ ok (some (header, r)) ])

    unfoldable pub prefetch_release :
        Text → BundleHeader → ReleaseInfo → Store → Outcome (Unit {0}) × Store
    unfolding next prefetch_layers adopt_layer adopt_header
    prefetch_release app_id header release s =
        next (prefetch_layers (missing_layers release s) s) λ _ s.
          adopt_header app_id (encode cp (updated_header header release))
            (adopt_layer app_id (new_digest release) s)

    unfoldable pub update_found :
        Text → Outcome (Option (BundleHeader × ReleaseInfo)) → Store → Outcome (Unit {0}) × Store
    unfolding prefetch_release
    update_found app_id (ok none) s = (ok tt, s)
    update_found app_id (ok (some (header, release))) s = prefetch_release app_id header release s
    update_found app_id (err e) s = (ok tt, s)
    update_found app_id panic s = (panic, s)

    unfoldable pub background_update : Text → Store → Outcome (Unit {0}) × Store
    unfolding update_found find_update
    background_update app_id s = update_found app_id (find_update app_id s) s

    -- The apps of one round.
    unfoldable pub background_round : List Text → Store → Outcome (Unit {0}) × Store
    unfolding next background_update
    background_round [] s = (ok tt, s)
    background_round (app_id ∷ apps) s =
        next (background_update app_id s) λ _ s. background_round apps s
