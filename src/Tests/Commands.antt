-- ===== src/Tests/Commands.antt =====
-- The commands: updating, editing permissions, exporting.
use nexpack.Prelude.{
  ◌<◌, ◌^◌, ◌≡◌, ◌≢◌, ◌⊎◌, refl, true, false, Option, none, some, List, [], ◌∷◌, ◌++◌, Text, codes,
  Bytes, All, Outcome, ok, length, arith,
}
use nexpack.Prelude.Dict
use nexpack.Layer.{LayerRef}
use nexpack.Header.{BundleHeader, message, encode, parse}
use nexpack.Header.RoundTrip.{stored}
use nexpack.Header.Wire.{Capnp}
use nexpack.Header.Magic.{find_magic}
use nexpack.Verify.{verify_layers}
use nexpack.Store.{Store, layer_name}
use nexpack.Store.Sound.{IsSound}
use nexpack.Store.Keeps.{IsAtomic}
use nexpack.Update.Background.{find_update, background_update}
use nexpack.Update.Background.Unchecked.{background_update_unchecked}
use nexpack.Update.{missing_layers, shown, hex_of, LayerInfo, ReleaseInfo, UpdateFeed}
use nexpack.Update.Command.{Network, choose_release, check_and_apply_updates}
use nexpack.Update.Command.Applied.{IsApplied, check_and_apply_updates-ok}
use nexpack.Tests.Fixtures.{codec_of, two_layers, toy_hex}
use nexpack.Tests.Stores.{good_disk, new_release, download}

pub good_disk-IsAtomic : IsAtomic good_disk
good_disk-IsAtomic hex left e = absurd cc

-- An installed app with a feed, which offers a newer release.
abbrev updatable : BundleHeader
updatable = record two_layers { update_url = some (codes "feed") }

abbrev updatable_codec : Capnp
updatable_codec = codec_of (message updatable)

abbrev with_updatable : Store
with_updatable = record {
  layers = [];
  apps = (codes "org.example.app", record { meta = some (codes "NX02m"); current = none }) ∷ [];
  gc_roots = [];
}

with_updatable-IsSound : IsSound toy_hex with_updatable
unfolding Dict.lookup
with_updatable-IsSound name image at = absurd cc

abbrev pub feed : UpdateFeed
feed = record {
  app_id = codes "org.example.app";
  latest = codes "2.0";
  releases = new_release ∷ [];
}

abbrev pub network : Network
network = record { fetch_feed = λ url. ok feed; download_layer = download }

updates :
    (check_and_apply_updates good_disk toy_hex updatable_codec network
      (codes "org.example.app")
      with_updatable).0
    ≡ ok tt
unfolding check_and_apply_updates choose_release nexpack.Update.Command.offered
    nexpack.Update.Command.apply_release nexpack.Update.Command.switch_current
    nexpack.Update.Command.replace_current nexpack.Update.Command.write_meta
    nexpack.Update.Command.write_effect nexpack.Update.fetch_missing nexpack.Store.has_layer
    nexpack.Store.Install.next nexpack.Update.update_layer nexpack.Update.ends_at
    nexpack.Layer.strip_blake3 nexpack.Prelude.strip_prefix nexpack.Prelude.utf8
    nexpack.Verify.verify_digest nexpack.Prelude.text_eq nexpack.Store.store_layer
    nexpack.Store.write_layer nexpack.Store.add_gc_root nexpack.Store.link_gc_root
    nexpack.Header.encode nexpack.Header.parse nexpack.Update.latest_release
    nexpack.Update.missing_layers nexpack.Update.updated_header Dict.lookup Dict.insert find_magic
updates = refl

check_and_apply_updates-ok_example :
    (found : Option (BundleHeader × ReleaseInfo)) × (choose_release good_disk toy_hex
        updatable_codec network
        (codes "org.example.app")
        with_updatable
      ≡ ok found)
    × IsApplied good_disk toy_hex updatable_codec network
        (codes "org.example.app")
        found
        with_updatable
        (check_and_apply_updates good_disk toy_hex updatable_codec network
          (codes "org.example.app")
          with_updatable).1
check_and_apply_updates-ok_example =
    check_and_apply_updates-ok good_disk toy_hex updatable_codec network (codes "org.example.app")
      with_updatable with_updatable-IsSound updates

-- The network delivers something else, and the checker stores it all the same.
abbrev false_network : Network
false_network = record { fetch_feed = λ url. ok feed; download_layer = λ url. ok (codes "evil") }

abbrev new_layer : LayerInfo
new_layer = record { digest = codes "blake3:0123456789abcdef"; url = codes "u"; size = 16 }

abbrev parsed_header : BundleHeader
parsed_header = stored updatable 0 5

finds_update :
    find_update good_disk updatable_codec false_network (codes "org.example.app") with_updatable
    ≡ ok (some (parsed_header, new_release))
unfolding find_update nexpack.Header.parse find_magic nexpack.Update.latest_release
    nexpack.Prelude.text_eq Dict.lookup message
finds_update = refl

misses_it : missing_layers new_release with_updatable ≡ [] ++ (new_layer ∷ [])
unfolding missing_layers nexpack.Store.has_layer Dict.lookup
misses_it = refl

shows_it : shown new_layer ≡ ok tt
unfolding nexpack.Update.ends_at nexpack.Layer.strip_blake3 nexpack.Prelude.strip_prefix
    nexpack.Prelude.utf8
shows_it = refl

is_other : codes "evil" ≢ hex_of new_layer
unfolding nexpack.Layer.strip_blake3 nexpack.Prelude.strip_prefix
is_other e = absurd cc

background_update_unchecked_example :
    (Dict.lookup
        (layer_name (hex_of new_layer))
        (background_update good_disk updatable_codec false_network
          (codes "org.example.app")
          with_updatable).1.layers
      ≡ some (some (codes "evil")))
    × (¬ IsSound toy_hex
        (background_update good_disk updatable_codec false_network
          (codes "org.example.app")
          with_updatable).1)
background_update_unchecked_example =
    background_update_unchecked good_disk updatable_codec false_network toy_hex
      (codes "org.example.app") parsed_header new_release [] new_layer (codes "evil") with_updatable
      finds_update misses_it tt shows_it refl refl refl is_other
