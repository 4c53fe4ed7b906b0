-- ===== src/Tests/Stores.antt =====
-- The store: installing, updating, collecting.
use nexpack.Prelude.{
  ◌≡◌, ◌≢◌, refl, true, false, not, ◌||◌, Option, none, some, List, [], ◌∷◌, ◌++◌, Text, codes,
  text_eq, Bytes, All, Outcome, ok, if◌then◌else◌,
}
use nexpack.Prelude.Dict
use nexpack.Prelude.Dict.{Dict}
use nexpack.Layer.{LayerRef}
use nexpack.Header.{message}
use nexpack.Header.RoundTrip.{stored}
use nexpack.Header.Wire.{Capnp}
use nexpack.Bundle.{Bundle}
use nexpack.Store.{
  App, Store, Disk, done, current_target, root_target, layer_name, reachable, contains, root_names,
  gc,
}
use nexpack.Store.Sound.{IsSound}
use nexpack.Store.Collect.{gc_goes_by_roots}
use nexpack.Store.Install.{install}
use nexpack.Store.Install.Installed.{Installed}
use nexpack.Store.Install.Desktop.{
  Home, find_bundle_path, desktop_path, desktop_content, install_command,
}
use nexpack.Store.Install.Desktop.Entered.{install_command-ok}
use nexpack.Commands.{remove_command, gc_command}
use nexpack.Commands.Leftovers.{gc_command-remove_command}
use nexpack.Update.{ReleaseInfo}
use nexpack.Tests.Fixtures.{codec_of, two_layers, toy_hex}

abbrev pub good_disk : Disk
good_disk = record {
  make_layer_dir = λ hex. true;
  write_image = λ hex. done;
  make_app_dir = λ id. true;
  write_meta = λ id. done;
  link_current = λ id. done;
  make_tmp_link = λ id. true;
  rename_tmp = λ id. true;
  make_roots_dir = true;
  link_root = λ name. done;
}

abbrev pub no_files : Store
no_files = record { layers = []; apps = []; gc_roots = [] }

pub no_files-IsSound : IsSound toy_hex no_files
unfolding Dict.lookup
no_files-IsSound name image at = absurd cc

abbrev pub small_bundle : Bundle
small_bundle = record { header = stored two_layers 0 3; contents = codes "hdrabc" }

abbrev pub codec : Capnp
codec = codec_of (message small_bundle.header)

abbrev pub desktop : Home
desktop = record {
  env = record {
    var = λ name. some (codes "/home/me");
    exists = λ path. false;
    is_alphanumeric = λ c. false;
  };
  make_dir = λ path. true;
  write_entry = λ path. done;
}

installs_whole :
    (install_command toy_hex good_disk desktop codec small_bundle no_files []).0 ≡ ok tt
unfolding install_command nexpack.Store.Install.Desktop.then_entry
    nexpack.Store.Install.Desktop.create_desktop_entry nexpack.Store.Install.Desktop.put_entry
    install nexpack.Store.Install.install_layers nexpack.Store.Install.install_layer
    nexpack.Store.has_layer Dict.lookup nexpack.Bundle.extract_layer nexpack.Bundle.cut_layer
    nexpack.Bundle.add_sizes nexpack.Bundle.layers_offset nexpack.Verify.verify_digest
    nexpack.Prelude.text_eq nexpack.Layer.digest_hex nexpack.Prelude.strip_prefix
    nexpack.Store.store_layer Dict.insert nexpack.Header.encode nexpack.Store.register_app
    nexpack.Store.add_gc_root nexpack.Bundle.checked_slice nexpack.Layer.strip_blake3
    nexpack.Store.Install.checked_layer nexpack.Store.Install.next nexpack.Store.link_app
    nexpack.Store.link_gc_root nexpack.Store.write_app nexpack.Store.write_layer
installs_whole = refl

abbrev after_install : Store × Dict Text
after_install = (install_command toy_hex good_disk desktop codec small_bundle no_files []).1

install_command-ok_example :
    IsSound toy_hex after_install.0
    × Installed toy_hex good_disk codec small_bundle after_install.0
    × (Dict.lookup (desktop_path desktop.env small_bundle.header.app_id) after_install.1
        ≡ some (desktop_content desktop.env small_bundle.header.app_id))
install_command-ok_example =
    install_command-ok toy_hex good_disk desktop codec small_bundle no_files [] no_files-IsSound
      installs_whole

-- A root that stays when its app is gone.
abbrev with_root : Store
with_root = record no_files { gc_roots = (codes "org.example.app", root_target (codes "c")) ∷ [] }

rooted : Dict.lookup (codes "org.example.app") with_root.gc_roots ≡ some (root_target (codes "c"))
unfolding Dict.lookup nexpack.Prelude.text_eq
rooted = refl

gc_command-remove_command_example :
    Dict.lookup
      (layer_name (codes "c"))
      (gc_command
        (λ name. true)
        (remove_command true (codes "org.example.app") with_root).1).1.layers
    ≡ Dict.lookup (layer_name (codes "c")) with_root.layers
gc_command-remove_command_example =
    gc_command-remove_command true (λ name. true) (codes "org.example.app")
      (codes "org.example.app") (codes "c") with_root rooted

-- A new_release with one layer, whose digest is long enough to be shown.
abbrev pub new_release : ReleaseInfo
new_release = record {
  version = codes "2.0";
  layers = record { digest = codes "blake3:0123456789abcdef"; url = codes "u"; size = 16 } ∷ [];
  signature_bundle = none;
}

abbrev pub download : Text → Outcome Bytes
download url = ok (codes "0123456789abcdef")

-- An installed app with two layers, of which the last is a root.
abbrev with_app : Store
with_app = record {
  layers =
      (layer_name (codes "ab"), some (codes "ab"))
      ∷ (layer_name (codes "c"), some (codes "c"))
      ∷ [];
  apps = (codes "app", record { meta = none; current = some (current_target (codes "c")) }) ∷ [];
  gc_roots = (codes "app", root_target (codes "c")) ∷ [];
}

-- The first layer of the installed app is collected.
gc_goes_by_roots_example :
    Dict.lookup (layer_name (codes "ab")) (gc (λ name. true) with_app).0.layers ≡ none
unfolding root_names contains text_eq
gc_goes_by_roots_example =
    gc_goes_by_roots (λ name. true) with_app (layer_name (codes "ab"))
      ((λ target e. (codes "c", cc)), tt) (λ e. cc) refl
