-- ===== src/Tests/Permissions.antt =====
-- The menu of permissions, and exporting.
use nexpack.Prelude.{
  ◌<◌, ◌^◌, ◌≡◌, refl, ap, true, false, Option, none, some, List, [], ◌∷◌, ◌++◌, Text, codes, Bytes,
  All, Outcome, ok, length, arith,
}
use nexpack.Prelude.Dict
use nexpack.Layer.{LayerRef}
use nexpack.Permission.{PermissionSet, bool}
use nexpack.Header.{BundleHeader, message, encode, parse}
use nexpack.Header.RoundTrip.{stored}
use nexpack.Header.Wire.{Capnp}
use nexpack.Header.Magic.{find_magic}
use nexpack.Bundle.{parse_bundle}
use nexpack.Bundle.Written.{written}
use nexpack.Verify.{verify_layers}
use nexpack.Store.{Store, layer_name}
use nexpack.Commands.Permissions.{edit_loop, permissions}
use nexpack.Commands.Permissions.Sessions.{
  Edit, set_network, set_filesystem, mistake, choice, apply_edits, session,
}
use nexpack.Commands.Permissions.Endings.{edit_loop_unsaved, edit_loop_enough}
use nexpack.Commands.Permissions.Saved.{IsSaved, permissions-IsSaved}
use nexpack.Export.{export_app}
use nexpack.Export.RoundTrip.{IsSized, export_app-roundtrip}
use nexpack.Tests.Fixtures.{codec_of, codec_of-IsCodec, two_layers, sealed, toy_hex}
use nexpack.Tests.Stores.{good_disk}

-- The network is switched on after a slip of the finger, and two paths are entered.
abbrev edits : List Edit
edits =
    mistake (codes "x")
    ∷ set_network (codes "true")
    ∷ set_filesystem (codes "/a" ∷ codes " /b" ∷ [])
    ∷ []

abbrev granted : PermissionSet
granted = record sealed { network = bool true; filesystem = codes "/a" ∷ codes "/b" ∷ [] }

abbrev before_edit : BundleHeader
before_edit = stored (record two_layers { permissions = granted }) 0 5

abbrev edit_codec : Capnp
edit_codec = codec_of (message before_edit)

abbrev with_header : Option Bytes → Store
with_header meta = record {
  layers = [];
  apps = (codes "app", record { meta = meta; current = none }) ∷ [];
  gc_roots = [];
}

abbrev read_before : Store
read_before = with_header (some (codes "NX02m"))

abbrev saved_after : Store
saved_after = with_header (some (codes "NX02" ++ (7 ∷ [])))

edited : apply_edits edits granted ≡ granted
unfolding apply_edits nexpack.Commands.Permissions.Sessions.apply_edit
    nexpack.Commands.Permissions.trim nexpack.Commands.Permissions.trim_start
    nexpack.Commands.Permissions.trim_end nexpack.Commands.Permissions.is_whitespace
    nexpack.Commands.Permissions.network_value nexpack.Prelude.text_eq
edited = refl

permissions-IsSaved_example :
    (s' : Store) × (permissions edit_codec good_disk true true 4
        (session edits ++ [])
        (codes "app")
        read_before
      ≡ some (ok tt, s'))
    × IsSaved edit_codec
        (codec_of-IsCodec (message before_edit))
        (codes "app")
        before_edit
        (apply_edits edits granted)
        read_before
        s'
unfolding apply_edits nexpack.Commands.Permissions.Sessions.apply_edit
    nexpack.Commands.Permissions.Sessions.session nexpack.Commands.Permissions.Sessions.lines_of
    nexpack.Commands.Permissions.Sessions.is_choice nexpack.Commands.Permissions.trim
    nexpack.Commands.Permissions.trim_start nexpack.Commands.Permissions.trim_end
    nexpack.Commands.Permissions.is_whitespace nexpack.Commands.Permissions.network_value
    nexpack.Prelude.text_eq nexpack.Commands.Permissions.edit_loop
    nexpack.Commands.Permissions.edit_round nexpack.Commands.Permissions.choose_read
    nexpack.Commands.Permissions.save_edited nexpack.Commands.Permissions.choose
    nexpack.Commands.Permissions.read_list nexpack.Commands.Permissions.edit_permissions
    nexpack.Commands.Permissions.edit_if nexpack.Commands.Permissions.save_permissions permissions
    nexpack.Header.parse nexpack.Header.encode find_magic Dict.lookup Dict.insert
    nexpack.Store.Install.next nexpack.Update.Command.write_meta nexpack.Update.Command.write_effect
permissions-IsSaved_example =
    permissions-IsSaved edit_codec (codec_of-IsCodec (message before_edit)) good_disk true
      (codes "app") before_edit edits [] read_before (codes "NX02" ++ (7 ∷ [])) refl
      (refl, (tt, ((refl, (refl, tt)), tt))) refl refl refl

edit_loop_unsaved_example : edit_loop false 100 (choice b'1' ∷ choice b'x' ∷ []) sealed ≡ none
unfolding nexpack.Commands.Permissions.trim nexpack.Commands.Permissions.trim_start
    nexpack.Commands.Permissions.trim_end nexpack.Commands.Permissions.is_whitespace
    nexpack.Prelude.text_eq
edit_loop_unsaved_example =
    edit_loop_unsaved 100 (choice b'1' ∷ choice b'x' ∷ []) sealed (refl, (refl, tt))

two_lines : length (choice b'x' ∷ choice b'6' ∷ []) < 9
two_lines = omega arith

edit_loop_enough_example :
    edit_loop true 9 (choice b'x' ∷ choice b'6' ∷ []) sealed ≡ some (ok (sealed, []))
unfolding edit_loop nexpack.Commands.Permissions.edit_round nexpack.Commands.Permissions.choose_read
    nexpack.Commands.Permissions.save_edited nexpack.Commands.Permissions.choose
    nexpack.Commands.Permissions.trim nexpack.Commands.Permissions.trim_start
    nexpack.Commands.Permissions.trim_end nexpack.Commands.Permissions.is_whitespace
    nexpack.Prelude.text_eq
edit_loop_enough_example =
    edit_loop_enough true 2 (choice b'x' ∷ choice b'6' ∷ []) sealed (ok (sealed, [])) 9 two_lines
      refl

-- An app with one layer, whose digest is long enough to be shown.
abbrev one_layer : BundleHeader
one_layer =
    stored
      (record two_layers {
        layers =
            record { digest = codes "blake3:0123456789abcdef"; size = 16; role = codes "app" } ∷ [];
      })
      0 5

abbrev export_codec : Capnp
export_codec = codec_of (message one_layer)

abbrev exportable : Store
exportable = record {
  layers = (layer_name (codes "0123456789abcdef"), some (codes "0123456789abcdef")) ∷ [];
  apps = (codes "app", record { meta = some (codes "NX02m"); current = none }) ∷ [];
  gc_roots = [];
}

abbrev exported : Bytes
exported = codes "stub" ++ ((codes "NX02" ++ (7 ∷ [])) ++ codes "0123456789abcdef")

abbrev only_layer : LayerRef
only_layer = record { digest = codes "blake3:0123456789abcdef"; size = 16; role = codes "app" }

sixteen_bytes : IsSized exportable only_layer
unfolding Dict.lookup nexpack.Layer.digest_hex nexpack.Layer.strip_blake3
    nexpack.Prelude.strip_prefix nexpack.Prelude.text_eq
sixteen_bytes image at = let e : codes "0123456789abcdef" ≡ image = cc in ap length e

export_app-roundtrip_example :
    (bytes : Bytes) × (images : List Bytes) × (encode export_codec one_layer ≡ ok bytes)
    × (parse_bundle export_codec exported ≡ ok (written one_layer (codes "stub") bytes images []))
    × (verify_layers toy_hex (written one_layer (codes "stub") bytes images []) ≡ ok tt)
unfolding export_app nexpack.Export.export_header nexpack.Export.export_layers Dict.lookup
    find_magic parse nexpack.Layer.digest_hex nexpack.Layer.strip_blake3
    nexpack.Prelude.strip_prefix nexpack.Prelude.text_eq nexpack.Verify.verify_digest
    nexpack.Update.ends_at nexpack.Prelude.utf8 encode
export_app-roundtrip_example =
    export_app-roundtrip toy_hex export_codec (codec_of-IsCodec (message one_layer)) (codes "stub")
      exported (codes "app") exportable (codes "NX02m") one_layer refl refl (sixteen_bytes, tt) refl
      refl (omega arith) refl
