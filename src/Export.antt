-- ===== src/Export.antt =====
-- nxpk/src/commands/export.rs: `export_app`, up to the bytes of the file. The stub that is built into
-- the program is a parameter.
pub mod RoundTrip
use nexpack.Prelude.{
  Bool, true, false, Option, none, some, List, [], ◌∷◌, ◌++◌, Text, codes, last_part, Bytes,
  Outcome, ok, err, panic, other, ok_or, ◌>>=◌, ◌>>◌, if◌then◌else◌,
}
use nexpack.Prelude.Dict
use nexpack.Layer.{LayerRef, digest_hex}
use nexpack.Header.{BundleHeader, encode, parse}
use nexpack.Header.Wire.{Capnp}
use nexpack.Bundle.Layers.{concat}
use nexpack.Verify.{verify_digest}
use nexpack.Store.{Store, layer_name}
use nexpack.Update.{ends_at}
use nexpack.Update.Command.{meta_of}

abbrev pub image_in : Option (Option Bytes) → Option Bytes
image_in none = none
image_in (some image) = image

-- The image of a layer in the store.
abbrev pub image_of : Store → LayerRef → Option Bytes
image_of s layer = image_in (Dict.lookup (layer_name (digest_hex layer)) s.layers)

-- The message behind each layer shows the first 16 bytes of the digest.
abbrev pub shown : LayerRef → Outcome (Unit {0})
shown layer = if ends_at 16 (digest_hex layer) then ok tt else panic

-- The name of the file that is written.
unfoldable pub export_name : Text → Text
unfolding last_part
export_name app_id = last_part b'.' app_id ++ codes ".nxpk"

module _ (blake3_hex : Bytes → Text) where
  unfoldable pub export_layers : Store → List LayerRef → Outcome (List Bytes)
  export_layers s [] = ok []
  export_layers s (layer ∷ layers) = do
    image ← ok_or (image_of s layer) (other "layer not found in store")
    verify_digest blake3_hex image (digest_hex layer)
    shown layer
    images ← export_layers s layers
    ok (image ∷ images)

  module _ (cp : Capnp) (stub : Bytes) where
    unfoldable pub export_header : BundleHeader → Store → Outcome Bytes
    unfolding export_layers
    export_header header s = do
      header_bytes ← encode cp header
      images ← export_layers s header.layers
      ok (stub ++ (header_bytes ++ concat images))

    unfoldable pub export_app : Text → Store → Outcome Bytes
    unfolding export_header
    export_app app_id s = do
      meta ← ok_or (meta_of s app_id) (other "app is not installed")
      header ← parse cp meta
      export_header header s
