-- ===== src/Tests/Fixtures.antt =====
-- Data that several tests use: a codec for one message, a small header, permissions.
use nexpack.Prelude.{◌≡◌, refl, false, none, some, List, [], ◌∷◌, Text, codes, Bytes}
use nexpack.Permission.{bool, PermissionSet}
use nexpack.Layer.{LayerRef}
use nexpack.Header.{BundleHeader}
use nexpack.Header.Wire.{value, Message, Capnp, IsCodec}

-- Every message is written as one byte, and read as `m`.
abbrev pub codec_of : Message → Capnp
codec_of m = record { write_message = λ _. some (7 ∷ []); read_message = λ _. some (value m, 1) }

pub codec_of-IsCodec : (m : Message) → IsCodec (codec_of m) (λ n. n ≡ m)
codec_of-IsCodec m = record {
  read-write =
      λ n bytes rest fits e. let one_byte : 7 ∷ [] ≡ bytes = cc in rw (fits, ← one_byte) refl;
}

abbrev pub sealed : PermissionSet
sealed = record {
  network = bool false;
  filesystem = codes "/data" ∷ [];
  devices = codes "dri" ∷ [];
  ipc = [];
  display = codes "none";
}

-- Two layers of two bytes and of one. The toy hash of some bytes is the bytes themselves.
abbrev pub first_layer : LayerRef
first_layer = record { digest = codes "blake3:ab"; size = 2; role = codes "base" }

abbrev pub second_layer : LayerRef
second_layer = record { digest = codes "blake3:c"; size = 1; role = codes "app" }

abbrev pub two_layers : BundleHeader
two_layers = record {
  version = 1;
  app_id = codes "org.example.app";
  app_version = codes "1.0";
  entrypoint = codes "/bin/app";
  layers = first_layer ∷ second_layer ∷ [];
  permissions = sealed;
  signature = none;
  sbom = some (codes "{}");
  update_url = none;
  bootstrap_size = some 3;
  offset = 0;
  encoded_len = 0;
}

abbrev pub two_pieces : List Bytes
two_pieces = codes "ab" ∷ codes "c" ∷ []

abbrev pub toy_hex : Bytes → Text
toy_hex bytes = bytes
