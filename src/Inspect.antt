-- ===== src/Inspect.antt =====
-- nxpk/src/commands/inspect.rs: what `inspect` tells of a bundle, as the values that are put into
-- the JSON object or into the lines of text. Reading the file and BLAKE3 are parameters.
pub mod Calm
use nexpack.Prelude.{
  ℕ, ◌+◌, Bool, true, false, Option, none, some, List, [], ◌∷◌, Text, codes, Bytes, take, Outcome,
  ok, ◌>>=◌, if◌then◌else◌,
}
use nexpack.Permission.{PermissionSet}
use nexpack.Layer.{LayerRef, digest_hex}
use nexpack.Header.Wire.{Capnp}
use nexpack.Bundle.{Bundle, parse_bundle, stub_digest}

pub record JsonReport : Type 0 where
  pub version : ℕ
  pub app_id : Text
  pub app_version : Text
  pub entrypoint : Text
  pub layers : List LayerRef
  pub permissions : PermissionSet
  pub has_signature : Bool
  pub has_sbom : Bool
  pub update_url : Option Text
  pub stub_digest : Text

pub record LayerLine : Type 0 where
  pub index : ℕ
  pub digest : Text
  pub size : ℕ
  pub role : Text

pub record TextReport : Type 0 where
  pub file : Text
  pub app_id : Text
  pub version : Text
  pub entrypoint : Text
  pub format_version : ℕ
  pub layers : List LayerLine
  pub permissions : PermissionSet
  pub signature : Text
  pub sbom : Text
  pub update_url : Text
  pub stub_hash : Text

pub data Report : Type 0 where
  json : JsonReport → Report
  text : TextReport → Report

abbrev pub is_some {ℓ} : {A : Type ℓ} → Option A → Bool
is_some none = false
is_some (some a) = true

abbrev pub or_none : Option Text → Text
or_none none = codes "none"
or_none (some t) = t

-- The loop over the layers, from the index `i` on; a digest is cut to 32 characters.
unfoldable pub layer_lines : ℕ → List LayerRef → List LayerLine
layer_lines i [] = []
layer_lines i (layer ∷ layers) =
    record { index = i; digest = take 32 (digest_hex layer); size = layer.size; role = layer.role }
    ∷ layer_lines (i + 1) layers

unfoldable pub json_report : Bundle → Text → JsonReport
json_report b stub = record {
  version = b.header.version;
  app_id = b.header.app_id;
  app_version = b.header.app_version;
  entrypoint = b.header.entrypoint;
  layers = b.header.layers;
  permissions = b.header.permissions;
  has_signature = is_some b.header.signature;
  has_sbom = is_some b.header.sbom;
  update_url = b.header.update_url;
  stub_digest = stub;
}

unfoldable pub text_report : Text → Bundle → Text → TextReport
unfolding layer_lines
text_report bundle_path b stub = record {
  file = bundle_path;
  app_id = b.header.app_id;
  version = b.header.app_version;
  entrypoint = b.header.entrypoint;
  format_version = b.header.version;
  layers = layer_lines 0 b.header.layers;
  permissions = b.header.permissions;
  signature = if is_some b.header.signature then codes "present" else codes "none";
  sbom = if is_some b.header.sbom then codes "present" else codes "none";
  update_url = or_none b.header.update_url;
  stub_hash = stub;
}

unfoldable pub inspect :
    Capnp → (Bytes → Text) → (Text → Outcome Bytes) → Text → Bool → Outcome Report
unfolding json_report text_report
inspect cp blake3_hex read_file bundle_path as_json = do
  contents ← read_file bundle_path
  b ← parse_bundle cp contents
  stub ← stub_digest blake3_hex b
  ok (if as_json then json (json_report b stub) else text (text_report bundle_path b stub))
