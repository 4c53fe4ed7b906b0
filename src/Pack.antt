-- ===== src/Pack.antt =====
-- nxpk/src/commands/pack.rs: `pack`, from the parsed specification to the bytes of the bundle. What
-- the system and other programs do (looking for a path, `mkfs.erofs`, reading a file) is `Tools`; the
-- SBOM is an argument.
pub mod Layers
pub mod RoundTrip
pub mod Command
use nexpack.Prelude.{
  ℕ, Bool, true, false, Option, none, some, List, [], ◌∷◌, ◌++◌, Text, codes, Bytes, length,
  Outcome, ok, err, other, ok_or, ensure, ◌>>=◌, ◌>>◌,
}
use nexpack.Permission.{PermissionValue, bool, patterns, PermissionSet, default_sandboxed}
use nexpack.Layer.{LayerRef, blake3_prefix}
use nexpack.Header.{BundleHeader, encode, parse}
use nexpack.Header.Wire.{Capnp}
use nexpack.Bundle.Bootstrap.{BootstrapEntry, make_bootstrap_data}
use nexpack.Bundle.Trailer.{make_bootstrap_trailer}
use nexpack.Bundle.Layers.{concat}

-- `serde_json::Value`, as far as the network setting looks at it: of an element of an array only
-- whether it is a string matters.
pub data Value : Type 0 where
  bool_value : Bool → Value
  array : List (Option Text) → Value
  other_value : Value

pub record PackPermissions : Type 0 where
  pub network : Option Value
  pub filesystem : Option (List Text)
  pub devices : Option (List Text)
  pub ipc : Option (List Text)
  pub display : Option Text

pub record PackLayer : Type 0 where
  pub role : Text
  pub source : Text

pub record PackBootstrap : Type 0 where
  pub nexpackd : Option Text
  pub nxpk : Option Text

pub record PackSpec : Type 0 where
  pub id : Text
  pub version : Text
  pub entrypoint : Text
  pub permissions : Option PackPermissions
  pub layer : List PackLayer
  pub bootstrap : Option PackBootstrap

-- The paths are relative to the specification's folder.
pub record Tools : Type 0 where
  pub exists : Text → Bool
  pub build_erofs : Text → Outcome Bytes
  pub read_file : Text → Outcome Bytes
  -- the hex form of the BLAKE3 hash
  pub blake3_hex : Bytes → Text

-- `filter_map(|v| v.as_str().map(String::from))`
unfoldable pub strings : List (Option Text) → List Text
strings [] = []
strings (some t ∷ r) = t ∷ strings r
strings (none ∷ r) = strings r

abbrev network_value : Option Value → PermissionValue
network_value none = bool false
network_value (some (bool_value b)) = bool b
network_value (some (array a)) = patterns (strings a)
network_value (some other_value) = bool false

-- `unwrap_or`
abbrev pub or_else {ℓ} : {A : Type ℓ} → Option A → A → A
or_else none d = d
or_else (some a) d = a

unfoldable pub spec_to_permissions : Option PackPermissions → PermissionSet
unfolding default_sandboxed strings
spec_to_permissions none = default_sandboxed
spec_to_permissions (some spec) = record {
  network = network_value spec.network;
  filesystem = or_else spec.filesystem [];
  devices = or_else spec.devices [];
  ipc = or_else spec.ipc (codes "wayland" ∷ codes "dbus-session" ∷ []);
  display = or_else spec.display (codes "wayland");
}

module _ (tools : Tools) where
  unfoldable pub layer_ref : Text → Bytes → LayerRef
  layer_ref role erofs_data = record {
    digest = blake3_prefix ++ tools.blake3_hex erofs_data;
    size = length erofs_data;
    role = role;
  }

  -- The loop over the layers: `layers` and `layer_data`.
  unfoldable pub build_layers : List PackLayer → Outcome (List LayerRef × List Bytes)
  unfolding layer_ref
  build_layers [] = ok ([], [])
  build_layers (spec ∷ rest) = do
    ensure (tools.exists spec.source) (other "layer source not found")
    erofs_data ← tools.build_erofs spec.source
    (layers, layer_data) ← build_layers rest
    ok (layer_ref spec.role erofs_data ∷ layers, erofs_data ∷ layer_data)

  -- One of the two binaries of the bootstrap.
  abbrev bootstrap_entry : Text → Option Text → Outcome (List BootstrapEntry)
  bootstrap_entry name none = ok []
  bootstrap_entry name (some path) = do
    binary ← tools.read_file path
    ok (record { name = name; binary = binary } ∷ [])

  unfoldable pub bootstrap_entries : PackBootstrap → Outcome (List BootstrapEntry)
  bootstrap_entries spec = do
    daemon ← bootstrap_entry (codes "nexpackd") spec.nexpackd
    cli ← bootstrap_entry (codes "nxpk") spec.nxpk
    ok (daemon ++ cli)

  -- `if entries.is_empty() { return Ok(None) }`
  abbrev pub block_of : List BootstrapEntry → Option Bytes
  block_of [] = none
  block_of (e ∷ entries) = some (make_bootstrap_data (e ∷ entries))

  unfoldable pub build_bootstrap_data : PackSpec → Outcome (Option Bytes)
  build_bootstrap_data spec = elim spec.bootstrap [
    | none ↦ ok none
    | some b ↦ do entries ← bootstrap_entries b; ok (block_of entries)
  ]

  unfoldable pub pack_header : PackSpec → List LayerRef → Bytes → Option Bytes → BundleHeader
  unfolding spec_to_permissions
  pack_header spec layers sbom bootstrap = record {
    version = 1;
    app_id = spec.id;
    app_version = spec.version;
    entrypoint = spec.entrypoint;
    layers = layers;
    permissions = spec_to_permissions spec.permissions;
    signature = none;
    sbom = some sbom;
    update_url = none;
    bootstrap_size = elim bootstrap [ none ↦ none | some d ↦ some (length d) ];
    offset = 0;
    encoded_len = 0;
  }

  -- What is written behind the layers; `boot_offset` is the length of the file so far.
  unfoldable pub bootstrap_part : ℕ → Option Bytes → Bytes
  bootstrap_part boot_offset none = []
  bootstrap_part boot_offset (some boot) = boot ++ make_bootstrap_trailer boot_offset (length boot)

  -- `write_all` of the parts, one after the other.
  unfoldable pub write_bundle : Bytes → Bytes → List Bytes → Option Bytes → Bytes
  write_bundle stub_data header_bytes layer_data bootstrap =
      stub_data
      ++ (header_bytes
          ++ (concat layer_data
              ++ bootstrap_part (length (stub_data ++ (header_bytes ++ concat layer_data)))
                  bootstrap))

  abbrev non_empty : List LayerRef → Bool
  non_empty [] = false
  non_empty (l ∷ ls) = true

  -- The bundle that is written. At the end it is parsed once more, to report on it.
  unfoldable pub pack : Capnp → Bytes → PackSpec → Outcome Bytes → Outcome Bytes
  pack cp stub_data spec sbom = do
    (layers, layer_data) ← build_layers spec.layer
    ensure (non_empty layers) (other "at least one layer is required")
    sbom_data ← sbom
    bootstrap ← build_bootstrap_data spec
    header_bytes ← encode cp (pack_header spec layers sbom_data bootstrap)
    let file = write_bundle stub_data header_bytes layer_data bootstrap
    parse cp file
    ok file
