-- ===== src/Header.antt =====
-- nexpack-core/src/header.rs: the bundle header, `encode` and `parse`. The Cap'n Proto library is
-- the parameter of `Header/Wire`.
pub mod Wire
pub mod Magic
pub mod RoundTrip
pub mod Calm
use nexpack.Prelude.{
  ℕ, ◌+◌, Option, none, some, List, [], ◌∷◌, ◌++◌, map, Text, Bytes, drop, length, Outcome, ok, err,
  invalid_format, ok_or, ◌>>=◌, ◌==◌, if◌then◌else◌,
}
use nexpack.Permission.{PermissionValue, bool, patterns, PermissionSet}
use nexpack.Layer.{LayerRef}
use Wire.{
  RawText, bad_pointer, bad_utf8, text, Read, bad, value, RawLayer, RawNetwork, bad_network,
  not_in_schema, raw_bool, bad_patterns, raw_patterns, RawPermissions, Message, Capnp,
}
use Magic.{magic, find_magic}

pub record BundleHeader : Type 0 where
  pub version : ℕ
  pub app_id : Text
  pub app_version : Text
  pub entrypoint : Text
  pub layers : List LayerRef
  pub permissions : PermissionSet
  pub signature : Option Bytes
  pub sbom : Option Bytes
  pub update_url : Option Text
  pub bootstrap_size : Option ℕ
  pub offset : ℕ
  pub encoded_len : ℕ

-- `get_x()`, with the error turned into `InvalidFormat`.
abbrev read {ℓ} : {A : Type ℓ} → Read A → Outcome A
read bad = err (invalid_format "Cap'n Proto")
read (value a) = ok a

-- `get_x()` and then `to_str()`.
abbrev read_text : RawText → Outcome Text
read_text (text t) = ok t
read_text bad_pointer = err (invalid_format "Cap'n Proto")
read_text bad_utf8 = err (invalid_format "Cap'n Proto")

-- `filter_map(|s| s.ok().and_then(|s| s.to_str().ok()))`: entries that cannot be read are dropped.
read_texts : List RawText → List Text
read_texts [] = []
read_texts (text t ∷ r) = t ∷ read_texts r
read_texts (bad_pointer ∷ r) = read_texts r
read_texts (bad_utf8 ∷ r) = read_texts r

read_layers : List RawLayer → Outcome (List LayerRef)
read_layers [] = ok []
read_layers (l ∷ r) = do
  digest ← read_text l.digest
  role ← read_text l.role
  rest ← read_layers r
  ok (record { digest = digest; size = l.size; role = role } ∷ rest)

read_network : RawNetwork → Outcome PermissionValue
unfolding read_texts
read_network bad_network = err (invalid_format "Cap'n Proto")
read_network not_in_schema = err (invalid_format "Cap'n Proto")
read_network (raw_bool b) = ok (bool b)
read_network bad_patterns = err (invalid_format "Cap'n Proto")
read_network (raw_patterns p) = ok (patterns (read_texts p))

read_permissions : RawPermissions → Outcome PermissionSet
unfolding read_network read_texts
read_permissions p = do
  network ← read_network p.network
  filesystem ← read p.filesystem
  devices ← read p.devices
  ipc ← read p.ipc
  display ← read_text p.display
  ok (record {
    network = network;
    filesystem = read_texts filesystem;
    devices = read_texts devices;
    ipc = read_texts ipc;
    display = display;
  })

-- `if x.is_empty() { None } else { Some(x) }`
unfoldable pub non_empty {ℓ} : {A : Type ℓ} → List A → Option (List A)
non_empty [] = none
non_empty (a ∷ l) = some (a ∷ l)

-- `get_update_url()` must succeed, but text that is not UTF-8 counts as empty.
abbrev read_url : RawText → Outcome (Option Text)
read_url (text t) = ok (non_empty t)
read_url bad_pointer = err (invalid_format "Cap'n Proto")
read_url bad_utf8 = ok none

-- From the message's root on.
read_header : Message → ℕ → ℕ → Outcome BundleHeader
read_header m offset encoded_len = do
  app_id ← read_text m.app_id
  app_version ← read_text m.app_version
  entrypoint ← read_text m.entrypoint
  raw_layers ← read m.layers
  layers ← read_layers raw_layers
  raw_permissions ← read m.permissions
  permissions ← read_permissions raw_permissions
  signature ← read m.signature
  sbom ← read m.sbom
  update_url ← read_url m.update_url
  ok (record {
    version = m.version;
    app_id = app_id;
    app_version = app_version;
    entrypoint = entrypoint;
    layers = layers;
    permissions = permissions;
    signature = non_empty signature;
    sbom = non_empty sbom;
    update_url = update_url;
    bootstrap_size = if m.bootstrap_size == 0 then none else some m.bootstrap_size;
    offset = offset;
    encoded_len = encoded_len;
  })

-- `unwrap_or` of an empty slice.
abbrev pub or_empty {ℓ} : {A : Type ℓ} → Option (List A) → List A
or_empty none = []
or_empty (some l) = l

abbrev pub or_zero : Option ℕ → ℕ
or_zero none = 0
or_zero (some n) = n

abbrev raw_layer : LayerRef → RawLayer
raw_layer l = record { digest = text l.digest; size = l.size; role = text l.role }

abbrev raw_network : PermissionValue → RawNetwork
raw_network (bool b) = raw_bool b
raw_network (patterns p) = raw_patterns (map text p)

abbrev raw_permissions : PermissionSet → RawPermissions
raw_permissions p = record {
  network = raw_network p.network;
  filesystem = value (map text p.filesystem);
  devices = value (map text p.devices);
  ipc = value (map text p.ipc);
  display = text p.display;
}

-- The message that `encode` builds. `offset` and `encoded_len` are not part of it.
unfoldable pub message : BundleHeader → Message
message h = record {
  version = h.version;
  app_id = text h.app_id;
  app_version = text h.app_version;
  entrypoint = text h.entrypoint;
  layers = value (map raw_layer h.layers);
  permissions = value (raw_permissions h.permissions);
  signature = value (or_empty h.signature);
  sbom = value (or_empty h.sbom);
  update_url = text (or_empty h.update_url);
  bootstrap_size = or_zero h.bootstrap_size;
}

module _ (cp : Capnp) where
  unfoldable pub encode : BundleHeader → Outcome Bytes
  unfolding message
  encode h = do
    body ← ok_or (cp.write_message (message h)) (invalid_format "Cap'n Proto encode")
    ok (magic ++ body)

  unfoldable pub parse : Bytes → Outcome BundleHeader
  unfolding find_magic read_header read_layers read_permissions non_empty
  parse input = do
    magic_pos ← ok_or (find_magic input) (invalid_format "NX02 magic not found")
    (root, position) ←
        ok_or (cp.read_message (drop (magic_pos + 4) input)) (invalid_format "Cap'n Proto parse")
    m ← read root
    read_header m magic_pos (4 + position)
