-- ===== src/Update.antt =====
-- nexpack-core/src/update.rs, and nxpk/src/commands/update.rs: what `check_and_apply_updates` does
-- with a feed. The feed and the layers' data come from the network: they are arguments.
pub mod Applied
pub mod Command
pub mod Background
use nexpack.Prelude.{
  ℕ, ◌-◌, Bool, true, false, not, Option, none, some, List, [], ◌∷◌, Text, Bytes, text_eq, utf8,
  last?, length, map, ltb, ◌==◌, Outcome, ok, err, panic, other, ensure, ok_or, ◌>>=◌, ◌>>◌,
  if◌then◌else◌,
}
use nexpack.Layer.{LayerRef, strip_blake3}
use nexpack.Header.{BundleHeader, encode}
use nexpack.Header.Wire.{Capnp}
use nexpack.Verify.{verify_digest}
use nexpack.Store.{Store, Disk, has_layer, store_layer}
use nexpack.Store.Install.{next}

pub record LayerInfo : Type 0 where
  pub digest : Text
  pub url : Text
  pub size : ℕ

pub record ReleaseInfo : Type 0 where
  pub version : Text
  pub layers : List LayerInfo
  pub signature_bundle : Option Text

pub record UpdateFeed : Type 0 where
  pub app_id : Text
  pub latest : Text
  pub releases : List ReleaseInfo

unfoldable pub find_version : Text → List ReleaseInfo → Option ReleaseInfo
find_version version [] = none
find_version version (r ∷ releases) =
    if text_eq r.version version then some r else find_version version releases

unfoldable pub find_release : UpdateFeed → Text → Option ReleaseInfo
unfolding find_version
find_release feed version = find_version version feed.releases

unfoldable pub latest_release : UpdateFeed → Option ReleaseInfo
unfolding find_release
latest_release feed = find_release feed feed.latest

abbrev pub hex_of : LayerInfo → Text
hex_of layer = strip_blake3 layer.digest

unfoldable pub keep_missing : Store → List LayerInfo → List LayerInfo
keep_missing s [] = []
keep_missing s (layer ∷ layers) =
    let rest = keep_missing s layers in if has_layer s (hex_of layer) then rest else layer ∷ rest

unfoldable pub missing_layers : ReleaseInfo → Store → List LayerInfo
unfolding keep_missing
missing_layers release s = keep_missing s release.layers

-- `&text[..n]` needs a character to end at byte `n`.
unfoldable pub ends_at : ℕ → Text → Bool
ends_at n [] = n == 0
ends_at n (c ∷ t) =
    let width = length (utf8 (c ∷ [])) in
    let rest = ends_at (n - width) t in if n == 0 then true else if ltb n width then false else rest

-- The message before the download shows the first 16 bytes of the digest.
abbrev pub shown : LayerInfo → Outcome (Unit {0})
shown layer = if ends_at 16 (hex_of layer) then ok tt else panic

-- The layer of the new header.
abbrev pub layer_ref : LayerInfo → LayerRef
layer_ref l = record { digest = l.digest; size = l.size; role = [] }

-- `new_header`: the installed header with the release's version and layers.
unfoldable pub updated_header : BundleHeader → ReleaseInfo → BundleHeader
updated_header h release = record h {
  app_version = release.version;
  layers = map layer_ref release.layers;
}

-- `download` is `download_layer`, by the URL.
module _ (blake3_hex : Bytes → Text) (disk : Disk) (download : Text → Outcome Bytes) where
  unfoldable pub fetch_layer : LayerInfo → Outcome Bytes
  fetch_layer layer = do
    shown layer
    piece ← download layer.url
    ensure (length piece == layer.size) (other "size mismatch")
    verify_digest blake3_hex piece (hex_of layer)
    ok piece

  unfoldable pub update_layer : LayerInfo → Store → Outcome (Unit {0}) × Store
  unfolding fetch_layer
  update_layer layer s =
      next (fetch_layer layer, s) λ piece s. store_layer disk piece (hex_of layer) s

  unfoldable pub update_layers : List LayerInfo → Store → Outcome (Unit {0}) × Store
  update_layers [] s = (ok tt, s)
  update_layers (layer ∷ layers) s = next (update_layer layer s) λ _ s. update_layers layers s

  -- The layers that the release needs and the store does not have.
  unfoldable pub fetch_missing : ReleaseInfo → Store → Outcome (Unit {0}) × Store
  unfolding missing_layers update_layers
  fetch_missing release s = update_layers (missing_layers release s) s
