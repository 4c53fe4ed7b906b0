-- ===== src/Store/Install.antt =====
-- nxpk/src/commands/install.rs: `install`, up to the desktop entry and without its messages. Whether
-- a change on disk succeeds is the store's `Disk`.
pub mod Layers
pub mod Installed
pub mod Keeps
pub mod Desktop
use nexpack.Prelude.{
  ℕ, ◌+◌, Option, none, some, List, [], ◌∷◌, Text, Bytes, last?, map, Outcome, ok, err, panic,
  ◌>>=◌, ◌>>◌, if◌then◌else◌,
}
use nexpack.Layer.{LayerRef, digest_hex}
use nexpack.Header.{encode}
use nexpack.Header.Wire.{Capnp}
use nexpack.Bundle.{Bundle, extract_layer}
use nexpack.Verify.{verify_digest}
use nexpack.Store.{Store, Disk, has_layer, store_layer, register_app, add_gc_root}

-- `?` in code that changes the store: an error ends it, with the store as it is by then.
unfoldable pub next {ℓ κ} :
    {A : Type ℓ} {B : Type κ}
    → Outcome A × Store
    → (A → Store → Outcome B × Store)
    → Outcome B × Store
next (ok a, s) f = f a s
next (err e, s) f = (err e, s)
next (panic, s) f = (panic, s)

-- `layers.last().map(|l| l.digest_hex()).unwrap_or("")`
abbrev pub last_digest : List LayerRef → Text
last_digest layers = elim (last? layers) [ none ↦ [] | some layer ↦ digest_hex layer ]

module _ (blake3_hex : Bytes → Text) (disk : Disk) where
  -- Layer `i`, checked.
  unfoldable pub checked_layer : Bundle → ℕ → LayerRef → Outcome Bytes
  checked_layer b i layer = do
    piece ← extract_layer b i
    verify_digest blake3_hex piece (digest_hex layer)
    ok piece

  unfoldable pub install_layer : Bundle → ℕ → LayerRef → Store → Outcome (Unit {0}) × Store
  unfolding next checked_layer
  install_layer b i layer s =
      if has_layer s (digest_hex layer)
      then (ok tt, s)
      else next (checked_layer b i layer, s) λ piece s. store_layer disk piece (digest_hex layer) s

  -- The loop over the layers, from the index `i` on.
  unfoldable pub install_layers : Bundle → ℕ → List LayerRef → Store → Outcome (Unit {0}) × Store
  unfolding next
  install_layers b i [] s = (ok tt, s)
  install_layers b i (layer ∷ layers) s =
      next (install_layer b i layer s) λ _ s. install_layers b (i + 1) layers s

  unfoldable pub install : Capnp → Bundle → Store → Outcome (Unit {0}) × Store
  unfolding next
  install cp b s = next (install_layers b 0 b.header.layers s) λ _ s.
      next (encode cp b.header, s)
        λ meta s.
          next (register_app disk b.header.app_id (last_digest b.header.layers) meta s)
            λ _ s. add_gc_root disk b.header.app_id (last_digest b.header.layers) s
