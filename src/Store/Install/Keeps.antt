-- ===== src/Store/Install/Keeps.antt =====
-- `install` keeps the store sound, also when it fails half way.
use nexpack.Prelude.{ℕ, ◌+◌, Bool-cases, inl, inr, List, [], ◌∷◌, Bytes, Text}
use nexpack.Layer.{LayerRef, digest_hex}
use nexpack.Header.{encode}
use nexpack.Header.Wire.{Capnp}
use nexpack.Bundle.{Bundle}
use nexpack.Store.{Store, Disk, has_layer, store_layer, register_app, add_gc_root}
use nexpack.Store.Links.{register_app-layers, add_gc_root-layers}
use nexpack.Store.Sound.{IsSound}
use nexpack.Store.Keeps.{IsAtomic, next_keeps, IsSound-same, store_layer_keeps}
use nexpack.Store.Install.{next, checked_layer, install_layer, install_layers, last_digest, install}
use nexpack.Store.Install.Layers.{checked_layer-ok}

module _ (blake3_hex : Bytes → Text) (disk : Disk) (atomic : IsAtomic disk) where
  install_layer_keeps :
      (b : Bundle) (i : ℕ) (layer : LayerRef) (s : Store)
      → IsSound blake3_hex s
      → IsSound blake3_hex (install_layer blake3_hex disk b i layer s).1
  unfolding install_layer
  install_layer_keeps b i layer s sound = elim (Bool-cases (has_layer s (digest_hex layer))) [
    | inl there ↦ rw there sound
    | inr absent ↦ rw absent (
        next_keeps (IsSound blake3_hex) (checked_layer blake3_hex disk b i layer, s)
          (λ piece s. store_layer disk piece (digest_hex layer) s) sound
          λ piece checked.
            store_layer_keeps blake3_hex disk atomic piece (digest_hex layer) s
              (checked_layer-ok blake3_hex disk b i layer piece checked) sound)
  ]

  install_layers_keeps :
      (b : Bundle) (i : ℕ) (layers : List LayerRef) (s : Store)
      → IsSound blake3_hex s
      → IsSound blake3_hex (install_layers blake3_hex disk b i layers s).1
  unfolding install_layers
  install_layers_keeps b i [] s sound = sound
  install_layers_keeps b i (layer ∷ layers) s sound =
      let one = install_layer_keeps b i layer s sound in
      next_keeps (IsSound blake3_hex) (install_layer blake3_hex disk b i layer s)
        (λ _ s. install_layers blake3_hex disk b (i + 1) layers s) one
        λ _ _.
          install_layers_keeps b (i + 1) layers (install_layer blake3_hex disk b i layer s).1 one

  -- The links leave the layers alone.
  register_keeps :
      (b : Bundle) (meta : Bytes) (s : Store)
      → IsSound blake3_hex s
      → IsSound blake3_hex
          (next
            (register_app disk b.header.app_id (last_digest b.header.layers) meta s)
            λ _ s. add_gc_root disk b.header.app_id (last_digest b.header.layers) s).1
  register_keeps b meta s sound =
      let digest = last_digest b.header.layers in
      let s1 = (register_app disk b.header.app_id digest meta s).1 in
      let registered =
        IsSound-same blake3_hex s s1 (register_app-layers disk b.header.app_id digest meta s)
          sound in
      next_keeps (IsSound blake3_hex) (register_app disk b.header.app_id digest meta s)
        (λ _ s. add_gc_root disk b.header.app_id digest s) registered
        λ _ _.
          IsSound-same blake3_hex s1 (add_gc_root disk b.header.app_id digest s1).1
            (add_gc_root-layers disk b.header.app_id digest s1) registered

  pub install_keeps :
      (cp : Capnp) (b : Bundle) (s : Store)
      → IsSound blake3_hex s
      → IsSound blake3_hex (install blake3_hex disk cp b s).1
  unfolding install
  install_keeps cp b s sound =
      let s1 = (install_layers blake3_hex disk b 0 b.header.layers s).1 in
      let layers = install_layers_keeps b 0 b.header.layers s sound in
      next_keeps (IsSound blake3_hex) (install_layers blake3_hex disk b 0 b.header.layers s) _
        layers
        λ _ _.
          next_keeps (IsSound blake3_hex) (encode cp b.header, s1) _ layers
            λ meta _. register_keeps b meta s1 layers
