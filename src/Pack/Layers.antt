-- ===== src/Pack/Layers.antt =====
-- What the loop over the layers of a specification builds: sizes and digests of the data.
use nexpack.Prelude.{
  ℕ, zero, suc, ◌≡◌, refl, sym, ap, ok-injective, ◌∙◌, some, List, [], ◌∷◌, Text, Bytes, get_elem?,
  Outcome, ok, >>=-eq-ok, ◌>>=◌, other, ensure,
}
use nexpack.Layer.{LayerRef, digest_hex, strip_blake3-append}
use nexpack.Bundle.Layers.{Sized}
use nexpack.Pack.{PackLayer, Tools, layer_ref, build_layers}

module _ (tools : Tools) where
  -- Every layer has the size and the digest of its data.
  abbrev pub Built : List LayerRef → List Bytes → Type 0
  Built [] [] = Unit
  Built (l ∷ ls) (d ∷ ds) = ((role : Text) × (l ≡ layer_ref tools role d)) × Built ls ds
  Built _ _ = ⊥

  -- What the loop does with the data of a layer.
  abbrev add_layer : PackLayer → List PackLayer → Bytes → Outcome (List LayerRef × List Bytes)
  add_layer spec rest d = do
    (layers, layer_data) ← build_layers tools rest
    ok (layer_ref tools spec.role d ∷ layers, d ∷ layer_data)

  pub build_layers-Built :
      (specs : List PackLayer) (r : List LayerRef × List Bytes)
      → build_layers tools specs ≡ ok r
      → Built r.0 r.1
  unfolding build_layers
  build_layers-Built [] r h =
      let e : ◌≡◌ {A = List LayerRef × List Bytes} ([], []) r = ok-injective h in rw (← e) tt
  build_layers-Built (spec ∷ rest) r h =
      let (_, _, h1) =
        >>=-eq-ok {A = Unit} (ensure (tools.exists spec.source) (other "layer source not found"))
          (λ _. tools.build_erofs spec.source >>= add_layer spec rest) h in
      let (d, _, h2) = >>=-eq-ok (tools.build_erofs spec.source) (add_layer spec rest) h1 in
      let (inner, built, h3) =
        >>=-eq-ok (build_layers tools rest) (λ x. ok (layer_ref tools spec.role d ∷ x.0, d ∷ x.1))
          h2 in
      let e : ◌≡◌ {A = List LayerRef × List Bytes}
          (layer_ref tools spec.role d ∷ inner.0, d ∷ inner.1) r =
        ok-injective h3 in
      rw (← e) ((spec.role, refl), build_layers-Built rest inner built)

  pub Built-Sized :
      (layers : List LayerRef) (layer_data : List Bytes)
      → Built layers layer_data
      → Sized layers layer_data
  unfolding layer_ref
  Built-Sized [] [] h = tt
  Built-Sized [] (d ∷ ds) h = absurd h
  Built-Sized (l ∷ ls) [] h = absurd h
  Built-Sized (l ∷ ls) (d ∷ ds) ((role, e), h) = (ap (λ x. x.size) e, Built-Sized ls ds h)

  digest_hex-layer_ref :
      (role : Text) (d : Bytes) → digest_hex (layer_ref tools role d) ≡ tools.blake3_hex d
  unfolding layer_ref digest_hex
  digest_hex-layer_ref role d = strip_blake3-append (tools.blake3_hex d)

  pub Built-hashed :
      (layers : List LayerRef) (layer_data : List Bytes)
      → Built layers layer_data
      → (i : ℕ) (layer : LayerRef) → get_elem? layers i ≡ some layer
      → (piece : Bytes) × (get_elem? layer_data i ≡ some piece)
        × (tools.blake3_hex piece ≡ digest_hex layer)
  Built-hashed [] [] h i layer at = absurd (cc)
  Built-hashed [] (d ∷ ds) h i layer at = absurd h
  Built-hashed (l ∷ ls) [] h i layer at = absurd h
  Built-hashed (l ∷ ls) (d ∷ ds) ((role, e), h) zero layer at =
      let same : l ≡ layer = cc in
      (d, refl, sym (ap digest_hex (sym same ∙ e) ∙ digest_hex-layer_ref role d))
  Built-hashed (l ∷ ls) (d ∷ ds) ((role, e), h) (suc i) layer at = Built-hashed ls ds h i layer at
