-- ===== src/Update/Applied.antt =====
-- An update leaves the store sound, with every layer of the release in it.
use nexpack.Prelude.{
  ◌≡◌, sym, ap, subst, ◌∙◌, Bool-cases, inl, inr, true, List, [], ◌∷◌, Text, Bytes, All, Outcome,
  ok, other, ensure, ok-injective, >>=-eq-ok, length, map, ◌==◌, ◌>>=◌,
}
use nexpack.Header.{BundleHeader}
use nexpack.Layer.{digest_hex}
use nexpack.Verify.{verify_digest, verify_digest-eq-ok}
use nexpack.Store.{Store, Disk, has_layer, store_layer}
use nexpack.Store.Sound.{IsSound, Holds, Grows, Grows-trans, has_layer-Holds, store_layer-ok}
use nexpack.Store.Install.Layers.{next-eq-ok}
use nexpack.Update.{
  LayerInfo, ReleaseInfo, hex_of, keep_missing, missing_layers, shown, layer_ref, fetch_layer,
  update_layer, update_layers, fetch_missing, updated_header,
}

module _ (blake3_hex : Bytes → Text) (disk : Disk) (download : Text → Outcome Bytes) where
  pub fetch_layer-ok :
      (layer : LayerInfo) (piece : Bytes)
      → fetch_layer blake3_hex disk download layer ≡ ok piece
      → blake3_hex piece ≡ hex_of layer
  unfolding fetch_layer
  fetch_layer-ok layer piece h =
      let (_, _, h1) =
        >>=-eq-ok (shown layer)
          (λ _. download layer.url >>= λ found.
            ensure (length found == layer.size) (other "size mismatch") >>= λ _.
            verify_digest blake3_hex found (hex_of layer) >>= λ _. ok found)
          h in
      let (found, _, h2) =
        >>=-eq-ok (download layer.url)
          (λ found. ensure (length found == layer.size) (other "size mismatch") >>= λ _.
            verify_digest blake3_hex found (hex_of layer) >>= λ _. ok found)
          h1 in
      let (_, _, h3) =
        >>=-eq-ok (ensure (length found == layer.size) (other "size mismatch"))
          (λ _. verify_digest blake3_hex found (hex_of layer) >>= λ _. ok found) h2 in
      let (_, verified, h4) =
        >>=-eq-ok (verify_digest blake3_hex found (hex_of layer)) (λ _. ok found) h3 in
      let same : found ≡ piece = ok-injective h4 in
      rw (← same) (verify_digest-eq-ok blake3_hex found (hex_of layer) verified)

  update_layers-ok :
      (layers : List LayerInfo) (s : Store)
      → (update_layers blake3_hex disk download layers s).0 ≡ ok tt
      → Grows blake3_hex s (update_layers blake3_hex disk download layers s).1
        × All
            (λ layer.
              has_layer (update_layers blake3_hex disk download layers s).1 (hex_of layer) ≡ true)
            layers
  unfolding update_layers update_layer
  update_layers-ok [] s h = ((λ sound. sound, λ hex e. e), tt)
  update_layers-ok (layer ∷ layers) s h =
      let (_, first, e) =
        next-eq-ok (update_layer blake3_hex disk download layer s)
          (λ _ s. update_layers blake3_hex disk download layers s) h in
      let (piece, fetched, e1) =
        next-eq-ok (fetch_layer blake3_hex disk download layer, s)
          (λ piece s. store_layer disk piece (hex_of layer) s) first in
      let (grows, there) =
        store_layer-ok blake3_hex disk piece (hex_of layer) s (fetch_layer-ok layer piece fetched)
          (rw e1 at first) in
      let s1 = (store_layer disk piece (hex_of layer) s).1 in
      let whole = e ∙ ap (λ r. update_layers blake3_hex disk download layers r.1) e1 in
      let (grows', rest) = update_layers-ok layers s1 (rw whole at h) in
      subst
        (λ r.
          Grows blake3_hex s r.1
          × All (λ layer. has_layer r.1 (hex_of layer) ≡ true) (layer ∷ layers))
        (sym whole)
        (
          Grows-trans blake3_hex s s1 (update_layers blake3_hex disk download layers s1).1 grows
              grows',
          (grows'.1 (hex_of layer) there, rest),
        )

  -- What was not missing was there before, and stays.
  kept-missing :
      (s s' : Store) (layers : List LayerInfo)
      → ((hex : Text) → has_layer s hex ≡ true → has_layer s' hex ≡ true)
      → All (λ layer. has_layer s' (hex_of layer) ≡ true) (keep_missing s layers)
      → All (λ layer. has_layer s' (hex_of layer) ≡ true) layers
  unfolding keep_missing
  kept-missing s s' [] kept h = tt
  kept-missing s s' (layer ∷ layers) kept h = elim (Bool-cases (has_layer s (hex_of layer))) [
    | inl there ↦ (kept (hex_of layer) there, kept-missing s s' layers kept (rw there at h))
    | inr absent ↦ let h' = rw absent at h in (h'.0, kept-missing s s' layers kept h'.1)
  ]

  new_layers_held :
      (s : Store) (layers : List LayerInfo)
      → IsSound blake3_hex s
      → All (λ layer. has_layer s (hex_of layer) ≡ true) layers
      → All (Holds blake3_hex s) (map layer_ref layers)
  unfolding digest_hex
  new_layers_held s [] sound h = tt
  new_layers_held s (layer ∷ layers) sound (here, there) = (
    has_layer-Holds blake3_hex s (layer_ref layer) sound here,
    new_layers_held s layers sound there,
  )

  -- If the layers that a release misses are fetched to the end, whatever the network delivers and
  -- whichever changes on disk may fail, into a store where every image hashes to its name: it is
  -- still so, and every layer of the new header is there with its digest.
  pub fetch_missing-ok :
      (h : BundleHeader) (release : ReleaseInfo) (s : Store)
      → IsSound blake3_hex s
      → (fetch_missing blake3_hex disk download release s).0 ≡ ok tt
      → IsSound blake3_hex (fetch_missing blake3_hex disk download release s).1
        × All
            (Holds blake3_hex (fetch_missing blake3_hex disk download release s).1)
            (updated_header h release).layers
  unfolding fetch_missing missing_layers updated_header
  fetch_missing-ok h release s sound e =
      let (grows, present) = update_layers-ok (keep_missing s release.layers) s e in
      let s' = (update_layers blake3_hex disk download (keep_missing s release.layers) s).1 in
      (
        grows.0 sound,
        new_layers_held s' release.layers (grows.0 sound)
            (kept-missing s s' release.layers grows.1 present),
      )
