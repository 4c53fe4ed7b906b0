-- ===== src/Update/Background/Unchecked.antt =====
-- The background checker stores what the network delivers under the digest that the feed names.
use nexpack.Prelude.{
  ◌≡◌, ◌≢◌, refl, sym, subst, ap, ◌∙◌, true, some, List, [], ◌∷◌, ◌++◌, Text, Bytes, text_eq_refl,
  All, Outcome, ok, err, panic, arith,
}
use nexpack.Prelude.Dict
use nexpack.Header.{BundleHeader, encode}
use nexpack.Header.Wire.{Capnp}
use nexpack.Store.{Store, Disk, done, layer_name, store_layer, write_layer}
use nexpack.Store.Links.{add_gc_root-layers}
use nexpack.Store.Sound.{IsSound, layer_name-injective}
use nexpack.Store.Install.Layers.{next_ok}
use nexpack.Store.Install.{next}
use nexpack.Update.{LayerInfo, ReleaseInfo, hex_of, shown, missing_layers, updated_header}
use nexpack.Update.Command.{Network, new_digest, replace_current}
use nexpack.Update.Command.Keeps.{replace_current-layers, write_meta-layers}
use nexpack.Update.Background.{
  store_download, adopt_layer, adopt_header, prefetch_layer, prefetch_layers, find_update,
  prefetch_release, update_found, background_update,
}

module _ (disk : Disk) (cp : Capnp) (net : Network) where
  pub adopt_layer-layers :
      (app_id digest : Text) (s : Store) → (adopt_layer disk app_id digest s).layers ≡ s.layers
  unfolding adopt_layer
  adopt_layer-layers app_id digest s = ground (
    arith,
    add_gc_root-layers disk app_id digest (replace_current disk app_id digest s).1,
    replace_current-layers disk app_id digest s,
  )

  pub adopt_header-layers :
      (app_id : Text) (encoded : Outcome Bytes) (s : Store)
      → (adopt_header disk app_id encoded s).1.layers ≡ s.layers
  unfolding adopt_header
  adopt_header-layers app_id (ok meta) s = write_meta-layers disk app_id meta s
  adopt_header-layers app_id (err e) s = refl
  adopt_header-layers app_id panic s = refl

  -- A download that is shown and does not panic lets the loop go on.
  abbrev Goes : LayerInfo → Type 0
  Goes layer = (shown layer ≡ ok tt) × (net.download_layer layer.url ≢ panic)

  prefetch_layer-Goes :
      (layer : LayerInfo) (s : Store) → Goes layer → (prefetch_layer disk cp net layer s).0 ≡ ok tt
  unfolding prefetch_layer next store_download
  prefetch_layer-Goes layer s (seen, calm) = rw seen (go (net.download_layer layer.url) calm)
    where
      go : (o : Outcome Bytes) → o ≢ panic → (store_download disk o layer s).0 ≡ ok tt
      go (ok piece) h = refl
      go (err e) h = refl
      go panic h = absurd (h refl)

  -- The last layer of the list is in the store as it was delivered.
  prefetch_layers_last :
      (before : List LayerInfo) (layer : LayerInfo) (piece : Bytes) (s : Store)
      → All Goes before
      → shown layer ≡ ok tt
      → net.download_layer layer.url ≡ ok piece
      → disk.make_layer_dir (hex_of layer) ≡ true
      → disk.write_image (hex_of layer) ≡ done
      → ((prefetch_layers disk cp net (before ++ (layer ∷ [])) s).0 ≡ ok tt)
        × (Dict.lookup
              (layer_name (hex_of layer))
              (prefetch_layers disk cp net (before ++ (layer ∷ [])) s).1.layers
            ≡ some (some piece))
  unfolding prefetch_layers prefetch_layer next store_download store_layer write_layer
  prefetch_layers_last [] layer piece s goes seen got made wrote =
      let inserted =
        Dict.lookup-insert (layer_name (hex_of layer)) (layer_name (hex_of layer)) (some piece)
          s.layers in
      let self = text_eq_refl (layer_name (hex_of layer)) in
      rw (seen, got, made, wrote) (refl, rw self at inserted)
  prefetch_layers_last (first ∷ before) layer piece s (here, there) seen got made wrote =
      let step =
        next_ok (prefetch_layer disk cp net first s)
          (λ _ s. prefetch_layers disk cp net (before ++ (layer ∷ [])) s) tt
          (prefetch_layer-Goes first s here) in
      let s1 = (prefetch_layer disk cp net first s).1 in
      subst
        (λ r.
          (r.0 ≡ ok tt) × (Dict.lookup (layer_name (hex_of layer)) r.1.layers ≡ some (some piece)))
        (sym step) (prefetch_layers_last before layer piece s1 there seen got made wrote)

  module _ (blake3_hex : Bytes → Text) (app_id : Text) (header : BundleHeader)
      (release : ReleaseInfo) (before : List LayerInfo) (layer : LayerInfo) (piece : Bytes)
      (s : Store) (found : find_update disk cp net app_id s ≡ ok (some (header, release)))
      (missing : missing_layers release s ≡ before ++ (layer ∷ [])) (goes : All Goes before)
      (seen : shown layer ≡ ok tt) (got : net.download_layer layer.url ≡ ok piece)
      (made : disk.make_layer_dir (hex_of layer) ≡ true)
      (wrote : disk.write_image (hex_of layer) ≡ done) where
    background_update-lookup :
        Dict.lookup (layer_name (hex_of layer)) (background_update disk cp net app_id s).1.layers
        ≡ some (some piece)
    unfolding background_update update_found prefetch_release
    background_update-lookup =
        let fetched = prefetch_layers_last before layer piece s goes seen got made wrote in
        let r = prefetch_layers disk cp net (before ++ (layer ∷ [])) s in
        let s2 = adopt_layer disk app_id (new_digest release) r.1 in
        let encoded = encode cp (updated_header header release) in
        let step =
          next_ok r
            (λ _ s.
              adopt_header disk app_id encoded (adopt_layer disk app_id (new_digest release) s))
            tt fetched.0 in
        let same =
          adopt_header-layers app_id encoded s2
          ∙ adopt_layer-layers app_id (new_digest release) r.1 in
        rw (found, missing)
          (ap (λ q. Dict.lookup (layer_name (hex_of layer)) q.1.layers) step
            ∙ ap (Dict.lookup (layer_name (hex_of layer))) same
            ∙ fetched.1)

    -- For an installed app for which the checker finds a release, and a layer that is the last of
    -- those missing: if the downloads go on to that layer and the disk takes it, then whatever was
    -- delivered is the image under the layer's digest. If it hashes to something else, the store is
    -- no longer sound.
    pub background_update_unchecked :
        blake3_hex piece ≢ hex_of layer
        → (Dict.lookup (layer_name (hex_of layer)) (background_update disk cp net app_id s).1.layers
            ≡ some (some piece))
          × (¬ IsSound blake3_hex (background_update disk cp net app_id s).1)
    background_update_unchecked wrong = (
      background_update-lookup,
      λ sound.
          let name = sound (layer_name (hex_of layer)) piece background_update-lookup in
          wrong (sym (layer_name-injective (hex_of layer) (blake3_hex piece) name)),
    )
