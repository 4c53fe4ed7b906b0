-- ===== src/Update/Background/Honest.antt =====
-- The background checker with a network that delivers what its feeds announce.
use nexpack.Prelude.{
  ◌≡◌, refl, ◌∙◌, Bool, true, false, Option, none, some, List, [], ◌∷◌, Text, Bytes, text_eq, All,
  Outcome, ok, err, panic, >>=-eq-ok, Bool-cases, inl, inr, ok_or, other, if◌then◌else◌,
}
use nexpack.Header.{BundleHeader, encode, parse}
use nexpack.Header.Wire.{Capnp}
use nexpack.Store.{Store, Disk, has_layer}
use nexpack.Store.Sound.{IsSound}
use nexpack.Store.Keeps.{IsAtomic, next_keeps, IsSound-same, store_layer_keeps}
use nexpack.Update.{
  LayerInfo, ReleaseInfo, UpdateFeed, find_version, find_release, latest_release, keep_missing,
  missing_layers, hex_of, shown, updated_header,
}
use nexpack.Update.Command.{Network, meta_of, new_digest}
use nexpack.Update.Background.{
  store_download, adopt_layer, adopt_header, prefetch_layer, prefetch_layers, find_update,
  prefetch_release, update_found, background_update, background_round,
}
use nexpack.Update.Background.Unchecked.{adopt_layer-layers, adopt_header-layers}

abbrev with_header :
    BundleHeader → Option ReleaseInfo → Outcome (Option (BundleHeader × ReleaseInfo))
with_header header none = ok none
with_header header (some release) = ok (some (header, release))

with_header-some :
    (same : Bool) (h header : BundleHeader) (found : Option ReleaseInfo) (release : ReleaseInfo)
    → (if same then ok none else with_header h found) ≡ ok (some (header, release))
    → found ≡ some release
with_header-some true h header found release e = absurd cc
with_header-some false h header none release e = absurd cc
with_header-some false h header (some r) release e = cc

module _ (blake3_hex : Bytes → Text) (net : Network) where
  -- What comes from the layer's URL, if anything does, has the layer's digest.
  abbrev pub IsGenuine : LayerInfo → Type 0
  IsGenuine layer =
      (piece : Bytes) → net.download_layer layer.url ≡ ok piece → blake3_hex piece ≡ hex_of layer

  abbrev pub IsHonest : Type 0
  IsHonest =
      (url : Text) (feed : UpdateFeed)
      → net.fetch_feed url ≡ ok feed
      → All (λ (release : ReleaseInfo). All IsGenuine release.layers) feed.releases

  keep_missing-IsGenuine :
      (layers : List LayerInfo) (s : Store)
      → All IsGenuine layers
      → All IsGenuine (keep_missing s layers)
  unfolding keep_missing
  keep_missing-IsGenuine [] s h = tt
  keep_missing-IsGenuine (layer ∷ layers) s (here, there) =
      elim (Bool-cases (has_layer s (hex_of layer))) [
        | inl present ↦ rw present (keep_missing-IsGenuine layers s there)
        | inr absent ↦ rw absent (here, keep_missing-IsGenuine layers s there)
      ]

  find_version-IsGenuine :
      (version : Text) (releases : List ReleaseInfo) (release : ReleaseInfo)
      → All (λ (r : ReleaseInfo). All IsGenuine r.layers) releases
      → find_version version releases ≡ some release
      → All IsGenuine release.layers
  unfolding find_version
  find_version-IsGenuine version [] release h e = absurd cc
  find_version-IsGenuine version (r ∷ releases) release (here, there) e =
      elim (Bool-cases (text_eq r.version version)) [
        | inl same ↦ let e' : r ≡ release = (let e'' = rw same at e in cc) in rw e' at here
        | inr different ↦ find_version-IsGenuine version releases release there (rw different at e)
      ]

  module _ (disk : Disk) (atomic : IsAtomic disk) (cp : Capnp) where
    store_download_keeps :
        (got : Outcome Bytes) (layer : LayerInfo) (s : Store)
        → ((piece : Bytes) → got ≡ ok piece → blake3_hex piece ≡ hex_of layer)
        → IsSound blake3_hex s
        → IsSound blake3_hex (store_download disk got layer s).1
    unfolding store_download
    store_download_keeps (ok piece) layer s genuine sound =
        store_layer_keeps blake3_hex disk atomic piece (hex_of layer) s (genuine piece refl) sound
    store_download_keeps (err e) layer s genuine sound = sound
    store_download_keeps panic layer s genuine sound = sound

    prefetch_layers_keeps :
        (layers : List LayerInfo) (s : Store)
        → All IsGenuine layers
        → IsSound blake3_hex s
        → IsSound blake3_hex (prefetch_layers disk cp net layers s).1
    unfolding prefetch_layers prefetch_layer
    prefetch_layers_keeps [] s h sound = sound
    prefetch_layers_keeps (layer ∷ layers) s (here, there) sound =
        next_keeps (IsSound blake3_hex) (prefetch_layer disk cp net layer s)
          (λ _ s. prefetch_layers disk cp net layers s)
          (next_keeps (IsSound blake3_hex) (shown layer, s)
            (λ _ s. store_download disk (net.download_layer layer.url) layer s) sound
            λ _ _. store_download_keeps (net.download_layer layer.url) layer s here sound)
          λ _ _. prefetch_layers_keeps layers (prefetch_layer disk cp net layer s).1 there (
            next_keeps (IsSound blake3_hex) (shown layer, s)
              (λ _ s. store_download disk (net.download_layer layer.url) layer s) sound
              λ _ _. store_download_keeps (net.download_layer layer.url) layer s here sound)

    prefetch_release_keeps :
        (app_id : Text) (header : BundleHeader) (release : ReleaseInfo) (s : Store)
        → All IsGenuine release.layers
        → IsSound blake3_hex s
        → IsSound blake3_hex (prefetch_release disk cp net app_id header release s).1
    unfolding prefetch_release missing_layers
    prefetch_release_keeps app_id header release s genuine sound =
        let fetched = prefetch_layers disk cp net (missing_layers release s) s in
        let kept =
          prefetch_layers_keeps (missing_layers release s) s
            (keep_missing-IsGenuine release.layers s genuine) sound in
        next_keeps (IsSound blake3_hex) fetched
          (λ _ s.
            adopt_header disk app_id (encode cp (updated_header header release))
              (adopt_layer disk app_id (new_digest release) s))
          kept
          λ _ _.
            let adopted = adopt_layer disk app_id (new_digest release) fetched.1 in
            IsSound-same blake3_hex fetched.1
              (adopt_header disk app_id (encode cp (updated_header header release)) adopted).1
              (adopt_header-layers disk cp net app_id (encode cp (updated_header header release))
                  adopted
                ∙ adopt_layer-layers disk cp net app_id (new_digest release) fetched.1)
              kept

    -- A release that is found is one of a feed's.
    find_update-IsGenuine :
        (honest : IsHonest) (app_id : Text) (s : Store) (header : BundleHeader)
        (release : ReleaseInfo)
        → find_update disk cp net app_id s ≡ ok (some (header, release))
        → All IsGenuine release.layers
    unfolding find_update latest_release find_release
    find_update-IsGenuine honest app_id s header release e =
        let (meta, _, e1) = >>=-eq-ok (ok_or (meta_of s app_id) (other "no meta")) _ e in
        let (h, _, e2) = >>=-eq-ok (parse cp meta) _ e1 in
        let (url, _, e3) = >>=-eq-ok (ok_or h.update_url (other "no update url")) _ e2 in
        let (feed, fetched, e4) = >>=-eq-ok (net.fetch_feed url) _ e3 in
        find_version-IsGenuine feed.latest feed.releases release (honest url feed fetched) (
          with_header-some (text_eq feed.latest h.app_version) h header (latest_release feed)
            release e4)

    update_found_keeps :
        (app_id : Text) (found : Outcome (Option (BundleHeader × ReleaseInfo))) (s : Store)
        → ((header : BundleHeader) (release : ReleaseInfo)
            → found ≡ ok (some (header, release))
            → All IsGenuine release.layers)
        → IsSound blake3_hex s
        → IsSound blake3_hex (update_found disk cp net app_id found s).1
    unfolding update_found
    update_found_keeps app_id (ok none) s genuine sound = sound
    update_found_keeps app_id (ok (some (header, release))) s genuine sound =
        prefetch_release_keeps app_id header release s (genuine header release refl) sound
    update_found_keeps app_id (err e) s genuine sound = sound
    update_found_keeps app_id panic s genuine sound = sound

    pub background_update_keeps :
        (honest : IsHonest) (app_id : Text) (s : Store)
        → IsSound blake3_hex s
        → IsSound blake3_hex (background_update disk cp net app_id s).1
    unfolding background_update
    background_update_keeps honest app_id s sound =
        update_found_keeps app_id (find_update disk cp net app_id s) s
          (find_update-IsGenuine honest app_id s) sound

    -- A round of the checker keeps the store sound, if the network delivers what its feeds announce.
    pub background_round_keeps :
        (honest : IsHonest) (apps : List Text) (s : Store)
        → IsSound blake3_hex s
        → IsSound blake3_hex (background_round disk cp net apps s).1
    unfolding background_round
    background_round_keeps honest [] s sound = sound
    background_round_keeps honest (app_id ∷ apps) s sound =
        let kept = background_update_keeps honest app_id s sound in
        next_keeps (IsSound blake3_hex) (background_update disk cp net app_id s)
          (λ _ s. background_round disk cp net apps s) kept
          λ _ _. background_round_keeps honest apps (background_update disk cp net app_id s).1 kept
