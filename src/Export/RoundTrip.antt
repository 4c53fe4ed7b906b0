-- ===== src/Export/RoundTrip.antt =====
-- An exported app reads back as a bundle with the app's header, and verifies.
use nexpack.Prelude.{
  ℕ, zero, suc, ◌^◌, ◌<◌, ◌≡◌, refl, sym, ap, ◌∙◌, none, some, List, [], ◌∷◌, ◌++◌, append-nil,
  get_elem?, length, All, Text, Bytes, ok, other, ok_or, ok_or-eq-ok, >>=-eq-ok, ok-injective,
  ◌>>=◌,
}
use nexpack.Layer.{LayerRef, digest_hex}
use nexpack.Header.{BundleHeader, message, encode, parse}
use nexpack.Header.Wire.{Capnp, IsCodec, Message}
use nexpack.Header.Magic.{find_magic}
use nexpack.Bundle.{parse_bundle}
use nexpack.Bundle.Layers.{Sized, concat}
use nexpack.Bundle.Written.{written, parse_bundle-written, verify_layers-written}
use nexpack.Verify.{verify_digest, verify_digest-eq-ok, verify_layers}
use nexpack.Store.{Store}
use nexpack.Update.Command.{meta_of}
use nexpack.Export.{image_of, shown, export_layers, export_header, export_app}

-- What the store has for a layer is as long as the header says.
abbrev pub IsSized : Store → LayerRef → Type 0
IsSized s layer = (image : Bytes) → image_of s layer ≡ some image → layer.size ≡ length image

module _ (blake3_hex : Bytes → Text) where
  -- Each image belongs to its layer.
  abbrev pub AreImages : List LayerRef → List Bytes → Type 0
  AreImages layers images =
      (i : ℕ) (layer : LayerRef)
      → get_elem? layers i ≡ some layer
      → (image : Bytes) × (get_elem? images i ≡ some image) × (blake3_hex image ≡ digest_hex layer)

  export_layers-ok :
      (s : Store) (layers : List LayerRef) (images : List Bytes)
      → All (IsSized s) layers
      → export_layers blake3_hex s layers ≡ ok images
      → Sized layers images × AreImages layers images
  unfolding export_layers
  export_layers-ok s [] images sized e =
      let none_left : [] ≡ images = ok-injective e in rw (← none_left) (tt, λ i layer at. absurd cc)
  export_layers-ok s (layer ∷ layers) images (here, there) e =
      let (image, found, e1) =
        >>=-eq-ok (ok_or (image_of s layer) (other "layer not found in store")) _ e in
      let (_, checked, e2) = >>=-eq-ok (verify_digest blake3_hex image (digest_hex layer)) _ e1 in
      let (_, _, e3) = >>=-eq-ok (shown layer) _ e2 in
      let (rest, more, e4) =
        >>=-eq-ok (export_layers blake3_hex s layers) (λ images. ok (image ∷ images)) e3 in
      let same : image ∷ rest ≡ images = ok-injective e4 in
      let (sized, theirs) = export_layers-ok s layers rest there more in
      let size =
        here image (ok_or-eq-ok (image_of s layer) (other "layer not found in store") found) in
      let hash = verify_digest-eq-ok blake3_hex image (digest_hex layer) checked in
      rw (← same) ((size, sized), images-cons layer image layers rest hash theirs)
    where
      images-cons :
          (layer : LayerRef) (image : Bytes) (layers : List LayerRef) (images : List Bytes)
          → blake3_hex image ≡ digest_hex layer
          → AreImages layers images
          → AreImages (layer ∷ layers) (image ∷ images)
      images-cons layer image layers images hash theirs zero l at =
          let same : layer ≡ l = cc in (image, refl, hash ∙ ap digest_hex same)
      images-cons layer image layers images hash theirs (suc i) l at = theirs i l at

  module _ (cp : Capnp) {Fits : Message → Type 0} (codec : IsCodec cp Fits) where
    -- An app whose header is in the store, with images of the sizes that it gives, is exported to a
    -- file that parses to a bundle with this header, and which verifies: if the stub does not hold the
    -- magic, the codec can write the header, and the file fits a `u64`.
    pub export_app-roundtrip :
        (stub file : Bytes) (app_id : Text) (s : Store) (meta : Bytes) (header : BundleHeader)
        → meta_of s app_id ≡ some meta
        → parse cp meta ≡ ok header
        → All (IsSized s) header.layers
        → find_magic stub ≡ none
        → Fits (message header)
        → length file < 2 ^ 64
        → export_app blake3_hex cp stub app_id s ≡ ok file
        → (bytes : Bytes) × (images : List Bytes) × (encode cp header ≡ ok bytes)
          × (parse_bundle cp file ≡ ok (written header stub bytes images []))
          × (verify_layers blake3_hex (written header stub bytes images []) ≡ ok tt)
    unfolding export_app export_header
    export_app-roundtrip stub file app_id s meta header found parsed sized clean fits small e =
        let (bytes, encoded, e1) =
          >>=-eq-ok (encode cp header)
            (λ bytes. export_layers blake3_hex s header.layers >>= λ images.
              ok (stub ++ (bytes ++ concat images)))
            (rw (found, parsed) at e) in
        let (images, listed, e2) =
          >>=-eq-ok (export_layers blake3_hex s header.layers)
            (λ images. ok (stub ++ (bytes ++ concat images))) e1 in
        let (sizes, theirs) = export_layers-ok s header.layers images sized listed in
        let whole : stub ++ (bytes ++ (concat images ++ [])) ≡ file =
          simp append-nil (ok-injective e2) in
        (
          bytes,
          images,
          encoded,
          ap (parse_bundle cp) (sym whole)
              ∙ parse_bundle-written cp codec header stub bytes images [] clean fits encoded,
          verify_layers-written header stub bytes images [] sizes (rw (← whole) at small) blake3_hex
              theirs,
        )
