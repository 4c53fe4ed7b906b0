-- ===== src/Compat/Convert/Converted.antt =====
-- The bundle that an AppImage is made into reads back.
use nexpack.Prelude.{
  ℕ, zero, suc, ◌^◌, ◌<◌, ◌≡◌, refl, sym, ap, subst, ◌∙◌, Option, none, some, [], ◌∷◌, ◌++◌,
  append-nil, get_elem?, length, Text, Bytes, ok, >>=-eq-ok, ok-injective, ◌>>=◌,
}
use nexpack.Layer.{LayerRef, digest_hex, strip_blake3-append}
use nexpack.Header.{message, encode}
use nexpack.Header.Wire.{Capnp, IsCodec, Message}
use nexpack.Header.Magic.{find_magic}
use nexpack.Bundle.{parse_bundle, extract_layer}
use nexpack.Bundle.Layers.{concat}
use nexpack.Bundle.Written.{
  written, parse_bundle-written, extract_layer-written, verify_layers-written,
}
use nexpack.Verify.{verify_layers}
use nexpack.Compat.Convert.{
  Appimage, extract, erofs_layer, converted_header, converted_file, convert_appimage, output_name,
}

module _ (blake3_hex : Bytes → Text) (cp : Capnp) {Fits : Message → Type 0}
    (codec : IsCodec cp Fits) where
  -- The parts of a conversion that ends well.
  record Parts (a : Appimage) (output : Option Text) (name : Text) (file : Bytes) : Type 0 where
    erofs : Bytes
    stub : Bytes
    header_bytes : Bytes
    built : a.build_erofs ≡ ok erofs
    found : a.stub_binary ≡ ok stub
    encoded : encode cp (converted_header blake3_hex cp a erofs) ≡ ok header_bytes
    shape : stub ++ (header_bytes ++ erofs) ≡ file
    named : output_name a output ≡ name

  convert_appimage-Parts :
      (a : Appimage) (output : Option Text) (name : Text) (file : Bytes)
      → convert_appimage blake3_hex cp a output ≡ ok (name, file)
      → Parts a output name file
  unfolding convert_appimage converted_file
  convert_appimage-Parts a output name file e =
      let (_, _, e1) =
        >>=-eq-ok (extract a)
          (λ _. a.build_erofs >>= λ erofs.
            converted_file blake3_hex cp a erofs >>= λ file. ok (output_name a output, file))
          e in
      let (erofs, built, e2) =
        >>=-eq-ok a.build_erofs
          (λ erofs.
            converted_file blake3_hex cp a erofs >>= λ file. ok (output_name a output, file))
          e1 in
      let (whole, made, e3) =
        >>=-eq-ok (converted_file blake3_hex cp a erofs) (λ file. ok (output_name a output, file))
          e2 in
      let (stub, found, e4) =
        >>=-eq-ok a.stub_binary
          (λ stub. encode cp (converted_header blake3_hex cp a erofs) >>= λ header_bytes.
            ok (stub ++ (header_bytes ++ erofs)))
          made in
      let (header_bytes, encoded, e5) =
        >>=-eq-ok (encode cp (converted_header blake3_hex cp a erofs))
          (λ header_bytes. ok (stub ++ (header_bytes ++ erofs))) e4 in
      let same = ok-injective e3 in
      record {
        erofs = erofs;
        stub = stub;
        header_bytes = header_bytes;
        built = built;
        found = found;
        encoded = encoded;
        shape = ok-injective e5 ∙ ap (λ r. r.1) same;
        named = ap (λ r. r.0) same;
      }

  hashed :
      (a : Appimage) (erofs : Bytes) (i : ℕ) (layer : LayerRef)
      → get_elem? (converted_header blake3_hex cp a erofs).layers i ≡ some layer
      → (piece : Bytes) × (get_elem? (erofs ∷ []) i ≡ some piece)
        × (blake3_hex piece ≡ digest_hex layer)
  unfolding converted_header digest_hex
  hashed a erofs zero layer at =
      let same : erofs_layer blake3_hex cp erofs ≡ layer = cc in
      (erofs, refl, sym (strip_blake3-append (blake3_hex erofs)) ∙ ap digest_hex same)
  hashed a erofs (suc i) layer at = absurd cc

  -- A converted AppImage reads back as a bundle with the converted header, it verifies, and its one
  -- layer is the image that was built: if the stub does not hold the magic, the codec can write the
  -- header, and the file fits a `u64`.
  pub convert_appimage-roundtrip :
      (a : Appimage) (output : Option Text) (name : Text) (file erofs stub : Bytes)
      → a.build_erofs ≡ ok erofs
      → a.stub_binary ≡ ok stub
      → find_magic stub ≡ none
      → Fits (message (converted_header blake3_hex cp a erofs))
      → length file < 2 ^ 64
      → convert_appimage blake3_hex cp a output ≡ ok (name, file)
      → (name ≡ output_name a output)
        × ((bytes : Bytes) × (encode cp (converted_header blake3_hex cp a erofs) ≡ ok bytes)
            × (parse_bundle cp file
                ≡ ok (written (converted_header blake3_hex cp a erofs) stub bytes (erofs ∷ []) []))
            × (verify_layers blake3_hex
                  (written (converted_header blake3_hex cp a erofs) stub bytes (erofs ∷ []) [])
                ≡ ok tt)
            × (extract_layer
                  (written (converted_header blake3_hex cp a erofs) stub bytes (erofs ∷ []) [])
                  0
                ≡ ok erofs))
  unfolding converted_header
  convert_appimage-roundtrip a output name file erofs stub built found clean fits small e =
      let p = convert_appimage-Parts a output name file e in
      let same_erofs : p.erofs ≡ erofs = ok-injective (sym p.built ∙ built) in
      let same_stub : p.stub ≡ stub = ok-injective (sym p.found ∙ found) in
      let encoded : encode cp (converted_header blake3_hex cp a erofs) ≡ ok p.header_bytes =
        subst (λ x. encode cp (converted_header blake3_hex cp a x) ≡ ok p.header_bytes) same_erofs
          p.encoded in
      let h = converted_header blake3_hex cp a erofs in
      let whole : stub ++ (p.header_bytes ++ (concat (erofs ∷ []) ++ [])) ≡ file = simp append-nil (
        ap (λ s. s ++ (p.header_bytes ++ erofs)) (sym same_stub)
        ∙ ap (λ x. p.stub ++ (p.header_bytes ++ x)) (sym same_erofs)
        ∙ p.shape) in
      let fits_file = rw (← whole) at small in
      (
        sym p.named,
        (
          p.header_bytes,
          encoded,
          ap (parse_bundle cp) (sym whole)
              ∙ parse_bundle-written cp codec h stub p.header_bytes (erofs ∷ []) [] clean fits
                  encoded,
          verify_layers-written h stub p.header_bytes (erofs ∷ []) [] (refl, tt) fits_file
              blake3_hex (hashed a erofs),
          extract_layer-written h stub p.header_bytes (erofs ∷ []) [] (refl, tt) fits_file 0 erofs
              refl,
        ),
      )
