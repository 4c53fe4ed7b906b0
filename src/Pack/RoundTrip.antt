-- ===== src/Pack/RoundTrip.antt =====
-- `pack` writes a bundle in which every reader finds what went in.
use nexpack.Prelude.{
  ℕ, ◌%◌, ◌^◌, ◌<◌, ◌≡◌, ok-injective, refl, sym, ap, ◌∙◌, Option, none, some, List, [], ◌∷◌, ◌++◌,
  append_assoc, append-nil, Text, Bytes, All, to_le_bytes, length-to_le_bytes, length,
  length-append, get_elem?, ok, arith,
}
use nexpack.Layer.{LayerRef}
use nexpack.Header.{BundleHeader, message, encode, parse}
use nexpack.Header.Wire.{Capnp, IsCodec, Message}
use nexpack.Header.Magic.{find_magic}
use nexpack.Header.RoundTrip.{parse-encode}
use nexpack.Verify.{verify_layers}
use nexpack.Bundle.{
  Bundle, parse_bundle, extract_layer, extract_bootstrap, layers_end, bootstrap_data,
}
use nexpack.Bundle.Bootstrap.{BootstrapEntry, make_bootstrap_data, make_entries}
use nexpack.Bundle.Bootstrap.RoundTrip.{IsEntry, parse_bootstrap_entries-make_bootstrap_data}
use nexpack.Bundle.Trailer.{
  read_trailer, make_bootstrap_trailer, read_trailer-make_bootstrap_trailer,
}
use nexpack.Bundle.Layers.{concat, Sized}
use nexpack.Bundle.Written.{
  written, parse_bundle-written, extract_layer-written, verify_layers-written,
  bootstrap_data-written, layers_end-written,
}
use nexpack.Pack.{
  PackSpec, PackBootstrap, Tools, bootstrap_entries, build_layers, build_bootstrap_data,
  pack_header, bootstrap_part, write_bundle, pack,
}
use nexpack.Pack.Layers.{Built, build_layers-Built, Built-Sized, Built-hashed}

-- What the steps of `pack` produced, and what it relies on: a stub without the header's magic, a
-- header within Cap'n Proto's limits, and a file of fewer than 2 ^ 64 bytes.
pub record Packing (tools : Tools) (cp : Capnp) (Fits : Message → Type 0) (stub : Bytes)
    (spec : PackSpec) : Type 0 where
  pub layer : LayerRef
  pub layers : List LayerRef
  pub layer_data : List Bytes
  pub sbom : Bytes
  pub bootstrap : Option Bytes
  pub header_bytes : Bytes
  pub built : build_layers tools spec.layer ≡ ok (layer ∷ layers, layer_data)
  pub collected : build_bootstrap_data tools spec ≡ ok bootstrap
  pub encoded : encode cp (pack_header tools spec (layer ∷ layers) sbom bootstrap) ≡ ok header_bytes
  pub clean : find_magic stub ≡ none
  pub fits : Fits (message (pack_header tools spec (layer ∷ layers) sbom bootstrap))
  pub small : length (write_bundle tools stub header_bytes layer_data bootstrap) < 2 ^ 64

module _ (tools : Tools) (cp : Capnp) (Fits : Message → Type 0) (codec : IsCodec cp Fits)
    (stub : Bytes) (spec : PackSpec) (p : Packing tools cp Fits stub spec) where
  abbrev pub header : BundleHeader
  header = pack_header tools spec (p.layer ∷ p.layers) p.sbom p.bootstrap

  abbrev pub boot_offset : ℕ
  boot_offset = length (stub ++ (p.header_bytes ++ concat p.layer_data))

  abbrev pub file : Bytes
  file = write_bundle tools stub p.header_bytes p.layer_data p.bootstrap

  file_shape :
      file
      ≡ stub
        ++ (p.header_bytes ++ (concat p.layer_data ++ bootstrap_part tools boot_offset p.bootstrap))
  unfolding write_bundle
  file_shape = refl

  parse-file :
      parse cp file
      ≡ ok
          (written header stub p.header_bytes p.layer_data
            (bootstrap_part tools boot_offset p.bootstrap)).header
  parse-file = rw file_shape (
      parse-encode cp codec header stub p.header_bytes
        (concat p.layer_data ++ bootstrap_part tools boot_offset p.bootstrap) p.clean p.fits
        p.encoded)

  -- The steps lead to a bundle: `pack` returns it.
  pub pack_succeeds : pack tools cp stub spec (ok p.sbom) ≡ ok file
  unfolding pack
  pack_succeeds = rw (p.built, p.collected, p.encoded, parse-file) refl

  abbrev pub rest : Bytes
  rest = bootstrap_part tools boot_offset p.bootstrap

  abbrev pub bundle : Bundle
  bundle = written header stub p.header_bytes p.layer_data rest

  parse_bundle-file : parse_bundle cp file ≡ ok bundle
  parse_bundle-file = rw file_shape (
      parse_bundle-written cp codec header stub p.header_bytes p.layer_data rest p.clean p.fits
        p.encoded)

  built : Built tools (p.layer ∷ p.layers) p.layer_data
  built = build_layers-Built tools spec.layer (p.layer ∷ p.layers, p.layer_data) p.built

  sized : Sized (p.layer ∷ p.layers) p.layer_data
  sized = Built-Sized tools (p.layer ∷ p.layers) p.layer_data built

  small_parts : length (stub ++ (p.header_bytes ++ (concat p.layer_data ++ rest))) < 2 ^ 64
  small_parts = rw file_shape at p.small

  -- When the layers are built, the bootstrap block is collected and the header is encoded, the stub
  -- holds no header magic and the file stays below 2 ^ 64 bytes: `pack` returns the file, the file
  -- is parsed as a bundle, the bundle's layers verify, and each is extracted as the data built.
  pub pack-layers :
      (pack tools cp stub spec (ok p.sbom) ≡ ok file)
      × (parse_bundle cp file ≡ ok bundle)
      × (verify_layers tools.blake3_hex bundle ≡ ok tt)
      × ((i : ℕ) (piece : Bytes)
          → get_elem? p.layer_data i ≡ some piece
          → extract_layer bundle i ≡ ok piece)
  unfolding pack_header
  pack-layers = (
    pack_succeeds,
    parse_bundle-file,
    verify_layers-written header stub p.header_bytes p.layer_data rest sized small_parts
        tools.blake3_hex (Built-hashed tools (p.layer ∷ p.layers) p.layer_data built),
    extract_layer-written header stub p.header_bytes p.layer_data rest sized small_parts,
  )

  module _ (b : PackBootstrap) (e : BootstrapEntry) (entries : List BootstrapEntry)
      (asked : spec.bootstrap ≡ some b) (found : bootstrap_entries tools b ≡ ok (e ∷ entries)) where
    boot : Bytes
    boot = make_bootstrap_data (e ∷ entries)

    bootstrap-boot : p.bootstrap ≡ some boot
    unfolding build_bootstrap_data boot
    bootstrap-boot =
        let collected = p.collected in sym (ok-injective (rw (asked, found) at collected))

    tail : Bytes
    tail = make_bootstrap_trailer boot_offset (length boot)

    rest-boot : rest ≡ boot ++ tail
    unfolding bootstrap_part tail
    rest-boot = ap (bootstrap_part tools boot_offset) bootstrap-boot

    size-boot : header.bootstrap_size ≡ some (length boot)
    unfolding pack_header
    size-boot = rw bootstrap-boot refl

    boot_pos : 0 < length boot
    unfolding boot make_bootstrap_data
    boot_pos = omega (
      arith,
      length-append (to_le_bytes 4 (length (e ∷ entries) % 2 ^ 32)) (make_entries (e ∷ entries)),
      length-to_le_bytes 4 (length (e ∷ entries) % 2 ^ 32),
    )

    small-boot :
        length (stub ++ (p.header_bytes ++ (concat p.layer_data ++ (boot ++ tail)))) < 2 ^ 64
    small-boot = rw rest-boot at small_parts

    bootstrap_data-bundle : bootstrap_data bundle ≡ ok (some boot)
    unfolding pack_header
    bootstrap_data-bundle = rw rest-boot (
        bootstrap_data-written header stub p.header_bytes p.layer_data sized (length boot) size-boot
          boot_pos boot tail small-boot refl)

    layers_end-bundle : layers_end bundle ≡ boot_offset
    unfolding pack_header
    layers_end-bundle =
        layers_end-written header stub p.header_bytes p.layer_data rest sized small_parts
        ∙ omega (
          arith,
          length-append stub p.header_bytes,
          length-append stub (p.header_bytes ++ concat p.layer_data),
          length-append p.header_bytes (concat p.layer_data),
        )

    read_trailer-file : read_trailer file ≡ some (layers_end bundle, length boot)
    unfolding tail
    read_trailer-file =
        let before = stub ++ (p.header_bytes ++ (concat p.layer_data ++ boot)) in
        let shape : file ≡ before ++ tail = file_shape ∙ rw rest-boot (simp append_assoc) in
        let total = length-append before tail in
        let parts = length-append stub (p.header_bytes ++ (concat p.layer_data ++ boot)) in
        let parts1 = length-append p.header_bytes (concat p.layer_data ++ boot) in
        let parts2 = length-append (concat p.layer_data) boot in
        let parts3 = length-append stub (p.header_bytes ++ concat p.layer_data) in
        let parts4 = length-append p.header_bytes (concat p.layer_data) in
        let small : length (before ++ tail) < 2 ^ 64 = rw shape at p.small in
        rw (shape, layers_end-bundle)
          (read_trailer-make_bootstrap_trailer before boot_offset (length boot) (omega arith)
            (omega arith))

    -- In the same file, if the specification asks for bootstrap binaries with lengths that fit their
    -- fields and names that read back: the reader finds these entries, and the trailer at the end of
    -- the file points to the end of the layers and gives the block's length.
    pub pack-bootstrap :
        (lossy : Bytes → Text)
        → All (IsEntry lossy) (e ∷ entries)
        → length (e ∷ entries) < 2 ^ 32
        → (extract_bootstrap lossy bundle ≡ ok (e ∷ entries))
          × (read_trailer file
              ≡ some (layers_end bundle, length (make_bootstrap_data (e ∷ entries))))
    unfolding extract_bootstrap boot
    pack-bootstrap lossy fits few =
        let read = parse_bootstrap_entries-make_bootstrap_data lossy (e ∷ entries) [] fits few in
        (rw bootstrap_data-bundle (rw append-nil at read), read_trailer-file)
