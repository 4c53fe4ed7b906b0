-- ===== src/Pack/Command/Packed.antt =====
-- The bundle that the command writes, with its SBOM.
use nexpack.Prelude.{ℕ, ◌≡◌, refl, some, [], ◌∷◌, Text, Bytes, get_elem?, Outcome, ok}
use nexpack.Header.{or_empty}
use nexpack.Header.RoundTrip.{present}
use nexpack.Bundle.{Bundle}
use nexpack.Header.Wire.{Message, Capnp, IsCodec}
use nexpack.Bundle.{parse_bundle, extract_layer}
use nexpack.Verify.{verify_layers}
use nexpack.Sbom.{Fields, verify_sbom_data}
use nexpack.Sbom.Checked.{AreInverse, generate_sbom-ok}
use nexpack.Pack.{PackSpec, pack_header}
use nexpack.Pack.RoundTrip.{Packing, file, bundle, pack-layers}
use nexpack.Pack.Command.{Host, spec_dir, tools_in, sbom_in, output_name, read_spec, pack_command}

or_empty-present : (sbom : Bytes) → or_empty (present (some sbom)) ≡ sbom
or_empty-present [] = refl
or_empty-present (b ∷ sbom) = refl

module _ (host : Host) (cp : Capnp) (Fits : Message → Type 0) (codec : IsCodec cp Fits)
    (decompress_gzip : Bytes → Outcome Bytes) (from_slice : Bytes → Outcome Fields)
    (inverse : AreInverse host.blake3_hex host.to_json host.compress_gzip decompress_gzip
      from_slice)
    (stub : Bytes) (spec_path : Text) (spec : PackSpec)
    (p : Packing (tools_in host (spec_dir host spec_path)) cp Fits stub spec) where
  abbrev pub packed_file : Bytes
  packed_file = file (tools_in host (spec_dir host spec_path)) cp Fits codec stub spec p

  abbrev pub packed_bundle : Bundle
  packed_bundle = bundle (tools_in host (spec_dir host spec_path)) cp Fits codec stub spec p

  packed_sbom : or_empty packed_bundle.header.sbom ≡ p.sbom
  unfolding pack_header
  packed_sbom = or_empty-present p.sbom

  -- When the specification is read, its layers are built, its SBOM is generated, its bootstrap block
  -- is collected and the header is encoded, the stub holds no header magic and the file stays below
  -- 2 ^ 64 bytes, and gzip and JSON give back what was written: the command writes the file under the
  -- name of the specification's id; it is parsed as a bundle, whose layers verify, each of which is
  -- extracted as the data built, and whose SBOM passes the check of an SBOM.
  pub pack_command_succeeds :
      read_spec host spec_path ≡ ok spec
      → sbom_in host (spec_dir host spec_path) spec ≡ ok p.sbom
      → (pack_command host cp stub spec_path ≡ ok (output_name host spec, packed_file))
        × (parse_bundle cp packed_file ≡ ok packed_bundle)
        × (verify_layers host.blake3_hex packed_bundle ≡ ok tt)
        × ((i : ℕ) (piece : Bytes)
            → get_elem? p.layer_data i ≡ some piece
            → extract_layer packed_bundle i ≡ ok piece)
        × (verify_sbom_data decompress_gzip from_slice (or_empty packed_bundle.header.sbom) ≡ ok tt)
  unfolding pack_command sbom_in
  pack_command_succeeds read made =
      let (packs, parses, verifies, extracts) =
        pack-layers (tools_in host (spec_dir host spec_path)) cp Fits codec stub spec p in
      let (checked, _, _) =
        generate_sbom-ok host.blake3_hex host.to_json host.compress_gzip decompress_gzip from_slice
          inverse _ _ _ _ p.sbom made in
      (rw (read, made, packs) refl, parses, verifies, extracts, rw packed_sbom checked)
