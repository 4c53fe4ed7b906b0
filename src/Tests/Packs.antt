-- ===== src/Tests/Packs.antt =====
-- Packing.
use nexpack.Prelude.{
  ℕ, ◌^◌, ◌<◌, ◌≡◌, refl, ◌↔◌, true, false, Option, none, some, List, [], ◌∷◌, ◌++◌, Text, codes,
  utf8, Bytes, length, get_elem?, Outcome, ok, err, other, arith, Bool, ◌&&◌, text_eq, text_eq_iff,
  Bool-cases, ◌⊎◌, inl, inr, if◌then◌else◌,
}
use nexpack.Header.{message, encode}
use nexpack.Header.Wire.{Capnp, Message}
use nexpack.Header.Magic.{magic, find_magic}
use nexpack.Verify.{verify_layers}
use nexpack.Bundle.{
  Bundle, parse_bundle, extract_layer, extract_bootstrap, bootstrap_data, layers_end,
}
use nexpack.Bundle.Bootstrap.{BootstrapEntry, make_bootstrap_data}
use nexpack.Bundle.Bootstrap.RoundTrip.{IsEntry}
use nexpack.Bundle.Trailer.{read_trailer}
use nexpack.Pack.{
  PackSpec, PackBootstrap, Tools, layer_ref, build_layers, build_bootstrap_data, bootstrap_entries,
  pack_header, pack, write_bundle,
}
use nexpack.Pack.RoundTrip.{Packing, file, bundle, pack-bootstrap}
use nexpack.Pack.Command.{Host, spec_dir, tools_in, sbom_in, output_name, read_spec, pack_command}
use nexpack.Pack.Command.Packed.{packed_file, packed_bundle, pack_command_succeeds}
use nexpack.Layer.{LayerRef}
use nexpack.Erofs.{build_erofs}
use nexpack.Sbom.{nil, Bom, Fields, verify_sbom_data}
use nexpack.Sbom.Checked.{AreInverse}
use nexpack.Header.{or_empty}
use nexpack.Tests.Fixtures.{codec_of, codec_of-IsCodec, toy_hex}

abbrev tools : Tools
tools = record {
  exists = λ path. true;
  build_erofs = λ path. ok path;
  read_file = λ path. ok path;
  blake3_hex = toy_hex;
}

abbrev bootstrap_spec : PackBootstrap
bootstrap_spec = record { nexpackd = some (codes "bin"); nxpk = none }

abbrev spec : PackSpec
spec = record {
  id = codes "org.example.app";
  version = codes "1.0";
  entrypoint = codes "/bin/app";
  permissions = none;
  layer = record { role = codes "base"; source = codes "src" } ∷ [];
  bootstrap = some bootstrap_spec;
}

abbrev entry : BootstrapEntry
entry = record { name = codes "nexpackd"; binary = codes "bin" }

abbrev packed_message : Message
packed_message = message (
    pack_header tools spec (layer_ref tools (codes "base") (codes "src") ∷ []) (codes "{}")
      (some (make_bootstrap_data (entry ∷ []))))

layers_built :
    build_layers tools spec.layer
    ≡ ok (layer_ref tools (codes "base") (codes "src") ∷ [], codes "src" ∷ [])
unfolding build_layers
layers_built = refl

bootstrap_built : build_bootstrap_data tools spec ≡ ok (some (make_bootstrap_data (entry ∷ [])))
unfolding build_bootstrap_data bootstrap_entries
bootstrap_built = refl

header_encoded :
    encode (codec_of packed_message) (
      pack_header tools spec
        (layer_ref tools (codes "base") (codes "src") ∷ [])
        (codes "{}")
        (some (make_bootstrap_data (entry ∷ []))))
    ≡ ok (magic ++ (7 ∷ []))
unfolding encode
header_encoded = refl

clean : find_magic (5 ∷ []) ≡ none
unfolding find_magic
clean = refl

small :
    length (
      write_bundle tools
        (5 ∷ [])
        (magic ++ (7 ∷ []))
        (codes "src" ∷ [])
        (some (make_bootstrap_data (entry ∷ []))))
    < 2 ^ 64
unfolding write_bundle nexpack.Pack.bootstrap_part make_bootstrap_data nexpack.Prelude.to_le_bytes
    utf8 nexpack.Bundle.Trailer.make_bootstrap_trailer
small = omega arith

found : bootstrap_entries tools bootstrap_spec ≡ ok (entry ∷ [])
unfolding bootstrap_entries
found = refl

abbrev packing : Packing tools (codec_of packed_message) (λ m. m ≡ packed_message) (5 ∷ []) spec
packing = record {
  layer = layer_ref tools (codes "base") (codes "src");
  layers = [];
  layer_data = codes "src" ∷ [];
  sbom = codes "{}";
  bootstrap = some (make_bootstrap_data (entry ∷ []));
  header_bytes = magic ++ (7 ∷ []);
  built = layers_built;
  collected = bootstrap_built;
  encoded = header_encoded;
  clean = clean;
  fits = refl;
  small = small;
}

abbrev packed_codec : Capnp
packed_codec = codec_of packed_message

abbrev Packed : Message → Type 0
Packed m = m ≡ packed_message

entry-IsEntry : IsEntry toy_hex entry
unfolding utf8
entry-IsEntry = record { name_fits = omega arith; data_fits = omega arith; name_reads = refl }

pack-bootstrap_example :
    (extract_bootstrap toy_hex
        (bundle tools packed_codec Packed (codec_of-IsCodec packed_message) (5 ∷ []) spec packing)
      ≡ ok (entry ∷ []))
    × (read_trailer
          (file tools packed_codec Packed (codec_of-IsCodec packed_message) (5 ∷ []) spec packing)
        ≡ some (
          layers_end (
              bundle tools packed_codec Packed
                (codec_of-IsCodec packed_message)
                (5 ∷ [])
                spec
                packing),
          length (make_bootstrap_data (entry ∷ [])),
        ))
pack-bootstrap_example =
    pack-bootstrap tools packed_codec Packed (codec_of-IsCodec packed_message) (5 ∷ []) spec packing
      bootstrap_spec entry [] refl found toy_hex (entry-IsEntry, tt) (omega arith)

-- The command, for a specification of one layer without a bootstrap.
abbrev plain_spec : PackSpec
plain_spec = record spec { bootstrap = none }

abbrev cyclone : Bom → Bool
cyclone bom = text_eq bom.bom_format (codes "CycloneDX") && text_eq bom.spec_version (codes "1.5")

abbrev pub host : Host
host = record {
  exists = λ path. true;
  read_to_string = λ path. ok (codes "spec");
  read_file = λ path. ok path;
  parent = λ path. none;
  tree = λ path. nil;
  mkfs = record {
    files = record {
      path_dirs = codes "/bin" ∷ [];
      store_entries = [];
      is_file = λ path. true;
      exe_dir = none;
    };
    temp_dir = codes "/tmp";
    process_id = codes "7";
    run_status = λ path args. ok true;
    read_after = λ path args file. ok (codes "img");
  };
  blake3_hex = toy_hex;
  from_str = λ text. some plain_spec;
  to_json = λ bom. if cyclone bom then ok (codes "{}") else err (other "json");
  compress_gzip = λ json. ok json;
  timestamp = codes "now";
}

abbrev fields_of : Bytes → Outcome Fields
fields_of json =
    ok (record { bom_format = some (codes "CycloneDX"); spec_version = some (codes "1.5") })

cyclone_fields :
    (bom : Bom)
    → cyclone bom ≡ true
    → (bom.bom_format ≡ codes "CycloneDX") × (bom.spec_version ≡ codes "1.5")
cyclone_fields bom h = (
  (text_eq_iff bom.bom_format (codes "CycloneDX")).0 (ground arith),
  (text_eq_iff bom.spec_version (codes "1.5")).0 (ground arith),
)

host-AreInverse : AreInverse toy_hex host.to_json host.compress_gzip (λ zipped. ok zipped) fields_of
host-AreInverse = record {
  gunzip = λ json zipped e. cc;
  fields = λ bom json e. written bom json (Bool-cases (cyclone bom)) e;
}
  where
    written :
        (bom : Bom) (json : Bytes)
        → (cyclone bom ≡ true) ⊎ (cyclone bom ≡ false)
        → host.to_json bom ≡ ok json
        → fields_of json
          ≡ ok (record { bom_format = some bom.bom_format; spec_version = some bom.spec_version })
    written bom json (inl good) e = let (b, s) = cyclone_fields bom good in simp (b, s)
    written bom json (inr bad) e = let e' = rw bad at e in absurd cc

abbrev here : Tools
here = tools_in host (spec_dir host (codes "spec.toml"))

abbrev img_layer : LayerRef
img_layer = layer_ref here (codes "base") (codes "img")

abbrev plain_message : Message
plain_message = message (pack_header here plain_spec (img_layer ∷ []) (codes "{}") none)

abbrev plain_codec : Capnp
plain_codec = codec_of plain_message

abbrev Plain : Message → Type 0
Plain m = m ≡ plain_message

img_built : build_layers here plain_spec.layer ≡ ok (img_layer ∷ [], codes "img" ∷ [])
unfolding build_layers build_erofs nexpack.Erofs.build_with nexpack.Erofs.run_mkfs
    nexpack.Paths.find_tool nexpack.Paths.first_file spec_dir
img_built = refl

no_bootstrap : build_bootstrap_data here plain_spec ≡ ok none
unfolding build_bootstrap_data
no_bootstrap = refl

plain_encoded :
    encode plain_codec (pack_header here plain_spec (img_layer ∷ []) (codes "{}") none)
    ≡ ok (magic ++ (7 ∷ []))
unfolding encode
plain_encoded = refl

plain_small :
    length (write_bundle here (5 ∷ []) (magic ++ (7 ∷ [])) (codes "img" ∷ []) none) < 2 ^ 64
unfolding write_bundle nexpack.Pack.bootstrap_part
plain_small = omega arith

abbrev plain_packing : Packing here plain_codec Plain (5 ∷ []) plain_spec
plain_packing = record {
  layer = img_layer;
  layers = [];
  layer_data = codes "img" ∷ [];
  sbom = codes "{}";
  bootstrap = none;
  header_bytes = magic ++ (7 ∷ []);
  built = img_built;
  collected = no_bootstrap;
  encoded = plain_encoded;
  clean = clean;
  fits = refl;
  small = plain_small;
}

spec_is_read : read_spec host (codes "spec.toml") ≡ ok plain_spec
unfolding read_spec
spec_is_read = refl

sbom_is_made : sbom_in host (spec_dir host (codes "spec.toml")) plain_spec ≡ ok (codes "{}")
unfolding sbom_in nexpack.Sbom.generate_sbom nexpack.Sbom.bom_of text_eq
sbom_is_made = refl

abbrev plain_file : Bytes
plain_file =
    packed_file host plain_codec Plain (codec_of-IsCodec plain_message) (λ zipped. ok zipped)
      fields_of host-AreInverse (5 ∷ []) (codes "spec.toml") plain_spec plain_packing

abbrev plain_bundle : Bundle
plain_bundle =
    packed_bundle host plain_codec Plain (codec_of-IsCodec plain_message) (λ zipped. ok zipped)
      fields_of host-AreInverse (5 ∷ []) (codes "spec.toml") plain_spec plain_packing

pack_command_succeeds_example :
    (pack_command host plain_codec (5 ∷ []) (codes "spec.toml")
      ≡ ok (output_name host plain_spec, plain_file))
    × (parse_bundle plain_codec plain_file ≡ ok plain_bundle)
    × (verify_layers toy_hex plain_bundle ≡ ok tt)
    × ((i : ℕ) (piece : Bytes)
        → get_elem? (codes "img" ∷ []) i ≡ some piece
        → extract_layer plain_bundle i ≡ ok piece)
    × (verify_sbom_data (λ zipped. ok zipped) fields_of (or_empty plain_bundle.header.sbom) ≡ ok tt)
pack_command_succeeds_example =
    pack_command_succeeds host plain_codec Plain (codec_of-IsCodec plain_message)
      (λ zipped. ok zipped) fields_of host-AreInverse (5 ∷ []) (codes "spec.toml") plain_spec
      plain_packing spec_is_read sbom_is_made
