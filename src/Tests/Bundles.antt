-- ===== src/Tests/Bundles.antt =====
-- Bundles: headers, layers, bootstrap blocks and trailers.
use nexpack.Prelude.{
  List, ◌≢◌, ℕ, ◌+◌, ◌-◌, ◌^◌, ◌≤◌, ◌≡◌, refl, ◌↔◌, none, some, [], ◌∷◌, ◌++◌, codes, Bytes, take,
  drop, length, get_elem?, from_le_bytes, ok, panic, arith,
}
use nexpack.Layer.{LayerRef}
use nexpack.Header.{message, encode, parse}
use nexpack.Header.Magic.{magic, find_magic}
use nexpack.Header.RoundTrip.{stored, parse-encode}
use nexpack.Bundle.{Bundle, extract_layer, cut_layer, layers_offset, add_sizes}
use nexpack.Bundle.Bootstrap.{BootstrapEntry, parse_bootstrap_entries}
use nexpack.Bundle.Bootstrap.RoundTrip.{LieIn, parse_bootstrap_entries_bounds}
use nexpack.Bundle.Layers.{extract_layer_sound, extract_layer_panic}
use nexpack.Verify.{verify_layers, verify_layers_iff, IsIntact}
use nexpack.Tests.Fixtures.{
  codec_of, codec_of-IsCodec, two_layers, first_layer, second_layer, toy_hex,
}

abbrev header_bytes : Bytes
header_bytes = magic ++ (7 ∷ [])

clean : find_magic (5 ∷ []) ≡ none
unfolding find_magic
clean = refl

encoded : encode (codec_of (message two_layers)) two_layers ≡ ok header_bytes
unfolding encode
encoded = refl

parse-encode_example :
    parse (codec_of (message two_layers)) ((5 ∷ []) ++ (header_bytes ++ (1 ∷ [])))
    ≡ ok (stored two_layers 1 5)
parse-encode_example =
    parse-encode (codec_of (message two_layers)) (codec_of-IsCodec (message two_layers)) two_layers
      (5 ∷ []) header_bytes (1 ∷ []) clean refl encoded

-- A header of five bytes behind a stub of one, the layers and two bytes more.
abbrev small_bundle : Bundle
small_bundle = record {
  header = stored two_layers 1 5;
  contents = (5 ∷ []) ++ (header_bytes ++ (codes "abc" ++ codes "zz"));
}

second_start : add_sizes (layers_offset small_bundle) (first_layer ∷ []) ≡ 8
unfolding add_sizes layers_offset
second_start = refl

second_extracted : extract_layer small_bundle 1 ≡ ok (codes "c")
unfolding extract_layer cut_layer add_sizes layers_offset
second_extracted = refl

extract_layer_sound_example :
    (length (codes "c") ≡ 1)
    × (add_sizes (layers_offset small_bundle) (first_layer ∷ []) + 1 ≤ length small_bundle.contents)
    × (codes "c"
        ≡ take 1 (
            drop (add_sizes (layers_offset small_bundle) (first_layer ∷ [])) small_bundle.contents))
extract_layer_sound_example =
    extract_layer_sound small_bundle 1 second_layer refl (codes "c") (omega arith) second_extracted

-- The whole of a layer that claims nearly 2 ^ 64 bytes.
abbrev huge_layer : LayerRef
huge_layer = record { digest = codes "blake3:ab"; size = 2 ^ 64 - 4; role = codes "base" }

abbrev huge_bundle : Bundle
huge_bundle = record {
  header = record (stored two_layers 1 5) { layers = huge_layer ∷ [] };
  contents = small_bundle.contents;
}

huge_start : add_sizes (layers_offset huge_bundle) [] ≡ 6
unfolding add_sizes layers_offset
huge_start = refl

extract_layer_panic_example : extract_layer huge_bundle 0 ≡ panic
extract_layer_panic_example =
    extract_layer_panic huge_bundle 0 huge_layer refl (omega (arith, huge_start)) (omega arith)
      (omega (arith, huge_start))

verify_layers_iff_example : (verify_layers toy_hex small_bundle ≡ ok tt) ↔ (
    (i : ℕ) (layer : LayerRef)
    → get_elem? small_bundle.header.layers i ≡ some layer
    → IsIntact toy_hex small_bundle i layer)
verify_layers_iff_example = verify_layers_iff toy_hex small_bundle

-- One entry without a name and without data.
abbrev empty_entry : Bytes
empty_entry = 1 ∷ 0 ∷ 0 ∷ 0 ∷ 0 ∷ 0 ∷ 0 ∷ 0 ∷ 0 ∷ 0 ∷ []

empty_parsed :
    parse_bootstrap_entries toy_hex empty_entry ≡ ok (record { name = []; binary = [] } ∷ [])
unfolding parse_bootstrap_entries from_le_bytes
empty_parsed = refl

parse_bootstrap_entries_bounds_example :
    (parse_bootstrap_entries toy_hex empty_entry ≢ panic)
    × ((entries : List BootstrapEntry)
        → parse_bootstrap_entries toy_hex empty_entry ≡ ok entries
        → (length entries ≡ from_le_bytes (take 4 empty_entry))
          × LieIn toy_hex entries (drop 4 empty_entry))
parse_bootstrap_entries_bounds_example = parse_bootstrap_entries_bounds toy_hex empty_entry
