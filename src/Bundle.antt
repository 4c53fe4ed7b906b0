-- ===== src/Bundle.antt =====
-- nexpack-core/src/lib.rs: `Bundle`, the layers and the bootstrap inside its bytes. Offsets are
-- `u64` or `usize` of 64 bits, and additions wrap, as they do in a release build.
pub mod Bootstrap
pub mod Trailer
pub mod Layers
pub mod Written
use nexpack.Prelude.{
  ℕ, ◌+◌, ◌%◌, ◌^◌, Bool, true, false, Option, none, some, List, [], ◌∷◌, Bytes, take, drop, length,
  slice, get_elem?, Outcome, ok, err, panic, ok_or, invalid_format, index_out_of_range, ◌>>=◌, ltb,
  leb, ◌==◌, if◌then◌else◌,
}
use nexpack.Layer.{LayerRef}
use nexpack.Header.{BundleHeader, parse}
use nexpack.Header.Wire.{Capnp}
use Bootstrap.{BootstrapEntry, parse_bootstrap_entries}

pub record Bundle : Type 0 where
  pub header : BundleHeader
  -- the field `data`
  pub contents : Bytes

abbrev pub wrap : ℕ → ℕ
wrap n = n % 2 ^ 64

-- `Bundle::parse`
unfoldable pub parse_bundle : Capnp → Bytes → Outcome Bundle
parse_bundle cp contents = do
  header ← parse cp contents
  ok (record { header = header; contents = contents })

unfoldable pub layers_offset : Bundle → ℕ
layers_offset b = wrap (b.header.offset + b.header.encoded_len)

-- The loop that adds the sizes of layers to an offset.
unfoldable pub add_sizes : ℕ → List LayerRef → ℕ
add_sizes off [] = off
add_sizes off (layer ∷ layers) = add_sizes (wrap (off + layer.size)) layers

unfoldable pub layers_end : Bundle → ℕ
layers_end b = add_sizes (layers_offset b) b.header.layers

-- `&data[from..to]` where `to` is in range: a panic if the ends are out of order.
unfoldable pub checked_slice : ℕ → ℕ → Bytes → Outcome Bytes
checked_slice from to bytes = if leb from to then ok (slice from to bytes) else panic

-- The end of `extract_layer`: the bounds check and the slice.
unfoldable pub cut_layer : Bytes → ℕ → ℕ → Outcome Bytes
unfolding checked_slice
cut_layer contents offset size =
    let end = wrap (offset + size) in
    if ltb (length contents) end
    then err (invalid_format "layer exceeds bundle bounds")
    else checked_slice offset end contents

unfoldable pub extract_layer : Bundle → ℕ → Outcome Bytes
extract_layer b index = elim (get_elem? b.header.layers index) [
  | none ↦ err (index_out_of_range "layer index" index (length b.header.layers))
  | some layer ↦
      cut_layer b.contents (add_sizes (layers_offset b) (take index b.header.layers)) layer.size
]

unfoldable pub has_bootstrap : Bundle → Bool
has_bootstrap b = elim b.header.bootstrap_size [ none ↦ false | some s ↦ ltb 0 s ]

unfoldable pub bootstrap_offset : Bundle → Option ℕ
bootstrap_offset b = elim b.header.bootstrap_size [
  | none ↦ none
  | some s ↦ if ltb 0 s then some (layers_end b) else none
]

-- `bootstrap_data` from the test of the size on. `none` is the source's `None`; the slice may panic.
unfoldable pub cut_bootstrap : Bytes → ℕ → ℕ → Outcome (Option Bytes)
unfolding checked_slice
cut_bootstrap contents offset size =
    let end = wrap (offset + size) in
    if size == 0
    then ok none
    else if ltb (length contents) end
    then ok none
    else (do piece ← checked_slice offset end contents; ok (some piece))

unfoldable pub bootstrap_data : Bundle → Outcome (Option Bytes)
bootstrap_data b = elim b.header.bootstrap_size [
  | none ↦ ok none
  | some size ↦ cut_bootstrap b.contents (layers_end b) size
]

unfoldable pub extract_bootstrap : (Bytes → List ℕ) → Bundle → Outcome (List BootstrapEntry)
extract_bootstrap lossy b = do
  found ← bootstrap_data b
  piece ← ok_or found (invalid_format "no bootstrap data in bundle")
  parse_bootstrap_entries lossy piece

-- `stub_digest`: the hash of what stands before the header. The hash function is a parameter.
unfoldable pub stub_digest {ℓ} : {H : Type ℓ} → (Bytes → H) → Bundle → Outcome H
stub_digest hash b =
    if leb b.header.offset (length b.contents)
    then ok (hash (take b.header.offset b.contents))
    else panic
