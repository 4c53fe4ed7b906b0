-- ===== src/Signing/Sign.antt =====
-- nxpk/src/commands/sign.rs: `sign_bundle`, from the bundle's bytes to the signed file.
pub mod Kept
pub mod Command
use nexpack.Prelude.{
  ℕ, ◌+◌, Bool, Option, none, some, List, [], ◌∷◌, ◌++◌, Bytes, take, length, leb, Outcome, ok,
  panic, other, ensure, ◌>>=◌, ◌>>◌, if◌then◌else◌,
}
use nexpack.Layer.{LayerRef}
use nexpack.Header.{BundleHeader, encode}
use nexpack.Header.Wire.{Capnp}
use nexpack.Bundle.{Bundle, extract_layer}
use nexpack.Bundle.Layers.{concat}
use nexpack.Signing.{artifact_bytes}

abbrev pub signed : Bytes → BundleHeader → BundleHeader
signed sig_data h = record h { signature = some sig_data }

-- `&bundle.data[..stub_end]`
unfoldable pub stub_of : Bundle → Outcome Bytes
stub_of b =
    if leb b.header.offset (length b.contents) then ok (take b.header.offset b.contents) else panic

-- The loop over the layers, from the index `i` on.
unfoldable pub extract_from : Bundle → ℕ → List LayerRef → Outcome (List Bytes)
extract_from b i [] = ok []
extract_from b i (layer ∷ layers) = do
  piece ← extract_layer b i
  rest ← extract_from b (i + 1) layers
  ok (piece ∷ rest)

-- `cosign` is the run of `cosign sign-blob` and the file it leaves, `is_json` the test of that file.
-- Nothing is written for a bundle that is signed already.
unfoldable pub sign_bundle :
    Capnp → (Bytes → Outcome Bytes) → (Bytes → Bool) → Bundle → Outcome (Option Bytes)
unfolding stub_of extract_from
sign_bundle cp cosign is_json b = elim b.header.signature [
  | some _ ↦ ok none
  | none ↦ do
    artifact ← artifact_bytes cp b
    sig_data ← cosign artifact
    ensure (is_json sig_data) (other "invalid cosign output")
    header_bytes ← encode cp (signed sig_data b.header)
    stub ← stub_of b
    pieces ← extract_from b 0 b.header.layers
    ok (some (stub ++ (header_bytes ++ concat pieces)))
]
