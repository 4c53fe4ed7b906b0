-- ===== src/Verify.antt =====
-- nexpack-core/src/verify.rs: `Verifier`. The hex form of the BLAKE3 hash is the parameter.
pub mod Command
use nexpack.Prelude.{
  ℕ, zero, suc, ◌+◌, ◌≡◌, refl, ap, ◌∙◌, ◌↔◌, some, List, [], ◌∷◌, Text, Bytes, get_elem?, text_eq,
  text_eq_iff, Outcome, ok, err, digest_mismatch, ◌>>=◌, ◌>>◌, >>=-eq-ok, arith, if◌then◌else◌,
}
use nexpack.Layer.{LayerRef, digest_hex}
use nexpack.Bundle.{Bundle, extract_layer}

module _ (blake3_hex : Bytes → Text) where
  unfoldable pub verify_digest : Bytes → Text → Outcome (Unit {0})
  verify_digest input expected_hex =
      if text_eq (blake3_hex input) expected_hex
      then ok tt
      else err (digest_mismatch expected_hex (blake3_hex input))

  -- The loop of `verify_layers` from layer `i` on.
  unfoldable pub verify_from : Bundle → ℕ → List LayerRef → Outcome (Unit {0})
  verify_from b i [] = ok tt
  verify_from b i (layer ∷ rest) = do
    input ← extract_layer b i
    verify_digest input (digest_hex layer)
    verify_from b (i + 1) rest

  unfoldable pub verify_layers : Bundle → Outcome (Unit {0})
  verify_layers b = verify_from b 0 b.header.layers

  -- Layer `i` can be cut out of the file, and its hash is the digest in the header.
  abbrev pub IsIntact : Bundle → ℕ → LayerRef → Type 0
  IsIntact b i layer =
      (input : Bytes) × (extract_layer b i ≡ ok input) × (blake3_hex input ≡ digest_hex layer)

  pub verify_digest-eq-ok :
      (input : Bytes) (hex : Text) → verify_digest input hex ≡ ok tt → blake3_hex input ≡ hex
  unfolding verify_digest
  verify_digest-eq-ok input hex h = ground (arith, text_eq_iff (blake3_hex input) hex)

  pub verify_digest_self :
      (input : Bytes) (hex : Text) → blake3_hex input ≡ hex → verify_digest input hex ≡ ok tt
  unfolding verify_digest
  verify_digest_self input hex e = ground (arith, text_eq_iff (blake3_hex input) hex)

  verify_from_sound :
      (b : Bundle) (i j : ℕ) (layers : List LayerRef) (layer : LayerRef)
      → verify_from b i layers ≡ ok tt
      → get_elem? layers j ≡ some layer
      → IsIntact b (i + j) layer
  unfolding verify_from
  verify_from_sound b i j [] layer h at = absurd (cc)
  verify_from_sound b i zero (l ∷ rest) layer h at =
      let (input, cut, h1) = >>=-eq-ok (extract_layer b i) _ h in
      let (_, checked, h2) = >>=-eq-ok (verify_digest input (digest_hex l)) _ h1 in
      let same : l ≡ layer = cc in
      let start : i + 0 ≡ i = omega arith in
      rw start (input, cut, verify_digest-eq-ok input (digest_hex l) checked ∙ ap digest_hex same)
  verify_from_sound b i (suc j) (l ∷ rest) layer h at =
      let (input, cut, h1) = >>=-eq-ok (extract_layer b i) _ h in
      let (_, checked, h2) = >>=-eq-ok (verify_digest input (digest_hex l)) _ h1 in
      let next : i + suc j ≡ i + 1 + j = omega arith in
      rw next (verify_from_sound b (i + 1) j rest layer h2 at)

  verify_from_complete :
      (b : Bundle) (i : ℕ) (layers : List LayerRef)
      → ((j : ℕ) (layer : LayerRef) → get_elem? layers j ≡ some layer → IsIntact b (i + j) layer)
      → verify_from b i layers ≡ ok tt
  unfolding verify_from
  verify_from_complete b i [] h = refl
  verify_from_complete b i (l ∷ rest) h =
      let start : i + 0 ≡ i = omega arith in
      let (input, cut, same) = rw start at (h 0 l refl) in
      let later = verify_from_complete b (i + 1) rest (λ j layer at.
        let next : i + suc j ≡ i + 1 + j = omega arith in rw next at (h (suc j) layer at)) in
      rw (cut, verify_digest_self input (digest_hex l) same) later

  -- `verify_layers` succeeds exactly when every layer of the header can be cut out of the file and
  -- its hash is the digest that the header gives.
  pub verify_layers_iff :
      (b : Bundle)
      → (verify_layers b ≡ ok tt) ↔ (
          (i : ℕ) (layer : LayerRef)
          → get_elem? b.header.layers i ≡ some layer
          → IsIntact b i layer)
  unfolding verify_layers
  verify_layers_iff b = (
    λ h i layer at.
        let start : 0 + i ≡ i = omega arith in
        rw start at (verify_from_sound b 0 i b.header.layers layer h at),
    λ all.
        verify_from_complete b 0 b.header.layers
          (λ j layer at. let start : 0 + j ≡ j = omega arith in rw start (all j layer at)),
  )
