-- ===== src/Verify/Command.antt =====
-- nxpk/src/commands/verify.rs: `verify`, without what it prints (the signature and the trust policy
-- are only printed).
use nexpack.Prelude.{
  ℕ, ◌+◌, ◌≡◌, refl, ◌↔◌, List, [], ◌∷◌, Text, text_eq, text_eq_iff, Bytes, Outcome, ok, other,
  ensure, ◌>>=◌, ◌>>◌, >>=-eq-ok, arith,
}
use nexpack.Layer.{LayerRef, digest_hex}
use nexpack.Header.Wire.{Capnp}
use nexpack.Bundle.{Bundle, parse_bundle, extract_layer}
use nexpack.Verify.{
  verify_digest, verify_from, verify_layers, verify_digest-eq-ok, verify_digest_self,
}

module _ (blake3_hex : Bytes → Text) where
  -- The loop over the layers, from the index `i` on.
  unfoldable pub verify_listed : Bundle → ℕ → List LayerRef → Outcome (Unit {0})
  verify_listed b i [] = ok tt
  verify_listed b i (layer ∷ layers) = do
    piece ← extract_layer b i
    ensure (text_eq (blake3_hex piece) (digest_hex layer)) (other "Layer digest mismatch")
    verify_listed b (i + 1) layers

  unfoldable pub verify_command : Capnp → Bytes → Outcome (Unit {0})
  unfolding verify_listed
  verify_command cp contents = do b ← parse_bundle cp contents; verify_listed b 0 b.header.layers

  verify_listed-verify_from :
      (b : Bundle) (i : ℕ) (layers : List LayerRef)
      → verify_listed b i layers ≡ ok tt
      → verify_from blake3_hex b i layers ≡ ok tt
  unfolding verify_listed verify_from
  verify_listed-verify_from b i [] h = refl
  verify_listed-verify_from b i (layer ∷ layers) h =
      let (piece, cut, h1) = >>=-eq-ok (extract_layer b i) _ h in
      let (_, same, h2) =
        >>=-eq-ok
          (ensure (text_eq (blake3_hex piece) (digest_hex layer)) (other "Layer digest mismatch"))
          (λ _. verify_listed b (i + 1) layers) h1 in
      let hash : blake3_hex piece ≡ digest_hex layer =
        (text_eq_iff (blake3_hex piece) (digest_hex layer)).0 (ground arith) in
      rw (cut, verify_digest_self blake3_hex piece (digest_hex layer) hash)
        (verify_listed-verify_from b (i + 1) layers h2)

  verify_from-verify_listed :
      (b : Bundle) (i : ℕ) (layers : List LayerRef)
      → verify_from blake3_hex b i layers ≡ ok tt
      → verify_listed b i layers ≡ ok tt
  unfolding verify_listed verify_from
  verify_from-verify_listed b i [] h = refl
  verify_from-verify_listed b i (layer ∷ layers) h =
      let (piece, cut, h1) = >>=-eq-ok (extract_layer b i) _ h in
      let (_, checked, h2) =
        >>=-eq-ok (verify_digest blake3_hex piece (digest_hex layer))
          (λ _. verify_from blake3_hex b (i + 1) layers) h1 in
      let same =
        (text_eq_iff (blake3_hex piece) (digest_hex layer)).1
          (verify_digest-eq-ok blake3_hex piece (digest_hex layer) checked) in
      rw (cut, same) (verify_from-verify_listed b (i + 1) layers h2)

  -- The command succeeds exactly on the files that parse to a bundle which `verify_layers` accepts.
  pub verify_command_iff :
      (cp : Capnp) (contents : Bytes)
      → (verify_command cp contents ≡ ok tt)
        ↔ ((b : Bundle) × (parse_bundle cp contents ≡ ok b) × (verify_layers blake3_hex b ≡ ok tt))
  unfolding verify_command verify_layers
  verify_command_iff cp contents = (
    λ h.
        let (b, parsed, listed) =
          >>=-eq-ok (parse_bundle cp contents) (λ b. verify_listed b 0 b.header.layers) h in
        (b, parsed, verify_listed-verify_from b 0 b.header.layers listed),
    λ (b, parsed, verified). rw parsed (verify_from-verify_listed b 0 b.header.layers verified),
  )
