-- ===== src/Signing.antt =====
-- nexpack-core/src/signing.rs: what is signed and how a signature is verified. The sigstore crates
-- are the parameter `Sigstore`.
pub mod Sign
use nexpack.Prelude.{
  Bool, not, Option, none, some, List, [], ◌∷◌, ◌++◌, Text, Bytes, utf8, Error, Outcome, ok,
  signature_verification, ok_or, ensure, ◌>>=◌, ◌>>◌,
}
use nexpack.Layer.{LayerRef}
use nexpack.Header.{BundleHeader, encode}
use nexpack.Header.Wire.{Capnp}
use nexpack.Bundle.{Bundle}

-- `sigstore_verify::VerificationPolicy`. The other fields are the same everywhere.
pub record VerificationPolicy : Type 0 where
  pub identity : Option Text
  pub issuer : Option Text
  pub verify_tlog : Bool
  pub verify_timestamp : Bool

pub record Sigstore : Type 1 where
  pub SigBundle : Type 0
  pub TrustedRoot : Type 0
  -- `serde_json::from_slice`
  pub from_slice : Bytes → Option SigBundle
  -- `validate_bundle_with_options` with the default options
  pub validate : SigBundle → Bool
  pub trusted_root : Option TrustedRoot
  pub verify : Bytes → SigBundle → VerificationPolicy → TrustedRoot → Bool

-- The loop over the layers.
unfoldable pub layer_digests : List LayerRef → Bytes
layer_digests [] = []
layer_digests (layer ∷ layers) = utf8 layer.digest ++ layer_digests layers

abbrev pub unsigned : BundleHeader → BundleHeader
unsigned h = record h { signature = none }

unfoldable pub artifact_bytes : Capnp → Bundle → Outcome Bytes
unfolding layer_digests
artifact_bytes cp b = do
  header_bytes ← encode cp (unsigned b.header)
  ok (header_bytes ++ layer_digests b.header.layers)

module _ (cp : Capnp) (sigstore : Sigstore) where
  -- `parse_bundle`, of the signature.
  unfoldable pub parse_sig_bundle : Bytes → Outcome sigstore.SigBundle
  parse_sig_bundle sig_bytes = do
    sig_bundle ←
        ok_or (sigstore.from_slice sig_bytes) (signature_verification "invalid signature JSON")
    ensure (sigstore.validate sig_bundle) (signature_verification "bundle validation")
    ok sig_bundle

  -- The signature is there, is read, and the artifact is made; then sigstore decides.
  unfoldable pub verify_with_policy : Error → VerificationPolicy → Bundle → Outcome (Unit {0})
  unfolding parse_sig_bundle
  verify_with_policy failure policy b = do
    sig_bytes ← ok_or b.header.signature (signature_verification "no signature in bundle")
    sig_bundle ← parse_sig_bundle sig_bytes
    artifact ← artifact_bytes cp b
    root ← ok_or sigstore.trusted_root (signature_verification "trusted root")
    ensure (sigstore.verify artifact sig_bundle policy root) failure

  unfoldable pub verify_signature_opt : Bundle → Bool → Outcome (Unit {0})
  verify_signature_opt b offline =
      verify_with_policy (signature_verification "verification failed")
        (record {
          identity = none;
          issuer = none;
          verify_tlog = not offline;
          verify_timestamp = not offline;
        })
        b

  unfoldable pub verify_with_identity_opt : Bundle → Text → Text → Bool → Outcome (Unit {0})
  verify_with_identity_opt b expected_identity expected_issuer offline =
      verify_with_policy (signature_verification "identity verification failed")
        (record {
          identity = some expected_identity;
          issuer = some expected_issuer;
          verify_tlog = not offline;
          verify_timestamp = not offline;
        })
        b
