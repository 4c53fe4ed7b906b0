-- ===== src/Tests/Signs.antt =====
-- Signing.
use nexpack.Prelude.{
  ℕ, ◌≡◌, refl, ◌↔◌, true, none, some, [], ◌∷◌, ◌++◌, Bytes, get_elem?, Outcome, ok, other, arith,
}
use nexpack.Header.{message, encode}
use nexpack.Header.Wire.{Capnp, Message}
use nexpack.Header.Magic.{magic, find_magic}
use nexpack.Header.RoundTrip.{stored}
use nexpack.Bundle.{parse_bundle, extract_layer, bootstrap_data}
use nexpack.Bundle.Written.{written}
use nexpack.Signing.{
  Sigstore, VerificationPolicy, artifact_bytes, layer_digests, verify_with_policy, parse_sig_bundle,
}
use nexpack.Signing.Sign.{signed, sign_bundle}
use nexpack.Signing.Sign.Kept.{
  Run, signed_file, signed_bundle, sign_bundle_keeps, signed_verifies, signed_bootstrap_lost,
}
use nexpack.Tests.Fixtures.{codec_of, codec_of-IsCodec, two_layers, two_pieces}

abbrev old_header : Bytes
old_header = magic ++ (7 ∷ [])

abbrev signed_message : Message
signed_message = message (signed (1 ∷ []) (stored two_layers 1 5))

abbrev codec : Capnp
codec = codec_of signed_message

abbrev Signed : Message → Type 0
Signed m = m ≡ signed_message

abbrev cosign : Bytes → Outcome Bytes
cosign artifact = ok (1 ∷ [])

abbrev artifact : Bytes
artifact = old_header ++ layer_digests two_layers.layers

made : artifact_bytes codec (written two_layers (5 ∷ []) old_header two_pieces []) ≡ ok artifact
unfolding artifact_bytes encode
made = refl

encoded : encode codec (signed (1 ∷ []) (stored two_layers 1 5)) ≡ ok old_header
unfolding encode
encoded = refl

clean : find_magic (5 ∷ []) ≡ none
unfolding find_magic
clean = refl

abbrev signing : Run codec Signed cosign (λ json. true) two_layers (5 ∷ []) old_header two_pieces []
signing = record {
  artifact = artifact;
  sig_data = 1 ∷ [];
  header_bytes = old_header;
  fresh = refl;
  made = made;
  cosigned = refl;
  json = refl;
  given = omega arith;
  encoded = encoded;
  clean = clean;
  fits = refl;
  sized = (refl, (refl, tt));
  small = omega arith;
  small_signed = omega arith;
}

sign_bundle_keeps_example :
    (sign_bundle codec cosign (λ json. true) (written two_layers (5 ∷ []) old_header two_pieces [])
      ≡ ok (
          some (
            signed_file codec Signed
              (codec_of-IsCodec signed_message)
              cosign
              (λ json. true)
              two_layers
              (5 ∷ [])
              old_header
              two_pieces
              []
              signing)))
    × (parse_bundle codec (
          signed_file codec Signed
            (codec_of-IsCodec signed_message)
            cosign
            (λ json. true)
            two_layers
            (5 ∷ [])
            old_header
            two_pieces
            []
            signing)
        ≡ ok (
            signed_bundle codec Signed
              (codec_of-IsCodec signed_message)
              cosign
              (λ json. true)
              two_layers
              (5 ∷ [])
              old_header
              two_pieces
              []
              signing))
    × (artifact_bytes codec (
          signed_bundle codec Signed
            (codec_of-IsCodec signed_message)
            cosign
            (λ json. true)
            two_layers
            (5 ∷ [])
            old_header
            two_pieces
            []
            signing)
        ≡ ok artifact)
    × ((i : ℕ) (piece : Bytes)
        → get_elem? two_pieces i ≡ some piece
        → extract_layer
            (signed_bundle codec Signed
              (codec_of-IsCodec signed_message)
              cosign
              (λ json. true)
              two_layers
              (5 ∷ [])
              old_header
              two_pieces
              []
              signing)
            i
          ≡ ok piece)
sign_bundle_keeps_example =
    sign_bundle_keeps codec Signed (codec_of-IsCodec signed_message) cosign (λ json. true)
      two_layers (5 ∷ []) old_header two_pieces [] signing

-- A verifier that accepts every artifact.
abbrev sigstore : Sigstore
sigstore = record {
  SigBundle = Bytes;
  TrustedRoot = Unit;
  from_slice = λ sig. some sig;
  validate = λ sig. true;
  trusted_root = some tt;
  verify = λ artifact sig policy root. true;
}

read : parse_sig_bundle codec sigstore (1 ∷ []) ≡ ok (1 ∷ [])
unfolding parse_sig_bundle
read = refl

abbrev policy : VerificationPolicy
policy = record { identity = none; issuer = none; verify_tlog = true; verify_timestamp = true }

signed_verifies_example :
    (verify_with_policy codec sigstore (other "failed") policy (
        signed_bundle codec Signed
          (codec_of-IsCodec signed_message)
          cosign
          (λ json. true)
          two_layers
          (5 ∷ [])
          old_header
          two_pieces
          []
          signing)
      ≡ ok tt)
    ↔ (sigstore.verify artifact (1 ∷ []) policy tt ≡ true)
signed_verifies_example =
    signed_verifies codec Signed (codec_of-IsCodec signed_message) cosign (λ json. true) two_layers
      (5 ∷ []) old_header two_pieces [] signing sigstore (other "failed") policy (1 ∷ []) tt read
      refl

signed_bootstrap_lost_example :
    bootstrap_data (
      signed_bundle codec Signed
        (codec_of-IsCodec signed_message)
        cosign
        (λ json. true)
        two_layers
        (5 ∷ [])
        old_header
        two_pieces
        []
        signing)
    ≡ ok none
signed_bootstrap_lost_example =
    signed_bootstrap_lost codec Signed (codec_of-IsCodec signed_message) cosign (λ json. true)
      two_layers (5 ∷ []) old_header two_pieces [] signing 3 refl (omega arith) (omega arith)
      (omega arith)
