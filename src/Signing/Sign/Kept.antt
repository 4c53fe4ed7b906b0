-- ===== src/Signing/Sign/Kept.antt =====
-- A signed file: what `sign_bundle` writes for a file that `pack` wrote.
use nexpack.Prelude.{
  ℕ, suc, ◌+◌, ◌^◌, ◌<◌, ◌≡◌, refl, ap, ◌∙◌, Bool, true, false, ◌↔◌, Error, Option, none, some,
  List, [], ◌∷◌, ◌++◌, append-nil, Bytes, length, length-append, take-append, get_elem?, Outcome,
  ok, arith, ensure,
}
use nexpack.Layer.{LayerRef}
use nexpack.Header.{BundleHeader, message, encode, or_empty, or_zero}
use nexpack.Header.Wire.{Capnp, IsCodec, Message}
use nexpack.Header.Magic.{find_magic}
use nexpack.Header.RoundTrip.{stored, present, present_size}
use nexpack.Bundle.{Bundle, parse_bundle, extract_layer, bootstrap_data}
use nexpack.Bundle.Layers.{concat, Sized}
use nexpack.Bundle.Written.{
  written, parse_bundle-written, extract_layer-written, bootstrap_data-missing,
}
use nexpack.Signing.{
  artifact_bytes, unsigned, Sigstore, VerificationPolicy, verify_with_policy, parse_sig_bundle,
}
use nexpack.Signing.Sign.{signed, stub_of, extract_from, sign_bundle}

-- The header as a file keeps it is signed like the header itself.
or_empty-present {ℓ} : {A : Type ℓ} (o : Option (List A)) → or_empty (present o) ≡ or_empty o
or_empty-present none = refl
or_empty-present (some []) = refl
or_empty-present (some (a ∷ l)) = refl

or_zero-present_size : (o : Option ℕ) → or_zero (present_size o) ≡ or_zero o
or_zero-present_size none = refl
or_zero-present_size (some n) = ground arith

message-stored :
    (h : BundleHeader) (offset encoded_len : ℕ)
    → message (unsigned (stored h offset encoded_len)) ≡ message (unsigned h)
unfolding message
message-stored h offset encoded_len =
    simp (
      or_empty-present h.sbom,
      or_empty-present h.update_url,
      or_zero-present_size h.bootstrap_size,
    )

encode-stored :
    (cp : Capnp) (h : BundleHeader) (offset encoded_len : ℕ)
    → encode cp (unsigned (stored h offset encoded_len)) ≡ encode cp (unsigned h)
unfolding encode
encode-stored cp h offset encoded_len = rw (message-stored h offset encoded_len)

-- All layers, one after the other.
extract_from-eq :
    (b : Bundle) (i : ℕ) (layers : List LayerRef) (pieces : List Bytes)
    → Sized layers pieces
    → ((j : ℕ) (piece : Bytes)
        → get_elem? pieces j ≡ some piece
        → extract_layer b (i + j) ≡ ok piece)
    → extract_from b i layers ≡ ok pieces
unfolding extract_from
extract_from-eq b i [] [] sized each = refl
extract_from-eq b i [] (p ∷ ps) sized each = absurd sized
extract_from-eq b i (l ∷ ls) [] sized each = absurd sized
extract_from-eq b i (l ∷ ls) (p ∷ ps) sized each =
    let here : extract_layer b i ≡ ok p = ap (extract_layer b) (omega arith) ∙ each 0 p refl in
    let next =
      extract_from-eq b (i + 1) ls ps sized.1
        λ j piece at. ap (extract_layer b) (omega arith) ∙ each (suc j) piece at in
    rw (here, next)

stub_of-written :
    (h : BundleHeader) (stub bytes : Bytes) (pieces : List Bytes) (post : Bytes)
    → stub_of (written h stub bytes pieces post) ≡ ok stub
unfolding stub_of
stub_of-written h stub bytes pieces post =
    let rest = bytes ++ (concat pieces ++ post) in
    ground (arith, length-append stub rest, take-append stub rest)

present_given : (b : Bytes) → 0 < length b → present (some b) ≡ some b
present_given [] h = absurd (omega arith)
present_given (x ∷ b) h = refl

present_size_pos : (n : ℕ) → 0 < n → present_size (some n) ≡ some n
present_size_pos n h = ground arith

ensure_iff : (b : Bool) (e : Error) → (ensure b e ≡ ok tt) ↔ (b ≡ true)
ensure_iff true e = (λ _. refl, λ _. refl)
ensure_iff false e = (λ h. absurd cc, λ h. absurd cc)

-- When every step succeeds, the parts are put together.
sign_bundle_steps :
    (cp : Capnp) (cosign : Bytes → Outcome Bytes) (is_json : Bytes → Bool) (b : Bundle)
    (artifact sig_data header_bytes stub : Bytes) (pieces : List Bytes)
    → b.header.signature ≡ none
    → artifact_bytes cp b ≡ ok artifact
    → cosign artifact ≡ ok sig_data
    → is_json sig_data ≡ true
    → encode cp (signed sig_data b.header) ≡ ok header_bytes
    → stub_of b ≡ ok stub
    → extract_from b 0 b.header.layers ≡ ok pieces
    → sign_bundle cp cosign is_json b ≡ ok (some (stub ++ (header_bytes ++ concat pieces)))
unfolding sign_bundle
sign_bundle_steps cp cosign is_json b artifact sig_data header_bytes stub pieces e1 e2 e3 e4 e5 e6
      e7 =
    simp (sign_bundle, e1, e2, e3, e4, e5, e6, e7)

-- What a run of `sign_bundle` on an unsigned bundle went through. `header_bytes` is the new header.
pub record Run (cp : Capnp) (Fits : Message → Type 0) (cosign : Bytes → Outcome Bytes)
    (is_json : Bytes → Bool) (h : BundleHeader) (stub bytes : Bytes) (pieces : List Bytes)
    (post : Bytes) : Type 0 where
  pub artifact : Bytes
  pub sig_data : Bytes
  pub header_bytes : Bytes
  pub fresh : h.signature ≡ none
  pub made : artifact_bytes cp (written h stub bytes pieces post) ≡ ok artifact
  pub cosigned : cosign artifact ≡ ok sig_data
  pub json : is_json sig_data ≡ true
  pub given : 0 < length sig_data
  pub encoded :
      encode cp (signed sig_data (stored h (length stub) (length bytes))) ≡ ok header_bytes
  pub clean : find_magic stub ≡ none
  pub fits : Fits (message (signed sig_data (stored h (length stub) (length bytes))))
  pub sized : Sized h.layers pieces
  pub small : length (stub ++ (bytes ++ (concat pieces ++ post))) < 2 ^ 64
  pub small_signed : length (stub ++ (header_bytes ++ (concat pieces ++ []))) < 2 ^ 64

module _ (cp : Capnp) (Fits : Message → Type 0) (codec : IsCodec cp Fits)
    (cosign : Bytes → Outcome Bytes) (is_json : Bytes → Bool) (h : BundleHeader)
    (stub bytes : Bytes) (pieces : List Bytes) (post : Bytes)
    (r : Run cp Fits cosign is_json h stub bytes pieces post) where
  abbrev pub new_header : BundleHeader
  new_header = signed r.sig_data (stored h (length stub) (length bytes))

  abbrev pub signed_file : Bytes
  signed_file = stub ++ (r.header_bytes ++ (concat pieces ++ []))

  abbrev pub signed_bundle : Bundle
  signed_bundle = written new_header stub r.header_bytes pieces []

  present_fresh : present h.signature ≡ none
  present_fresh = let fresh = r.fresh in rw fresh

  sign_bundle-file :
      sign_bundle cp cosign is_json (written h stub bytes pieces post) ≡ ok (some signed_file)
  sign_bundle-file =
      let cut =
        extract_from-eq (written h stub bytes pieces post) 0 h.layers pieces r.sized λ j piece at.
          ap (extract_layer (written h stub bytes pieces post)) (omega arith)
          ∙ extract_layer-written h stub bytes pieces post r.sized r.small j piece at in
      let front = stub_of-written h stub bytes pieces post in
      sign_bundle_steps cp cosign is_json (written h stub bytes pieces post) r.artifact r.sig_data
        r.header_bytes stub pieces present_fresh r.made r.cosigned r.json r.encoded front cut
      ∙ rw append-nil refl

  artifact_bytes-signed : artifact_bytes cp signed_bundle ≡ ok r.artifact
  unfolding artifact_bytes
  artifact_bytes-signed =
      let new = encode-stored cp new_header (length stub) (length r.header_bytes) in rw new r.made

  -- An unsigned file that is parsed, signed and encoded again, with the limits of `Run`: the signed
  -- file is written and parsed, the artifact that a verifier computes from it is the one that was
  -- signed, and every layer is extracted as before.
  pub sign_bundle_keeps :
      (sign_bundle cp cosign is_json (written h stub bytes pieces post) ≡ ok (some signed_file))
      × (parse_bundle cp signed_file ≡ ok signed_bundle)
      × (artifact_bytes cp signed_bundle ≡ ok r.artifact)
      × ((i : ℕ) (piece : Bytes)
          → get_elem? pieces i ≡ some piece
          → extract_layer signed_bundle i ≡ ok piece)
  sign_bundle_keeps = (
    sign_bundle-file,
    parse_bundle-written cp codec new_header stub r.header_bytes pieces [] r.clean r.fits r.encoded,
    artifact_bytes-signed,
    extract_layer-written new_header stub r.header_bytes pieces [] r.sized r.small_signed,
  )

  signature-signed : signed_bundle.header.signature ≡ some r.sig_data
  signature-signed = present_given r.sig_data r.given

  -- The signed file verifies under a policy exactly if sigstore accepts, under that policy, what
  -- cosign made of the artifact, when the signature is read and there is a trusted root.
  pub signed_verifies :
      (sigstore : Sigstore) (failure : Error) (policy : VerificationPolicy)
      → (sig_bundle : sigstore.SigBundle) (root : sigstore.TrustedRoot)
      → parse_sig_bundle cp sigstore r.sig_data ≡ ok sig_bundle
      → sigstore.trusted_root ≡ some root
      → (verify_with_policy cp sigstore failure policy signed_bundle ≡ ok tt)
        ↔ (sigstore.verify r.artifact sig_bundle policy root ≡ true)
  unfolding verify_with_policy artifact_bytes
  signed_verifies sigstore failure policy sig_bundle root parsed trusted =
      let there = signature-signed in
      let artifact = artifact_bytes-signed in rw (there, parsed, artifact, trusted) (ensure_iff _ _)

  -- The bootstrap block is not in the signed file, while its header keeps the size: if there was one,
  -- of fewer than 2 ^ 63 bytes, the readers find no bootstrap in the signed file.
  pub signed_bootstrap_lost :
      (n : ℕ)
      → h.bootstrap_size ≡ some n
      → 0 < n
      → n < 2 ^ 63
      → length signed_file < 2 ^ 63
      → bootstrap_data signed_bundle ≡ ok none
  signed_bootstrap_lost n size positive few small =
      bootstrap_data-missing new_header stub r.header_bytes pieces r.sized n
        (ap present_size size ∙ present_size_pos n positive) positive small few
