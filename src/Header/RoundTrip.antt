-- ===== src/Header/RoundTrip.antt =====
-- `parse` after `encode`: what a written header reads back as, and where.
use nexpack.Prelude.{
  ℕ, ◌+◌, Option-cases, inl, inr, drop-append_add, ◌∙◌, ◌≡◌, refl, ap, Option, none, some, List, [],
  ◌∷◌, ◌++◌, map, Text, Bytes, length, ok, arith, ◌==◌, if◌then◌else◌,
}
use nexpack.Header.Wire.{text, value, Capnp, IsCodec, Message}
use nexpack.Header.Magic.{magic, find_magic, find_magic-append}
use nexpack.Layer.{LayerRef}
use nexpack.Permission.{PermissionValue, bool, patterns, PermissionSet}
use nexpack.Header.{
  BundleHeader, read_texts, read_layers, read_network, read_permissions, non_empty, read_header,
  or_empty, or_zero, raw_layer, raw_network, raw_permissions, message, encode, parse,
}

-- The header as a file keeps it: an empty signature, SBOM or URL and a bootstrap of size 0 count
-- as absent, and the position is where it was found.
abbrev pub present {ℓ} : {A : Type ℓ} → Option (List A) → Option (List A)
present none = none
present (some []) = none
present (some (a ∷ l)) = some (a ∷ l)

abbrev pub present_size : Option ℕ → Option ℕ
present_size none = none
present_size (some n) = if n == 0 then none else some n

abbrev pub stored : BundleHeader → ℕ → ℕ → BundleHeader
stored h offset encoded_len = record h {
  signature = present h.signature;
  sbom = present h.sbom;
  update_url = present h.update_url;
  bootstrap_size = present_size h.bootstrap_size;
  offset = offset;
  encoded_len = encoded_len;
}

read_texts-map : (l : List Text) → read_texts (map text l) ≡ l
unfolding read_texts
read_texts-map [] = refl
read_texts-map (t ∷ l) = ap (λ r. t ∷ r) (read_texts-map l)

read_layers-map : (l : List LayerRef) → read_layers (map raw_layer l) ≡ ok l
unfolding read_layers
read_layers-map [] = refl
read_layers-map (x ∷ l) = rw (read_layers-map l)

read_network-raw : (v : PermissionValue) → read_network (raw_network v) ≡ ok v
unfolding read_network
read_network-raw (bool b) = refl
read_network-raw (patterns p) = rw read_texts-map

read_permissions-raw : (p : PermissionSet) → read_permissions (raw_permissions p) ≡ ok p
unfolding read_permissions
read_permissions-raw p = simp (read_network-raw, read_texts-map)

non_empty-or_empty {ℓ} : {A : Type ℓ} (o : Option (List A)) → non_empty (or_empty o) ≡ present o
unfolding non_empty
non_empty-or_empty none = refl
non_empty-or_empty (some []) = refl
non_empty-or_empty (some (a ∷ l)) = refl

size-or_zero : (o : Option ℕ) → (if or_zero o == 0 then none else some (or_zero o)) ≡ present_size o
size-or_zero none = refl
size-or_zero (some n) = refl

read_header-message :
    (h : BundleHeader) (offset encoded_len : ℕ)
    → read_header (message h) offset encoded_len ≡ ok (stored h offset encoded_len)
unfolding read_header message
read_header-message h offset encoded_len =
    simp (read_layers-map, read_permissions-raw, non_empty-or_empty, size-or_zero)

encode-eq-ok :
    (cp : Capnp) (h : BundleHeader) (bytes : Bytes)
    → encode cp h ≡ ok bytes
    → (body : Bytes) × (cp.write_message (message h) ≡ some body) × (bytes ≡ magic ++ body)
unfolding encode
encode-eq-ok cp h bytes e = elim (Option-cases (cp.write_message (message h))) [
  | inl none_e ↦ absurd (cc)
  | inr (body, some_e) ↦ (body, some_e, ground arith)
]

parse_at :
    (cp : Capnp) (stub tail : Bytes) (m : Message) (n : ℕ)
    → find_magic stub ≡ none
    → cp.read_message tail ≡ some (value m, n)
    → parse cp (stub ++ (magic ++ tail)) ≡ read_header m (length stub) (4 + n)
unfolding parse
parse_at cp stub tail m n clean e =
    rw (find_magic-append stub tail clean, drop-append_add stub (magic ++ tail) 4, e)

length-magic : (body : Bytes) → 4 + length body ≡ length (magic ++ body)
length-magic body = omega arith

module _ (cp : Capnp) {Fits : Message → Type 0} (codec : IsCodec cp Fits) where
  -- A header encoded behind any bytes without the magic, and with anything after it, is parsed
  -- back: its fields as they are stored, at the offset and with the length that it was written.
  pub parse-encode :
      (h : BundleHeader) (stub bytes rest : Bytes)
      → find_magic stub ≡ none
      → Fits (message h)
      → encode cp h ≡ ok bytes
      → parse cp (stub ++ (bytes ++ rest)) ≡ ok (stored h (length stub) (length bytes))
  parse-encode h stub bytes rest clean fits e =
      let (body, wrote, shape) = encode-eq-ok cp h bytes e in
      let read_back = codec.read-write (message h) body rest fits wrote in
      rw shape (
        parse_at cp stub (body ++ rest) (message h) (length body) clean read_back
        ∙ rw (read_header-message h (length stub) (4 + length body), length-magic body))
