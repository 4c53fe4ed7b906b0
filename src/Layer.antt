-- ===== src/Layer.antt =====
-- nexpack-core/src/layer.rs
use nexpack.Prelude.{
  ℕ, ◌≡◌, Option, none, some, ◌++◌, Text, codes, Bytes, strip_prefix, strip_prefix-append, Outcome,
  ok_or, ◌>>=◌, other,
}

pub record LayerRef : Type 0 where
  pub digest : Text
  pub size : ℕ
  pub role : Text

abbrev pub blake3_prefix : Text
blake3_prefix = codes "blake3:"

-- `s.strip_prefix("blake3:").unwrap_or(s)`, which the update code writes out again.
unfoldable pub strip_blake3 : Text → Text
strip_blake3 s = elim (strip_prefix blake3_prefix s) [ none ↦ s | some hex ↦ hex ]

unfoldable pub digest_hex : LayerRef → Text
unfolding strip_blake3
digest_hex layer = strip_blake3 layer.digest

-- `hex::decode_to_slice` into 32 bytes is the parameter.
unfoldable pub digest_bytes : (Text → Option Bytes) → LayerRef → Outcome Bytes
digest_bytes decode layer = do
  hex ← ok_or (strip_prefix blake3_prefix layer.digest) (other "digest missing blake3: prefix")
  ok_or (decode hex) (other "hex decode")

-- The digest that `format!("blake3:{}", hex)` makes is stripped back to `hex`.
pub strip_blake3-append : (hex : Text) → strip_blake3 (blake3_prefix ++ hex) ≡ hex
unfolding strip_blake3
strip_blake3-append hex = rw (strip_blake3, strip_prefix-append (codes "blake3:") hex)
