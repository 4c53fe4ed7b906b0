-- ===== src/Bundle/Written.antt =====
-- A file made of a stub, an encoded header, the layers' data and something behind them, as `pack`,
-- `sign` and `export` write it: what `Bundle` finds in it.
use nexpack.Prelude.{
  ℕ, ◌+◌, ◌^◌, ◌<◌, ◌≡◌, sym, ap, ◌∙◌, Option, none, some, List, [], ◌∷◌, ◌++◌, append_assoc,
  append-nil, Text, Bytes, length, length-append, get_elem?, ok, arith,
}
use nexpack.Layer.{LayerRef, digest_hex}
use nexpack.Header.{BundleHeader, message, encode}
use nexpack.Header.Wire.{Capnp, IsCodec, Message}
use nexpack.Header.Magic.{find_magic}
use nexpack.Header.RoundTrip.{stored, present_size, parse-encode}
use nexpack.Verify.{verify_layers, verify_layers_iff}
use nexpack.Bundle.{
  Bundle, wrap, parse_bundle, layers_offset, add_sizes, layers_end, extract_layer, bootstrap_data,
  cut_bootstrap,
}
use nexpack.Bundle.Layers.{concat, Sized, extract_layer-concat, wrap-length, slice-append}

-- The sizes of all layers, added up without a wrap.
add_sizes-concat :
    (pre post : Bytes) (layers : List LayerRef) (pieces : List Bytes)
    → Sized layers pieces
    → length (pre ++ (concat pieces ++ post)) < 2 ^ 64
    → add_sizes (length pre) layers ≡ length pre + length (concat pieces)
unfolding add_sizes
add_sizes-concat pre post [] [] sized small = omega arith
add_sizes-concat pre post [] (p ∷ ps) sized small = absurd sized
add_sizes-concat pre post (l ∷ ls) [] sized small = absurd sized
add_sizes-concat pre post (l ∷ ls) (p ∷ ps) sized small =
    let shape : pre ++ ((p ++ concat ps) ++ post) ≡ (pre ++ p) ++ (concat ps ++ post) =
      simp append_assoc in
    let small' : length ((pre ++ p) ++ (concat ps ++ post)) < 2 ^ 64 = rw shape at small in
    let rest = add_sizes-concat (pre ++ p) post ls ps sized.1 small' in
    ap (λ o. add_sizes o ls) (wrap-length pre p (concat ps ++ post) l.size sized.0 small')
    ∙ rest
    ∙ omega (arith, length-append pre p, length-append p (concat ps))

-- The bundle that stands in the file.
abbrev pub written : BundleHeader → Bytes → Bytes → List Bytes → Bytes → Bundle
written h stub bytes pieces post = record {
  header = stored h (length stub) (length bytes);
  contents = stub ++ (bytes ++ (concat pieces ++ post));
}

module _ (cp : Capnp) {Fits : Message → Type 0} (codec : IsCodec cp Fits) where
  pub parse_bundle-written :
      (h : BundleHeader) (stub bytes : Bytes) (pieces : List Bytes) (post : Bytes)
      → find_magic stub ≡ none
      → Fits (message h)
      → encode cp h ≡ ok bytes
      → parse_bundle cp (stub ++ (bytes ++ (concat pieces ++ post)))
        ≡ ok (written h stub bytes pieces post)
  unfolding parse_bundle
  parse_bundle-written h stub bytes pieces post clean fits e =
      rw (parse-encode cp codec h stub bytes (concat pieces ++ post) clean fits e)

module _ (h : BundleHeader) (stub bytes : Bytes) (pieces : List Bytes) (post : Bytes)
    (sized : Sized h.layers pieces)
    (small : length (stub ++ (bytes ++ (concat pieces ++ post))) < 2 ^ 64) where
  layout : stub ++ (bytes ++ (concat pieces ++ post)) ≡ (stub ++ bytes) ++ (concat pieces ++ post)
  layout = sym (append_assoc stub bytes (concat pieces ++ post))

  lengths :
      length stub + length bytes + length (concat pieces) + length post
      ≡ length (stub ++ (bytes ++ (concat pieces ++ post)))
  lengths = omega (
    arith,
    length-append stub (bytes ++ (concat pieces ++ post)),
    length-append bytes (concat pieces ++ post),
    length-append (concat pieces) post,
  )

  layers_offset-written : layers_offset (written h stub bytes pieces post) ≡ length (stub ++ bytes)
  unfolding layers_offset
  layers_offset-written = omega (arith, lengths, length-append stub bytes)

  pub extract_layer-written :
      (i : ℕ) (piece : Bytes)
      → get_elem? pieces i ≡ some piece
      → extract_layer (written h stub bytes pieces post) i ≡ ok piece
  extract_layer-written i piece at =
      extract_layer-concat (written h stub bytes pieces post) (stub ++ bytes) post pieces i piece
        layout layers_offset-written sized small at

  pub layers_end-written :
      layers_end (written h stub bytes pieces post)
      ≡ length (stub ++ bytes) + length (concat pieces)
  unfolding layers_end
  layers_end-written =
      ap (λ o. add_sizes o h.layers) layers_offset-written
      ∙ add_sizes-concat (stub ++ bytes) post h.layers pieces sized (rw layout at small)

  -- The layers verify if each digest is the hash of its data.
  pub verify_layers-written :
      (blake3_hex : Bytes → Text)
      → ((i : ℕ) (layer : LayerRef)
          → get_elem? h.layers i ≡ some layer
          → (piece : Bytes) × (get_elem? pieces i ≡ some piece)
            × (blake3_hex piece ≡ digest_hex layer))
      → verify_layers blake3_hex (written h stub bytes pieces post) ≡ ok tt
  verify_layers-written blake3_hex hashed =
      (verify_layers_iff blake3_hex (written h stub bytes pieces post)).1 λ i layer at.
        let (piece, there, hash) = hashed i layer at in
        (piece, extract_layer-written i piece there, hash)

-- The bootstrap is cut out behind the layers.
cut_bootstrap-append :
    (before boot tail : Bytes)
    → 0 < length boot
    → length (before ++ (boot ++ tail)) < 2 ^ 64
    → cut_bootstrap (before ++ (boot ++ tail)) (length before) (length boot) ≡ ok (some boot)
unfolding cut_bootstrap
cut_bootstrap-append before boot tail positive small =
    let total = length-append before (boot ++ tail) in
    let inner = length-append boot tail in
    let end : wrap (length before + length boot) ≡ length before + length boot =
      omega (arith, total, inner) in
    rw end (ground (arith, total, inner, slice-append before boot tail))

-- There is no bootstrap in a file that ends where it would begin.
cut_bootstrap_end :
    (contents : Bytes) (n : ℕ)
    → n < 2 ^ 63
    → length contents < 2 ^ 63
    → cut_bootstrap contents (length contents) n ≡ ok none
unfolding cut_bootstrap
cut_bootstrap_end contents n few small = ground arith

bootstrap_data_found :
    (b : Bundle) (n : ℕ)
    → b.header.bootstrap_size ≡ some n
    → bootstrap_data b ≡ cut_bootstrap b.contents (layers_end b) n
unfolding bootstrap_data
bootstrap_data_found b n size = simp (bootstrap_data, size)

present_size_pos : (o : Option ℕ) (n : ℕ) → o ≡ some n → 0 < n → present_size o ≡ some n
present_size_pos none n e h = cc
present_size_pos (some m) n e h = ground arith

module _ (h : BundleHeader) (stub bytes : Bytes) (pieces : List Bytes)
    (sized : Sized h.layers pieces) (n : ℕ) (size : h.bootstrap_size ≡ some n)
    (positive : 0 < n) where
  -- The search for the bootstrap begins where the layers end.
  bootstrap_data-cut :
      (post : Bytes)
      → length (stub ++ (bytes ++ (concat pieces ++ post))) < 2 ^ 64
      → bootstrap_data (written h stub bytes pieces post)
        ≡ cut_bootstrap
            (((stub ++ bytes) ++ concat pieces) ++ post)
            (length ((stub ++ bytes) ++ concat pieces))
            n
  bootstrap_data-cut post small =
      let shape : stub ++ (bytes ++ (concat pieces ++ post))
          ≡ ((stub ++ bytes) ++ concat pieces) ++ post =
        simp append_assoc in
      let end = layers_end-written h stub bytes pieces post sized small in
      bootstrap_data_found (written h stub bytes pieces post) n
        (present_size_pos h.bootstrap_size n size positive)
      ∙ rw (end, shape, length-append (stub ++ bytes) (concat pieces))

  pub bootstrap_data-written :
      (boot tail : Bytes)
      → length (stub ++ (bytes ++ (concat pieces ++ (boot ++ tail)))) < 2 ^ 64
      → n ≡ length boot
      → bootstrap_data (written h stub bytes pieces (boot ++ tail)) ≡ ok (some boot)
  bootstrap_data-written boot tail small e =
      let shape : stub ++ (bytes ++ (concat pieces ++ (boot ++ tail)))
          ≡ ((stub ++ bytes) ++ concat pieces) ++ (boot ++ tail) =
        simp append_assoc in
      bootstrap_data-cut (boot ++ tail) small
      ∙ rw e (
          cut_bootstrap-append ((stub ++ bytes) ++ concat pieces) boot tail (rw e at positive)
            (rw shape at small))

  pub bootstrap_data-missing :
      length (stub ++ (bytes ++ (concat pieces ++ []))) < 2 ^ 63
      → n < 2 ^ 63
      → bootstrap_data (written h stub bytes pieces []) ≡ ok none
  bootstrap_data-missing small few =
      let before = (stub ++ bytes) ++ concat pieces in
      let shape : stub ++ (bytes ++ (concat pieces ++ [])) ≡ before =
        simp (append_assoc, append-nil) in
      bootstrap_data-cut [] (omega arith)
      ∙ rw (append-nil before) (cut_bootstrap_end before n few (rw shape at small))
