-- ===== src/Bundle/Layers.antt =====
-- `extract_layer`: the layers of a well-formed file come out as they were written, an extracted
-- layer has the size that the header gives, and sizes that overflow make it panic.
use nexpack.Prelude.{
  ℕ, zero, suc, ◌+◌, ◌-◌, ◌^◌, ◌≤◌, ◌<◌, ◌≡◌, refl, ap, sym, some, List, [], ◌∷◌, ◌++◌, Bytes, take,
  drop, length, slice, get_elem?, append_assoc, length-append, take-append, drop-append,
  length-take, length-drop, ok, panic, arith, ◌∙◌,
}
use nexpack.Layer.{LayerRef}
use nexpack.Bundle.{Bundle, wrap, layers_offset, add_sizes, extract_layer, cut_layer}

-- The layers' data one after the other, as `pack` writes them.
abbrev pub concat : List Bytes → Bytes
concat [] = []
concat (p ∷ ps) = p ++ concat ps

-- The header's sizes are those of the data.
abbrev pub Sized : List LayerRef → List Bytes → Type 0
Sized [] [] = Unit
Sized (l ∷ ls) (p ∷ ps) = (l.size ≡ length p) × Sized ls ps
Sized _ _ = ⊥

-- Where layer `i` lies, behind the bytes `pre`.
record Located (pre rest : Bytes) (layers : List LayerRef) (i : ℕ) (piece : Bytes) : Type 0 where
  layer : LayerRef
  found : get_elem? layers i ≡ some layer
  size : layer.size ≡ length piece
  before : Bytes
  after : Bytes
  offset : add_sizes (length pre) (take i layers) ≡ length before
  split : pre ++ rest ≡ before ++ (piece ++ after)

pub wrap-length :
    (pre p post : Bytes) (size : ℕ)
    → size ≡ length p
    → length ((pre ++ p) ++ post) < 2 ^ 64
    → wrap (length pre + size) ≡ length (pre ++ p)
wrap-length pre p post size e small =
    omega (arith, length-append (pre ++ p) post, length-append pre p)

locate :
    (pre post : Bytes) (layers : List LayerRef) (pieces : List Bytes) (i : ℕ) (piece : Bytes)
    → Sized layers pieces
    → length (pre ++ (concat pieces ++ post)) < 2 ^ 64
    → get_elem? pieces i ≡ some piece
    → Located pre (concat pieces ++ post) layers i piece
unfolding add_sizes
locate pre post [] [] i piece sized small at = absurd (cc)
locate pre post [] (p ∷ ps) i piece sized small at = absurd sized
locate pre post (l ∷ ls) [] i piece sized small at = absurd sized
locate pre post (l ∷ ls) (p ∷ ps) zero piece sized small at = record {
  layer = l;
  found = refl;
  size = ground arith;
  before = pre;
  after = concat ps ++ post;
  offset = refl;
  split = let same : p ≡ piece = cc in rw same (rw append_assoc);
}
locate pre post (l ∷ ls) (p ∷ ps) (suc i) piece sized small at =
    let shape : pre ++ ((p ++ concat ps) ++ post) ≡ (pre ++ p) ++ (concat ps ++ post) =
      simp append_assoc in
    let small' : length ((pre ++ p) ++ (concat ps ++ post)) < 2 ^ 64 = rw shape at small in
    let next = locate (pre ++ p) post ls ps i piece sized.1 small' at in
    record {
      layer = next.layer;
      found = next.found;
      size = next.size;
      before = next.before;
      after = next.after;
      offset =
          ap (λ o. add_sizes o (take i ls))
            (wrap-length pre p (concat ps ++ post) l.size sized.0 small')
          ∙ next.offset;
      split = shape ∙ next.split;
    }

-- What the slice of a piece between what is before and after it gives.
pub slice-append :
    (before piece after : Bytes)
    → slice (length before) (length before + length piece) (before ++ (piece ++ after)) ≡ piece
slice-append before piece after =
    let width : length before + length piece - length before ≡ length piece = omega arith in
    rw (drop-append before (piece ++ after), width, take-append piece after)

extract_at :
    (b : Bundle) (i : ℕ) (layer : LayerRef)
    → get_elem? b.header.layers i ≡ some layer
    → extract_layer b i
      ≡ cut_layer b.contents (add_sizes (layers_offset b) (take i b.header.layers)) layer.size
unfolding extract_layer cut_layer
extract_at b i layer found = rw (extract_layer, found)

cut_layer-slice :
    (contents : Bytes) (offset size : ℕ)
    → offset + size ≤ length contents
    → length contents < 2 ^ 64
    → cut_layer contents offset size ≡ ok (slice offset (offset + size) contents)
unfolding cut_layer
cut_layer-slice contents offset size inside small =
    let end : wrap (offset + size) ≡ offset + size = omega arith in rw end (ground arith)

cut_layer_bounds :
    (contents : Bytes) (offset size : ℕ) (piece : Bytes)
    → offset < 2 ^ 64
    → size < 2 ^ 64
    → cut_layer contents offset size ≡ ok piece
    → (length piece ≡ size)
      × (offset + size ≤ length contents)
      × (wrap (offset + size) ≡ offset + size)
unfolding cut_layer
cut_layer_bounds contents offset size piece ho hs h =
    let end = wrap (offset + size) in
    ground (arith, length-take (end - offset) (drop offset contents), length-drop offset contents)

cut_layer_sound :
    (contents : Bytes) (offset size : ℕ) (piece : Bytes)
    → offset < 2 ^ 64
    → size < 2 ^ 64
    → cut_layer contents offset size ≡ ok piece
    → (length piece ≡ size)
      × (offset + size ≤ length contents)
      × (piece ≡ take size (drop offset contents))
unfolding cut_layer
cut_layer_sound contents offset size piece ho hs h =
    let (sized, inside, end) = cut_layer_bounds contents offset size piece ho hs h in
    let width : offset + size - offset ≡ size = omega arith in
    let cut : piece ≡ take (offset + size - offset) (drop offset contents) =
      (let h' = rw end at h in ground arith) in
    (sized, inside, rw width at cut)

located_cut :
    (before piece after : Bytes)
    → length (before ++ (piece ++ after)) < 2 ^ 64
    → cut_layer (before ++ (piece ++ after)) (length before) (length piece) ≡ ok piece
located_cut before piece after small =
    cut_layer-slice _ (length before) (length piece)
      (omega (arith, length-append before (piece ++ after), length-append piece after)) small
    ∙ ap ok (slice-append before piece after)

module _ (b : Bundle) (pre post : Bytes) (pieces : List Bytes) where
  -- In a file where the layers' data follow one another from the header's end on, with the sizes
  -- that the header gives and fewer than 2 ^ 64 bytes in all, layer `i` is extracted as its data.
  pub extract_layer-concat :
      (i : ℕ) (piece : Bytes)
      → b.contents ≡ pre ++ (concat pieces ++ post)
      → layers_offset b ≡ length pre
      → Sized b.header.layers pieces
      → length b.contents < 2 ^ 64
      → get_elem? pieces i ≡ some piece
      → extract_layer b i ≡ ok piece
  extract_layer-concat i piece layout start sized small at =
      let found = locate pre post b.header.layers pieces i piece sized (rw layout at small) at in
      let shape = layout ∙ found.split in
      let cut = extract_at b i found.layer found.found in
      let place = ap (λ o. add_sizes o (take i b.header.layers)) start ∙ found.offset in
      rw (cut, place, found.size, shape)
        (located_cut found.before piece found.after (rw shape at small))

cut_layer_panic :
    (contents : Bytes) (offset size : ℕ)
    → 2 ^ 64 ≤ offset + size
    → offset < 2 ^ 64
    → size < 2 ^ 64
    → offset + size ≤ 2 ^ 64 + length contents
    → cut_layer contents offset size ≡ panic
unfolding cut_layer
cut_layer_panic contents offset size over ho hs inside = ground arith

-- Offsets stay below 2 ^ 64.
add_sizes-lt : (off : ℕ) (layers : List LayerRef) → off < 2 ^ 64 → add_sizes off layers < 2 ^ 64
unfolding add_sizes
add_sizes-lt off [] h = h
add_sizes-lt off (l ∷ ls) h = add_sizes-lt (wrap (off + l.size)) ls (omega arith)

module _ (b : Bundle) (i : ℕ) (layer : LayerRef)
    (found : get_elem? b.header.layers i ≡ some layer) where
  offset_lt : add_sizes (layers_offset b) (take i b.header.layers) < 2 ^ 64
  unfolding layers_offset
  offset_lt = add_sizes-lt (layers_offset b) (take i b.header.layers) (omega arith)

  -- Whatever the header and the file hold, a layer that is extracted has the size that the header
  -- gives (a `u64`), lies inside the file, and is the bytes of the file at the offset that the sizes
  -- before it add up to.
  pub extract_layer_sound :
      (piece : Bytes)
      → layer.size < 2 ^ 64
      → extract_layer b i ≡ ok piece
      → (length piece ≡ layer.size)
        × (add_sizes (layers_offset b) (take i b.header.layers) + layer.size ≤ length b.contents)
        × (piece
            ≡ take layer.size
                (drop (add_sizes (layers_offset b) (take i b.header.layers)) b.contents))
  extract_layer_sound piece small h =
      cut_layer_sound b.contents _ layer.size piece offset_lt small
        (sym (extract_at b i layer found) ∙ h)

  -- Where the end of a layer passes 2 ^ 64 and wraps to a position inside the file, the bounds
  -- check lets it through and the slice panics.
  pub extract_layer_panic :
      2 ^ 64 ≤ add_sizes (layers_offset b) (take i b.header.layers) + layer.size
      → layer.size < 2 ^ 64
      → add_sizes (layers_offset b) (take i b.header.layers) + layer.size
        ≤ 2 ^ 64 + length b.contents
      → extract_layer b i ≡ panic
  extract_layer_panic over small inside =
      extract_at b i layer found ∙ cut_layer_panic _ _ _ over offset_lt small inside
