-- ===== src/Store/Sound.antt =====
-- Every image in the store hashes to the digest in its folder's name, and `store_layer` keeps it so.
use nexpack.Prelude.{
  ◌≡◌, refl, subst, sym, ap, ◌∙◌, true, Option, none, some, List, [], ◌∷◌, Text, text_eq,
  text_eq_iff, text_eq_refl, Bool-cases, inl, inr, Bytes, All, Outcome, ok,
}
use nexpack.Prelude.Dict
use nexpack.Layer.{LayerRef, digest_hex}
use nexpack.Store.{
  Store, Disk, Effect, done, failed, layer_name, is_image, has_layer, write_layer, store_layer,
}

-- The result of an operation, with the store it leaves.
abbrev pub Ended : Type 0
Ended = Outcome (Unit {0}) × Store

has_layer-insert :
    (s : Store) (hex hex' : Text) (image : Bytes)
    → has_layer s hex' ≡ true
    → has_layer (record s { layers = Dict.insert (layer_name hex) (some image) s.layers }) hex'
      ≡ true
unfolding has_layer
has_layer-insert s hex hex' image there =
    let inserted = Dict.lookup-insert (layer_name hex') (layer_name hex) (some image) s.layers in
    elim (Bool-cases (text_eq (layer_name hex) (layer_name hex'))) [
      | inl same ↦ ap is_image (rw same at inserted)
      | inr different ↦ ap is_image (rw different at inserted) ∙ there
    ]

has_layer-insert_self :
    (s : Store) (hex : Text) (image : Bytes)
    → has_layer (record s { layers = Dict.insert (layer_name hex) (some image) s.layers }) hex
      ≡ true
unfolding has_layer
has_layer-insert_self s hex image =
    let inserted = Dict.lookup-insert (layer_name hex) (layer_name hex) (some image) s.layers in
    ap is_image (rw (text_eq_refl (layer_name hex)) at inserted)

pub layer_name-injective : (x y : Text) → layer_name x ≡ layer_name y → x ≡ y
layer_name-injective x y h = cc

module _ (blake3_hex : Bytes → Text) where
  abbrev pub IsSound : Store → Type 0
  IsSound s =
      (name : Text) (image : Bytes)
      → Dict.lookup name s.layers ≡ some (some image)
      → name ≡ layer_name (blake3_hex image)

  -- The store has the layer's image, with the digest that the layer is known by.
  abbrev pub Holds : Store → LayerRef → Type 0
  Holds s layer =
      (image : Bytes) × (Dict.lookup (layer_name (digest_hex layer)) s.layers ≡ some (some image))
      × (blake3_hex image ≡ digest_hex layer)

  -- From one store to a later one: sound if it was, and nothing is lost.
  abbrev pub Grows : Store → Store → Type 0
  Grows s s' =
      (IsSound s → IsSound s') × ((hex : Text) → has_layer s hex ≡ true → has_layer s' hex ≡ true)

  pub Grows-trans : (s t u : Store) → Grows s t → Grows t u → Grows s u
  Grows-trans s t u (f, g) (f', g') = (λ h. f' (f h), λ hex h. g' hex (g hex h))

  pub insert_sound :
      (s : Store) (hex : Text) (image : Bytes)
      → blake3_hex image ≡ hex
      → IsSound s
      → (name : Text) (other : Bytes)
      → Dict.lookup name (Dict.insert (layer_name hex) (some image) s.layers) ≡ some (some other)
      → name ≡ layer_name (blake3_hex other)
  insert_sound s hex image hash sound name other at =
      let found : Option (Option Bytes) = Dict.lookup name s.layers in
      let inserted = Dict.lookup-insert name (layer_name hex) (some image) s.layers in
      elim (Bool-cases (text_eq (layer_name hex) name)) [
        | inl same ↦
            let here : layer_name hex ≡ name = (text_eq_iff (layer_name hex) name).0 same in
            let e : ◌≡◌ {A = Option (Option Bytes)} (some (some image)) (some (some other)) =
              sym (inserted ∙ rw same refl) ∙ at in
            let e' : image ≡ other = cc in sym here ∙ ap layer_name (sym hash ∙ ap blake3_hex e')
        | inr different ↦ sound name other (sym (inserted ∙ rw different refl) ∙ at)
      ]

  -- All of this is about the layers alone.
  pub same_layers :
      (s t : Store) (layers : List LayerRef)
      → t.layers ≡ s.layers
      → IsSound s × All (Holds s) layers
      → IsSound t × All (Holds t) layers
  same_layers s t layers e h =
      subst
        (λ held.
          IsSound (record t { layers = held }) × All (Holds (record t { layers = held })) layers)
        (sym e) h

  found-image :
      (o : Option (Option Bytes)) → is_image o ≡ true → (image : Bytes) × (o ≡ some (some image))
  found-image none h = absurd cc
  found-image (some none) h = absurd cc
  found-image (some (some image)) h = (image, refl)

  pub has_layer-Holds :
      (s : Store) (layer : LayerRef)
      → IsSound s
      → has_layer s (digest_hex layer) ≡ true
      → Holds s layer
  unfolding has_layer
  has_layer-Holds s layer sound h =
      let (image, at) = found-image (Dict.lookup (layer_name (digest_hex layer)) s.layers) h in
      let name = sound (layer_name (digest_hex layer)) image at in
      (image, at, sym (layer_name-injective (digest_hex layer) (blake3_hex image) name))

  pub has_layers_held :
      (s : Store) (layers : List LayerRef)
      → IsSound s
      → All (λ layer. has_layer s (digest_hex layer) ≡ true) layers
      → All (Holds s) layers
  has_layers_held s [] sound h = tt
  has_layers_held s (layer ∷ layers) sound (here, there) =
      (has_layer-Holds s layer sound here, has_layers_held s layers sound there)

  module _ (disk : Disk) where
    write_layer-ok :
        (w : Effect Bytes) (image : Bytes) (hex : Text) (s : Store)
        → blake3_hex image ≡ hex
        → (write_layer w image hex s).0 ≡ ok tt
        → Grows s (write_layer w image hex s).1
          × (has_layer (write_layer w image hex s).1 hex ≡ true)
    unfolding write_layer has_layer
    write_layer-ok (failed left) image hex s hash h = absurd cc
    write_layer-ok done image hex s hash h = (
      (
        λ sound name other at. insert_sound s hex image hash sound name other at,
        λ hex' there. has_layer-insert s hex hex' image there,
      ),
      has_layer-insert_self s hex image,
    )

    -- A step of `install` that ends well: the store grows.
    pub store_layer-ok :
        (image : Bytes) (hex : Text) (s : Store)
        → blake3_hex image ≡ hex
        → (store_layer disk image hex s).0 ≡ ok tt
        → Grows s (store_layer disk image hex s).1
          × (has_layer (store_layer disk image hex s).1 hex ≡ true)
    unfolding store_layer
    store_layer-ok image hex s hash h = elim (Bool-cases (disk.make_layer_dir hex)) [
      | inl made ↦ rw made (write_layer-ok (disk.write_image hex) image hex s hash (rw made at h))
      | inr unmade ↦ absurd (let h' = rw unmade at h in cc)
    ]
