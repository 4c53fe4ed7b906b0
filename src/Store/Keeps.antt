-- ===== src/Store/Keeps.antt =====
-- The store stays sound also when an operation fails, if a write that fails leaves no image.
use nexpack.Prelude.{
  ◌≡◌, refl, sym, ◌∙◌, Bool, Bool-cases, inl, inr, ◌||◌, not, Option, none, some, [], Text, text_eq,
  Bytes, Outcome, ok, err, panic,
}
use nexpack.Prelude.Dict
use nexpack.Store.{
  Store, Disk, Effect, done, failed, layer_name, write_layer, store_layer, reachable, contains, gc,
}
use nexpack.Store.Install.{next}
use nexpack.Store.Sound.{IsSound, insert_sound, same_layers}
use nexpack.Store.Collect.{lookup-gc}

-- A failed write leaves no file. (`std::fs::write` may also leave a part of one, which is then no image
-- of its digest and is taken for one from then on.)
abbrev pub IsAtomic : Disk → Type 0
IsAtomic disk =
    (hex : Text) (left : Option Bytes) → disk.write_image hex ≡ failed left → left ≡ none

-- A property of the store holds after two steps if the first keeps it, and the second does where it
-- is reached.
pub next_keeps {ℓ κ ι} :
    {A : Type ℓ} {B : Type κ} (P : Store → Type ι) (r : Outcome A × Store)
    (f : A → Store → Outcome B × Store)
    → P r.1
    → ((a : A) → r.0 ≡ ok a → P (f a r.1).1)
    → P (next r f).1
unfolding next
next_keeps P (ok a, s) f h k = k a refl
next_keeps P (err e, s) f h k = h
next_keeps P (panic, s) f h k = h

module _ (blake3_hex : Bytes → Text) where
  pub IsSound-same :
      (s t : Store) → t.layers ≡ s.layers → IsSound blake3_hex s → IsSound blake3_hex t
  IsSound-same s t e sound = (same_layers blake3_hex s t [] e (sound, tt)).0

  -- A folder without an image does no harm.
  empty-IsSound :
      (s : Store) (name : Text)
      → IsSound blake3_hex s
      → IsSound blake3_hex (record s { layers = Dict.insert name none s.layers })
  empty-IsSound s name sound other image at =
      let inserted = Dict.lookup-insert other name none s.layers in
      elim (Bool-cases (text_eq name other)) [
        | inl same ↦
            let e : ◌≡◌ {A = Option (Option Bytes)} (some none) (some (some image)) =
              sym (inserted ∙ rw same refl) ∙ at in
            absurd cc
        | inr different ↦ sound other image (sym (inserted ∙ rw different refl) ∙ at)
      ]

  module _ (disk : Disk) (atomic : IsAtomic disk) where
    write_layer_keeps :
        (w : Effect Bytes) (image : Bytes) (hex : Text) (s : Store)
        → ((left : Option Bytes) → w ≡ failed left → left ≡ none)
        → blake3_hex image ≡ hex
        → IsSound blake3_hex s
        → IsSound blake3_hex (write_layer w image hex s).1
    unfolding write_layer
    write_layer_keeps done image hex s clean hash sound =
        λ name other at. insert_sound blake3_hex s hex image hash sound name other at
    write_layer_keeps (failed left) image hex s clean hash sound =
        rw (clean left refl) (empty-IsSound s (layer_name hex) sound)

    pub store_layer_keeps :
        (image : Bytes) (hex : Text) (s : Store)
        → blake3_hex image ≡ hex
        → IsSound blake3_hex s
        → IsSound blake3_hex (store_layer disk image hex s).1
    unfolding store_layer
    store_layer_keeps image hex s hash sound = elim (Bool-cases (disk.make_layer_dir hex)) [
      | inl made ↦
          rw made (write_layer_keeps (disk.write_image hex) image hex s (atomic hex) hash sound)
      | inr unmade ↦ rw unmade sound
    ]

  pub gc_keeps :
      (removes : Text → Bool) (s : Store)
      → IsSound blake3_hex s
      → IsSound blake3_hex (gc removes s).0
  gc_keeps removes s sound name image at =
      let found = lookup-gc removes s name in
      elim (Bool-cases (contains name (reachable s) || not (removes name))) [
        | inl stays ↦ sound name image (sym (rw stays at found) ∙ at)
        | inr goes ↦
            let e : ◌≡◌ {A = Option (Option Bytes)} none (some (some image)) =
              sym (rw goes at found) ∙ at in
            absurd cc
      ]
