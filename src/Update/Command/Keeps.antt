-- ===== src/Update/Command/Keeps.antt =====
-- An update keeps the store sound whatever becomes of it.
use nexpack.Prelude.{◌≡◌, none, some, List, [], ◌∷◌, Text, Bytes, Outcome, ok, err, panic, arith}
use nexpack.Header.{BundleHeader, encode}
use nexpack.Header.Wire.{Capnp}
use nexpack.Store.{Store, Disk, store_layer}
use nexpack.Store.Links.{add_gc_root-layers}
use nexpack.Store.Sound.{IsSound}
use nexpack.Store.Keeps.{IsAtomic, next_keeps, IsSound-same, store_layer_keeps}
use nexpack.Store.Install.{next}
use nexpack.Update.{
  LayerInfo, ReleaseInfo, hex_of, updated_header, missing_layers, fetch_layer, update_layer,
  update_layers, fetch_missing,
}
use nexpack.Update.Applied.{fetch_layer-ok}
use nexpack.Update.Command.{
  Network, new_digest, replace_current, switch_current, write_effect, write_meta, apply_release,
  choose_release, check_and_apply_updates, go_on, update_all,
}

module _ (disk : Disk) where
  pub replace_current-layers :
      (app_id digest : Text) (s : Store)
      → (replace_current disk app_id digest s).1.layers ≡ s.layers
  unfolding replace_current
  replace_current-layers app_id digest s = ground arith

  pub switch_current-layers :
      (app_id digest : Text) (s : Store) → (switch_current disk app_id digest s).1.layers ≡ s.layers
  unfolding switch_current next replace_current
  switch_current-layers app_id digest s =
      ground (arith, add_gc_root-layers disk app_id digest (replace_current disk app_id digest s).1)

  pub write_meta-layers :
      (app_id : Text) (meta : Bytes) (s : Store)
      → (write_meta disk app_id meta s).1.layers ≡ s.layers
  unfolding write_meta write_effect
  write_meta-layers app_id meta s = ground arith

module _ (blake3_hex : Bytes → Text) (disk : Disk) (atomic : IsAtomic disk) (cp : Capnp)
    (net : Network) where
  update_layers_keeps :
      (layers : List LayerInfo) (s : Store)
      → IsSound blake3_hex s
      → IsSound blake3_hex (update_layers blake3_hex disk net.download_layer layers s).1
  unfolding update_layers update_layer
  update_layers_keeps [] s sound = sound
  update_layers_keeps (layer ∷ layers) s sound =
      next_keeps (IsSound blake3_hex) (update_layer blake3_hex disk net.download_layer layer s)
        (λ _ s. update_layers blake3_hex disk net.download_layer layers s) one_layer
        (λ _ _.
          update_layers_keeps layers (update_layer blake3_hex disk net.download_layer layer s).1
            one_layer)
    where
      one_layer : IsSound blake3_hex (update_layer blake3_hex disk net.download_layer layer s).1
      one_layer =
          next_keeps (IsSound blake3_hex) (fetch_layer blake3_hex disk net.download_layer layer, s)
            (λ piece s. store_layer disk piece (hex_of layer) s) sound
            (λ piece fetched.
              store_layer_keeps blake3_hex disk atomic piece (hex_of layer) s
                (fetch_layer-ok blake3_hex disk net.download_layer layer piece fetched) sound)

  fetch_missing_keeps :
      (release : ReleaseInfo) (s : Store)
      → IsSound blake3_hex s
      → IsSound blake3_hex (fetch_missing blake3_hex disk net.download_layer release s).1
  unfolding fetch_missing
  fetch_missing_keeps release s = update_layers_keeps (missing_layers release s) s

  -- The header and what follows leave the layers alone.
  write_header_keeps :
      (app_id : Text) (header : BundleHeader) (release : ReleaseInfo) (s : Store)
      → IsSound blake3_hex s
      → IsSound blake3_hex
          (next
            (encode cp (updated_header header release), s)
            λ new_meta s. write_meta disk app_id new_meta s).1
  write_header_keeps app_id header release s sound =
      next_keeps (IsSound blake3_hex) (encode cp (updated_header header release), s)
        (λ new_meta s. write_meta disk app_id new_meta s) sound
        λ new_meta _.
          IsSound-same blake3_hex s (write_meta disk app_id new_meta s).1
            (write_meta-layers disk app_id new_meta s) sound

  apply_release_keeps :
      (app_id : Text) (header : BundleHeader) (release : ReleaseInfo) (s : Store)
      → IsSound blake3_hex s
      → IsSound blake3_hex (apply_release disk blake3_hex cp net app_id header release s).1
  unfolding apply_release
  apply_release_keeps app_id header release s sound =
      let s1 = (fetch_missing blake3_hex disk net.download_layer release s).1 in
      let s2 = (switch_current disk app_id (new_digest release) s1).1 in
      let fetched = fetch_missing_keeps release s sound in
      let switched =
        IsSound-same blake3_hex s1 s2 (switch_current-layers disk app_id (new_digest release) s1)
          fetched in
      next_keeps (IsSound blake3_hex) (fetch_missing blake3_hex disk net.download_layer release s) _
        fetched
        λ _ _.
          next_keeps (IsSound blake3_hex) (switch_current disk app_id (new_digest release) s1) _
            switched λ _ _. write_header_keeps app_id header release s2 switched

  pub check_and_apply_updates_keeps :
      (app_id : Text) (s : Store)
      → IsSound blake3_hex s
      → IsSound blake3_hex (check_and_apply_updates disk blake3_hex cp net app_id s).1
  unfolding check_and_apply_updates
  check_and_apply_updates_keeps app_id s sound =
      next_keeps (IsSound blake3_hex) (choose_release disk blake3_hex cp net app_id s, s) _ sound
        λ choice _.
          elim choice
            as (λ c.
              IsSound blake3_hex
                (elim c as (λ c. Outcome (Unit {0}) × Store) [
                  | none ↦ (ok tt, s)
                  | some (header, release) ↦
                      apply_release disk blake3_hex cp net app_id header release s
                ]).1) [
                  | none ↦ sound
                  | some (header, release) ↦ apply_release_keeps app_id header release s sound
                ]

  go_on_keeps :
      (r : Outcome (Unit {0}) × Store) (f : Store → Outcome (Unit {0}) × Store)
      → IsSound blake3_hex r.1
      → IsSound blake3_hex (f r.1).1
      → IsSound blake3_hex (go_on r f).1
  unfolding go_on
  go_on_keeps (ok _, s) f h k = k
  go_on_keeps (err _, s) f h k = k
  go_on_keeps (panic, s) f h k = h

  pub update_all_keeps :
      (apps : List Text) (s : Store)
      → IsSound blake3_hex s
      → IsSound blake3_hex (update_all disk blake3_hex cp net apps s).1
  unfolding update_all
  update_all_keeps [] s sound = sound
  update_all_keeps (app_id ∷ apps) s sound =
      let one = check_and_apply_updates_keeps app_id s sound in
      go_on_keeps (check_and_apply_updates disk blake3_hex cp net app_id s)
        (λ s. update_all disk blake3_hex cp net apps s) one
        (update_all_keeps apps (check_and_apply_updates disk blake3_hex cp net app_id s).1 one)
