-- ===== src/Update/Command/Applied.antt =====
-- What an update has done when it ends well.
use nexpack.Prelude.{
  text_eq, false, ◌≡◌, ◌⊎◌, refl, sym, ap, subst, ◌∙◌, Bool-cases, inl, inr, true, ◌&&◌, not,
  Option, none, some, List, [], ◌∷◌, Text, text_eq_refl, Bytes, All, last?, map, Outcome, ok,
}
use nexpack.Prelude.Dict
use nexpack.Layer.{digest_hex}
use nexpack.Header.{BundleHeader, encode}
use nexpack.Header.Wire.{Capnp}
use nexpack.Store.{
  App, Store, Disk, Effect, done, failed, is_image, has_layer, app_folder, current_target,
  root_target, add_gc_root,
}
use nexpack.Store.Links.{add_gc_root-ok}
use nexpack.Store.Sound.{IsSound, Holds, same_layers}
use nexpack.Store.Install.{next}
use nexpack.Store.Install.Layers.{next-eq-ok}
use nexpack.Update.{LayerInfo, ReleaseInfo, hex_of, layer_ref, updated_header, fetch_missing}
use nexpack.Update.Applied.{fetch_missing-ok}
use nexpack.Update.Command.{
  Network, meta_of, new_digest, is_empty, replace_current, switch_current, write_effect, write_meta,
  apply_release, choose_release, check_and_apply_updates,
}
use nexpack.Update.Command.Keeps.{switch_current-layers, write_meta-layers}

-- The app's `current` is a link to the layer, and the layer is the app's root.
abbrev pub IsCurrent : Text → Text → Store → Type 0
IsCurrent app_id digest s =
    (app : App) × (Dict.lookup app_id s.apps ≡ some app)
    × (app.current ≡ some (current_target digest))
    × (Dict.lookup app_id s.gc_roots ≡ some (root_target digest))

app_folder-found :
    (s : Store) (app_id : Text) (app : App)
    → Dict.lookup app_id s.apps ≡ some app
    → app_folder s app_id ≡ app
app_folder-found s app_id app e =
    ap
      (λ (o : Option App). elim o as (λ _. App) [
        | none ↦ record { meta = none; current = none }
        | some app ↦ app
      ])
      e

pub Holds-has_layer :
    (blake3_hex : Bytes → Text) (s : Store) (layer : LayerInfo)
    → Holds blake3_hex s (layer_ref layer)
    → has_layer s (hex_of layer) ≡ true
unfolding has_layer digest_hex
Holds-has_layer blake3_hex s layer (image, at, _) = ap is_image at

-- If every layer is there, so is the last one, unless it has no digest.
last_there :
    (blake3_hex : Bytes → Text) (s : Store) (layers : List LayerInfo)
    → All (Holds blake3_hex s) (map layer_ref layers)
    → (is_empty (elim (last? layers) [ none ↦ [] | some layer ↦ hex_of layer ]) ≡ true)
      ⊎ (has_layer s (elim (last? layers) [ none ↦ [] | some layer ↦ hex_of layer ]) ≡ true)
last_there blake3_hex s [] h = inl refl
last_there blake3_hex s (layer ∷ []) h = inr (Holds-has_layer blake3_hex s layer h.0)
last_there blake3_hex s (layer ∷ next_layer ∷ layers) h =
    last_there blake3_hex s (next_layer ∷ layers) h.1

-- The app goes by the new layer, if it has a digest, and by the new header.
abbrev pub IsUpdated : Text → Text → Bytes → Store → Type 0
IsUpdated app_id digest new_meta s =
    ((is_empty digest ≡ true) ⊎ IsCurrent app_id digest s) × (meta_of s app_id ≡ some new_meta)

module _ (disk : Disk) where
  replace_current-ok :
      (app_id digest : Text) (s : Store)
      → (replace_current disk app_id digest s).0 ≡ ok tt
      → Dict.lookup app_id (replace_current disk app_id digest s).1.apps
        ≡ some (record (app_folder s app_id) { current = some (current_target digest) })
  unfolding replace_current
  replace_current-ok app_id digest s h =
      elim (Bool-cases (disk.make_tmp_link app_id && disk.rename_tmp app_id)) [
        | inl made ↦ rw made (
            rw (text_eq_refl app_id) at (
              Dict.lookup-insert app_id app_id
                (record (app_folder s app_id) { current = some (current_target digest) }) s.apps))
        | inr unmade ↦ absurd (let h' = rw unmade at h in cc)
      ]

  switch_current-ok :
      (app_id digest : Text) (s : Store)
      → (not (is_empty digest) && has_layer s digest) ≡ true
      → (switch_current disk app_id digest s).0 ≡ ok tt
      → IsCurrent app_id digest (switch_current disk app_id digest s).1
  unfolding switch_current
  switch_current-ok app_id digest s there h =
      let (_, replaced, e) =
        next-eq-ok (replace_current disk app_id digest s) (λ _ s. add_gc_root disk app_id digest s)
          (rw there at h) in
      let s1 = (replace_current disk app_id digest s).1 in
      let (apps, root) = add_gc_root-ok disk app_id digest s1 (rw (there, e) at h) in
      rw (there, e)
        (
          record (app_folder s app_id) { current = some (current_target digest) },
          ap (Dict.lookup app_id) apps ∙ replace_current-ok app_id digest s replaced,
          refl,
          root,
        )

  write_effect-ok :
      (w : Effect Bytes) (app_id : Text) (meta : Bytes) (s : Store)
      → (write_effect disk w app_id meta s).0 ≡ ok tt
      → (Dict.lookup app_id (write_effect disk w app_id meta s).1.apps
          ≡ some (record (app_folder s app_id) { meta = some meta }))
        × ((write_effect disk w app_id meta s).1.gc_roots ≡ s.gc_roots)
  unfolding write_effect
  write_effect-ok (failed left) app_id meta s h = absurd cc
  write_effect-ok done app_id meta s h = (
    rw (text_eq_refl app_id) at (
        Dict.lookup-insert app_id app_id (record (app_folder s app_id) { meta = some meta })
          s.apps),
    refl,
  )

  write_effect-apart :
      (w : Effect Bytes) (app_id other : Text) (meta : Bytes) (s : Store)
      → text_eq app_id other ≡ false
      → Dict.lookup other (write_effect disk w app_id meta s).1.apps ≡ Dict.lookup other s.apps
  unfolding write_effect
  write_effect-apart done app_id other meta s apart =
      rw apart at
        (Dict.lookup-insert other app_id (record (app_folder s app_id) { meta = some meta }) s.apps)
  write_effect-apart (failed left) app_id other meta s apart =
      rw apart at
        (Dict.lookup-insert other app_id (record (app_folder s app_id) { meta = left }) s.apps)

  -- The other apps stay as they are, also if the write fails.
  pub write_meta-apart :
      (app_id other : Text) (meta : Bytes) (s : Store)
      → text_eq app_id other ≡ false
      → Dict.lookup other (write_meta disk app_id meta s).1.apps ≡ Dict.lookup other s.apps
  unfolding write_meta
  write_meta-apart app_id other meta s apart =
      write_effect-apart (disk.write_meta app_id) app_id other meta s apart

  pub write_meta-ok :
      (app_id : Text) (meta : Bytes) (s : Store)
      → (write_meta disk app_id meta s).0 ≡ ok tt
      → (Dict.lookup app_id (write_meta disk app_id meta s).1.apps
          ≡ some (record (app_folder s app_id) { meta = some meta }))
        × ((write_meta disk app_id meta s).1.gc_roots ≡ s.gc_roots)
  unfolding write_meta
  write_meta-ok app_id meta s h = write_effect-ok (disk.write_meta app_id) app_id meta s h

  write_meta_updates :
      (app_id digest : Text) (meta : Bytes) (s : Store)
      → (is_empty digest ≡ true) ⊎ IsCurrent app_id digest s
      → (write_meta disk app_id meta s).0 ≡ ok tt
      → IsUpdated app_id digest meta (write_meta disk app_id meta s).1
  write_meta_updates app_id digest meta s switched h =
      let (app, root) = write_meta-ok app_id meta s h in
      let found =
        ap (λ (o : Option App). elim o as (λ _. Option Bytes) [ none ↦ none | some app ↦ app.meta ])
          app in
      elim switched [
        | inl without ↦ (inl without, found)
        | inr (old, at, current, old_root) ↦ (
          inr (
            record (app_folder s app_id) { meta = some meta },
            app,
            ap (λ (a : App). a.current) (app_folder-found s app_id old at) ∙ current,
            ap (Dict.lookup app_id) root ∙ old_root,
          ),
          found,
        )
      ]

  switched-or-none :
      (app_id digest : Text) (s : Store)
      → (is_empty digest ≡ true) ⊎ (has_layer s digest ≡ true)
      → (switch_current disk app_id digest s).0 ≡ ok tt
      → (is_empty digest ≡ true) ⊎ IsCurrent app_id digest (switch_current disk app_id digest s).1
  switched-or-none app_id digest s there h = elim (Bool-cases (is_empty digest)) [
    | inl without ↦ inl without
    | inr with_digest ↦ inr (
        switch_current-ok app_id digest s
          (elim there [
            | inl without ↦ absurd (let e = sym with_digest ∙ without in cc)
            | inr present ↦ rw (with_digest, present) refl
          ])
          h)
  ]

  module _ (blake3_hex : Bytes → Text) (cp : Capnp) (net : Network) where
    -- What a choice comes to.
    abbrev pub IsApplied : Text → Option (BundleHeader × ReleaseInfo) → Store → Store → Type 0
    IsApplied app_id none s s' = s' ≡ s
    IsApplied app_id (some (header, release)) s s' =
        IsSound blake3_hex s'
        × All (Holds blake3_hex s') (updated_header header release).layers
        × ((new_meta : Bytes) × (encode cp (updated_header header release) ≡ ok new_meta)
            × IsUpdated app_id (new_digest release) new_meta s')

    apply_release-ok :
        (app_id : Text) (header : BundleHeader) (release : ReleaseInfo) (s : Store)
        → IsSound blake3_hex s
        → (apply_release disk blake3_hex cp net app_id header release s).0 ≡ ok tt
        → IsApplied app_id
            (some (header, release))
            s
            (apply_release disk blake3_hex cp net app_id header release s).1
    unfolding apply_release updated_header
    apply_release-ok app_id header release s sound h =
        let s1 = (fetch_missing blake3_hex disk net.download_layer release s).1 in
        let s2 = (switch_current disk app_id (new_digest release) s1).1 in
        let (_, fetched, e1) =
          next-eq-ok (fetch_missing blake3_hex disk net.download_layer release s)
            (λ _ s. next (switch_current disk app_id (new_digest release) s) λ _ s.
              next (encode cp (updated_header header release), s)
                λ new_meta s. write_meta disk app_id new_meta s)
            h in
        let (_, switched, e2) =
          next-eq-ok (switch_current disk app_id (new_digest release) s1)
            (λ _ s.
              next (encode cp (updated_header header release), s)
                λ new_meta s. write_meta disk app_id new_meta s)
            (rw e1 at h) in
        let (new_meta, encoded, e3) =
          next-eq-ok (encode cp (updated_header header release), s2)
            (λ new_meta s. write_meta disk app_id new_meta s) (rw (e1, e2) at h) in
        let written = rw (e1, e2, e3) at h in
        let held =
          fetch_missing-ok blake3_hex disk net.download_layer header release s sound fetched in
        let (sound', held') =
          same_layers blake3_hex s1 (write_meta disk app_id new_meta s2).1
            (updated_header header release).layers
            (write_meta-layers disk app_id new_meta s2
              ∙ switch_current-layers disk app_id (new_digest release) s1)
            held in
        let there = last_there blake3_hex s1 release.layers held.1 in
        let current = switched-or-none app_id (new_digest release) s1 there switched in
        subst (λ r. IsApplied app_id (some (header, release)) s r.1) (sym (e1 ∙ e2 ∙ e3))
          (
            sound',
            held',
            (
              new_meta,
              encoded,
              write_meta_updates app_id (new_digest release) new_meta s2 current written,
            ),
          )

    abbrev act : Text → Option (BundleHeader × ReleaseInfo) → Store → Outcome (Unit {0}) × Store
    act app_id choice s = elim choice [
      | none ↦ (ok tt, s)
      | some (header, release) ↦ apply_release disk blake3_hex cp net app_id header release s
    ]

    act-ok :
        (app_id : Text) (choice : Option (BundleHeader × ReleaseInfo)) (s : Store)
        → IsSound blake3_hex s
        → (act app_id choice s).0 ≡ ok tt
        → IsApplied app_id choice s (act app_id choice s).1
    act-ok app_id none s sound h = refl
    act-ok app_id (some (header, release)) s sound h =
        apply_release-ok app_id header release s sound h

    -- When an update of an app ends well, in a sound store, a choice was made. Without a newer
    -- release the store is as it was. With one, the store is sound and has every layer of the new
    -- header with its digest, the app's header is the new one, and, if the last layer has a digest,
    -- the app's current layer and its root are that layer.
    pub check_and_apply_updates-ok :
        (app_id : Text) (s : Store)
        → IsSound blake3_hex s
        → (check_and_apply_updates disk blake3_hex cp net app_id s).0 ≡ ok tt
        → (choice : Option (BundleHeader × ReleaseInfo)) × (choose_release disk blake3_hex cp net
              app_id s
            ≡ ok choice)
          × IsApplied app_id choice s (check_and_apply_updates disk blake3_hex cp net app_id s).1
    unfolding check_and_apply_updates
    check_and_apply_updates-ok app_id s sound h =
        let (choice, chosen, e) =
          next-eq-ok (choose_release disk blake3_hex cp net app_id s, s) (act app_id) h in
        (
          choice,
          chosen,
          subst (λ r. IsApplied app_id choice s r.1) (sym e)
              (act-ok app_id choice s sound (rw e at h)),
        )
