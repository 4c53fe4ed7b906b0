-- ===== src/Store/Links.antt =====
-- `register_app` and `add_gc_root`: what they leave alone, and the links of a run that ends well.
use nexpack.Prelude.{
  ◌≡◌, refl, Bool-cases, inl, inr, none, some, Text, text_eq_refl, Bytes, ok, arith,
}
use nexpack.Prelude.Dict
use nexpack.Store.{
  App, Target, app_folder, Store, Disk, Effect, done, failed, register_app, write_app, link_app,
  add_gc_root, link_gc_root, root_target, current_target,
}

module _ (disk : Disk) where
  pub register_app-layers :
      (app_id digest : Text) (meta : Bytes) (s : Store)
      → (register_app disk app_id digest meta s).1.layers ≡ s.layers
  unfolding register_app write_app link_app
  register_app-layers app_id digest meta s = ground arith

  pub add_gc_root-layers :
      (name digest : Text) (s : Store) → (add_gc_root disk name digest s).1.layers ≡ s.layers
  unfolding add_gc_root link_gc_root
  add_gc_root-layers name digest s = ground arith

  link_app-ok :
      (w : Effect Target) (app_id digest : Text) (app : App) (s : Store)
      → (link_app w app_id digest app s).0 ≡ ok tt
      → Dict.lookup app_id (link_app w app_id digest app s).1.apps
        ≡ some (record { meta = app.meta; current = some (current_target digest) })
  unfolding link_app
  link_app-ok (failed left) app_id digest app s h = absurd cc
  link_app-ok done app_id digest app s h = rw (text_eq_refl app_id) at (
      Dict.lookup-insert app_id app_id (record app { current = some (current_target digest) })
        s.apps)

  write_app-ok :
      (w : Effect Bytes) (app_id digest : Text) (meta : Bytes) (s : Store)
      → (write_app disk w app_id digest meta s).0 ≡ ok tt
      → Dict.lookup app_id (write_app disk w app_id digest meta s).1.apps
        ≡ some (record { meta = some meta; current = some (current_target digest) })
  unfolding write_app
  write_app-ok (failed left) app_id digest meta s h = absurd cc
  write_app-ok done app_id digest meta s h =
      link_app-ok (disk.link_current app_id) app_id digest
        (record (app_folder s app_id) { meta = some meta }) s h

  pub register_app-ok :
      (app_id digest : Text) (meta : Bytes) (s : Store)
      → (register_app disk app_id digest meta s).0 ≡ ok tt
      → Dict.lookup app_id (register_app disk app_id digest meta s).1.apps
        ≡ some (record { meta = some meta; current = some (current_target digest) })
  unfolding register_app
  register_app-ok app_id digest meta s h = elim (Bool-cases (disk.make_app_dir app_id)) [
    | inl made ↦ rw made (write_app-ok (disk.write_meta app_id) app_id digest meta s (rw made at h))
    | inr unmade ↦ absurd (let h' = rw unmade at h in cc)
  ]

  link_gc_root-ok :
      (w : Effect Target) (name digest : Text) (s : Store)
      → (link_gc_root w name digest s).0 ≡ ok tt
      → ((link_gc_root w name digest s).1.apps ≡ s.apps)
        × (Dict.lookup name (link_gc_root w name digest s).1.gc_roots ≡ some (root_target digest))
  unfolding link_gc_root
  link_gc_root-ok (failed none) name digest s h = absurd cc
  link_gc_root-ok (failed (some left)) name digest s h = absurd cc
  link_gc_root-ok done name digest s h = (
    refl,
    rw (text_eq_refl name) at (Dict.lookup-insert name name (root_target digest) s.gc_roots),
  )

  pub add_gc_root-ok :
      (name digest : Text) (s : Store)
      → (add_gc_root disk name digest s).0 ≡ ok tt
      → ((add_gc_root disk name digest s).1.apps ≡ s.apps)
        × (Dict.lookup name (add_gc_root disk name digest s).1.gc_roots ≡ some (root_target digest))
  unfolding add_gc_root
  add_gc_root-ok name digest s h = elim (Bool-cases disk.make_roots_dir) [
    | inl made ↦ rw made (link_gc_root-ok (disk.link_root name) name digest s (rw made at h))
    | inr unmade ↦ absurd (let h' = rw unmade at h in cc)
  ]
