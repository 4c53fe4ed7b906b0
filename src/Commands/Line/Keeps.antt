-- ===== src/Commands/Line/Keeps.antt =====
-- The store under one command, whichever it is.
use nexpack.Prelude.{
  ℕ, suc, length, ◌≡◌, refl, subst, sym, ap, Bool, true, false, Option, none, some, Text, Bytes,
  Outcome, ok, err, panic, Bool-cases, inl, inr,
}
use nexpack.Prelude.Dict.{Dict}
use nexpack.Permission.{PermissionSet}
use nexpack.Header.{BundleHeader, encode}
use nexpack.Header.Wire.{Capnp}
use nexpack.Bundle.{Bundle}
use nexpack.Store.{Store}
use nexpack.Store.Apps.{list_apps}
use nexpack.Store.Sound.{IsSound, Ended}
use nexpack.Store.Keeps.{IsAtomic, IsSound-same, gc_keeps, next_keeps}
use nexpack.Store.Install
use nexpack.Store.Install.Keeps.{install_keeps}
use nexpack.Store.Install.Desktop.{Home, then_entry, install_command}
use nexpack.Update.Command.{check_and_apply_updates, update_all, write_meta}
use nexpack.Update.Command.Keeps.{
  check_and_apply_updates_keeps, update_all_keeps, write_meta-layers,
}
use nexpack.Commands.{remove_command, gc_command}
use nexpack.Commands.History.{remove_command-layers}
use nexpack.Commands.Permissions
use nexpack.Commands.Permissions.{Input, edit_loop, save_permissions, save_edited, edit_if}
use nexpack.Commands.Line.{
  CompatCommands, compat_run, compat_convert, Commands, run_bundle, install, update, remove, gc,
  inspect_bundle, verify, edit_permissions, trust_policy, pack, export, sign, compat, Machine, User,
  Done, only_result, in_store, write_bundle, write_signed, install_opened, open_bundle,
  update_command, trust_command, compat_command, edited, if_home, permissions_command, dispatch,
}

then_entry-store :
    (home : Home) (app_id : Text) (ended : Ended) (entries : Dict Text)
    → (then_entry home app_id ended entries).1.0 ≡ ended.1
unfolding then_entry
then_entry-store home app_id (ok _, s) entries = refl
then_entry-store home app_id (err e, s) entries = refl
then_entry-store home app_id (panic, s) entries = refl

only_result-store {ℓ} : {A : Type ℓ} (r : Outcome A) (u : User) → (only_result r u).1 ≡ u
unfolding only_result
only_result-store (ok a) u = refl
only_result-store (err e) u = refl
only_result-store panic u = refl

write_bundle-store : (r : Outcome (Text × Bytes)) (u : User) → (write_bundle r u).1.store ≡ u.store
unfolding write_bundle
write_bundle-store (ok (path, file)) u = refl
write_bundle-store (err e) u = refl
write_bundle-store panic u = refl

write_signed-store :
    (r : Outcome (Option (Text × Bytes))) (u : User) → (write_signed r u).1.store ≡ u.store
unfolding write_signed
write_signed-store (ok none) u = refl
write_signed-store (ok (some written)) u = write_bundle-store (ok written) u
write_signed-store (err e) u = refl
write_signed-store panic u = refl

-- A command's end, if it has one, has a sound store.
abbrev pub KeptBy : (Bytes → Text) → Option Done → Type 0
KeptBy blake3_hex none = Unit
KeptBy blake3_hex (some done) = IsSound blake3_hex done.1.store

module _ (blake3_hex : Bytes → Text) (cp : Capnp) (machine : Machine) where
  in_store_keeps :
      (command : Store → Ended) (u : User)
      → IsSound blake3_hex (command u.store).1
      → IsSound blake3_hex u.store
      → IsSound blake3_hex (in_store machine.has_home command u).1.store
  unfolding in_store
  in_store_keeps command u kept sound = elim (Bool-cases machine.has_home) [
    | inl home ↦ rw home kept
    | inr no_home ↦ rw no_home sound
  ]

  save_permissions-layers :
      (app_id : Text) (header : BundleHeader) (perm : PermissionSet) (s : Store)
      → (save_permissions cp machine.disk app_id header perm s).1.layers ≡ s.layers
  unfolding save_permissions
  save_permissions-layers app_id header perm s =
      next_keeps (λ t. t.layers ≡ s.layers) (encode cp (record header { permissions = perm }), s)
        (λ encoded s. write_meta machine.disk app_id encoded s) refl
        λ encoded _. write_meta-layers machine.disk app_id encoded s

  edit_permissions_keeps :
      (saved : Option (Outcome (PermissionSet × Input))) (app_id : Text) (header : BundleHeader)
      (u : User)
      → IsSound blake3_hex u.store
      → KeptBy blake3_hex (
          edited
            (elim saved as (λ _. Option Ended) [
              | none ↦ none
              | some ended ↦ some (save_edited cp machine.disk ended app_id header u.store)
            ])
            u)
  unfolding edited save_edited
  edit_permissions_keeps none app_id header u sound = tt
  edit_permissions_keeps (some (err e)) app_id header u sound = sound
  edit_permissions_keeps (some panic) app_id header u sound = sound
  edit_permissions_keeps (some (ok (perm, _))) app_id header u sound =
      IsSound-same blake3_hex u.store
        (save_permissions cp machine.disk app_id header perm u.store).1
        (save_permissions-layers app_id header perm u.store) sound

  edit_if_keeps :
      (edit : Bool) (rounds : ℕ) (app_id : Text) (header : Outcome BundleHeader) (u : User)
      → IsSound blake3_hex u.store
      → KeptBy blake3_hex (
          edited
            (edit_if cp machine.disk machine.broken edit rounds machine.input app_id header u.store)
            u)
  unfolding edit_if Permissions.edit_permissions edited
  edit_if_keeps true rounds app_id (ok header) u sound =
      edit_permissions_keeps (edit_loop machine.broken rounds machine.input header.permissions)
        app_id header u sound
  edit_if_keeps false rounds app_id (ok header) u sound = sound
  edit_if_keeps edit rounds app_id (err e) u sound = sound
  edit_if_keeps edit rounds app_id panic u sound = sound

  if_home_keeps :
      (has_home : Bool) (ended : Option Done) (u : User)
      → KeptBy blake3_hex ended
      → IsSound blake3_hex u.store
      → KeptBy blake3_hex (if_home has_home ended u)
  unfolding if_home
  if_home_keeps true ended u kept sound = kept
  if_home_keeps false ended u kept sound = sound

  permissions_command_keeps :
      (app_id : Text) (edit : Bool) (u : User)
      → IsSound blake3_hex u.store
      → KeptBy blake3_hex (permissions_command blake3_hex cp machine app_id edit u)
  unfolding permissions_command Permissions.permissions
  permissions_command_keeps app_id edit u sound =
      if_home_keeps machine.has_home
        (edited
          (Permissions.permissions cp machine.disk machine.broken edit (suc (length machine.input))
            machine.input app_id u.store)
          u)
        u
        (edit_if_keeps edit (suc (length machine.input)) app_id
          (Permissions.installed_header cp machine.disk app_id u.store) u sound)
        sound

  module _ (atomic : IsAtomic machine.disk) where
    install_command_keeps :
        (b : Bundle) (s : Store) (entries : Dict Text)
        → IsSound blake3_hex s
        → IsSound blake3_hex
            (install_command blake3_hex machine.disk machine.home cp b s entries).1.0
    unfolding install_command
    install_command_keeps b s entries sound =
        subst (IsSound blake3_hex)
          (sym (
            then_entry-store machine.home b.header.app_id
              (Install.install blake3_hex machine.disk cp b s) entries))
          (install_keeps blake3_hex machine.disk atomic cp b s sound)

    install_opened_keeps :
        (opened : Outcome Bundle) (u : User)
        → IsSound blake3_hex u.store
        → IsSound blake3_hex (install_opened blake3_hex cp machine opened u).1.store
    unfolding install_opened
    install_opened_keeps (ok b) u sound = elim (Bool-cases machine.has_home) [
      | inl home ↦ rw home (install_command_keeps b u.store u.entries sound)
      | inr no_home ↦ rw no_home sound
    ]
    install_opened_keeps (err e) u sound = sound
    install_opened_keeps panic u sound = sound

    update_command_keeps :
        (app_id : Option Text) (all : Bool) (u : User)
        → IsSound blake3_hex u.store
        → IsSound blake3_hex (update_command blake3_hex cp machine app_id all u).1.store
    unfolding update_command
    update_command_keeps app_id true u sound =
        in_store_keeps (λ s. update_all machine.disk blake3_hex cp machine.net (list_apps s) s) u
          (update_all_keeps blake3_hex machine.disk atomic cp machine.net (list_apps u.store)
            u.store sound)
          sound
    update_command_keeps none false u sound = sound
    update_command_keeps (some id) false u sound =
        in_store_keeps (check_and_apply_updates machine.disk blake3_hex cp machine.net id) u
          (check_and_apply_updates_keeps blake3_hex machine.disk atomic cp machine.net id u.store
            sound)
          sound

    trust_command-store :
        (pattern identity : Option Text) (edit : Bool) (u : User)
        → (trust_command blake3_hex cp machine pattern identity edit u).1.store ≡ u.store
    unfolding trust_command
    trust_command-store pattern identity true u = refl
    trust_command-store none identity false u = refl
    trust_command-store (some p) none false u = refl
    trust_command-store (some p) (some i) false u = refl

    compat_command-store :
        (command : CompatCommands) (u : User)
        → (compat_command blake3_hex cp machine command u).1.store ≡ u.store
    unfolding compat_command
    compat_command-store (compat_run appimage args) u =
        ap (λ (v : User). v.store) (only_result-store _ u)
    compat_command-store (compat_convert appimage output) u = write_bundle-store _ u

    -- Every command keeps a sound store sound.
    pub dispatch_keeps :
        (command : Commands) (u : User)
        → IsSound blake3_hex u.store
        → KeptBy blake3_hex (dispatch blake3_hex cp machine command u)
    unfolding dispatch gc_command
    dispatch_keeps (run_bundle bundle sandbox no_sandbox offline args) u sound =
        subst (λ (v : User). IsSound blake3_hex v.store) (sym (only_result-store _ u)) sound
    dispatch_keeps (install bundle) u sound =
        install_opened_keeps (open_bundle blake3_hex cp machine bundle) u sound
    dispatch_keeps (update app_id all) u sound = update_command_keeps app_id all u sound
    dispatch_keeps (remove app_id) u sound =
        in_store_keeps (remove_command machine.removes_app app_id) u
          (IsSound-same blake3_hex u.store (remove_command machine.removes_app app_id u.store).1
            (remove_command-layers machine.removes_app app_id u.store) sound)
          sound
    dispatch_keeps gc u sound =
        in_store_keeps (gc_command machine.removes_layer) u
          (gc_keeps blake3_hex machine.removes_layer u.store sound) sound
    dispatch_keeps (inspect_bundle bundle as_json) u sound =
        subst (λ (v : User). IsSound blake3_hex v.store) (sym (only_result-store _ u)) sound
    dispatch_keeps (verify bundle offline) u sound =
        subst (λ (v : User). IsSound blake3_hex v.store) (sym (only_result-store _ u)) sound
    dispatch_keeps (edit_permissions app_id edit) u sound =
        permissions_command_keeps app_id edit u sound
    dispatch_keeps (trust_policy pattern identity edit) u sound =
        subst (IsSound blake3_hex) (sym (trust_command-store pattern identity edit u)) sound
    dispatch_keeps (pack spec) u sound =
        subst (IsSound blake3_hex) (sym (write_bundle-store _ u)) sound
    dispatch_keeps (export app_id) u sound =
        subst (IsSound blake3_hex) (sym (write_bundle-store _ u)) sound
    dispatch_keeps (sign bundle output) u sound =
        subst (IsSound blake3_hex) (sym (write_signed-store _ u)) sound
    dispatch_keeps (compat command) u sound =
        subst (IsSound blake3_hex) (sym (compat_command-store command u)) sound
