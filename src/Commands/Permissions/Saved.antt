-- ===== src/Commands/Permissions/Saved.antt =====
-- The command as a whole: what a session leaves of the installed header.
use nexpack.Prelude.{
  Bool, suc, ◌≡◌, refl, sym, ap, subst, ◌∙◌, true, Option, none, some, List, [], ◌++◌, append-nil,
  length, All, text_eq, false, Text, Bytes, Outcome, ok,
}
use nexpack.Permission.{PermissionSet}
use nexpack.Header.{BundleHeader, message, encode, parse}
use nexpack.Header.Wire.{Capnp, IsCodec, Message}
use nexpack.Header.Magic.{find_magic}
use nexpack.Header.RoundTrip.{stored, parse-encode}
use nexpack.Prelude.Dict
use nexpack.Store.{app_folder, Store, Disk, done}
use nexpack.Store.Install.{next}
use nexpack.Store.Install.Layers.{next-eq-ok}
use nexpack.Update.Command.{write_meta, write_effect}
use nexpack.Update.Command.Keeps.{write_meta-layers}
use nexpack.Update.Command.Applied.{write_meta-ok, write_meta-apart}
use nexpack.Commands.Permissions.{
  Input, save_permissions, save_edited, edit_permissions, edit_if, installed_header, permissions,
}
use nexpack.Commands.Permissions.Sessions.{Edit, IsEdit, session, apply_edits, edit_loop-session}

module _ (cp : Capnp) {Fits : Message → Type 0} (codec : IsCodec cp Fits) where
  parse-encode_alone :
      (h : BundleHeader) (bytes : Bytes)
      → Fits (message h)
      → encode cp h ≡ ok bytes
      → parse cp bytes ≡ ok (stored h 0 (length bytes))
  unfolding find_magic
  parse-encode_alone h bytes fits e =
      let whole = parse-encode cp codec h [] bytes [] refl fits e in simp append-nil at whole

  -- The app's header, as it is stored with these permissions, with the link that the app had; the
  -- other apps, the layers and the roots are the same.
  abbrev pub IsSaved : Text → BundleHeader → PermissionSet → Store → Store → Type 0
  IsSaved app_id header perm s s' =
      ((meta : Bytes) × (Dict.lookup app_id s'.apps
          ≡ some (record { meta = some meta; current = (app_folder s app_id).current }))
        × (parse cp meta ≡ ok (stored (record header { permissions = perm }) 0 (length meta))))
      × ((other : Text)
          → text_eq app_id other ≡ false
          → Dict.lookup other s'.apps ≡ Dict.lookup other s.apps)
      × (s'.layers ≡ s.layers)
      × (s'.gc_roots ≡ s.gc_roots)

  module _ (disk : Disk) where
    save_permissions-ok :
        (app_id : Text) (header : BundleHeader) (perm : PermissionSet) (s : Store)
        → Fits (message (record header { permissions = perm }))
        → (save_permissions cp disk app_id header perm s).0 ≡ ok tt
        → IsSaved app_id header perm s (save_permissions cp disk app_id header perm s).1
    unfolding save_permissions
    save_permissions-ok app_id header perm s fits h =
        let (meta, encoded, e) =
          next-eq-ok (encode cp (record header { permissions = perm }), s)
            (λ encoded s. write_meta disk app_id encoded s) h in
        let (app, roots) = write_meta-ok disk app_id meta s (rw e at h) in
        subst (λ r. IsSaved app_id header perm s r.1) (sym e)
          (
            (
              meta,
              app,
              parse-encode_alone (record header { permissions = perm }) meta fits encoded,
            ),
            (λ other apart. write_meta-apart disk app_id other meta s apart),
            write_meta-layers disk app_id meta s,
            roots,
          )

    edit_permissions-session :
        (broken : Bool) (app_id : Text) (header : BundleHeader) (edits : List Edit) (rest : Input)
        (s : Store)
        → All IsEdit edits
        → edit_permissions cp disk broken
            (suc (length edits))
            (session edits ++ rest)
            app_id
            header
            s
          ≡ some (save_permissions cp disk app_id header (apply_edits edits header.permissions) s)
    unfolding edit_permissions save_edited
    edit_permissions-session broken app_id header edits rest s h =
        ap
          (λ (o : Option (Outcome (PermissionSet × Input))).
            elim o as (λ _. Option (Outcome (Unit {0}) × Store)) [
              | none ↦ none
              | some ended ↦ some (save_edited cp disk ended app_id header s)
            ])
          (edit_loop-session broken edits rest header.permissions h)

    permissions-session :
        (broken : Bool) (app_id : Text) (header : BundleHeader) (edits : List Edit) (rest : Input)
        (s : Store)
        → installed_header cp disk app_id s ≡ ok header
        → All IsEdit edits
        → permissions cp disk broken true (suc (length edits)) (session edits ++ rest) app_id s
          ≡ some (save_permissions cp disk app_id header (apply_edits edits header.permissions) s)
    unfolding permissions edit_if
    permissions-session broken app_id header edits rest s installed h =
        rw installed (edit_permissions-session broken app_id header edits rest s h)

    save_permissions_done :
        (app_id : Text) (header : BundleHeader) (perm : PermissionSet) (s : Store) (meta : Bytes)
        → encode cp (record header { permissions = perm }) ≡ ok meta
        → disk.write_meta app_id ≡ done
        → (save_permissions cp disk app_id header perm s).0 ≡ ok tt
    unfolding save_permissions next write_meta write_effect
    save_permissions_done app_id header perm s meta encoded wrote = rw (encoded, wrote) refl

    -- When the permissions of an installed app are edited in a session of edits and a 6, the entries
    -- of the lists are not blank, the mistakes are none of the six choices, the edited header can be
    -- written, and the disk takes it: the command ends well after one round for each edit and one
    -- more, the app's header on disk reads back as it was but with the edited permissions, and the
    -- app's link, the other apps, the layers and the roots are the same.
    pub permissions-IsSaved :
        (broken : Bool) (app_id : Text) (header : BundleHeader) (edits : List Edit) (rest : Input)
        (s : Store) (meta : Bytes)
        → installed_header cp disk app_id s ≡ ok header
        → All IsEdit edits
        → Fits (message (record header { permissions = apply_edits edits header.permissions }))
        → encode cp (record header { permissions = apply_edits edits header.permissions }) ≡ ok meta
        → disk.write_meta app_id ≡ done
        → (s' : Store) × (permissions cp disk broken true
              (suc (length edits))
              (session edits ++ rest)
              app_id
              s
            ≡ some (ok tt, s'))
          × IsSaved app_id header (apply_edits edits header.permissions) s s'
    permissions-IsSaved broken app_id header edits rest s meta installed h fits encoded wrote =
        let perm = apply_edits edits header.permissions in
        let saved = save_permissions cp disk app_id header perm s in
        let ended = save_permissions_done app_id header perm s meta encoded wrote in
        (
          saved.1,
          permissions-session broken app_id header edits rest s installed h
              ∙ ap (λ r. some (r, saved.1)) ended,
          save_permissions-ok app_id header perm s fits ended,
        )
