-- ===== src/Store/Install/Desktop/Entered.antt =====
-- `install` as a whole, with the desktop entry.
use nexpack.Prelude.{
  ◌≡◌, refl, sym, subst, Option, none, some, Text, Bytes, Outcome, ok, err, Bool-cases, inl, inr,
  text_eq_refl,
}
use nexpack.Prelude.Dict
use nexpack.Prelude.Dict.{Dict}
use nexpack.Header.Wire.{Capnp}
use nexpack.Bundle.{Bundle}
use nexpack.Store.{Store, Disk, Effect, done, failed}
use nexpack.Store.Sound.{Ended, IsSound}
use nexpack.Store.Install.{install}
use nexpack.Store.Install.Installed.{Installed, install-ok}
use nexpack.Store.Install.Desktop.{
  Home, apps_dir, desktop_path, desktop_content, put_entry, create_desktop_entry, then_entry,
  install_command,
}

put_entry-ok :
    (effect : Effect Text) (path content : Text) (entries : Dict Text)
    → (put_entry effect path content entries).0 ≡ ok tt
    → Dict.lookup path (put_entry effect path content entries).1 ≡ some content
unfolding put_entry
put_entry-ok done path content entries h =
    rw (Dict.lookup-insert path path content entries, text_eq_refl path) refl
put_entry-ok (failed left) path content entries h = absurd (wrote left h)
  where
    wrote : (left : Option Text) → (put_entry (failed left) path content entries).0 ≡ ok tt → ⊥
    wrote none h = cc
    wrote (some t) h = cc

create_desktop_entry-ok :
    (home : Home) (app_id : Text) (entries : Dict Text)
    → (create_desktop_entry home app_id entries).0 ≡ ok tt
    → Dict.lookup (desktop_path home.env app_id) (create_desktop_entry home app_id entries).1
      ≡ some (desktop_content home.env app_id)
unfolding create_desktop_entry
create_desktop_entry-ok home app_id entries h =
    elim (Bool-cases (home.make_dir (apps_dir home.env))) [
      | inl made ↦ rw made (
          put_entry-ok (home.write_entry (desktop_path home.env app_id))
            (desktop_path home.env app_id) (desktop_content home.env app_id) entries (rw made at h))
      | inr not_made ↦ let h' = rw not_made at h in absurd cc
    ]

-- The entry comes after an install that ended well, and the store stays as that left it.
then_entry-ok :
    (home : Home) (app_id : Text) (ended : Ended) (entries : Dict Text)
    → (then_entry home app_id ended entries).0 ≡ ok tt
    → (ended.0 ≡ ok tt)
      × ((then_entry home app_id ended entries).1.0 ≡ ended.1)
      × (Dict.lookup (desktop_path home.env app_id) (then_entry home app_id ended entries).1.1
          ≡ some (desktop_content home.env app_id))
unfolding then_entry
then_entry-ok home app_id (ok _, s) entries h =
    (refl, refl, create_desktop_entry-ok home app_id entries h)
then_entry-ok home app_id (err e, s) entries h = absurd cc
then_entry-ok home app_id (Outcome.panic, s) entries h = absurd cc

-- If the command ends well in a store where every image hashes to its name, whichever changes on
-- disk may fail: it is still so, every layer of the bundle is there with the digest of the header,
-- the app has the header, a link to the last layer, and the last layer as its root, and its desktop
-- entry has been written.
pub install_command-ok :
    (blake3_hex : Bytes → Text) (disk : Disk) (home : Home) (cp : Capnp) (b : Bundle) (s : Store)
    (entries : Dict Text)
    → IsSound blake3_hex s
    → (install_command blake3_hex disk home cp b s entries).0 ≡ ok tt
    → IsSound blake3_hex (install_command blake3_hex disk home cp b s entries).1.0
      × Installed blake3_hex disk cp b (install_command blake3_hex disk home cp b s entries).1.0
      × (Dict.lookup
            (desktop_path home.env b.header.app_id)
            (install_command blake3_hex disk home cp b s entries).1.1
          ≡ some (desktop_content home.env b.header.app_id))
unfolding install_command
install_command-ok blake3_hex disk home cp b s entries sound h =
    let (well, same, entry) =
      then_entry-ok home b.header.app_id (install blake3_hex disk cp b s) entries h in
    let (sound', installed) = install-ok blake3_hex disk cp b s sound well in
    (
      subst (IsSound blake3_hex) (sym same) sound',
      subst (Installed blake3_hex disk cp b) (sym same) installed,
      entry,
    )
