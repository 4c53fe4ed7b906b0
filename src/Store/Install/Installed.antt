-- ===== src/Store/Install/Installed.antt =====
-- `install` as a whole: what a run that ends well has put into the store.
use nexpack.Prelude.{◌≡◌, subst, sym, ap, ◌∙◌, some, Text, Bytes, All, ok}
use nexpack.Prelude.Dict
use nexpack.Header.{encode}
use nexpack.Header.Wire.{Capnp}
use nexpack.Bundle.{Bundle}
use nexpack.Store.{Store, Disk, register_app, add_gc_root, root_target, current_target}
use nexpack.Store.Links.{register_app-layers, add_gc_root-layers, register_app-ok, add_gc_root-ok}
use nexpack.Store.Install.{next, install_layers, last_digest, install}
use nexpack.Store.Sound.{Ended, IsSound, Holds, same_layers, has_layers_held}
use nexpack.Store.Install.Layers.{next-eq-ok, install_layers-ok}

module _ (blake3_hex : Bytes → Text) where
  module _ (disk : Disk) where
    -- The stores that `install` goes through.
    abbrev installed : Bundle → Store → Ended
    installed b s = install_layers blake3_hex disk b 0 b.header.layers s

    abbrev linked : Bundle → Bytes → Store → Ended
    linked b meta s1 =
        next (register_app disk b.header.app_id (last_digest b.header.layers) meta s1)
          λ _ s2. add_gc_root disk b.header.app_id (last_digest b.header.layers) s2

    abbrev registered : Bundle → Bytes → Store → Ended
    registered b meta s =
        register_app disk b.header.app_id (last_digest b.header.layers) meta (installed b s).1

    abbrev rooted : Bundle → Bytes → Store → Ended
    rooted b meta s =
        add_gc_root disk b.header.app_id (last_digest b.header.layers) (registered b meta s).1

    -- The layers come first, then the header and the two links.
    install-steps :
        (cp : Capnp) (b : Bundle) (s : Store)
        → (install blake3_hex disk cp b s).0 ≡ ok tt
        → (meta : Bytes) × (encode cp b.header ≡ ok meta)
          × ((installed b s).0 ≡ ok tt)
          × ((registered b meta s).0 ≡ ok tt)
          × ((rooted b meta s).0 ≡ ok tt)
          × (install blake3_hex disk cp b s ≡ rooted b meta s)
    unfolding install
    install-steps cp b s h =
        let (_, h1, e1) =
          next-eq-ok (installed b s) (λ _ s1. next (encode cp b.header, s1) (linked b)) h in
        let (meta, h2, e2) =
          next-eq-ok (encode cp b.header, (installed b s).1) (linked b) (rw e1 at h) in
        let (_, h3, e3) =
          next-eq-ok (registered b meta s)
            (λ _ s2. add_gc_root disk b.header.app_id (last_digest b.header.layers) s2)
            (rw (e1, e2) at h) in
        let whole = e1 ∙ e2 ∙ e3 in (meta, h2, h1, h3, rw whole at h, whole)

    -- A bundle that was installed: its images are in the store, the app has its header and a link to
    -- the last layer, and the last layer is a root.
    abbrev pub Installed : Capnp → Bundle → Store → Type 0
    Installed cp b s =
        All (Holds blake3_hex s) b.header.layers
        × ((meta : Bytes) × (encode cp b.header ≡ ok meta)
            × (Dict.lookup b.header.app_id s.apps
                ≡ some (record {
                  meta = some meta;
                  current = some (current_target (last_digest b.header.layers));
                })))
        × (Dict.lookup b.header.app_id s.gc_roots
            ≡ some (root_target (last_digest b.header.layers)))

    -- If `install` ends well in a store where every image hashes to its name, whichever changes on
    -- disk may fail: it is still so, every layer of the bundle is there with the digest of the header,
    -- and the app has the header, a link to the last layer, and the last layer as its root.
    pub install-ok :
        (cp : Capnp) (b : Bundle) (s : Store)
        → IsSound blake3_hex s
        → (install blake3_hex disk cp b s).0 ≡ ok tt
        → IsSound blake3_hex (install blake3_hex disk cp b s).1
          × Installed cp b (install blake3_hex disk cp b s).1
    install-ok cp b s sound h =
        let (meta, encoded, h1, h2, h3, whole) = install-steps cp b s h in
        let digest = last_digest b.header.layers in
        let s1 = (installed b s).1 in
        let s2 = (registered b meta s).1 in
        let (grows, present) = install_layers-ok blake3_hex disk b 0 b.header.layers s h1 in
        let same =
          add_gc_root-layers disk b.header.app_id digest s2
          ∙ register_app-layers disk b.header.app_id digest meta s1 in
        let (sound', held) =
          same_layers blake3_hex s1 (rooted b meta s).1 b.header.layers same (
            grows.0 sound,
            has_layers_held blake3_hex s1 b.header.layers (grows.0 sound) present,
          ) in
        let (apps, root) = add_gc_root-ok disk b.header.app_id digest s2 h3 in
        let app = register_app-ok disk b.header.app_id digest meta s1 h2 in
        subst (λ r. IsSound blake3_hex r.1 × Installed cp b r.1) (sym whole)
          (sound', (held, (meta, encoded, ap (Dict.lookup b.header.app_id) apps ∙ app), root))
