-- ===== src/Overlay/Built.antt =====
-- What is mounted when `build_overlay` ends well.
use nexpack.Prelude.{
  ◌≡◌, refl, sym, ap, subst, ◌∙◌, Bool, Bool-cases, inl, inr, true, false, some, List, [], ◌∷◌, map,
  Text, text_eq, text_eq_refl, text_eq_iff, codes, All, Outcome, ok, err, panic, ok-injective,
  arith, if◌then◌else◌,
}
use nexpack.Prelude.Dict
use nexpack.Layer.{LayerRef, digest_hex}
use nexpack.Paths.{join, find_binary}
use nexpack.Store.{Store, has_layer}
use nexpack.Store.Places.{layer_image, layer_mount}
use nexpack.Overlay.{
  Mounted, erofs, overlay, Table, System, then_with, lowerdir, unmount_by, unmount_path,
  clear_stale, mount_fuse, mount_erofs, try_overlay_mount, overlay_fuse, try_fuse_overlay_mount,
  mount_merged, made, overlay_options, mount_layer, mount_layers, run_dir, build_overlay,
}

then_with-eq-ok {ℓ κ} :
    {A : Type ℓ} {B : Type κ} (r : Outcome A × Table) (f : A → Table → Outcome B × Table) {b : B}
    → (then_with r f).0 ≡ ok b
    → (a : A) × (r.0 ≡ ok a) × (then_with r f ≡ f a r.1)
unfolding then_with
then_with-eq-ok (ok a, t) f h = (a, refl, refl)
then_with-eq-ok (err e, t) f h = absurd cc
then_with-eq-ok (panic, t) f h = absurd cc

-- It is a layer's mount point, and that layer's image is mounted there.
abbrev pub HasErofs : Text → Text → Table → Type 0
HasErofs root point t =
    (digest : Text) × (point ≡ layer_mount root digest)
    × (Dict.lookup point t ≡ some (erofs (layer_image root digest)))

inserted_here : (p : Text) (m : Mounted) (t : Table) → Dict.lookup p (Dict.insert p m t) ≡ some m
inserted_here p m t = rw (text_eq_refl p) at (Dict.lookup-insert p p m t)

HasErofs-insert_apart :
    (root p q : Text) (m : Mounted) (t : Table)
    → text_eq q p ≡ false
    → HasErofs root p t
    → HasErofs root p (Dict.insert q m t)
HasErofs-insert_apart root p q m t apart (old, named, at) =
    (old, named, rw apart at (Dict.lookup-insert p q m t) ∙ at)

abbrev pub mount_points : Text → List LayerRef → List Text
mount_points root layers = map (λ layer. layer_mount root (digest_hex layer)) layers

module _ (sys : System) where
  lookup-unmount_by :
      (cmds : List Text) (path p : Text) (t : Table)
      → text_eq path p ≡ false
      → Dict.lookup p (unmount_by sys cmds path t).1 ≡ Dict.lookup p t
  unfolding unmount_by
  lookup-unmount_by [] path p t h = refl
  lookup-unmount_by (cmd ∷ cmds) path p t h =
      ground (arith, lookup-unmount_by cmds path p t h, Dict.lookup-erase p path t)

  clear_stale-apart :
      (path p : Text) (t : Table)
      → text_eq path p ≡ false
      → Dict.lookup p (clear_stale sys path t) ≡ Dict.lookup p t
  unfolding clear_stale unmount_path
  clear_stale-apart path p t h = elim (Bool-cases (Dict.has_key path t)) [
    | inl stale ↦ rw stale (
        lookup-unmount_by (codes "fusermount3" ∷ codes "fusermount" ∷ codes "umount" ∷ []) path p t
          h)
    | inr free ↦ rw free refl
  ]

  mount_fuse-ok :
      (bin : Outcome Text) (image point : Text) (t : Table)
      → (mount_fuse sys bin image point t).0 ≡ ok tt
      → (mount_fuse sys bin image point t).1 ≡ Dict.insert point (erofs image) t
  unfolding mount_fuse
  mount_fuse-ok (ok bin) image point t h = ground arith
  mount_fuse-ok (err e) image point t h = absurd cc
  mount_fuse-ok panic image point t h = absurd cc

  mount_erofs-ok :
      (image point : Text) (t : Table)
      → (mount_erofs sys image point t).0 ≡ ok tt
      → (mount_erofs sys image point t).1 ≡ Dict.insert point (erofs image) t
  unfolding mount_erofs
  mount_erofs-ok image point t h = elim (Bool-cases (sys.mount_erofs image point)) [
    | inl done ↦ rw done refl
    | inr failed ↦
        rw failed
          (mount_fuse-ok (find_binary sys.files (codes "erofsfuse")) image point t (rw failed at h))
  ]

  mount_layer-ok :
      (root : Text) (s : Store) (digest : Text) (t : Table)
      → has_layer s digest ≡ true
      → (mount_layer sys root s digest t).0 ≡ ok tt
      → (mount_layer sys root s digest t).1
        ≡ Dict.insert
            (layer_mount root digest)
            (erofs (layer_image root digest))
            (clear_stale sys (layer_mount root digest) t)
  unfolding mount_layer made
  mount_layer-ok root s digest t there h =
      let point = layer_mount root digest in
      let image = layer_image root digest in
      let first : Outcome (Unit {0}) × Table =
        if sys.exists point then (ok tt, t) else made sys point t in
      let same : first.1 ≡ t = ground arith in
      let mounting : Unit {0} → Table → Outcome (Unit {0}) × Table =
        λ _ t. mount_erofs sys image point (clear_stale sys point t) in
      let h0 : (then_with first mounting).0 ≡ ok tt = rw there at h in
      let (_, _, e) = then_with-eq-ok first mounting h0 in
      let e' : then_with first mounting ≡ mount_erofs sys image point (clear_stale sys point t) =
        e ∙ ap (mounting tt) same in
      rw there (
        ap (λ r. r.1) e'
        ∙ mount_erofs-ok image point (clear_stale sys point t) (ap (λ r. r.0) (sym e') ∙ h0))

  -- Mounting a layer loses no other layer's mount.
  mount_layer_keeps :
      (root : Text) (s : Store) (digest : Text) (t : Table)
      → has_layer s digest ≡ true
      → (mount_layer sys root s digest t).0 ≡ ok tt
      → (p : Text) → HasErofs root p t
      → HasErofs root p (mount_layer sys root s digest t).1
  mount_layer_keeps root s digest t there h p (old, named, at) =
      let point = layer_mount root digest in
      let image = layer_image root digest in
      subst (HasErofs root p) (sym (mount_layer-ok root s digest t there h))
        (elim (Bool-cases (text_eq point p)) [
          | inl same ↦ (
            digest,
            sym ((text_eq_iff point p).0 same),
            rw same at (Dict.lookup-insert p point (erofs image) (clear_stale sys point t)),
          )
          | inr apart ↦
              HasErofs-insert_apart root p point (erofs image) (clear_stale sys point t) apart
                (old, named, clear_stale-apart point p t apart ∙ at)
        ])

  mount_layers-ok :
      (root : Text) (s : Store) (layers : List LayerRef) (t : Table) (dirs : List Text)
      → All (λ layer. has_layer s (digest_hex layer) ≡ true) layers
      → (mount_layers sys root s layers t).0 ≡ ok dirs
      → (dirs ≡ mount_points root layers)
        × ((p : Text) → HasErofs root p t → HasErofs root p (mount_layers sys root s layers t).1)
        × All (λ p. HasErofs root p (mount_layers sys root s layers t).1) (mount_points root layers)
  unfolding mount_layers
  mount_layers-ok root s [] t dirs there h =
      ((let e : [] ≡ dirs = cc in sym e), (λ p held. held), tt)
  mount_layers-ok root s (layer ∷ layers) t dirs (here, there) h =
      let digest = digest_hex layer in
      let t1 = (mount_layer sys root s digest t).1 in
      let add_dir : List Text → Table → Outcome (List Text) × Table =
        λ dirs t. (ok (layer_mount root digest ∷ dirs), t) in
      let (_, first, e1) =
        then_with-eq-ok (mount_layer sys root s digest t)
          (λ _ t. then_with (mount_layers sys root s layers t) add_dir) h in
      let h1 : (then_with (mount_layers sys root s layers t1) add_dir).0 ≡ ok dirs = rw e1 at h in
      let (rest, more, e2) = then_with-eq-ok (mount_layers sys root s layers t1) add_dir h1 in
      let (same, kept, held) = mount_layers-ok root s layers t1 rest there more in
      let listed : layer_mount root digest ∷ rest ≡ dirs = (let h2 = rw e2 at h1 in cc) in
      let here_held : HasErofs root (layer_mount root digest) t1 = (
        digest,
        refl,
        ap (Dict.lookup (layer_mount root digest)) (mount_layer-ok root s digest t here first)
            ∙ inserted_here (layer_mount root digest) (erofs (layer_image root digest))
                (clear_stale sys (layer_mount root digest) t),
      ) in
      subst
        (λ r.
          (dirs ≡ layer_mount root digest ∷ mount_points root layers)
          × ((p : Text) → HasErofs root p t → HasErofs root p r.1)
          × All (λ p. HasErofs root p r.1) (layer_mount root digest ∷ mount_points root layers))
        (sym (e1 ∙ e2))
        (
          sym listed ∙ ap (λ l. layer_mount root digest ∷ l) same,
          (λ p was. kept p (mount_layer_keeps root s digest t here first p was)),
          (kept (layer_mount root digest) here_held, held),
        )

  overlay_fuse-ok :
      (bin : Outcome Text) (lower upper work merged : Text) (t : Table)
      → (overlay_fuse sys bin lower upper work merged t).0 ≡ ok tt
      → (overlay_fuse sys bin lower upper work merged t).1
        ≡ Dict.insert merged (overlay lower upper work) t
  unfolding overlay_fuse
  overlay_fuse-ok (ok bin) lower upper work merged t h = ground arith
  overlay_fuse-ok (err e) lower upper work merged t h = absurd cc
  overlay_fuse-ok panic lower upper work merged t h = absurd cc

  mount_merged-ok :
      (dirs : List Text) (upper work merged : Text) (t : Table)
      → (mount_merged sys dirs upper work merged t).0 ≡ ok tt
      → (mount_merged sys dirs upper work merged t).1
        ≡ Dict.insert merged (overlay (lowerdir dirs) upper work) t
  unfolding mount_merged try_overlay_mount try_fuse_overlay_mount
  mount_merged-ok dirs upper work merged t h =
      elim (Bool-cases (sys.mount_overlay (overlay_options (lowerdir dirs) upper work) merged)) [
        | inl done ↦ rw done refl
        | inr failed ↦ rw failed (
            overlay_fuse-ok (find_binary sys.files (codes "fuse-overlayfs")) (lowerdir dirs) upper
              work merged t (rw failed at h))
      ]

  made-same : (dir : Text) (t : Table) → (made sys dir t).1 ≡ t
  unfolding made
  made-same dir t = ground arith

  -- What is mounted elsewhere stays under the new overlay.
  placed_apart :
      (root merged : Text) (m : Mounted) (b : Bool) (ps : List Text) (t : Table)
      → All (λ p. text_eq merged p ≡ false) ps
      → All (λ p. HasErofs root p t) ps
      → All
          (λ p. HasErofs root p (Dict.insert merged m (if b then clear_stale sys merged t else t)))
          ps
  placed_apart root merged m b [] t apart held = tt
  placed_apart root merged m false (p ∷ ps) t (here, there) (now, later) = (
    HasErofs-insert_apart root p merged m t here now,
    placed_apart root merged m false ps t there later,
  )
  placed_apart root merged m true (p ∷ ps) t (here, there) ((digest, named, at), later) = (
    HasErofs-insert_apart root p merged m (clear_stale sys merged t) here
        (digest, named, clear_stale-apart merged p t here ∙ at),
    placed_apart root merged m true ps t there later,
  )

  -- The folders made one after the other, and then the overlay.
  abbrev finish : Text → Text → Text → List Text → Table → Outcome Text × Table
  finish upper work merged dirs t = then_with (made sys upper t) λ _ t.
      then_with (made sys work t) λ _ t.
        then_with (made sys merged t)
          λ _ t. then_with (mount_merged sys dirs upper work merged t) λ _ t. (ok merged, t)

  finish-ok :
      (upper work merged : Text) (dirs : List Text) (t : Table) (m : Text)
      → (finish upper work merged dirs t).0 ≡ ok m
      → (m ≡ merged)
        × ((finish upper work merged dirs t).1
            ≡ Dict.insert merged (overlay (lowerdir dirs) upper work) t)
  finish-ok upper work merged dirs t m h =
      let last : Unit {0} → Table → Outcome Text × Table = λ _ t. (ok merged, t) in
      let third : Unit {0} → Table → Outcome Text × Table =
        λ _ t. then_with (mount_merged sys dirs upper work merged t) last in
      let second : Unit {0} → Table → Outcome Text × Table =
        λ _ t. then_with (made sys merged t) third in
      let (_, _, e1) =
        then_with-eq-ok (made sys upper t) (λ _ t. then_with (made sys work t) second) h in
      let e1' = e1 ∙ ap (λ t. then_with (made sys work t) second) (made-same upper t) in
      let h1 = ap (λ r. r.0) (sym e1') ∙ h in
      let (_, _, e2) = then_with-eq-ok (made sys work t) second h1 in
      let e2' = e2 ∙ ap (second tt) (made-same work t) in
      let h2 = ap (λ r. r.0) (sym e2') ∙ h1 in
      let (_, _, e3) = then_with-eq-ok (made sys merged t) third h2 in
      let e3' = e3 ∙ ap (third tt) (made-same merged t) in
      let h3 = ap (λ r. r.0) (sym e3') ∙ h2 in
      let (_, mounted, e4) = then_with-eq-ok (mount_merged sys dirs upper work merged t) last h3 in
      let named : ok merged ≡ ok m = ap (λ r. r.0) (sym e4) ∙ h3 in
      (
        sym (ok-injective named),
        ap (λ r. r.1) (e1' ∙ e2' ∙ e3' ∙ e4) ∙ mount_merged-ok dirs upper work merged t mounted,
      )

  -- When the overlay of an app whose layers are all in the store is built, it is at the app's
  -- `rootfs`, over the mount points of the layers in their order, and each of these has the image
  -- mounted that is in the same layer's folder: if `rootfs` is none of the mount points.
  pub build_overlay-ok :
      (root runtime_dir app_id : Text) (layers : List LayerRef) (s : Store) (t : Table) (m : Text)
      → All (λ layer. has_layer s (digest_hex layer) ≡ true) layers
      → All
          (λ p. text_eq (join (run_dir runtime_dir app_id) (codes "rootfs")) p ≡ false)
          (mount_points root layers)
      → (build_overlay sys root runtime_dir app_id layers s t).0 ≡ ok m
      → (m ≡ join (run_dir runtime_dir app_id) (codes "rootfs"))
        × (Dict.lookup m (build_overlay sys root runtime_dir app_id layers s t).1
            ≡ some (
                overlay
                  (lowerdir (mount_points root layers))
                  (join (run_dir runtime_dir app_id) (codes "upper"))
                  (join (run_dir runtime_dir app_id) (codes "work"))))
        × All
            (λ p. HasErofs root p (build_overlay sys root runtime_dir app_id layers s t).1)
            (mount_points root layers)
  unfolding build_overlay
  build_overlay-ok root runtime_dir app_id layers s t m there apart h =
      let upper = join (run_dir runtime_dir app_id) (codes "upper") in
      let work = join (run_dir runtime_dir app_id) (codes "work") in
      let merged = join (run_dir runtime_dir app_id) (codes "rootfs") in
      let cleared : Table → Table =
        λ t. if sys.exists merged then clear_stale sys merged t else t in
      let t1 = (mount_layers sys root s layers t).1 in
      let (dirs, mounted, e) =
        then_with-eq-ok (mount_layers sys root s layers t)
          (λ dirs t. finish upper work merged dirs (cleared t)) h in
      let (same, _, held) = mount_layers-ok root s layers t dirs there mounted in
      let (named, placed) = finish-ok upper work merged dirs (cleared t1) m (rw e at h) in
      let lower = lowerdir (mount_points root layers) in
      let whole =
        ap (λ r. r.1) e
        ∙ placed
        ∙ ap (λ l. Dict.insert merged (overlay (lowerdir l) upper work) (cleared t1)) same in
      (
        named,
        ap (λ m. Dict.lookup m (build_overlay sys root runtime_dir app_id layers s t).1) named
            ∙ (ap (Dict.lookup merged) whole
                ∙ inserted_here merged (overlay lower upper work) (cleared t1)),
        subst (λ t. All (λ p. HasErofs root p t) (mount_points root layers)) (sym whole)
            (placed_apart root merged (overlay lower upper work) (sys.exists merged)
              (mount_points root layers) t1 apart held),
      )
