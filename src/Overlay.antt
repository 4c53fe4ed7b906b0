-- ===== src/Overlay.antt =====
-- nexpackd/src/mount.rs: the overlay of an app. The state is the table of what is mounted where; which
-- commands succeed is a parameter, and so is what is on disk before.
pub mod Lower
pub mod Built
use nexpack.Prelude.{
  Bool, true, false, not, ◌&&◌, Option, none, some, List, [], ◌∷◌, ◌++◌, Text, codes, Outcome, ok,
  err, panic, other, io, mount, if◌then◌else◌,
}
use nexpack.Prelude.Dict
use nexpack.Prelude.Dict.{Dict}
use nexpack.Layer.{LayerRef, digest_hex}
use nexpack.Paths.{Files, join, find_binary}
use nexpack.Store.{Store, has_layer}
use nexpack.Store.Places.{layer_image, layer_mount}

pub data Mounted : Type 0 where
  erofs : Text → Mounted
  -- with the text of `lowerdir=`, and the folders for changes
  overlay : Text → Text → Text → Mounted

abbrev pub Table : Type 0
Table = Dict Mounted

-- How a command ends: with or without success, or it cannot be started.
pub data Ended : Type 0 where
  exited : Bool → Ended
  not_started : Ended

pub record System : Type 0 where
  pub files : Files
  pub exists : Text → Bool
  pub create_dir_all : Text → Bool
  -- `mount -t erofs`, and `erofsfuse`, by image and mount point
  pub mount_erofs : Text → Text → Bool
  pub erofsfuse : Text → Text → Text → Bool
  -- `mount -t overlay` by options and mount point, and `fuse-overlayfs` by folders
  pub mount_overlay : Text → Text → Bool
  pub fuse_overlayfs : Text → Text → Text → Text → Text → Bool
  -- an unmounting command, by its name and the path
  pub unmounts : Text → Text → Ended

-- `?` in code that mounts.
unfoldable pub then_with {ℓ κ} :
    {A : Type ℓ} {B : Type κ}
    → Outcome A × Table
    → (A → Table → Outcome B × Table)
    → Outcome B × Table
then_with (ok a, t) f = f a t
then_with (err e, t) f = (err e, t)
then_with (panic, t) f = (panic, t)

-- The paths joined by colons: `.collect::<Vec<_>>().join(":")`.
unfoldable pub join_colons : List Text → Text
join_colons [] = []
join_colons (p ∷ []) = p
join_colons (p ∷ q ∷ paths) = p ++ (b':' ∷ join_colons (q ∷ paths))

unfoldable pub rev : List Text → List Text
rev [] = []
rev (p ∷ paths) = rev paths ++ (p ∷ [])

-- `lowerdir_str`: the last layer comes first.
unfoldable pub lowerdir : List Text → Text
unfolding join_colons rev
lowerdir lower_dirs = join_colons (rev lower_dirs)

unfoldable pub overlay_options : Text → Text → Text → Text
overlay_options lower upper work =
    codes "lowerdir=" ++ (lower ++ (codes ",upperdir=" ++ (upper ++ (codes ",workdir=" ++ work))))

abbrev pub run_dir : Text → Text → Text
run_dir runtime_dir app_id = join (join runtime_dir (codes "nexpack")) app_id

module _ (sys : System) where
  -- `unwrap_or_default()` makes a success of a command that cannot be started.
  unfoldable pub unmount_by : List Text → Text → Table → Outcome (Unit {0}) × Table
  unmount_by [] merged t = (err (other "failed to unmount"), t)
  unmount_by (cmd ∷ cmds) merged t =
      let next = unmount_by cmds merged t in
      elim (sys.unmounts cmd merged) [
        | exited true ↦ (ok tt, Dict.erase merged t)
        | exited false ↦ next
        | not_started ↦ (ok tt, t)
      ]

  unfoldable pub unmount_path : Text → Table → Outcome (Unit {0}) × Table
  unfolding unmount_by
  unmount_path merged t =
      unmount_by (codes "fusermount3" ∷ codes "fusermount" ∷ codes "umount" ∷ []) merged t

  -- A mount that is still there is taken away if it can be.
  unfoldable pub clear_stale : Text → Table → Table
  unfolding unmount_path
  clear_stale path t = if Dict.has_key path t then (unmount_path path t).1 else t

  unfoldable pub mount_fuse : Outcome Text → Text → Text → Table → Outcome (Unit {0}) × Table
  mount_fuse (ok bin) image point t =
      if sys.erofsfuse bin image point
      then (ok tt, Dict.insert point (erofs image) t)
      else (err (other "erofsfuse mount failed"), t)
  mount_fuse (err e) image point t = (err e, t)
  mount_fuse panic image point t = (panic, t)

  unfoldable pub mount_erofs : Text → Text → Table → Outcome (Unit {0}) × Table
  unfolding mount_fuse find_binary
  mount_erofs image point t =
      if sys.mount_erofs image point
      then (ok tt, Dict.insert point (erofs image) t)
      else mount_fuse (find_binary sys.files (codes "erofsfuse")) image point t

  unfoldable pub try_overlay_mount : List Text → Text → Text → Text → Table → Bool × Table
  unfolding lowerdir overlay_options
  try_overlay_mount lower_dirs upper work merged t =
      if sys.mount_overlay (overlay_options (lowerdir lower_dirs) upper work) merged
      then (true, Dict.insert merged (overlay (lowerdir lower_dirs) upper work) t)
      else (false, t)

  unfoldable pub overlay_fuse :
      Outcome Text → Text → Text → Text → Text → Table → Outcome (Unit {0}) × Table
  overlay_fuse (ok bin) lower upper work merged t =
      if sys.fuse_overlayfs bin lower upper work merged
      then (ok tt, Dict.insert merged (overlay lower upper work) t)
      else (err (other "fuse-overlayfs mount failed"), t)
  overlay_fuse (err e) lower upper work merged t = (err e, t)
  overlay_fuse panic lower upper work merged t = (panic, t)

  unfoldable pub try_fuse_overlay_mount :
      List Text → Text → Text → Text → Table → Outcome (Unit {0}) × Table
  unfolding overlay_fuse lowerdir find_binary
  try_fuse_overlay_mount lower_dirs upper work merged t =
      overlay_fuse (find_binary sys.files (codes "fuse-overlayfs")) (lowerdir lower_dirs) upper work
        merged t

  -- The two ways one after the other.
  unfoldable pub mount_merged : List Text → Text → Text → Text → Table → Outcome (Unit {0}) × Table
  unfolding try_overlay_mount try_fuse_overlay_mount
  mount_merged lower_dirs upper work merged t =
      let tried = try_overlay_mount lower_dirs upper work merged t in
      if tried.0
      then (ok tt, tried.1)
      else try_fuse_overlay_mount lower_dirs upper work merged tried.1

  unfoldable pub made : Text → Table → Outcome (Unit {0}) × Table
  made dir t = if sys.create_dir_all dir then (ok tt, t) else (err (io "creating dir"), t)

  -- A turn of the loop over the layers, by the digest.
  unfoldable pub mount_layer : Text → Store → Text → Table → Outcome (Unit {0}) × Table
  unfolding then_with made clear_stale mount_erofs
  mount_layer root s digest_hex t =
      let point = layer_mount root digest_hex in
      then_with (if sys.exists point then (ok tt, t) else made point t) λ _ t.
        if has_layer s digest_hex
        then mount_erofs (layer_image root digest_hex) point (clear_stale point t)
        else (ok tt, clear_stale point t)

  unfoldable pub mount_layers : Text → Store → List LayerRef → Table → Outcome (List Text) × Table
  unfolding then_with mount_layer
  mount_layers root s [] t = (ok [], t)
  mount_layers root s (layer ∷ layers) t =
      then_with (mount_layer root s (digest_hex layer) t) λ _ t.
        then_with (mount_layers root s layers t)
          λ dirs t. (ok (layer_mount root (digest_hex layer) ∷ dirs), t)

  -- `root` is the store's, and `runtime_dir` that of `XDG_RUNTIME_DIR`, or `/tmp`.
  unfoldable pub build_overlay :
      Text → Text → Text → List LayerRef → Store → Table → Outcome Text × Table
  unfolding then_with mount_layers made clear_stale mount_merged
  build_overlay root runtime_dir app_id layers s t =
      let upper = join (run_dir runtime_dir app_id) (codes "upper") in
      let work = join (run_dir runtime_dir app_id) (codes "work") in
      let merged = join (run_dir runtime_dir app_id) (codes "rootfs") in
      then_with (mount_layers root s layers t) λ lower_dirs t.
        then_with (made upper (if sys.exists merged then clear_stale merged t else t)) λ _ t.
          then_with (made work t) λ _ t.
            then_with (made merged t)
              λ _ t. then_with (mount_merged lower_dirs upper work merged t) λ _ t. (ok merged, t)

  -- `unmount_overlay`: the folder of the app goes too, which the table does not show.
  unfoldable pub unmount_overlay : Text → Table → Outcome (Unit {0}) × Table
  unfolding unmount_path
  unmount_overlay merged t = unmount_path merged t
