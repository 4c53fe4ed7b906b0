-- ===== src/Daemon.antt =====
-- nexpackd/src/main.rs: `handle_client` and `handle_mount`, from the request that was read to the
-- response that is written. (The signature's result is not used; the log is left out.)
pub mod Sound
pub mod Served
pub mod Start
use nexpack.Prelude.{
  ℕ, ◌+◌, ◌-◌, ◌==◌, Bool, true, false, Option, none, some, List, [], ◌∷◌, Text, codes, Bytes,
  Outcome, ok, err, panic, Error, other, ◌>>=◌, ◌>>◌, if◌then◌else◌,
}
use nexpack.Prelude.Dict
use nexpack.Layer.{LayerRef, digest_hex}
use nexpack.Header.Wire.{Capnp}
use nexpack.Bundle.{Bundle, parse_bundle, extract_layer}
use nexpack.Verify.{verify_layers}
use nexpack.Store.{Store, Disk, has_layer, store_layer}
use nexpack.Store.Install.{next}
use nexpack.Sandbox.{Env, build_bwrap_args}
use nexpack.Seccomp.{generate_seccomp_filter}
use nexpack.Mounts.{
  MountEntry, DaemonState, AppInfo, UnmountReply, unmounted, refcount_decremented, not_mounted,
  unmount_failed, register_mount, handle_unmount, handle_list,
}
use nexpack.Store.Places.{user}
use nexpack.Overlay.{Table, System, build_overlay, unmount_overlay}

pub record MountReply : Type 0 where
  pub status : Text
  pub app_id : Text
  pub rootfs : Text
  pub entrypoint : Text
  pub seccomp_filter : Bytes
  pub bwrap_args : List Text

pub data Request : Type 0 where
  mount_request : Text → Bool → Request
  unmount_request : Text → Request
  list_request status_request : Request

pub data Response : Type 0 where
  mount_response : MountReply → Response
  unmount_response : Text → Response
  list_response : List AppInfo → Response
  status_response : Response
  error_response : Error → Response

-- What the daemon changes: the user's store, what is mounted, and its own table.
pub record World : Type 0 where
  pub store : Store
  pub table : Table
  pub state : DaemonState

-- What a run of the daemon finds: its disk, the commands it can call, its environment and folders.
pub record Host : Type 0 where
  pub disk : Disk
  pub sys : System
  pub env : Env
  pub runtime_dir : Text
  pub read_file : Text → Outcome Bytes

abbrev pub is_done : Outcome (Unit {0}) → Bool
is_done (ok _) = true
is_done (err _) = false
is_done panic = false

module _ (blake3_hex : Bytes → Text) (cp : Capnp) (host : Host) where
  -- The loop that stores the layers, from the index `i` on: they are not hashed again.
  unfoldable pub store_new_layer : Bundle → ℕ → LayerRef → Store → Outcome (Unit {0}) × Store
  unfolding next
  store_new_layer b i layer s =
      if has_layer s (digest_hex layer)
      then (ok tt, s)
      else next (extract_layer b i, s) λ piece s. store_layer host.disk piece (digest_hex layer) s

  unfoldable pub store_new_layers : Bundle → ℕ → List LayerRef → Store → Outcome (Unit {0}) × Store
  unfolding next store_new_layer
  store_new_layers b i [] s = (ok tt, s)
  store_new_layers b i (layer ∷ layers) s =
      next (store_new_layer b i layer s) λ _ s. store_new_layers b (i + 1) layers s

  unfoldable pub open_verified : Text → Outcome Bundle
  open_verified bundle_path = do
    contents ← host.read_file bundle_path
    b ← parse_bundle cp contents
    verify_layers blake3_hex b
    ok b

  abbrev pub reply_for : Bundle → Text → MountReply
  reply_for b merged = record {
    status = codes "mounted";
    app_id = b.header.app_id;
    rootfs = merged;
    entrypoint = b.header.entrypoint;
    seccomp_filter = generate_seccomp_filter b.header.permissions;
    bwrap_args = build_bwrap_args host.env merged b.header.permissions b.header.entrypoint [];
  }

  -- From the overlay on.
  unfoldable pub with_overlay :
      ℕ → Bundle → Outcome Text × Table → World → Outcome MountReply × World
  unfolding register_mount
  with_overlay now b (ok merged, t) w = (
    ok (reply_for b merged),
    record w { table = t; state = register_mount b.header.app_id merged now w.state },
  )
  with_overlay now b (err e, t) w = (err e, record w { table = t })
  with_overlay now b (panic, t) w = (panic, record w { table = t })

  unfoldable pub with_layers :
      ℕ → Text → Bundle → Outcome (Unit {0}) × Store → World → Outcome MountReply × World
  unfolding with_overlay build_overlay
  with_layers now root b (ok _, s) w =
      with_overlay now b
        (build_overlay host.sys root host.runtime_dir b.header.app_id b.header.layers s w.table)
        (record w { store = s })
  with_layers now root b (err e, s) w = (err e, record w { store = s })
  with_layers now root b (panic, s) w = (panic, record w { store = s })

  -- `Store::user()?`
  unfoldable pub with_home : ℕ → Bundle → Outcome Text → World → Outcome MountReply × World
  unfolding with_layers store_new_layers
  with_home now b (ok root) w =
      with_layers now root b (store_new_layers b 0 b.header.layers w.store) w
  with_home now b (err e) w = (err e, w)
  with_home now b panic w = (panic, w)

  unfoldable pub with_bundle : ℕ → Outcome Bundle → World → Outcome MountReply × World
  unfolding with_home user
  with_bundle now (ok b) w = with_home now b (user host.env) w
  with_bundle now (err e) w = (err e, w)
  with_bundle now panic w = (panic, w)

  unfoldable pub handle_mount : ℕ → Text → World → Outcome MountReply × World
  unfolding with_bundle open_verified
  handle_mount now bundle_path w = with_bundle now (open_verified bundle_path) w

  -- The overlay is unmounted only with the last lease.
  unfoldable pub unmount_found : ℕ → Text → Option MountEntry → World → UnmountReply × World
  unfolding handle_unmount unmount_overlay
  unmount_found now app_id none w = (not_mounted, w)
  unmount_found now app_id (some entry) w =
      let gone = unmount_overlay host.sys entry.rootfs w.table in
      let left = handle_unmount (is_done gone.0) app_id now w.state in
      (
        left.0,
        record w { table = if (entry.refcount - 1) == 0 then gone.1 else w.table; state = left.1 },
      )

  unfoldable pub unmount_world : ℕ → Text → World → UnmountReply × World
  unfolding unmount_found
  unmount_world now app_id w = unmount_found now app_id (Dict.lookup app_id w.state.mounts) w

  -- The response to an unmount; a failing `?` is written as an error, like a missing mount.
  unfoldable pub unmount_answer : UnmountReply → Response
  unmount_answer unmounted = unmount_response (codes "unmounted")
  unmount_answer refcount_decremented = unmount_response (codes "refcount_decremented")
  unmount_answer not_mounted = error_response (other "not mounted")
  unmount_answer unmount_failed = error_response (other "failed to unmount")

  -- A panic ends the client's thread: nothing is written.
  unfoldable pub mount_answer : Outcome MountReply → Option Response
  mount_answer (ok reply) = some (mount_response reply)
  mount_answer (err e) = some (error_response e)
  mount_answer panic = none

  unfoldable pub handle_client : ℕ → Request → World → Option Response × World
  unfolding handle_mount mount_answer unmount_world unmount_answer handle_list
  handle_client now (mount_request bundle offline) w =
      let done = handle_mount now bundle w in (mount_answer done.0, done.1)
  handle_client now (unmount_request app_id) w =
      let done = unmount_world now app_id w in (some (unmount_answer done.0), done.1)
  handle_client now list_request w = (some (list_response (handle_list w.state)), w)
  handle_client now status_request w = (some status_response, w)

  -- The clients' requests in the order in which they are served.
  unfoldable pub serve : List (ℕ × Request) → World → World
  unfolding handle_client
  serve [] w = w
  serve ((now, request) ∷ requests) w = serve requests (handle_client now request w).1
