-- ===== src/Daemon/Served.antt =====
-- Sequences of requests: the daemon's table goes through the events of nexpack.Mounts, and the store
-- stays sound.
use nexpack.Prelude.{
  ℕ, ◌≡◌, refl, sym, ap, ◌∙◌, Option, none, some, List, [], ◌∷◌, ◌++◌, Text, Bytes, Outcome, ok,
  err, panic,
}
use nexpack.Prelude.Dict
use nexpack.Header.Wire.{Capnp}
use nexpack.Bundle.{Bundle}
use nexpack.Store.{Store}
use nexpack.Mounts.{DaemonState, MountEntry, Event, mount, unmount, step, run}
use nexpack.Mounts.Refcount.{refcount_of, leases, refcount_of-run}
use nexpack.Store.Places.{user}
use nexpack.Overlay.{Table, build_overlay, unmount_overlay}
use nexpack.Daemon.{
  MountReply, Request, mount_request, unmount_request, list_request, status_request, World, Host,
  store_new_layers, open_verified, with_overlay, with_layers, with_home, with_bundle, handle_mount,
  is_done, unmount_found, unmount_world, handle_client, serve,
}

run-append :
    (s : DaemonState) (before after : List Event)
    → run s (before ++ after) ≡ run (run s before) after
unfolding run
run-append s [] after = refl
run-append s (e ∷ before) after = run-append (step s e) before after

module _ (blake3_hex : Bytes → Text) (cp : Capnp) (host : Host) where
  -- The event of a request: a mount that is answered, and an unmount.
  abbrev mount_event : ℕ → Outcome MountReply → List Event
  mount_event now (ok reply) = mount reply.app_id reply.rootfs now ∷ []
  mount_event now (err e) = []
  mount_event now panic = []

  -- An unmount succeeds if the overlay can be unmounted.
  abbrev unmount_event : ℕ → Text → Option MountEntry → World → List Event
  unmount_event now app_id none w = []
  unmount_event now app_id (some entry) w =
      unmount (is_done (unmount_overlay host.sys entry.rootfs w.table).0) app_id now ∷ []

  abbrev pub events_of : ℕ → Request → World → List Event
  events_of now (mount_request bundle offline) w =
      mount_event now (handle_mount blake3_hex cp host now bundle w).0
  events_of now (unmount_request app_id) w =
      unmount_event now app_id (Dict.lookup app_id w.state.mounts) w
  events_of now list_request w = []
  events_of now status_request w = []

  abbrev pub all_events : List (ℕ × Request) → World → List Event
  all_events [] w = []
  all_events ((now, request) ∷ requests) w =
      events_of now request w
      ++ all_events requests (handle_client blake3_hex cp host now request w).1

  with_overlay-state :
      (now : ℕ) (b : Bundle) (r : Outcome Text × Table) (w : World)
      → (with_overlay blake3_hex cp host now b r w).1.state
        ≡ run w.state (mount_event now (with_overlay blake3_hex cp host now b r w).0)
  unfolding with_overlay run step
  with_overlay-state now b (ok merged, t) w = refl
  with_overlay-state now b (err e, t) w = refl
  with_overlay-state now b (panic, t) w = refl

  with_layers-state :
      (now : ℕ) (root : Text) (b : Bundle) (r : Outcome (Unit {0}) × Store) (w : World)
      → (with_layers blake3_hex cp host now root b r w).1.state
        ≡ run w.state (mount_event now (with_layers blake3_hex cp host now root b r w).0)
  unfolding with_layers run
  with_layers-state now root b (ok _, s) w =
      with_overlay-state now b
        (build_overlay host.sys root host.runtime_dir b.header.app_id b.header.layers s w.table)
        (record w { store = s })
  with_layers-state now root b (err e, s) w = refl
  with_layers-state now root b (panic, s) w = refl

  with_home-state :
      (now : ℕ) (b : Bundle) (root : Outcome Text) (w : World)
      → (with_home blake3_hex cp host now b root w).1.state
        ≡ run w.state (mount_event now (with_home blake3_hex cp host now b root w).0)
  unfolding with_home run
  with_home-state now b (ok root) w =
      with_layers-state now root b (store_new_layers blake3_hex cp host b 0 b.header.layers w.store)
        w
  with_home-state now b (err e) w = refl
  with_home-state now b panic w = refl

  with_bundle-state :
      (now : ℕ) (opened : Outcome Bundle) (w : World)
      → (with_bundle blake3_hex cp host now opened w).1.state
        ≡ run w.state (mount_event now (with_bundle blake3_hex cp host now opened w).0)
  unfolding with_bundle run
  with_bundle-state now (ok b) w = with_home-state now b (user host.env) w
  with_bundle-state now (err e) w = refl
  with_bundle-state now panic w = refl

  unmount_found-state :
      (now : ℕ) (app_id : Text) (found : Option MountEntry) (w : World)
      → (unmount_found blake3_hex cp host now app_id found w).1.state
        ≡ run w.state (unmount_event now app_id found w)
  unfolding unmount_found run step
  unmount_found-state now app_id none w = refl
  unmount_found-state now app_id (some entry) w = refl

  handle_client-state :
      (now : ℕ) (request : Request) (w : World)
      → (handle_client blake3_hex cp host now request w).1.state
        ≡ run w.state (events_of now request w)
  unfolding handle_client handle_mount unmount_world run
  handle_client-state now (mount_request bundle offline) w =
      with_bundle-state now (open_verified blake3_hex cp host bundle) w
  handle_client-state now (unmount_request app_id) w =
      unmount_found-state now app_id (Dict.lookup app_id w.state.mounts) w
  handle_client-state now list_request w = refl
  handle_client-state now status_request w = refl

  serve-run :
      (requests : List (ℕ × Request)) (w : World)
      → (serve blake3_hex cp host requests w).state ≡ run w.state (all_events requests w)
  unfolding serve run
  serve-run [] w = refl
  serve-run ((now, request) ∷ requests) w =
      let w1 = (handle_client blake3_hex cp host now request w).1 in
      serve-run requests w1
      ∙ ap (λ s. run s (all_events requests w1)) (handle_client-state now request w)
      ∙ sym (run-append w.state (events_of now request w) (all_events requests w1))

  -- Whatever the clients ask for, one after the other, the daemon's table is as the mounts that were
  -- answered and the unmounts leave it, and so the count of an app is the number of its mounts that
  -- were not given back.
  pub serve_refines :
      (requests : List (ℕ × Request)) (w : World)
      → ((serve blake3_hex cp host requests w).state ≡ run w.state (all_events requests w))
        × ((app_id : Text)
            → refcount_of app_id (serve blake3_hex cp host requests w).state
              ≡ leases app_id (refcount_of app_id w.state) (all_events requests w))
  serve_refines requests w = (
    serve-run requests w,
    λ app_id.
        ap (refcount_of app_id) (serve-run requests w)
        ∙ refcount_of-run app_id w.state (all_events requests w),
  )
