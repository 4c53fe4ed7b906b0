-- ===== src/Daemon/Sound.antt =====
-- The daemon keeps the store sound: it stores layers only of bundles that it has verified.
use nexpack.Prelude.{
  ℕ, suc, ◌+◌, ◌≡◌, subst, refl, sym, ap, ◌∙◌, Bool-cases, inl, inr, Option, none, some, List, [],
  ◌∷◌, get_elem?, Text, Bytes, Outcome, ok, err, panic, arith, >>=-eq-ok, ok-injective, ◌>>=◌,
}
use nexpack.Prelude.Dict
use nexpack.Layer.{LayerRef, digest_hex}
use nexpack.Header.Wire.{Capnp}
use nexpack.Bundle.{Bundle, parse_bundle, extract_layer}
use nexpack.Verify.{verify_layers, verify_layers_iff, IsIntact}
use nexpack.Store.{Store, has_layer, store_layer}
use nexpack.Store.Sound.{IsSound}
use nexpack.Store.Keeps.{IsAtomic, next_keeps, store_layer_keeps}
use nexpack.Mounts.{MountEntry}
use nexpack.Store.Places.{user}
use nexpack.Overlay.{Table, build_overlay}
use nexpack.Daemon.{
  Request, mount_request, unmount_request, list_request, status_request, World, Host,
  store_new_layer, store_new_layers, open_verified, with_overlay, with_layers, with_home,
  with_bundle, handle_mount, unmount_found, unmount_world, handle_client, serve,
}

module _ (blake3_hex : Bytes → Text) (cp : Capnp) (host : Host) where
  store_new_layer_keeps :
      (atomic : IsAtomic host.disk) (b : Bundle) (i : ℕ) (layer : LayerRef) (s : Store)
      → IsIntact blake3_hex b i layer
      → IsSound blake3_hex s
      → IsSound blake3_hex (store_new_layer blake3_hex cp host b i layer s).1
  unfolding store_new_layer
  store_new_layer_keeps atomic b i layer s (input, cut, hash) sound =
      elim (Bool-cases (has_layer s (digest_hex layer))) [
        | inl there ↦ rw there sound
        | inr absent ↦ rw absent (
            next_keeps (IsSound blake3_hex) (extract_layer b i, s)
              (λ piece s. store_layer host.disk piece (digest_hex layer) s) sound
              λ piece cut'.
                let same : input ≡ piece = ok-injective (sym cut ∙ cut') in
                store_layer_keeps blake3_hex host.disk atomic piece (digest_hex layer) s
                  (ap blake3_hex (sym same) ∙ hash) sound)
      ]

  -- A bundle that was verified: its layers are stored under what they hash to.
  store_new_layers_keeps :
      (atomic : IsAtomic host.disk) (b : Bundle) (i : ℕ) (layers : List LayerRef) (s : Store)
      → ((j : ℕ) (layer : LayerRef)
          → get_elem? layers j ≡ some layer
          → IsIntact blake3_hex b (i + j) layer)
      → IsSound blake3_hex s
      → IsSound blake3_hex (store_new_layers blake3_hex cp host b i layers s).1
  unfolding store_new_layers
  store_new_layers_keeps atomic b i [] s intact sound = sound
  store_new_layers_keeps atomic b i (layer ∷ layers) s intact sound =
      let start : i + 0 ≡ i = omega arith in
      let one : IsSound blake3_hex (store_new_layer blake3_hex cp host b i layer s).1 =
        store_new_layer_keeps atomic b i layer s (rw start at (intact 0 layer refl)) sound in
      next_keeps (IsSound blake3_hex) (store_new_layer blake3_hex cp host b i layer s)
        (λ _ s. store_new_layers blake3_hex cp host b (i + 1) layers s) one
        λ _ _.
          store_new_layers_keeps atomic b (i + 1) layers
            (store_new_layer blake3_hex cp host b i layer s).1
            (λ j l at.
              let later : i + suc j ≡ i + 1 + j = omega arith in rw later at (intact (suc j) l at))
            one

  with_overlay-store :
      (now : ℕ) (b : Bundle) (r : Outcome Text × Table) (w : World)
      → (with_overlay blake3_hex cp host now b r w).1.store ≡ w.store
  unfolding with_overlay
  with_overlay-store now b (ok merged, t) w = refl
  with_overlay-store now b (err e, t) w = refl
  with_overlay-store now b (panic, t) w = refl

  with_layers_keeps :
      (now : ℕ) (root : Text) (b : Bundle) (r : Outcome (Unit {0}) × Store) (w : World)
      → IsSound blake3_hex r.1
      → IsSound blake3_hex (with_layers blake3_hex cp host now root b r w).1.store
  unfolding with_layers
  with_layers_keeps now root b (ok _, s) w sound =
      subst (IsSound blake3_hex)
        (sym (
          with_overlay-store now b
            (build_overlay host.sys root host.runtime_dir b.header.app_id b.header.layers s w.table)
            (record w { store = s })))
        sound
  with_layers_keeps now root b (err e, s) w sound = sound
  with_layers_keeps now root b (panic, s) w sound = sound

  with_root_keeps :
      (atomic : IsAtomic host.disk) (now : ℕ) (b : Bundle) (root : Outcome Text) (w : World)
      → verify_layers blake3_hex b ≡ ok tt
      → IsSound blake3_hex w.store
      → IsSound blake3_hex (with_home blake3_hex cp host now b root w).1.store
  unfolding with_home
  with_root_keeps atomic now b (ok root) w verified sound =
      let intact = (verify_layers_iff blake3_hex b).0 verified in
      with_layers_keeps now root b (store_new_layers blake3_hex cp host b 0 b.header.layers w.store)
        w
        (store_new_layers_keeps atomic b 0 b.header.layers w.store
          (λ j layer at. let start : 0 + j ≡ j = omega arith in rw start (intact j layer at)) sound)
  with_root_keeps atomic now b (err e) w verified sound = sound
  with_root_keeps atomic now b panic w verified sound = sound

  with_bundle_keeps :
      (atomic : IsAtomic host.disk) (now : ℕ) (opened : Outcome Bundle) (w : World)
      → ((b : Bundle) → opened ≡ ok b → verify_layers blake3_hex b ≡ ok tt)
      → IsSound blake3_hex w.store
      → IsSound blake3_hex (with_bundle blake3_hex cp host now opened w).1.store
  unfolding with_bundle
  with_bundle_keeps atomic now (ok b) w verified sound =
      with_root_keeps atomic now b (user host.env) w (verified b refl) sound
  with_bundle_keeps atomic now (err e) w verified sound = sound
  with_bundle_keeps atomic now panic w verified sound = sound

  open_verified-ok :
      (path : Text) (b : Bundle)
      → open_verified blake3_hex cp host path ≡ ok b
      → verify_layers blake3_hex b ≡ ok tt
  unfolding open_verified
  open_verified-ok path b h =
      let (contents, _, h1) =
        >>=-eq-ok (host.read_file path)
          (λ contents. parse_bundle cp contents >>= λ b. verify_layers blake3_hex b >>= λ _. ok b)
          h in
      let (found, _, h2) =
        >>=-eq-ok (parse_bundle cp contents) (λ b. verify_layers blake3_hex b >>= λ _. ok b) h1 in
      let (_, verified, h3) = >>=-eq-ok (verify_layers blake3_hex found) (λ _. ok found) h2 in
      let same : found ≡ b = ok-injective h3 in rw (← same) verified

  unmount_found-store :
      (now : ℕ) (app_id : Text) (found : Option MountEntry) (w : World)
      → (unmount_found blake3_hex cp host now app_id found w).1.store ≡ w.store
  unfolding unmount_found
  unmount_found-store now app_id none w = refl
  unmount_found-store now app_id (some entry) w = refl

  pub handle_client_keeps :
      (atomic : IsAtomic host.disk) (now : ℕ) (request : Request) (w : World)
      → IsSound blake3_hex w.store
      → IsSound blake3_hex (handle_client blake3_hex cp host now request w).1.store
  unfolding handle_client handle_mount unmount_world
  handle_client_keeps atomic now (mount_request bundle offline) w sound =
      with_bundle_keeps atomic now (open_verified blake3_hex cp host bundle) w
        (open_verified-ok bundle) sound
  handle_client_keeps atomic now (unmount_request app_id) w sound =
      subst (IsSound blake3_hex)
        (sym (unmount_found-store now app_id (Dict.lookup app_id w.state.mounts) w)) sound
  handle_client_keeps atomic now list_request w sound = sound
  handle_client_keeps atomic now status_request w sound = sound

  -- Whatever the clients ask for and whatever bundles they name, the requests keep it so that every
  -- image in the store hashes to the digest in its folder's name, if a write of an image that fails
  -- leaves no image.
  pub serve-IsSound :
      (atomic : IsAtomic host.disk) (requests : List (ℕ × Request)) (w : World)
      → IsSound blake3_hex w.store
      → IsSound blake3_hex (serve blake3_hex cp host requests w).store
  unfolding serve
  serve-IsSound atomic [] w sound = sound
  serve-IsSound atomic ((now, request) ∷ requests) w sound =
      serve-IsSound atomic requests (handle_client blake3_hex cp host now request w).1
        (handle_client_keeps atomic now request w sound)
