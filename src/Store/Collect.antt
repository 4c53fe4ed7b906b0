-- ===== src/Store/Collect.antt =====
-- What `Store::gc` keeps.
use nexpack.Prelude.{
  ◌≡◌, ◌≢◌, refl, ◌∙◌, Bool, true, false, ◌||◌, not, Option, none, some, List, [], ◌∷◌, ◌++◌, Text,
  codes, text_eq, text_eq_iff, Bytes, All, arith, if◌then◌else◌,
}
use nexpack.Prelude.Dict
use nexpack.Prelude.Dict.{Dict}
use nexpack.Store.{
  App, Store, Target, current_target, root_target, file_name, add_name, root_names, current_names,
  contains, reachable, sweep, gc,
}

lookup-sweep :
    (removes : Text → Bool) (names : List Text) (name : Text) (layers : Dict (Option Bytes))
    → Dict.lookup name (sweep removes names layers).0
      ≡ (if contains name names || not (removes name) then Dict.lookup name layers else none)
unfolding sweep Dict.lookup
lookup-sweep removes names name [] = ground arith
lookup-sweep removes names name ((n, image) ∷ layers) =
    ground (arith, text_eq_iff n name, lookup-sweep removes names name layers)

-- The code's own links: `add_gc_root` makes a root of a layer's folder, `register_app` and the
-- updates make `current` a link to an image.
abbrev pub IsRootLink : Text × Target → Type 0
IsRootLink (_, target) = (digest_hex : Text) × (target ≡ root_target digest_hex)

abbrev pub IsCurrentLink : Text × App → Type 0
IsCurrentLink (_, app) =
    (target : Target)
    → app.current ≡ some target
    → (digest_hex : Text) × (target ≡ current_target digest_hex)

contains-append :
    (name : Text) (xs ys : List Text)
    → contains name (xs ++ ys) ≡ (contains name xs || contains name ys)
unfolding contains
contains-append name [] ys = refl
contains-append name (x ∷ xs) ys = ground (arith, contains-append name xs ys)

contains-image :
    (name digest_hex : Text) (names : List Text)
    → name ≢ codes "image.erofs"
    → contains name names ≡ false
    → contains name (add_name (file_name (current_target digest_hex)) names) ≡ false
unfolding contains add_name
contains-image name digest_hex names other h =
    let same : text_eq name (codes "image.erofs") ≡ false =
      ground (arith, text_eq_iff name (codes "image.erofs")) in
    rw (same, h) refl

-- A link to an image adds the image's name.
contains-add_name-image :
    (name : Text) (current : Option Target) (names : List Text)
    → name ≢ codes "image.erofs"
    → ((target : Target)
        → current ≡ some target
        → (digest_hex : Text) × (target ≡ current_target digest_hex))
    → contains name names ≡ false
    → contains name (add_name (elim current [ none ↦ none | some target ↦ file_name target ]) names)
      ≡ false
unfolding contains add_name
contains-add_name-image name none names other link h = h
contains-add_name-image name (some target) names other link h =
    let (digest_hex, e) = link target refl in rw e (contains-image name digest_hex names other h)

current_names-image :
    (name : Text) (apps : Dict App)
    → All IsCurrentLink apps
    → name ≢ codes "image.erofs"
    → contains name (current_names apps) ≡ false
unfolding contains current_names add_name
current_names-image name [] links other = refl
current_names-image name ((id, app) ∷ apps) (link, links) other =
    contains-add_name-image name app.current (current_names apps) other link
      (current_names-image name apps links other)

module _ (removes : Text → Bool) (s : Store) where
  -- After `gc` a layer's folder is as it was if a gc root or an app's link names it or it cannot be
  -- removed, and is gone otherwise.
  pub lookup-gc :
      (name : Text)
      → Dict.lookup name (gc removes s).0.layers ≡ (
          if contains name (reachable s) || not (removes name)
          then Dict.lookup name s.layers
          else none)
  unfolding gc
  lookup-gc name = lookup-sweep removes (reachable s) name s.layers

  -- If every app's `current` is a link to an image, as the code makes it, then of the layer folders
  -- that can be removed `gc` keeps those that a gc root names and no others: an installed app's
  -- link to its layer protects nothing. (A folder called `image.erofs` is left out.)
  pub gc_goes_by_roots :
      (name : Text)
      → All IsCurrentLink s.apps
      → name ≢ codes "image.erofs"
      → removes name ≡ true
      → Dict.lookup name (gc removes s).0.layers
        ≡ (if contains name (root_names s.gc_roots) then Dict.lookup name s.layers else none)
  unfolding reachable
  gc_goes_by_roots name links other removable =
      let joined = contains-append name (root_names s.gc_roots) (current_names s.apps) in
      let currents = current_names-image name s.apps links other in
      lookup-gc name ∙ ground (arith, joined, currents, removable)
