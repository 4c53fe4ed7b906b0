-- ===== src/Store.antt =====
-- nexpack-core/src/store.rs: the store, as the files and links under its root. A link's target is
-- the list of its path's components; a digest is taken to be one component.
pub mod Collect
pub mod Links
pub mod Sound
pub mod Keeps
pub mod Apps
pub mod Install
pub mod Places
use nexpack.Prelude.{
  ℕ, ◌+◌, Bool, true, false, ◌||◌, Option, none, some, List, [], ◌∷◌, ◌++◌, Text, codes, text_eq,
  Bytes, last?, Outcome, ok, err, io, if◌then◌else◌,
}
use nexpack.Prelude.Dict
use nexpack.Prelude.Dict.{Dict}

abbrev pub Target : Type 0
Target = List Text

pub record App : Type 0 where
  pub meta : Option Bytes
  pub current : Option Target

-- `layers/` has a folder for each layer, with `image.erofs` in it or not; `apps/` has a folder for
-- each app, and `gc-roots/` a link.
pub record Store : Type 0 where
  pub layers : Dict (Option Bytes)
  pub apps : Dict App
  pub gc_roots : Dict Target

-- A change on disk is made, or fails and leaves what it leaves in that place.
pub data Effect (A : Type 0) : Type 0 where
  done : Effect A
  failed : Option A → Effect A

-- Which changes succeed, in one run of a command.
pub record Disk : Type 0 where
  pub make_layer_dir : Text → Bool
  pub write_image : Text → Effect Bytes
  pub make_app_dir : Text → Bool
  pub write_meta : Text → Effect Bytes
  pub link_current : Text → Effect Target
  -- the two steps by which an update replaces `current`
  pub make_tmp_link : Text → Bool
  pub rename_tmp : Text → Bool
  pub make_roots_dir : Bool
  pub link_root : Text → Effect Target

abbrev pub layer_name : Text → Text
layer_name digest_hex = codes "blake3-" ++ digest_hex

-- `exists()` of the image, by what stands in the layer's place.
abbrev pub is_image : Option (Option Bytes) → Bool
is_image none = false
is_image (some none) = false
is_image (some (some image)) = true

unfoldable pub has_layer : Store → Text → Bool
has_layer s digest_hex = is_image (Dict.lookup (layer_name digest_hex) s.layers)

abbrev set_layer : Store → Text → Option Bytes → Store
set_layer s digest_hex image = record s {
  layers = Dict.insert (layer_name digest_hex) image s.layers;
}

abbrev set_app : Store → Text → App → Store
set_app s app_id app = record s { apps = Dict.insert app_id app s.apps }

-- `create_dir_all` leaves a folder that is there.
abbrev pub app_folder : Store → Text → App
app_folder s app_id = elim (Dict.lookup app_id s.apps) [
  | none ↦ record { meta = none; current = none }
  | some app ↦ app
]

unfoldable pub write_layer : Effect Bytes → Bytes → Text → Store → Outcome (Unit {0}) × Store
write_layer done image digest_hex s = (ok tt, set_layer s digest_hex (some image))
write_layer (failed left) image digest_hex s =
    (err (io "writing layer image"), set_layer s digest_hex left)

unfoldable pub store_layer : Disk → Bytes → Text → Store → Outcome (Unit {0}) × Store
unfolding write_layer
store_layer disk image digest_hex s =
    if disk.make_layer_dir digest_hex
    then write_layer (disk.write_image digest_hex) image digest_hex s
    else (err (io "creating layer dir"), s)

abbrev pub current_target : Text → Target
current_target digest_hex =
    codes ".."
    ∷ codes ".."
    ∷ codes ".."
    ∷ codes "layers"
    ∷ layer_name digest_hex
    ∷ codes "image.erofs"
    ∷ []

abbrev pub root_target : Text → Target
root_target digest_hex = codes ".." ∷ codes "layers" ∷ layer_name digest_hex ∷ []

-- The link to the current layer; the old one is removed first.
unfoldable pub link_app : Effect Target → Text → Text → App → Store → Outcome (Unit {0}) × Store
link_app done app_id current_digest app s =
    (ok tt, set_app s app_id (record app { current = some (current_target current_digest) }))
link_app (failed left) app_id current_digest app s =
    (err (io "creating symlink"), set_app s app_id (record app { current = left }))

unfoldable pub write_app :
    Disk → Effect Bytes → Text → Text → Bytes → Store → Outcome (Unit {0}) × Store
unfolding link_app
write_app disk done app_id current_digest meta s =
    link_app (disk.link_current app_id) app_id current_digest
      (record (app_folder s app_id) { meta = some meta }) s
write_app disk (failed left) app_id current_digest meta s =
    (err (io "writing meta.capnp"), set_app s app_id (record (app_folder s app_id) { meta = left }))

unfoldable pub register_app : Disk → Text → Text → Bytes → Store → Outcome (Unit {0}) × Store
unfolding write_app
register_app disk app_id current_digest meta s =
    if disk.make_app_dir app_id
    then write_app disk (disk.write_meta app_id) app_id current_digest meta s
    else (err (io "creating app dir"), s)

-- `removes` says whether `remove_dir_all` succeeds on a folder that is there.
unfoldable pub remove_app : Bool → Text → Store → Outcome (Unit {0}) × Store
remove_app removes app_id s = elim (Dict.lookup app_id s.apps) [
  | none ↦ (ok tt, s)
  | some _ ↦
      if removes
      then (ok tt, record s { apps = Dict.erase app_id s.apps })
      else (err (io "removing app dir"), s)
]

abbrev set_root : Store → Text → Target → Store
set_root s name target = record s { gc_roots = Dict.insert name target s.gc_roots }

unfoldable pub link_gc_root : Effect Target → Text → Text → Store → Outcome (Unit {0}) × Store
link_gc_root done name digest_hex s = (ok tt, set_root s name (root_target digest_hex))
link_gc_root (failed none) name digest_hex s =
    (err (io "creating gc root symlink"), record s { gc_roots = Dict.erase name s.gc_roots })
link_gc_root (failed (some left)) name digest_hex s =
    (err (io "creating gc root symlink"), set_root s name left)

unfoldable pub add_gc_root : Disk → Text → Text → Store → Outcome (Unit {0}) × Store
unfolding link_gc_root
add_gc_root disk name digest_hex s =
    if disk.make_roots_dir
    then link_gc_root (disk.link_root name) name digest_hex s
    else (err (io "creating gc-roots dir"), s)

-- `file_name()` of a link's target.
abbrev pub file_name : Target → Option Text
file_name target = last? target

unfoldable pub add_name : Option Text → List Text → List Text
add_name none names = names
add_name (some name) names = name ∷ names

unfoldable pub root_names : Dict Target → List Text
unfolding add_name
root_names [] = []
root_names ((_, target) ∷ roots) = add_name (file_name target) (root_names roots)

abbrev current_name : App → Option Text
current_name app = elim app.current [ none ↦ none | some target ↦ file_name target ]

unfoldable pub current_names : Dict App → List Text
unfolding add_name
current_names [] = []
current_names ((_, app) ∷ apps) = add_name (current_name app) (current_names apps)

unfoldable pub contains : Text → List Text → Bool
contains name [] = false
contains name (n ∷ names) = text_eq name n || contains name names

-- The set that `gc` collects.
unfoldable pub reachable : Store → List Text
unfolding root_names current_names
reachable s = root_names s.gc_roots ++ current_names s.apps

-- The loop over the layers. A folder that cannot be removed is counted all the same.
unfoldable pub sweep : (Text → Bool) → List Text → Dict (Option Bytes) → Dict (Option Bytes) × ℕ
sweep removes names [] = ([], 0)
sweep removes names ((name, image) ∷ layers) =
    let rest = sweep removes names layers in
    if contains name names
    then ((name, image) ∷ rest.0, rest.1)
    else (if removes name then (rest.0, rest.1 + 1) else ((name, image) ∷ rest.0, rest.1 + 1))

unfoldable pub gc : (Text → Bool) → Store → Store × ℕ
unfolding sweep reachable contains
gc removes s =
    let swept = sweep removes (reachable s) s.layers in (record s { layers = swept.0 }, swept.1)
