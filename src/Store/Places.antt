-- ===== src/Store/Places.antt =====
-- Where the store keeps what it has: the paths of nexpack-core/src/store.rs, and `nexpack_home` and
-- `nexpack_bin_dir` of nexpack-core/src/lib.rs.
pub mod Components
pub mod Followed
use nexpack.Prelude.{Text, codes, Outcome, ok, store_path, ok_or, ◌>>=◌}
use nexpack.Paths.{join}
use nexpack.Sandbox.Expand.{Env}
use nexpack.Store.{layer_name}

-- `std::env::var("HOME").map_err(..)?`
abbrev home_var : Env → Outcome Text
home_var env = ok_or (env.var (codes "HOME")) (store_path "$HOME not set")

-- `Store::user`, by the root of the store.
unfoldable pub user : Env → Outcome Text
unfolding join
user env = do home ← home_var env; ok (join home (codes ".local/share/nexpack/store"))

unfoldable pub nexpack_home : Env → Outcome Text
unfolding join
nexpack_home env = do home ← home_var env; ok (join home (codes ".local/share/nexpack"))

unfoldable pub nexpack_bin_dir : Env → Outcome Text
unfolding nexpack_home join
nexpack_bin_dir env = do home ← nexpack_home env; ok (join home (codes "bin"))

abbrev pub layers_dir : Text → Text
layers_dir root = join root (codes "layers")

abbrev pub layer_dir : Text → Text → Text
layer_dir root digest_hex = join (layers_dir root) (layer_name digest_hex)

abbrev pub layer_image : Text → Text → Text
layer_image root digest_hex = join (layer_dir root digest_hex) (codes "image.erofs")

abbrev pub layer_mount : Text → Text → Text
layer_mount root digest_hex = join (layer_dir root digest_hex) (codes "mnt")

abbrev pub apps_dir : Text → Text
apps_dir root = join root (codes "apps")

abbrev pub gc_roots_dir : Text → Text
gc_roots_dir root = join root (codes "gc-roots")

-- The folder that `register_app` makes, in which it puts the link `current`.
abbrev pub app_dir : Text → Text → Text
app_dir root app_id = join (apps_dir root) app_id
