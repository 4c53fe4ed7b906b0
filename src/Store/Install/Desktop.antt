-- ===== src/Store/Install/Desktop.antt =====
-- nxpk/src/commands/install.rs: `create_desktop_entry`, and `install` with it as its last step. The
-- entries are the files that the command writes, by their paths.
pub mod Entered
use nexpack.Prelude.{
  Bool, ◌&&◌, ◌==◌, Option, none, some, List, [], ◌∷◌, ◌++◌, Text, codes, Bytes, Outcome, ok, err,
  panic, io, last_part, unlines, if◌then◌else◌,
}
use nexpack.Prelude.Dict
use nexpack.Prelude.Dict.{Dict}
use nexpack.Header.Wire.{Capnp}
use nexpack.Bundle.{Bundle}
use nexpack.Paths.{join}
use nexpack.Sandbox.Expand.{Env, value_of, ends_or_slash}
use nexpack.Store.{Store, Disk, Effect, done, failed}
use nexpack.Store.Install.{install}

-- The environment, and whether the folder is made and the file is written.
pub record Home : Type 0 where
  pub env : Env
  pub make_dir : Text → Bool
  pub write_entry : Text → Effect Text

-- `shellexpand` of this file: only `~` at the end or before a slash, wherever it stands.
unfoldable pub expand_home : Env → Text → Text
expand_home env [] = []
expand_home env (c ∷ s) =
    (if c == b'~' && ends_or_slash s then value_of env (codes "HOME") else c ∷ [])
    ++ expand_home env s

unfoldable pub store_path : Text → Text
store_path app_id = codes "~/.local/share/nexpack/apps/" ++ (app_id ++ codes "/current")

unfoldable pub find_bundle_path : Env → Text → Text
unfolding expand_home store_path
find_bundle_path env app_id =
    if env.exists (expand_home env (store_path app_id))
    then expand_home env (store_path app_id)
    else app_id

-- `HOME`, or `/tmp`.
abbrev home_or_tmp : Option Text → Text
home_or_tmp none = codes "/tmp"
home_or_tmp (some home) = home

unfoldable pub data_home : Env → Text
unfolding join
data_home env = elim (env.var (codes "XDG_DATA_HOME")) [
  | some path ↦ path
  | none ↦ join (join (home_or_tmp (env.var (codes "HOME"))) (codes ".local")) (codes "share")
]

unfoldable pub apps_dir : Env → Text
unfolding data_home join
apps_dir env = join (data_home env) (codes "applications")

unfoldable pub desktop_path : Env → Text → Text
unfolding apps_dir join
desktop_path env app_id = join (apps_dir env) (app_id ++ codes ".desktop")

-- The lines of the file. (The two percent signs are an argument's text in the source and stay two
-- in the file.)
unfoldable pub desktop_lines : Text → Text → Text → List Text
desktop_lines name bundle_path app_id =
    codes "[Desktop Entry]"
    ∷ codes "Type=Application"
    ∷ (codes "Name=" ++ name)
    ∷ codes "Comment=Nexpack application"
    ∷ (codes "Exec=nxpk run " ++ (bundle_path ++ codes " %%F"))
    ∷ codes "Terminal=false"
    ∷ codes "Categories=Utility;"
    ∷ (codes "X-Nexpack-AppId=" ++ app_id)
    ∷ []

unfoldable pub desktop_content : Env → Text → Text
unfolding find_bundle_path desktop_lines unlines last_part
desktop_content env app_id =
    unlines (desktop_lines (last_part b'.' app_id) (find_bundle_path env app_id) app_id)

-- What a write leaves in the file's place.
unfoldable pub put_entry : Effect Text → Text → Text → Dict Text → Outcome (Unit {0}) × Dict Text
put_entry done path content entries = (ok tt, Dict.insert path content entries)
put_entry (failed none) path content entries =
    (err (io "writing desktop entry"), Dict.erase path entries)
put_entry (failed (some left)) path content entries =
    (err (io "writing desktop entry"), Dict.insert path left entries)

unfoldable pub create_desktop_entry : Home → Text → Dict Text → Outcome (Unit {0}) × Dict Text
unfolding apps_dir desktop_path desktop_content put_entry
create_desktop_entry home app_id entries =
    if home.make_dir (apps_dir home.env)
    then put_entry (home.write_entry (desktop_path home.env app_id)) (desktop_path home.env app_id)
        (desktop_content home.env app_id) entries
    else (err (io "creating folder"), entries)

-- The entry is made when all else is done.
unfoldable pub then_entry :
    Home → Text → Outcome (Unit {0}) × Store → Dict Text → Outcome (Unit {0}) × (Store × Dict Text)
unfolding create_desktop_entry
then_entry home app_id (ok _, s) entries =
    let made = create_desktop_entry home app_id entries in (made.0, (s, made.1))
then_entry home app_id (err e, s) entries = (err e, (s, entries))
then_entry home app_id (panic, s) entries = (panic, (s, entries))

unfoldable pub install_command :
    (Bytes → Text)
    → Disk
    → Home
    → Capnp
    → Bundle
    → Store
    → Dict Text
    → Outcome (Unit {0}) × (Store × Dict Text)
unfolding install then_entry
install_command blake3_hex disk home cp b s entries =
    then_entry home b.header.app_id (install blake3_hex disk cp b s) entries
