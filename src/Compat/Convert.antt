-- ===== src/Compat/Convert.antt =====
-- `convert_appimage`, `run_compat` up to the start of bubblewrap, and what they guess of an AppImage:
-- `heuristic_permissions` and `find_apprun`. Other programs and what they extract are parameters.
pub mod Converted
use nexpack.Prelude.{
  ℕ, Bool, true, false, ◌||◌, ◌&&◌, not, Option, none, some, List, [], ◌∷◌, ◌++◌, map, take, length,
  ltb, Text, codes, text_eq, strip_prefix, Bytes, Outcome, ok, err, panic, other, ok_or, ensure,
  ◌>>=◌, ◌>>◌, if◌then◌else◌,
}
use nexpack.Layer.{LayerRef, blake3_prefix}
use nexpack.Permission.{PermissionValue, bool, PermissionSet}
use nexpack.Header.{BundleHeader, encode}
use nexpack.Header.Wire.{Capnp}
use nexpack.Paths.{Files, join, separator, first_file}
use nexpack.Sandbox.{Env}
use nexpack.Compat.Squashfs.{find_squashfs_offset}
use nexpack.Compat.Arguments.{starts_with, build_bwrap_args_generic}

unfoldable pub contains_text : Text → Text → Bool
unfolding strip_prefix
contains_text part [] = starts_with part []
contains_text part (c ∷ t) = starts_with part (c ∷ t) || contains_text part t

unfoldable pub ends_with : Text → Text → Bool
ends_with end [] = text_eq end []
ends_with end (c ∷ t) = text_eq end (c ∷ t) || ends_with end t

unfoldable pub any_of : (Text → Bool) → List Text → Bool
any_of test [] = false
any_of test (t ∷ ts) = test t || any_of test ts

abbrev pub network_libraries : List Text
network_libraries =
    codes "libcurl"
    ∷ codes "libssl"
    ∷ codes "libcrypto"
    ∷ codes "libsoup"
    ∷ codes "libfetch"
    ∷ codes "libwslay"
    ∷ codes "libnghttp2"
    ∷ []

abbrev pub network_programs : List Text
network_programs = codes "/curl" ∷ codes "/wget" ∷ codes "/ssh" ∷ []

-- Whether a file hints at the network.
unfoldable pub is_hint : (Text → Text) → Text → Bool
unfolding any_of contains_text ends_with
is_hint to_lowercase name =
    any_of (λ part. contains_text part (to_lowercase name)) network_libraries
    || any_of (λ end. ends_with end (to_lowercase name)) network_programs

-- What is known of an AppImage and its extraction.
pub record Appimage : Type 0 where
  pub contents : Bytes
  pub file_stem : Option Text
  -- the folder it is extracted to, the names in it, and the files below it
  pub root : Text
  pub names : List Text
  pub walked : List Text
  pub files : Files
  pub to_lowercase : Text → Text
  pub env : Env
  pub unsquashfs : ℕ → Outcome (Unit {0})
  pub build_erofs : Outcome Bytes
  pub stub_binary : Outcome Bytes

unfoldable pub heuristic_permissions : Appimage → Bool
unfolding is_hint
heuristic_permissions a = any_of (is_hint a.to_lowercase) a.walked

abbrev pub candidates : List Text
candidates = codes "AppRun" ∷ codes "apprun" ∷ codes "appimage.sh" ∷ codes "AppImageLauncher" ∷ []

unfoldable pub named_apprun : (Text → Text) → List Text → Option Text
named_apprun to_lowercase [] = none
named_apprun to_lowercase (name ∷ names) =
    let rest = named_apprun to_lowercase names in
    if text_eq (to_lowercase name) (codes "apprun") then some name else rest

abbrev pub apprun_below : Appimage → Option Text → Text
apprun_below a none = join a.root (codes "AppRun")
apprun_below a (some name) = join a.root name

-- It is never `None`.
unfoldable pub find_apprun : Appimage → Text
unfolding join first_file named_apprun
find_apprun a = elim (first_file a.files (map (join a.root) candidates)) [
  | some path ↦ path
  | none ↦ apprun_below a (named_apprun a.to_lowercase a.names)
]

-- `WAYLAND_DISPLAY`, if it is set, decides.
unfoldable pub guessed_display : Env → Text
guessed_display env = elim (env.var (codes "WAYLAND_DISPLAY")) [
  | none ↦ codes "x11"
  | some _ ↦ codes "wayland"
]

unfoldable pub guessed_ipc : Text → List Text
guessed_ipc display =
    if text_eq display (codes "wayland")
    then codes "wayland" ∷ codes "dbus-session" ∷ []
    else codes "x11" ∷ codes "dbus-session" ∷ []

unfoldable pub guessed_permissions : Appimage → Text → PermissionSet
unfolding heuristic_permissions guessed_display guessed_ipc
guessed_permissions a home = record {
  network = bool (heuristic_permissions a);
  filesystem = home ∷ [];
  devices = codes "dri" ∷ codes "audio" ∷ [];
  ipc = guessed_ipc (guessed_display a.env);
  display = guessed_display a.env;
}

abbrev pub elf_magic : Bytes
elf_magic = 0x7f ∷ b'E' ∷ b'L' ∷ b'F' ∷ []

-- What both commands do first.
unfoldable pub extract : Appimage → Outcome (Unit {0})
unfolding find_squashfs_offset
extract a = do
  ensure (not (ltb (length a.contents) 4) && text_eq (take 4 a.contents) elf_magic)
      (other "not an ELF file (not a valid AppImage)")
  found ← find_squashfs_offset a.contents
  a.unsquashfs found.0

-- The arguments that `run_compat` starts bubblewrap with.
unfoldable pub run_compat : Appimage → List Text → Outcome (List Text)
unfolding extract find_apprun guessed_permissions build_bwrap_args_generic
run_compat a app_args = do
  extract a
  ok (
      build_bwrap_args_generic a.env a.root (guessed_permissions a (codes "$HOME")) (find_apprun a)
        app_args)

-- The entry point relative to the folder.
unfoldable pub relative_apprun : Appimage → Text
unfolding find_apprun strip_prefix
relative_apprun a = elim (strip_prefix (a.root ++ separator a.root) (find_apprun a)) [
  | none ↦ codes "AppRun"
  | some name ↦ name
]

abbrev pub app_name : Appimage → Text
app_name a = elim a.file_stem [ none ↦ codes "app" | some stem ↦ stem ]

unfoldable pub output_name : Appimage → Option Text → Text
unfolding ends_with
output_name a none = app_name a ++ codes ".nxpk"
output_name a (some o) = if ends_with (codes ".nxpk") o then o else o ++ codes ".nxpk"

module _ (blake3_hex : Bytes → Text) (cp : Capnp) where
  abbrev pub erofs_layer : Bytes → LayerRef
  erofs_layer erofs = record {
    digest = blake3_prefix ++ blake3_hex erofs;
    size = length erofs;
    role = codes "app";
  }

  unfoldable pub converted_header : Appimage → Bytes → BundleHeader
  unfolding relative_apprun guessed_permissions
  converted_header a erofs = record {
    version = 1;
    app_id = codes "compat." ++ app_name a;
    app_version = codes "0.1.0";
    entrypoint = relative_apprun a;
    layers = erofs_layer erofs ∷ [];
    permissions = guessed_permissions a (codes "$HOME/.config/$appname");
    signature = none;
    sbom = none;
    update_url = none;
    bootstrap_size = none;
    offset = 0;
    encoded_len = 0;
  }

  -- The file's bytes.
  unfoldable pub converted_file : Appimage → Bytes → Outcome Bytes
  unfolding converted_header
  converted_file a erofs = do
    stub ← a.stub_binary
    header_bytes ← encode cp (converted_header a erofs)
    ok (stub ++ (header_bytes ++ erofs))

  -- The name and the bytes of the file that is written.
  unfoldable pub convert_appimage : Appimage → Option Text → Outcome (Text × Bytes)
  unfolding extract converted_file output_name
  convert_appimage a output = do
    extract a
    erofs ← a.build_erofs
    file ← converted_file a erofs
    ok (output_name a output, file)
