-- ===== src/Compat/Programs.antt =====
-- nxpk/src/commands/compat.rs: how an AppImage is opened, and the programs and files that both
-- commands use: unsquashfs, mkfs.erofs, and the stub that is looked for. The programs are parameters,
-- and so is what the extraction leaves.
use nexpack.Prelude.{
  ℕ, Bool, Option, none, some, List, [], ◌∷◌, ◌++◌, map, Text, codes, Bytes, Outcome, ok, err,
  other, ensure, ◌>>=◌, ◌>>◌,
}
use nexpack.Paths.{Files, join, first_file}
use nexpack.Sandbox.Expand.{Env}
use nexpack.Erofs.{Mkfs, build_erofs_from_dir}
use nexpack.Compat.Convert.{Appimage}
use nexpack.Compat.Walk.{Folders, walk_files}

pub record Host : Type 0 where
  pub files : Files
  pub read_file : Text → Outcome Bytes
  pub temp_dir : Text
  pub process_id : Text
  pub make_dir : Text → Outcome (Unit {0})
  -- whether a program with these arguments succeeds
  pub run_status : Text → List Text → Outcome Bool
  -- decimal digits
  pub to_string : ℕ → Text
  pub mkfs : Mkfs
  pub env : Env
  pub to_lowercase : Text → Text
  -- `Path::file_stem`
  pub file_stem : Text → Option Text
  -- the names in a folder, and the folders and files as a search finds them
  pub names_in : Text → List Text
  pub folders : Folders

-- Where the walk ends (`walk_files_enough` says when), what it has found.
abbrev all_files : Option (List Text) → List Text
all_files none = []
all_files (some files) = files

module _ (host : Host) where
  -- The folder of `run`, by the number of the process; `convert` has another prefix.
  unfoldable pub extract_dir : Text → Text
  unfolding join
  extract_dir prefix = join (join host.temp_dir (prefix ++ host.process_id)) (codes "rootfs")

  abbrev pub unsquashfs_args : Text → ℕ → Text → List Text
  unsquashfs_args dir offset appimage =
      codes "-d" ∷ dir ∷ codes "-o" ∷ host.to_string offset ∷ appimage ∷ []

  unfoldable pub unsquashfs : Text → Text → ℕ → Outcome (Unit {0})
  unsquashfs dir appimage offset = do
    host.make_dir dir
    success ← host.run_status (codes "unsquashfs") (unsquashfs_args dir offset appimage)
    ensure success (other "unsquashfs extraction failed")

  -- In the folder of the run or the one above it, or below a folder of the nix store.
  unfoldable pub find_stub_binary : Outcome Bytes
  unfolding first_file join
  find_stub_binary =
      elim (first_file host.files (
        codes "./stub/stub"
        ∷ codes "../stub/stub"
        ∷ map (λ entry. join entry (codes "stub")) host.files.store_entries)) [
          | none ↦ err (other "stub not found")
          | some path ↦ host.read_file path
        ]

  unfoldable pub open_appimage : Text → Text → Outcome Appimage
  unfolding extract_dir unsquashfs find_stub_binary walk_files
  open_appimage prefix appimage = do
    ensure (host.files.is_file appimage) (other "not a file")
    contents ← host.read_file appimage
    ok (record {
      contents = contents;
      file_stem = host.file_stem appimage;
      root = extract_dir prefix;
      names = host.names_in (extract_dir prefix);
      walked = all_files (walk_files host.folders (extract_dir prefix));
      files = host.files;
      to_lowercase = host.to_lowercase;
      env = host.env;
      unsquashfs = unsquashfs (extract_dir prefix) appimage;
      build_erofs = build_erofs_from_dir host.mkfs (extract_dir prefix);
      stub_binary = find_stub_binary;
    })
