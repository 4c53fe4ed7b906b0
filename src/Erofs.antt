-- ===== src/Erofs.antt =====
-- `build_erofs` of nxpk/src/commands/pack.rs and `build_erofs_from_dir` of
-- nxpk/src/commands/compat.rs: the run of mkfs.erofs, which is a parameter.
use nexpack.Prelude.{
  Bool, none, some, List, [], ◌∷◌, ◌++◌, Text, codes, Bytes, Outcome, err, other, ensure, ◌>>=◌,
  ◌>>◌,
}
use nexpack.Paths.{Files, join, find_tool}

pub record Mkfs : Type 0 where
  pub files : Files
  -- `temp_dir()` and the number of the process
  pub temp_dir : Text
  pub process_id : Text
  -- whether a run with these arguments succeeds, and what stands in a file afterwards
  pub run_status : Text → List Text → Outcome Bool
  pub read_after : Text → List Text → Text → Outcome Bytes

abbrev pub mkfs_args : Text → Text → List Text
mkfs_args tmp source =
    codes "-z"
    ∷ codes "lz4"
    ∷ codes "--ignore-mtime"
    ∷ codes "--force-uid=0"
    ∷ codes "--force-gid=0"
    ∷ tmp
    ∷ source
    ∷ []

unfoldable pub run_mkfs : Mkfs → Text → Text → Text → Outcome Bytes
run_mkfs mkfs path tmp source = do
  success ← mkfs.run_status path (mkfs_args tmp source)
  ensure success (other "mkfs.erofs exited")
  mkfs.read_after path (mkfs_args tmp source) tmp

-- With the file named after this text.
unfoldable pub build_with : Mkfs → Text → Text → Outcome Bytes
unfolding find_tool run_mkfs join
build_with mkfs tmp_name source = elim (find_tool mkfs.files (codes "mkfs.erofs")) [
  | none ↦ err (other "mkfs.erofs not found")
  | some path ↦ run_mkfs mkfs path (join mkfs.temp_dir tmp_name) source
]

unfoldable pub build_erofs : Mkfs → Text → Outcome Bytes
unfolding build_with
build_erofs mkfs source =
    build_with mkfs (codes "nexpack-pack-" ++ (mkfs.process_id ++ codes ".erofs")) source

unfoldable pub build_erofs_from_dir : Mkfs → Text → Outcome Bytes
unfolding build_with
build_erofs_from_dir mkfs source =
    build_with mkfs (codes "nexpack-erofs-" ++ (mkfs.process_id ++ codes ".erofs")) source
