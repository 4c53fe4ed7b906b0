-- ===== src/Pack/Command.antt =====
-- nxpk/src/commands/pack.rs: `pack` as a command, from the path of the specification to the name and
-- the bytes of the file that is written, with its SBOM. The TOML, JSON and gzip libraries, the clock,
-- the disk and mkfs.erofs are parameters; that the file can be written is taken for granted.
pub mod Packed
use nexpack.Prelude.{
  Bool, Option, none, some, List, [], ◌∷◌, ◌++◌, map, Text, codes, Bytes, last_part, Outcome, ok,
  err, other, ok_or, ◌>>=◌,
}
use nexpack.Header.Wire.{Capnp}
use nexpack.Paths.{join}
use nexpack.Erofs.{Mkfs, build_erofs}
use nexpack.Sbom.{Entries, Bom, generate_sbom}
use nexpack.Pack.{PackSpec, PackLayer, Tools, pack}

pub record Host : Type 0 where
  pub exists : Text → Bool
  pub read_to_string : Text → Outcome Text
  pub read_file : Text → Outcome Bytes
  -- `Path::parent`
  pub parent : Text → Option Text
  -- what is below a folder
  pub tree : Text → Entries
  pub mkfs : Mkfs
  pub blake3_hex : Bytes → Text
  -- `toml::from_str`, `serde_json::to_vec`, the gzip encoder and the time
  pub from_str : Text → Option PackSpec
  pub to_json : Bom → Outcome Bytes
  pub compress_gzip : Bytes → Outcome Bytes
  pub timestamp : Text

module _ (host : Host) where
  unfoldable pub spec_dir : Text → Text
  spec_dir spec_path = elim (host.parent spec_path) [ none ↦ codes "." | some dir ↦ dir ]

  -- What `pack` finds at the paths of a specification in this folder.
  abbrev pub tools_in : Text → Tools
  tools_in dir = record {
    exists = λ path. host.exists (join dir path);
    build_erofs = λ source. build_erofs host.mkfs (join dir source);
    read_file = λ path. host.read_file (join dir path);
    blake3_hex = host.blake3_hex;
  }

  unfoldable pub source_dirs : Text → List PackLayer → List Entries
  unfolding join
  source_dirs dir [] = []
  source_dirs dir (layer ∷ layers) = host.tree (join dir layer.source) ∷ source_dirs dir layers

  unfoldable pub sbom_in : Text → PackSpec → Outcome Bytes
  unfolding source_dirs last_part
  sbom_in dir spec =
      generate_sbom host.blake3_hex host.to_json host.compress_gzip (last_part b'.' spec.id)
        spec.version host.timestamp (source_dirs dir spec.layer)

  unfoldable pub output_name : PackSpec → Text
  unfolding last_part
  output_name spec = last_part b'.' spec.id ++ codes ".nxpk"

  unfoldable pub read_spec : Text → Outcome PackSpec
  read_spec spec_path = do
    spec_data ← host.read_to_string spec_path
    ok_or (host.from_str spec_data) (other "parsing spec")

  unfoldable pub pack_command : Capnp → Bytes → Text → Outcome (Text × Bytes)
  unfolding read_spec spec_dir sbom_in output_name
  pack_command cp stub_data spec_path = do
    spec ← read_spec spec_path
    file ←
        pack (tools_in (spec_dir spec_path)) cp stub_data spec (sbom_in (spec_dir spec_path) spec)
    ok (output_name spec, file)
