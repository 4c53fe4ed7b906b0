-- ===== src/Sbom.antt =====
-- nexpack-core/src/sbom.rs: the list of files with their hashes, and the test of a written one. JSON,
-- gzip and BLAKE3 are parameters; so is the folder tree, in the order in which it is read.
pub mod Checked
use nexpack.Prelude.{
  ℕ, Bool, true, false, Option, none, some, List, [], ◌∷◌, ◌++◌, Text, codes, text_eq, Bytes,
  Outcome, ok, err, cbor, ensure, ◌>>=◌, ◌>>◌, sort_by, if◌then◌else◌,
}
use nexpack.Paths.{join}

mutual
  -- What an entry is: a folder, a file or link that can be read or not, or something else.
  pub data Tree : Type 0 where
    folder : Entries → Tree
    file : Option Bytes → Tree
    special : Tree

  -- A folder that cannot be read has no entries.
  pub data Entries : Type 0 where
    nil : Entries
    entry : Text → Tree → Entries → Entries

pub record Component : Type 0 where
  pub kind : Text
  pub name : Text
  pub version : Text
  pub hash : Option Text

pub record Bom : Type 0 where
  pub bom_format : Text
  pub spec_version : Text
  pub version : ℕ
  pub timestamp : Text
  pub component : Component
  pub components : List Component

-- The fields that are looked at when an SBOM is checked, where they are strings.
pub record Fields : Type 0 where
  pub bom_format : Option Text
  pub spec_version : Option Text

module _ (blake3_hex : Bytes → Text) where
  abbrev pub file_component : Text → Bytes → Component
  file_component name contents = record {
    kind = codes "file";
    name = name;
    version = [];
    hash = some (blake3_hex contents);
  }

  unfoldable mutual
    -- One entry of the loop, by its path below the source.
    pub collect_tree : Text → Tree → List Component
    collect_tree path (folder entries) = collect_files path entries
    collect_tree path (file (some contents)) = file_component path contents ∷ []
    collect_tree path (file none) = []
    collect_tree path special = []

    pub collect_files : Text → Entries → List Component
    collect_files dir nil = []
    collect_files dir (entry name tree entries) =
        collect_tree (join dir name) tree ++ collect_files dir entries

  unfoldable pub collect_sources : List Entries → List Component
  unfolding collect_files
  collect_sources [] = []
  collect_sources (source ∷ sources) = collect_files [] source ++ collect_sources sources

  unfoldable pub bom_of : Text → Text → Text → List Entries → Bom
  unfolding collect_sources sort_by
  bom_of app_name app_version timestamp sources = record {
    bom_format = codes "CycloneDX";
    spec_version = codes "1.5";
    version = 1;
    timestamp = timestamp;
    component = record {
      kind = codes "application";
      name = app_name;
      version = app_version;
      hash = none;
    };
    components = sort_by (λ c. c.name) (collect_sources sources);
  }

  -- `serde_json::to_vec` and the gzip encoder.
  module _ (to_json : Bom → Outcome Bytes) (compress_gzip : Bytes → Outcome Bytes) where
    unfoldable pub generate_sbom : Text → Text → Text → List Entries → Outcome Bytes
    unfolding bom_of
    generate_sbom app_name app_version timestamp sources = do
      json ← to_json (bom_of app_name app_version timestamp sources)
      compress_gzip json

abbrev pub or_empty : Option Text → Text
or_empty none = []
or_empty (some t) = t

abbrev pub is_given : Text → Bool
is_given [] = false
is_given (c ∷ t) = true

module _ (decompress_gzip : Bytes → Outcome Bytes) (from_slice : Bytes → Outcome Fields) where
  unfoldable pub verify_sbom_data : Bytes → Outcome (Unit {0})
  verify_sbom_data input = do
    decompressed ← decompress_gzip input
    bom ← from_slice decompressed
    ensure (text_eq (or_empty bom.bom_format) (codes "CycloneDX")) (cbor "SBOM: invalid bomFormat")
    ensure (is_given (or_empty bom.spec_version)) (cbor "SBOM: missing specVersion")
