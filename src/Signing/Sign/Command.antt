-- ===== src/Signing/Sign/Command.antt =====
-- nxpk/src/commands/sign.rs: `sign_bundle` as a command, with the search for cosign, its run, and the
-- name of the file that is written. Cosign is a parameter.
use nexpack.Prelude.{
  Bool, Option, none, some, List, [], ◌∷◌, ◌++◌, Text, codes, Bytes, Outcome, ok, err, other,
  ensure, ◌>>=◌, ◌>>◌,
}
use nexpack.Header.Wire.{Capnp}
use nexpack.Bundle.{parse_bundle}
use nexpack.Paths.{Files, join, find_in_path}
use nexpack.Signing.Sign.{sign_bundle}

pub record Signer : Type 0 where
  pub files : Files
  pub temp_dir : Text
  pub process_id : Text
  -- a run with these arguments and this input: whether it succeeds, and what its file holds then
  pub run_status : Text → List Text → Bytes → Outcome Bool
  pub read_after : Text → List Text → Bytes → Text → Outcome Bytes
  -- whether `serde_json::from_slice` accepts the bytes
  pub is_json : Bytes → Bool
  -- `Path::file_stem`
  pub file_stem : Text → Option Text

abbrev pub cosign_args : Text → List Text
cosign_args tmp_sig =
    codes "sign-blob" ∷ codes "--bundle" ∷ tmp_sig ∷ codes "--yes" ∷ codes "-" ∷ []

module _ (signer : Signer) where
  unfoldable pub tmp_sig : Text
  unfolding join
  tmp_sig = join signer.temp_dir (codes "nexpack-sig-" ++ (signer.process_id ++ codes ".json"))

  unfoldable pub run_cosign : Bytes → Outcome Bytes
  unfolding find_in_path tmp_sig
  run_cosign artifact = elim (find_in_path signer.files (codes "cosign")) [
    | none ↦ err (other "cosign not found in PATH")
    | some cosign ↦ do
      success ← signer.run_status cosign (cosign_args tmp_sig) artifact
      ensure success (other "cosign sign-blob failed")
      signer.read_after cosign (cosign_args tmp_sig) artifact tmp_sig
  ]

  abbrev stem_or_empty : Option Text → Text
  stem_or_empty none = []
  stem_or_empty (some stem) = stem

  unfoldable pub signed_path : Text → Option Text → Text
  signed_path bundle_path (some path) = path
  signed_path bundle_path none =
      stem_or_empty (signer.file_stem bundle_path) ++ codes "_signed.nxpk"

  -- A bundle that is signed already is left alone.
  unfoldable pub written_to : Text → Option Bytes → Option (Text × Bytes)
  written_to path none = none
  written_to path (some file) = some (path, file)

  unfoldable pub sign_command :
      Capnp → (Text → Outcome Bytes) → Text → Option Text → Outcome (Option (Text × Bytes))
  unfolding run_cosign signed_path written_to sign_bundle
  sign_command cp read_file bundle_path output = do
    contents ← read_file bundle_path
    b ← parse_bundle cp contents
    file ← sign_bundle cp run_cosign signer.is_json b
    ok (written_to (signed_path bundle_path output) file)
