-- ===== src/Sbom/Checked.antt =====
-- A generated SBOM is sorted, lists what was collected, and passes the test.
use nexpack.Prelude.{
  ◌≡◌, refl, ap, some, List, Text, Bytes, Outcome, ok, ◌>>=◌, >>=-eq-ok, IsSorted, sort_by_lem,
}
use mathlib.Core.List.{Perm}
use nexpack.Sbom.{
  Entries, Component, Bom, Fields, collect_sources, bom_of, generate_sbom, verify_sbom_data,
}

module _ (blake3_hex : Bytes → Text) (to_json : Bom → Outcome Bytes)
    (compress_gzip decompress_gzip : Bytes → Outcome Bytes)
    (from_slice : Bytes → Outcome Fields) where
  -- Gzip gives back what was compressed, and JSON the two fields.
  pub record AreInverse : Type 0 where
    pub gunzip :
        (json zipped : Bytes) → compress_gzip json ≡ ok zipped → decompress_gzip zipped ≡ ok json
    pub fields :
        (bom : Bom) (json : Bytes)
        → to_json bom ≡ ok json
        → from_slice json
          ≡ ok (record { bom_format = some bom.bom_format; spec_version = some bom.spec_version })

  -- If gzip and JSON give back what was written, an SBOM that is generated passes the test; its
  -- components are those collected from the sources, sorted by their names.
  pub generate_sbom-ok :
      (inverse : AreInverse) (app_name app_version timestamp : Text) (sources : List Entries)
      (zipped : Bytes)
      → generate_sbom blake3_hex to_json compress_gzip app_name app_version timestamp sources
        ≡ ok zipped
      → (verify_sbom_data decompress_gzip from_slice zipped ≡ ok tt)
        × IsSorted
            (λ (c : Component). c.name)
            (bom_of blake3_hex app_name app_version timestamp sources).components
        × Perm
            (bom_of blake3_hex app_name app_version timestamp sources).components
            (collect_sources blake3_hex sources)
  unfolding generate_sbom verify_sbom_data bom_of nexpack.Prelude.text_eq
  generate_sbom-ok inverse app_name app_version timestamp sources zipped e =
      let bom = bom_of blake3_hex app_name app_version timestamp sources in
      let (json, written, compressed) = >>=-eq-ok (to_json bom) compress_gzip e in
      let (sorted, same) =
        sort_by_lem (λ (c : Component). c.name) (collect_sources blake3_hex sources) in
      (
        rw (inverse.gunzip json zipped compressed, inverse.fields bom json written) refl,
        sorted,
        same,
      )
