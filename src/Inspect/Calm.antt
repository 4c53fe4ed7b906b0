-- ===== src/Inspect/Calm.antt =====
-- No file makes `inspect` panic: the header of a bundle begins inside it.
use nexpack.Prelude.{
  ◌≡◌, ◌⊎◌, inl, inr, refl, Bool, Text, Bytes, take, Outcome, ok, err, Error, >>=-eq-ok, >>=-IsCalm,
  IsCalm, Outcome-cases, arith, if◌then◌else◌,
}
use nexpack.Header.{parse}
use nexpack.Header.Wire.{Capnp}
use nexpack.Header.Calm.{parse-IsCalm, parse-offset}
use nexpack.Bundle.{Bundle, parse_bundle, stub_digest}
use nexpack.Inspect.{Report, json, text, json_report, text_report, inspect}

-- A bundle that was parsed has the stub in front of its header.
stub_digest-parse_bundle :
    (cp : Capnp) (blake3_hex : Bytes → Text) (contents : Bytes) (b : Bundle)
    → parse_bundle cp contents ≡ ok b
    → stub_digest blake3_hex b ≡ ok (blake3_hex (take b.header.offset contents))
unfolding parse_bundle stub_digest
stub_digest-parse_bundle cp blake3_hex contents b e =
    let (header, parsed, made) =
      >>=-eq-ok (parse cp contents) (λ h. ok (record { header = h; contents = contents })) e in
    let inside = parse-offset cp contents header parsed in ground arith

parse_bundle-IsCalm : (cp : Capnp) (contents : Bytes) → IsCalm (parse_bundle cp contents)
unfolding parse_bundle
parse_bundle-IsCalm cp contents =
    >>=-IsCalm (parse cp contents) (λ h. ok (record { header = h; contents = contents }))
      (parse-IsCalm cp contents) λ h. tt

abbrev pub report_of : Bool → Text → Bundle → Text → Report
report_of as_json bundle_path b stub =
    if as_json then json (json_report b stub) else text (text_report bundle_path b stub)

-- For a file that is read, whatever bytes it has, either it is no bundle and `inspect` ends with the
-- error of that, or `inspect` ends well and tells of the bundle's header, with the hash of the bytes
-- in front of the header; both with and without the option for JSON.
pub inspect_total :
    (cp : Capnp) (blake3_hex : Bytes → Text) (read_file : Text → Outcome Bytes) (path : Text)
    (as_json : Bool) (contents : Bytes)
    → read_file path ≡ ok contents
    → ((b : Bundle) × (parse_bundle cp contents ≡ ok b)
        × (inspect cp blake3_hex read_file path as_json
            ≡ ok (report_of as_json path b (blake3_hex (take b.header.offset contents)))))
      ⊎ ((e : Error) × (parse_bundle cp contents ≡ err e)
          × (inspect cp blake3_hex read_file path as_json ≡ err e))
unfolding inspect
inspect_total cp blake3_hex read_file path as_json contents read =
    elim (Outcome-cases (parse_bundle cp contents)) [
      | inl (b, parsed) ↦ inl (
        b,
        parsed,
        rw (read, parsed, stub_digest-parse_bundle cp blake3_hex contents b parsed) refl,
      )
      | inr (inl (e, refused)) ↦ inr (e, refused, rw (read, refused) refl)
      | inr (inr panicked) ↦ absurd (rw panicked at (parse_bundle-IsCalm cp contents))
    ]
