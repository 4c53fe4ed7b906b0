-- ===== src/Tests/Compat.antt =====
-- AppImages.
use nexpack.Prelude.{
  ◌<◌, ◌^◌, ◌≡◌, refl, true, false, Option, none, some, List, [], ◌∷◌, ◌++◌, Text, codes, text_eq,
  Bytes, Outcome, ok, err, other, length, arith,
}
use nexpack.Header.{message, encode}
use nexpack.Header.Wire.{Capnp}
use nexpack.Header.Magic.{find_magic}
use nexpack.Bundle.{parse_bundle, extract_layer}
use nexpack.Bundle.Written.{written}
use nexpack.Verify.{verify_layers}
use nexpack.Paths.{Files}
use nexpack.Sandbox.Bwrap.{option, read_args}
use nexpack.Compat.Squashfs.{find_squashfs_offset}
use nexpack.Compat.Arguments.{build_bwrap_args_generic}
use nexpack.Compat.Refused.{build_bwrap_args_generic_refused}
use nexpack.Compat.Convert.{Appimage, converted_header, convert_appimage, output_name}
use nexpack.Compat.Convert.Converted.{convert_appimage-roundtrip}
use nexpack.Tests.Fixtures.{codec_of, codec_of-IsCodec, two_layers, sealed, toy_hex}
use nexpack.Tests.Daemon.{home}

build_bwrap_args_generic_refused_example :
    read_args option
      (build_bwrap_args_generic home (codes "/r") sealed (codes "AppRun") (codes "-v" ∷ []))
    ≡ none
build_bwrap_args_generic_refused_example =
    build_bwrap_args_generic_refused home (codes "/r") sealed (codes "AppRun") (codes "-v" ∷ [])

-- An ELF file with a magic of squashfs at its position 12.
abbrev elf_file : Bytes
elf_file = 0x7f ∷ (codes "ELF" ++ (0 ∷ 0 ∷ 0 ∷ 0 ∷ 0 ∷ 0 ∷ 0 ∷ 0 ∷ (codes "hsqs" ++ codes "image")))

-- What stands at 12 is found, and 8 returned.
finds_magic : find_squashfs_offset elf_file ≡ ok (8, codes "hsqs")
unfolding find_squashfs_offset nexpack.Compat.Squashfs.search nexpack.Compat.Squashfs.scan
    nexpack.Compat.Squashfs.is_magic text_eq nexpack.Prelude.from_le_bytes
finds_magic = refl

abbrev files : Files
files = record {
  path_dirs = [];
  store_entries = [];
  is_file = λ path. text_eq path (codes "/x/AppRun");
  exe_dir = none;
}

abbrev appimage : Appimage
appimage = record {
  contents = elf_file;
  file_stem = some (codes "tool");
  root = codes "/x";
  names = codes "AppRun" ∷ [];
  walked = codes "/x/lib/libssl.so" ∷ [];
  files = files;
  to_lowercase = λ t. t;
  env = home;
  unsquashfs = λ offset. ok tt;
  build_erofs = ok (codes "image");
  stub_binary = ok (codes "stub");
}

-- (The header does not depend on the codec.)
abbrev codec : Capnp
codec =
    codec_of
      (message (converted_header toy_hex (codec_of (message two_layers)) appimage (codes "image")))

abbrev converted : Bytes
converted = codes "stub" ++ ((codes "NX02" ++ (7 ∷ [])) ++ codes "image")

converts : convert_appimage toy_hex codec appimage none ≡ ok (codes "tool.nxpk", converted)
unfolding convert_appimage nexpack.Compat.Convert.extract find_squashfs_offset
    nexpack.Compat.Squashfs.search nexpack.Compat.Squashfs.scan nexpack.Compat.Squashfs.is_magic
    text_eq nexpack.Prelude.from_le_bytes nexpack.Compat.Convert.converted_file encode output_name
converts = refl

convert_appimage-roundtrip_example :
    (codes "tool.nxpk" ≡ output_name appimage none)
    × ((bytes : Bytes) × (encode codec (converted_header toy_hex codec appimage (codes "image"))
          ≡ ok bytes)
        × (parse_bundle codec converted
            ≡ ok (
                written
                  (converted_header toy_hex codec appimage (codes "image"))
                  (codes "stub")
                  bytes
                  (codes "image" ∷ [])
                  []))
        × (verify_layers toy_hex (
              written
                (converted_header toy_hex codec appimage (codes "image"))
                (codes "stub")
                bytes
                (codes "image" ∷ [])
                [])
            ≡ ok tt)
        × (extract_layer
              (written
                (converted_header toy_hex codec appimage (codes "image"))
                (codes "stub")
                bytes
                (codes "image" ∷ [])
                [])
              0
            ≡ ok (codes "image")))
unfolding find_magic converted_header
convert_appimage-roundtrip_example =
    convert_appimage-roundtrip toy_hex codec
      (codec_of-IsCodec (
        message
          (converted_header toy_hex (codec_of (message two_layers)) appimage (codes "image"))))
      appimage none (codes "tool.nxpk") converted (codes "image") (codes "stub") refl refl refl refl
      (omega arith) converts
