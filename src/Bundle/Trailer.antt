-- ===== src/Bundle/Trailer.antt =====
-- nexpack-core/src/lib.rs: the trailer of 20 bytes that ends a bundle with a bootstrap,
-- `make_bootstrap_trailer` and `read_trailer`.
use nexpack.Prelude.{
  ℕ, ◌-◌, ◌^◌, ◌<◌, ◌≡◌, Option, none, some, ◌++◌, codes, text_eq, Bytes, take, drop, length,
  length-append, drop-append, take-append, take-length, to_le_bytes, from_le_bytes,
  length-to_le_bytes, from_le_bytes-to_le_bytes, ltb, ge→ltb, arith, if◌then◌else◌,
}

-- b"NXBT"
abbrev pub bootstrap_trailer_magic : Bytes
bootstrap_trailer_magic = codes "NXBT"

unfoldable pub make_bootstrap_trailer : ℕ → ℕ → Bytes
make_bootstrap_trailer bootstrap_offset bootstrap_size =
    bootstrap_trailer_magic ++ (to_le_bytes 8 bootstrap_offset ++ to_le_bytes 8 bootstrap_size)

-- `tail` is `&data[pos..]`, the last 20 bytes.
unfoldable pub read_fields : Bytes → Option (ℕ × ℕ)
read_fields tail =
    if text_eq (take 4 tail) bootstrap_trailer_magic
    then some (from_le_bytes (take 8 (drop 4 tail)), from_le_bytes (take 8 (drop 12 tail)))
    else none

unfoldable pub read_trailer : Bytes → Option (ℕ × ℕ)
unfolding read_fields
read_trailer input =
    if ltb (length input) 20 then none else read_fields (drop (length input - 20) input)

-- Two numbers of eight bytes behind the magic.
take-to_le_bytes : (w n : ℕ) (rest : Bytes) → take w (to_le_bytes w n ++ rest) ≡ to_le_bytes w n
take-to_le_bytes w n rest = rw length-to_le_bytes at (take-append (to_le_bytes w n) rest)

take_all-to_le_bytes : (w n : ℕ) → take w (to_le_bytes w n) ≡ to_le_bytes w n
take_all-to_le_bytes w n = rw length-to_le_bytes at (take-length (to_le_bytes w n))

drop-to_le_bytes : (w n : ℕ) (rest : Bytes) → drop w (to_le_bytes w n ++ rest) ≡ rest
drop-to_le_bytes w n rest = rw length-to_le_bytes at (drop-append (to_le_bytes w n) rest)

read_fields-make :
    (offset size : ℕ)
    → offset < 2 ^ 64
    → size < 2 ^ 64
    → read_fields (make_bootstrap_trailer offset size) ≡ some (offset, size)
unfolding read_fields make_bootstrap_trailer text_eq
read_fields-make offset size ho hs = rw (
  take-to_le_bytes 8 offset (to_le_bytes 8 size),
  drop-to_le_bytes 8 offset (to_le_bytes 8 size),
  take_all-to_le_bytes 8 size,
  from_le_bytes-to_le_bytes 8 offset (omega arith),
  from_le_bytes-to_le_bytes 8 size (omega arith),
)

length-make_bootstrap_trailer : (offset size : ℕ) → length (make_bootstrap_trailer offset size) ≡ 20
unfolding make_bootstrap_trailer
length-make_bootstrap_trailer offset size = omega (
  arith,
  length-append (to_le_bytes 8 offset) (to_le_bytes 8 size),
  length-to_le_bytes 8 offset,
  length-to_le_bytes 8 size,
)

-- The trailer that `pack` appends is read back from the end of the file, whatever stands before it.
pub read_trailer-make_bootstrap_trailer :
    (file : Bytes) (offset size : ℕ)
    → offset < 2 ^ 64
    → size < 2 ^ 64
    → read_trailer (file ++ make_bootstrap_trailer offset size) ≡ some (offset, size)
unfolding read_trailer
read_trailer-make_bootstrap_trailer file offset size ho hs =
    let tail = make_bootstrap_trailer offset size in
    let total = length-append file tail in
    let twenty = length-make_bootstrap_trailer offset size in
    let start : length (file ++ tail) - 20 ≡ length file = omega arith in
    rw (ge→ltb (length (file ++ tail)) 20 (omega arith), start, drop-append file tail)
      (read_fields-make offset size ho hs)
