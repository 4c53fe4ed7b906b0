-- ===== src/Bundle/Bootstrap.antt =====
-- nexpack-core/src/lib.rs: the bootstrap block, `make_bootstrap_data` and `parse_bootstrap_entries`.
-- The reader's `offset` is modelled by the bytes from there on: `offset + n > data.len()` is the test
-- that fewer than `n` bytes are left, and `data[offset..offset + n]` panics where fewer are left.
pub mod RoundTrip
use nexpack.Prelude.{
  ℕ, zero, suc, ◌%◌, ◌^◌, List, [], ◌∷◌, ◌++◌, Text, Bytes, utf8, take, drop, length, to_le_bytes,
  from_le_bytes, Outcome, ok, err, panic, Error, ◌>>◌, invalid_format, ◌>>=◌, ltb, if◌then◌else◌,
}

pub record BootstrapEntry : Type 0 where
  pub name : Text
  -- the field `data`
  pub binary : Bytes

-- The slice of the next `n` bytes, and what is behind it.
unfoldable pub split_off : ℕ → Bytes → Outcome (Bytes × Bytes)
split_off n bytes = if ltb (length bytes) n then panic else ok (take n bytes, drop n bytes)

-- The test whether so many bytes are left.
unfoldable pub check_left : ℕ → Bytes → Error → Outcome (Unit {0})
check_left n bytes e = if ltb (length bytes) n then err e else ok tt

-- `String::from_utf8_lossy` is the parameter.
module _ (lossy : Bytes → Text) where
  -- The body of the loop.
  unfoldable pub parse_entry : Bytes → Outcome (BootstrapEntry × Bytes)
  parse_entry rest = do
    check_left 2 rest (invalid_format "bootstrap entry name_len truncated")
    (name_len, rest1) ← split_off 2 rest
    check_left (from_le_bytes name_len) rest1 (invalid_format "bootstrap entry name truncated")
    (name, rest2) ← split_off (from_le_bytes name_len) rest1
    check_left 4 rest2 (invalid_format "bootstrap entry data_len truncated")
    (data_len, rest3) ← split_off 4 rest2
    check_left (from_le_bytes data_len) rest3 (invalid_format "bootstrap entry data truncated")
    (binary, rest4) ← split_off (from_le_bytes data_len) rest3
    ok (record { name = lossy name; binary = binary }, rest4)

  -- `for _ in 0..count`
  unfoldable pub parse_entries : ℕ → Bytes → Outcome (List BootstrapEntry)
  parse_entries zero rest = ok []
  parse_entries (suc n) rest = do
    (entry, rest') ← parse_entry rest
    entries ← parse_entries n rest'
    ok (entry ∷ entries)

  unfoldable pub parse_bootstrap_entries : Bytes → Outcome (List BootstrapEntry)
  unfolding parse_entry parse_entries split_off check_left
  parse_bootstrap_entries input = do
    check_left 4 input (invalid_format "bootstrap data too short")
    (count, rest) ← split_off 4 input
    parse_entries (from_le_bytes count) rest

-- One turn of the loop of `make_bootstrap_data`. The casts to `u16` and `u32` drop high bits.
unfoldable pub make_entry : BootstrapEntry → Bytes
make_entry e =
    to_le_bytes 2 (length (utf8 e.name) % 2 ^ 16)
    ++ (utf8 e.name ++ (to_le_bytes 4 (length e.binary % 2 ^ 32) ++ e.binary))

unfoldable pub make_entries : List BootstrapEntry → Bytes
make_entries [] = []
make_entries (e ∷ entries) = make_entry e ++ make_entries entries

unfoldable pub make_bootstrap_data : List BootstrapEntry → Bytes
unfolding make_entry make_entries
make_bootstrap_data entries = to_le_bytes 4 (length entries % 2 ^ 32) ++ make_entries entries
