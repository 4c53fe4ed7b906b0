-- ===== src/Header/Wire.antt =====
-- What nexpack-core/src/header.rs uses of the Cap'n Proto library and of the code generated from
-- nexpack-ipc/src/header.capnp: a message as its getters show it, reading and writing.
use nexpack.Prelude.{ℕ, ◌≡◌, Bool, Option, some, List, ◌++◌, Text, Bytes, length}

-- A getter of a text fails, gives bytes that are not UTF-8, or gives a text.
pub data RawText : Type 0 where
  bad_pointer bad_utf8 : RawText
  text : Text → RawText

-- A getter of anything else fails or gives a value.
pub data Read {ℓ} (A : Type ℓ) : Type ℓ where
  bad : Read A
  value : A → Read A

pub record RawLayer : Type 0 where
  pub digest : RawText
  pub size : ℕ
  pub role : RawText

-- The union `PermissionValue`, whose getter or whose `which()` may fail.
pub data RawNetwork : Type 0 where
  bad_network not_in_schema bad_patterns : RawNetwork
  raw_bool : Bool → RawNetwork
  raw_patterns : List RawText → RawNetwork

pub record RawPermissions : Type 0 where
  pub network : RawNetwork
  pub filesystem : Read (List RawText)
  pub devices : Read (List RawText)
  pub ipc : Read (List RawText)
  pub display : RawText

pub record Message : Type 0 where
  pub version : ℕ
  pub app_id : RawText
  pub app_version : RawText
  pub entrypoint : RawText
  pub layers : Read (List RawLayer)
  pub permissions : Read RawPermissions
  pub signature : Read Bytes
  pub sbom : Read Bytes
  pub update_url : RawText
  pub bootstrap_size : ℕ

-- `write_message` into a buffer, and `read_message` with `get_root`, which also gives the cursor's
-- position behind the message.
pub record Capnp : Type 0 where
  pub write_message : Message → Option Bytes
  pub read_message : Bytes → Option (Read Message × ℕ)

-- The library's promise: a message within its limits (the lengths of lists and the reader's
-- traversal limit) that was written is read back, whatever follows it.
pub record IsCodec (cp : Capnp) (Fits : Message → Type 0) : Type 0 where
  pub read-write :
      (m : Message) (bytes rest : Bytes)
      → Fits m
      → cp.write_message m ≡ some bytes
      → cp.read_message (bytes ++ rest) ≡ some (value m, length bytes)
