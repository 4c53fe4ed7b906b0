-- ===== src/Permission.antt =====
-- nexpack-core/src/permission.rs
use nexpack.Prelude.{Bool, true, false, List, [], ◌∷◌, Text, codes}

pub data PermissionValue : Type 0 where
  bool : Bool → PermissionValue
  patterns : List Text → PermissionValue

pub record PermissionSet : Type 0 where
  pub network : PermissionValue
  pub filesystem : List Text
  pub devices : List Text
  pub ipc : List Text
  pub display : Text

unfoldable pub default_sandboxed : PermissionSet
default_sandboxed = record {
  network = bool false;
  filesystem = [];
  devices = [];
  ipc = codes "wayland" ∷ codes "dbus-session" ∷ [];
  display = codes "wayland";
}

unfoldable pub default_permissive : PermissionSet
default_permissive = record {
  network = bool true;
  filesystem = codes "$HOME" ∷ [];
  devices = codes "dri" ∷ codes "audio" ∷ codes "input" ∷ [];
  ipc = codes "dbus-session" ∷ codes "wayland" ∷ codes "x11" ∷ [];
  display = codes "wayland";
}
