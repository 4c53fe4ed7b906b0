-- ===== src/Commands/Permissions.antt =====
-- nxpk/src/commands/permissions.rs: the command, and the menu by which permissions are edited.
-- Standard input is the list of its lines, each with its newline; what is printed is left out.
pub mod Sessions
pub mod Endings
pub mod Saved
use nexpack.Prelude.{
  io, ℕ, zero, suc, Bool, true, false, ◌&&◌, ◌||◌, leb, ◌==◌, Option, none, some, List, [], ◌∷◌,
  Text, codes, text_eq, Bytes, Outcome, ok, err, other, ok_or, ◌>>=◌, if◌then◌else◌,
}
use nexpack.Permission.{PermissionValue, bool, PermissionSet}
use nexpack.Header.{BundleHeader, encode, parse}
use nexpack.Header.Wire.{Capnp}
use nexpack.Store.{Store, Disk}
use nexpack.Store.Install.{next}
use nexpack.Update.Command.{meta_of, is_empty, write_meta}

abbrev pub Input : Type 0
Input = List Text

-- `char::is_whitespace`: Unicode's White_Space.
unfoldable pub is_whitespace : ℕ → Bool
is_whitespace c =
    leb 0x09 c && leb c 0x0D
    || (c == 0x20
        || (c == 0x85
            || (c == 0xA0
                || (c == 0x1680
                    || (leb 0x2000 c && leb c 0x200A
                        || (c == 0x2028
                            || (c == 0x2029 || (c == 0x202F || (c == 0x205F || c == 0x3000)))))))))

unfoldable pub trim_start : Text → Text
unfolding is_whitespace
trim_start [] = []
trim_start (c ∷ t) = let rest = trim_start t in if is_whitespace c then rest else c ∷ t

unfoldable pub trim_end : Text → Text
unfolding is_whitespace
trim_end [] = []
trim_end (c ∷ t) =
    let rest = trim_end t in if is_empty rest && is_whitespace c then [] else c ∷ rest

unfoldable pub trim : Text → Text
unfolding trim_start trim_end
trim t = trim_end (trim_start t)

-- `stdout.flush()?` and `read_line(..)?`: at the end of the input an empty text is read, again and
-- again; or, if the terminal is broken then, one of the two fails.
abbrev pub read_line : Bool → Input → Option (Text × Input)
read_line broken [] = if broken then none else some ([], [])
read_line broken (line ∷ input) = some (line, input)

abbrev pub add_entry : Text → Option (List Text × Input) → Option (List Text × Input)
add_entry entry none = none
add_entry entry (some (entries, rest)) = some (entry ∷ entries, rest)

-- The loop that reads a list, to an empty line.
unfoldable pub read_list : Bool → Input → Option (List Text × Input)
unfolding trim
read_list broken [] = if broken then none else some ([], [])
read_list broken (line ∷ input) =
    let rest = add_entry (trim line) (read_list broken input) in
    if is_empty (trim line) then some ([], input) else rest

-- How a round of the menu ends: with another round, with saving, or with the error of `?`.
pub data Round : Type 0 where
  again : PermissionSet → Input → Round
  save : PermissionSet → Input → Round
  failed : Round

-- What was read is set.
abbrev pub with_read {ℓ} : {A : Type ℓ} → Option (A × Input) → (A → PermissionSet) → Round
with_read none set = failed
with_read (some (a, rest)) set = again (set a) rest

unfoldable pub network_value : Text → PermissionValue
network_value val = if text_eq val (codes "true") then bool true else bool false

unfoldable pub display_value : Text → Text → Text
display_value val display = if is_empty val then display else val

unfoldable pub choose : Bool → Text → PermissionSet → Input → Round
unfolding trim read_list network_value display_value
choose broken choice perm input =
    if text_eq choice (codes "1")
    then with_read (read_line broken input)
        (λ val. record perm { network = network_value (trim val) })
    else if text_eq choice (codes "2")
    then with_read (read_list broken input) (λ paths. record perm { filesystem = paths })
    else if text_eq choice (codes "3")
    then with_read (read_list broken input) (λ devs. record perm { devices = devs })
    else if text_eq choice (codes "4")
    then with_read (read_list broken input) (λ protos. record perm { ipc = protos })
    else if text_eq choice (codes "5")
    then with_read (read_line broken input)
        (λ val. record perm { display = display_value (trim val) perm.display })
    else if text_eq choice (codes "6")
    then save perm input
    else again perm input

unfoldable pub choose_read : Bool → Option (Text × Input) → PermissionSet → Round
unfolding choose trim
choose_read broken none perm = failed
choose_read broken (some (line, rest)) perm = choose broken (trim line) perm rest

-- One round of the loop.
unfoldable pub edit_round : Bool → Input → PermissionSet → Round
unfolding choose_read
edit_round broken input perm = choose_read broken (read_line broken input) perm

-- The loop: what is saved, and the input that is left, or an error. `none` if the rounds do not
-- suffice.
unfoldable pub edit_loop :
    Bool → ℕ → Input → PermissionSet → Option (Outcome (PermissionSet × Input))
unfolding edit_round
edit_loop broken zero input perm = none
edit_loop broken (suc rounds) input perm = elim (edit_round broken input perm) [
  | again perm' rest ↦ edit_loop broken rounds rest perm'
  | save perm' rest ↦ some (ok (perm', rest))
  | failed ↦ some (err (io "terminal"))
]

module _ (cp : Capnp) (disk : Disk) where
  -- What choosing 6 does.
  unfoldable pub save_permissions :
      Text → BundleHeader → PermissionSet → Store → Outcome (Unit {0}) × Store
  unfolding next write_meta
  save_permissions app_id header perm s =
      next (encode cp (record header { permissions = perm }), s)
        λ encoded s. write_meta disk app_id encoded s

  -- After the loop.
  unfoldable pub save_edited :
      Outcome (PermissionSet × Input) → Text → BundleHeader → Store → Outcome (Unit {0}) × Store
  unfolding save_permissions
  save_edited (ok (perm, _)) app_id header s = save_permissions app_id header perm s
  save_edited (err e) app_id header s = (err e, s)
  save_edited Outcome.panic app_id header s = (Outcome.panic, s)

  -- `none` if the rounds do not suffice.
  unfoldable pub edit_permissions :
      Bool → ℕ → Input → Text → BundleHeader → Store → Option (Outcome (Unit {0}) × Store)
  unfolding edit_loop save_edited
  edit_permissions broken rounds input app_id header s =
      elim (edit_loop broken rounds input header.permissions) [
        | none ↦ none
        | some ended ↦ some (save_edited ended app_id header s)
      ]

  abbrev pub installed_header : Text → Store → Outcome BundleHeader
  installed_header app_id s = do
    meta ← ok_or (meta_of s app_id) (other "app is not installed")
    parse cp meta

  unfoldable pub edit_if :
      Bool
      → Bool
      → ℕ
      → Input
      → Text
      → Outcome BundleHeader
      → Store
      → Option (Outcome (Unit {0}) × Store)
  unfolding edit_permissions
  edit_if broken edit rounds input app_id (ok header) s =
      if edit then edit_permissions broken rounds input app_id header s else some (ok tt, s)
  edit_if broken edit rounds input app_id (err e) s = some (err e, s)
  edit_if broken edit rounds input app_id Outcome.panic s = some (Outcome.panic, s)

  unfoldable pub permissions :
      Bool → Bool → ℕ → Input → Text → Store → Option (Outcome (Unit {0}) × Store)
  unfolding edit_if
  permissions broken edit rounds input app_id s =
      edit_if broken edit rounds input app_id (installed_header app_id s) s
