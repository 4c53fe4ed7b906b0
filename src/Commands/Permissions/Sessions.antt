-- ===== src/Commands/Permissions/Sessions.antt =====
-- Whole sessions with the menu: what they save, and when they end.
use nexpack.Prelude.{
  ok, ℕ, suc, ◌≡◌, refl, ap, ◌∙◌, Bool, false, ◌||◌, some, List, [], ◌∷◌, ◌++◌, append_assoc, map,
  length, All, Text, codes, text_eq, arith,
}
use nexpack.Permission.{PermissionSet}
use nexpack.Update.Command.{is_empty}
use nexpack.Commands.Permissions.Endings.{edit_loop-again}
use nexpack.Commands.Permissions.{
  Input, is_whitespace, trim_start, trim_end, trim, read_list, again, with_read, network_value,
  display_value, choose, choose_read, edit_round, edit_loop,
}

-- What a user enters for one round of the menu, as the lines that are read.
pub data Edit : Type 0 where
  set_network set_display mistake : Text → Edit
  set_filesystem set_devices set_ipc : List Text → Edit

abbrev pub choice : ℕ → Text
choice digit = digit ∷ 10 ∷ []

abbrev pub blank : Text
blank = 10 ∷ []

unfoldable pub lines_of : Edit → Input
lines_of (set_network val) = choice b'1' ∷ val ∷ []
lines_of (set_filesystem paths) = choice b'2' ∷ (paths ++ (blank ∷ []))
lines_of (set_devices devs) = choice b'3' ∷ (devs ++ (blank ∷ []))
lines_of (set_ipc protos) = choice b'4' ∷ (protos ++ (blank ∷ []))
lines_of (set_display val) = choice b'5' ∷ val ∷ []
lines_of (mistake line) = line ∷ []

unfoldable pub apply_edit : Edit → PermissionSet → PermissionSet
unfolding trim network_value display_value
apply_edit (set_network val) perm = record perm { network = network_value (trim val) }
apply_edit (set_filesystem paths) perm = record perm { filesystem = map trim paths }
apply_edit (set_devices devs) perm = record perm { devices = map trim devs }
apply_edit (set_ipc protos) perm = record perm { ipc = map trim protos }
apply_edit (set_display val) perm = record perm { display = display_value (trim val) perm.display }
apply_edit (mistake line) perm = perm

unfoldable pub session : List Edit → Input
unfolding lines_of
session [] = choice b'6' ∷ []
session (e ∷ edits) = lines_of e ++ session edits

unfoldable pub apply_edits : List Edit → PermissionSet → PermissionSet
unfolding apply_edit
apply_edits [] perm = perm
apply_edits (e ∷ edits) perm = apply_edits edits (apply_edit e perm)

unfoldable pub is_choice : Text → Bool
is_choice t =
    text_eq t (codes "1")
    || (text_eq t (codes "2")
        || (text_eq t (codes "3")
            || (text_eq t (codes "4") || (text_eq t (codes "5") || text_eq t (codes "6")))))

-- The entries of a list are not blank, and a mistake is none of the six choices.
abbrev pub IsEdit : Edit → Type 0
IsEdit (set_network val) = Unit
IsEdit (set_filesystem paths) = All (λ p. is_empty (trim p) ≡ false) paths
IsEdit (set_devices devs) = All (λ p. is_empty (trim p) ≡ false) devs
IsEdit (set_ipc protos) = All (λ p. is_empty (trim p) ≡ false) protos
IsEdit (set_display val) = Unit
IsEdit (mistake line) = is_choice (trim line) ≡ false

read_list-append :
    (broken : Bool) (entries : List Text) (rest : Input)
    → All (λ p. is_empty (trim p) ≡ false) entries
    → read_list broken (entries ++ (blank ∷ rest)) ≡ some (map trim entries, rest)
unfolding read_list trim trim_start trim_end is_whitespace
read_list-append broken [] rest h = refl
read_list-append broken (p ∷ entries) rest (here, there) =
    rw (here, read_list-append broken entries rest there) refl

choose-mistake :
    (broken : Bool) (t : Text) (perm : PermissionSet) (input : Input)
    → is_choice t ≡ false
    → choose broken t perm input ≡ again perm input
unfolding choose is_choice
choose-mistake broken t perm input h = ground arith

-- The round that reads a list.
with_read-list :
    (broken : Bool) (entries : List Text) (rest : Input) (set : List Text → PermissionSet)
    → All (λ p. is_empty (trim p) ≡ false) entries
    → with_read (read_list broken ((entries ++ (blank ∷ [])) ++ rest)) set
      ≡ again (set (map trim entries)) rest
with_read-list broken entries rest set h =
    ap (λ o. with_read o set)
      (ap (read_list broken) (append_assoc entries (blank ∷ []) rest)
        ∙ read_list-append broken entries rest h)

edit_round-lines_of :
    (broken : Bool) (e : Edit) (rest : Input) (perm : PermissionSet)
    → IsEdit e
    → edit_round broken (lines_of e ++ rest) perm ≡ again (apply_edit e perm) rest
unfolding edit_round choose_read lines_of apply_edit choose trim trim_start trim_end is_whitespace
    text_eq
edit_round-lines_of broken (set_network val) rest perm h = refl
edit_round-lines_of broken (set_filesystem paths) rest perm h =
    with_read-list broken paths rest (λ l. record perm { filesystem = l }) h
edit_round-lines_of broken (set_devices devs) rest perm h =
    with_read-list broken devs rest (λ l. record perm { devices = l }) h
edit_round-lines_of broken (set_ipc protos) rest perm h =
    with_read-list broken protos rest (λ l. record perm { ipc = l }) h
edit_round-lines_of broken (set_display val) rest perm h = refl
edit_round-lines_of broken (mistake line) rest perm h =
    choose-mistake broken (trim line) perm rest h

session-cons :
    (e : Edit) (edits : List Edit) (rest : Input)
    → session (e ∷ edits) ++ rest ≡ lines_of e ++ (session edits ++ rest)
unfolding session
session-cons e edits rest = append_assoc (lines_of e) (session edits) rest

-- Any number of edits entered one after the other, and then a 6, are saved as the edits applied in
-- this order, each with the entries trimmed, and nothing behind the 6 is read: if the entries of the
-- lists are not blank and the mistakes are none of the six choices. It takes one round more than
-- there are edits.
pub edit_loop-session :
    (broken : Bool) (edits : List Edit) (rest : Input) (perm : PermissionSet)
    → All IsEdit edits
    → edit_loop broken (suc (length edits)) (session edits ++ rest) perm
      ≡ some (ok (apply_edits edits perm, rest))
unfolding apply_edits
edit_loop-session broken [] rest perm h =
    unfold edit_loop session edit_round choose_read choose trim trim_start trim_end is_whitespace
      text_eq in
    refl
edit_loop-session broken (e ∷ edits) rest perm (here, there) = rw (session-cons e edits rest) (
    edit_loop-again broken (suc (length edits)) (lines_of e ++ (session edits ++ rest))
      (session edits ++ rest) perm (apply_edit e perm)
      (edit_round-lines_of broken e (session edits ++ rest) perm here)
    ∙ edit_loop-session broken edits rest (apply_edit e perm) there)
