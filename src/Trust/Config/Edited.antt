-- ===== src/Trust/Config/Edited.antt =====
-- A file of policies that `trust --edit` has accepted.
use nexpack.Prelude.{
  ◌≡◌, refl, ◌∙◌, Bool, true, false, Option, none, some, Text, Outcome, ok, err, other, ok_or,
  ◌>>=◌, >>=-eq-ok, ok_or-eq-ok, Bool-cases, inl, inr, ◌⊎◌, ok-injective,
}
use nexpack.Trust.{TrustConfig}
use nexpack.Trust.Config.{
  Setting, config_dir, make_config_dir, read_trust, load_content, load, check_edited, after_editor,
  edit_file, begin_edit, edit_trust, editor,
}
use nexpack.Update.Command.{is_empty}
use nexpack.Commands.Permissions.{trim}

-- A file that is blank, or that can be loaded.
abbrev pub IsAccepted : (Option Text → Outcome TrustConfig) → Option Text → Type 0
IsAccepted loads file =
    (content : Text) × (file ≡ some content)
    × ((is_empty (trim content) ≡ true) ⊎ ((config : TrustConfig) × (loads file ≡ ok config)))

module _ (setting : Setting) where
  check_edited-ok :
      (content : Text)
      → check_edited setting content ≡ ok tt
      → (is_empty (trim content) ≡ true)
        ⊎ ((config : TrustConfig) × (setting.from_str content ≡ some config))
  unfolding check_edited
  check_edited-ok content h = elim (Bool-cases (is_empty (trim content))) [
    | inl empty ↦ inl empty
    | inr full ↦
        let (config, parsed, _) =
          >>=-eq-ok (ok_or (setting.from_str content) (other "invalid trust.toml")) (λ _. ok tt)
            (rw full at h) in
        inr (config, ok_or-eq-ok (setting.from_str content) (other "invalid trust.toml") parsed)
  ]

  read_trust-ok :
      (content text : Text) → read_trust setting (some content) ≡ ok text → content ≡ text
  unfolding read_trust
  read_trust-ok content text h = elim (Bool-cases setting.can_read) [
    | inl reads ↦ ok-injective (rw reads at h)
    | inr fails ↦ absurd (let h' = rw fails at h in cc)
  ]

  read_then_check :
      (left : Option Text)
      → (read_trust setting left >>= check_edited setting) ≡ ok tt
      → IsAccepted (load_content setting) left
  unfolding load_content read_trust
  read_then_check none h = absurd cc
  read_then_check (some content) h =
      let (text, read, checked) =
        >>=-eq-ok (read_trust setting (some content)) (check_edited setting) h in
      let same : content ≡ text = read_trust-ok content text read in
      elim (check_edited-ok text checked) [
        | inl empty ↦ (content, refl, inl (rw same empty))
        | inr (config, parsed) ↦ (content, refl, inr (config, rw (read, parsed) refl))
      ]

  after_editor-ok :
      (ran : Option (Bool × Option Text)) (file : Option Text)
      → (after_editor setting ran file).0 ≡ ok tt
      → IsAccepted (load_content setting) (after_editor setting ran file).1
  unfolding after_editor
  after_editor-ok none file h = absurd cc
  after_editor-ok (some (true, left)) file h = read_then_check left h
  after_editor-ok (some (false, left)) file h = absurd cc

  edit_file-ok :
      (begun : Outcome (Unit {0}) × Option Text)
      → (edit_file setting begun).0 ≡ ok tt
      → (begun.0 ≡ ok tt) × IsAccepted (load_content setting) (edit_file setting begun).1
  unfolding edit_file
  edit_file-ok (ok _, file) h =
      (refl, after_editor-ok (setting.run_editor (editor setting) file) file h)
  edit_file-ok (err e, file) h = absurd cc
  edit_file-ok (Outcome.panic, file) h = absurd cc

  begin_edit-ok :
      (made : Outcome (Unit {0})) (file : Option Text)
      → (begin_edit setting made file).0 ≡ ok tt
      → made ≡ ok tt
  unfolding begin_edit
  begin_edit-ok (ok _) file h = refl
  begin_edit-ok (err e) file h = absurd cc
  begin_edit-ok Outcome.panic file h = absurd cc

  load-load_content :
      (file : Option Text) (dir : Text)
      → ok_or (config_dir setting.env) (other "cannot determine config directory") ≡ ok dir
      → load setting file ≡ load_content setting file
  unfolding load
  load-load_content file dir there = rw there refl

  -- If the editing of the file ends well, whatever the editor has made of it, then there is a file, and
  -- it is blank (as `trim` sees it) or can be loaded.
  pub edit_trust-load :
      (file : Option Text)
      → (edit_trust setting file).0 ≡ ok tt
      → IsAccepted (load setting) (edit_trust setting file).1
  unfolding edit_trust
  edit_trust-load file h =
      let (begun, (content, there_is, loads)) =
        edit_file-ok (begin_edit setting (make_config_dir setting) file) h in
      let made = begin_edit-ok (make_config_dir setting) file begun in
      let (dir, there, _) =
        >>=-eq-ok (ok_or (config_dir setting.env) (other "cannot determine config directory")) _
          made in
      elim loads [
        | inl blank ↦ (content, there_is, inl blank)
        | inr (config, loaded) ↦ (
          content,
          there_is,
          inr (config, load-load_content (edit_trust setting file).1 dir there ∙ loaded),
        )
      ]
