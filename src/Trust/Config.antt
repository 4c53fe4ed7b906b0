-- ===== src/Trust/Config.antt =====
-- nxpk/src/commands/trust.rs, and `TrustConfig::load` of nexpack-core/src/signing.rs: the file of the
-- trust policies, as its text or none. The TOML library and the editor are parameters, and so is what
-- the disk allows.
pub mod Trusted
pub mod Edited
use nexpack.Prelude.{
  ℕ, Bool, true, false, Option, none, some, List, [], ◌∷◌, ◌++◌, Text, codes, unlines, Outcome, ok,
  err, panic, other, io, ok_or, ensure, ◌>>=◌, ◌>>◌, if◌then◌else◌,
}
use nexpack.Prelude.Dict
use nexpack.Prelude.Dict.{Dict}
use nexpack.Paths.{join}
use nexpack.Sandbox.Expand.{Env}
use nexpack.Store.{Effect, done, failed}
use nexpack.Update.Command.{is_empty}
use nexpack.Commands.Permissions.{trim}
use nexpack.Trust.{TrustPolicyEntry, TrustConfig}

pub record Setting : Type 0 where
  pub env : Env
  -- `create_dir_all`, `read_to_string` of a file that is there, and `write`
  pub make_dir : Bool
  pub can_read : Bool
  pub write_file : Effect Text
  -- `toml::from_str`
  pub from_str : Text → Option TrustConfig
  -- What the editor of this name makes of the file: whether it succeeds, and the file it leaves.
  pub run_editor : Text → Option Text → Option (Bool × Option Text)

-- `XDG_CONFIG_HOME`, or the folder below `HOME`.
unfoldable pub config_home : Env → Option Text
unfolding join
config_home env = elim (env.var (codes "XDG_CONFIG_HOME")) [
  | some path ↦ some path
  | none ↦ elim (env.var (codes "HOME")) [
    | none ↦ none
    | some home ↦ some (join home (codes ".config"))
  ]
]

-- `dirs` of the command and `config_dir` of the library, which are the same.
unfoldable pub config_dir : Env → Option Text
unfolding config_home join
config_dir env = elim (config_home env) [
  | none ↦ none
  | some path ↦ some (join path (codes "nexpack"))
]

-- What `format!` makes: nothing is escaped.
unfoldable pub policy_block : Text → Text → Text
policy_block app_id_pattern identity =
    codes "\n[policy.\""
    ++ (app_id_pattern
        ++ (codes "\"]\nidentities = [\"" ++ (identity ++ codes "\"]\nrequire_rekor = true\n")))

module _ (setting : Setting) where
  unfoldable pub write_trust : Effect Text → Text → Option Text → Outcome (Unit {0}) × Option Text
  write_trust done content file = (ok tt, some content)
  write_trust (failed left) content file = (err (io "writing trust.toml"), left)

  abbrev pub make_config_dir : Outcome (Unit {0})
  make_config_dir = do
    ok_or (config_dir setting.env) (other "cannot determine config directory")
    ensure setting.make_dir (io "creating config directory")

  -- `read_to_string`
  unfoldable pub read_trust : Option Text → Outcome Text
  read_trust none = err (io "reading trust.toml")
  read_trust (some content) = if setting.can_read then ok content else err (io "reading trust.toml")

  -- What the file has so far; nothing, where there is none.
  unfoldable pub old_content : Option Text → Outcome Text
  unfolding read_trust
  old_content none = ok []
  old_content (some content) = read_trust (some content)

  unfoldable pub append_policy :
      Outcome Text → Text → Option Text → Outcome (Unit {0}) × Option Text
  unfolding write_trust
  append_policy (ok content) block file = write_trust setting.write_file (content ++ block) file
  append_policy (err e) block file = (err e, file)
  append_policy panic block file = (panic, file)

  unfoldable pub trust : Text → Text → Option Text → Outcome (Unit {0}) × Option Text
  unfolding append_policy old_content config_dir policy_block
  trust app_id_pattern identity file =
      append_policy (do make_config_dir; old_content file) (policy_block app_id_pattern identity)
        file

  -- `TrustConfig::load`
  unfoldable pub load_content : Option Text → Outcome TrustConfig
  unfolding read_trust
  load_content none = ok []
  load_content (some content) = do
    text ← read_trust (some content)
    ok_or (setting.from_str text) (other "parsing trust.toml")

  unfoldable pub load : Option Text → Outcome TrustConfig
  unfolding config_dir load_content
  load file = do
    ok_or (config_dir setting.env) (other "cannot determine config directory")
    load_content file

  abbrev pub template : Text
  template = unlines (
      codes "# Nexpack Trust Policy"
      ∷ codes "# Format:"
      ∷ codes "#   [policy.\"app.id.pattern.*\"]"
      ∷ codes "#   identities = [\"identity@issuer\"]"
      ∷ codes "#   require_rekor = true"
      ∷ codes "#"
      ∷ codes "# Use wildcard * to match multiple apps."
      ∷ codes "# The default policy is used when no specific match is found."
      ∷ []
      ∷ codes "[policy.default]"
      ∷ codes "action = \"prompt\""
      ∷ []
      ∷ [])

  unfoldable pub editor : Text
  editor = elim (setting.env.var (codes "EDITOR")) [
    | some name ↦ name
    | none ↦ elim (setting.env.var (codes "VISUAL")) [ some name ↦ name | none ↦ codes "nano" ]
  ]

  -- The test of a file that was edited. The file stays also if it is refused.
  unfoldable pub check_edited : Text → Outcome (Unit {0})
  unfolding trim
  check_edited content =
      if is_empty (trim content)
      then ok tt
      else (do ok_or (setting.from_str content) (other "invalid trust.toml"); ok tt)

  unfoldable pub after_editor :
      Option (Bool × Option Text) → Option Text → Outcome (Unit {0}) × Option Text
  unfolding read_trust check_edited
  after_editor none file = (err (other "failed to launch editor"), file)
  after_editor (some (success, left)) file = (
    do ensure success (other "editor exited"); content ← read_trust left; check_edited content,
    left,
  )

  unfoldable pub edit_file : Outcome (Unit {0}) × Option Text → Outcome (Unit {0}) × Option Text
  unfolding after_editor editor
  edit_file (ok _, file) = after_editor (setting.run_editor editor file) file
  edit_file (err e, file) = (err e, file)
  edit_file (panic, file) = (panic, file)

  -- A file that is missing is written before.
  unfoldable pub begin_edit : Outcome (Unit {0}) → Option Text → Outcome (Unit {0}) × Option Text
  unfolding write_trust
  begin_edit (ok _) none = write_trust setting.write_file template none
  begin_edit (ok _) (some content) = (ok tt, some content)
  begin_edit (err e) file = (err e, file)
  begin_edit panic file = (panic, file)

  unfoldable pub edit_trust : Option Text → Outcome (Unit {0}) × Option Text
  unfolding begin_edit edit_file config_dir
  edit_trust file = edit_file (begin_edit make_config_dir file)

  -- The command for each pattern and its identity, one after the other.
  unfoldable pub trust_all : Dict Text → Option Text → Option Text
  unfolding trust
  trust_all [] file = file
  trust_all ((app_id_pattern, identity) ∷ more) file =
      trust_all more (trust app_id_pattern identity file).1
