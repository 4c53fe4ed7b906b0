-- ===== src/Tests/Trusts.antt =====
-- Trust policies.
use nexpack.Prelude.{
  ◌≡◌, refl, ◌↔◌, ◌⊎◌, Bool, true, false, none, some, [], ◌∷◌, Text, codes, text_eq, ok, err, other,
  arith, if◌then◌else◌,
}
use nexpack.Prelude.Dict
use nexpack.Prelude.Dict.{Dict}
use nexpack.Paths.{join}
use nexpack.Store.{done}
use nexpack.Trust.{wildmatch, TrustPolicyEntry, TrustConfig, match_policy}
use nexpack.Trust.Wildcards.{Matches, wildmatch_iff}
use nexpack.Trust.Config.{Setting, config_home, config_dir, load, trust_all, edit_trust}
use nexpack.Trust.Config.Trusted.{
  is_bare, IsBare, ArePlain, distinct, entry_for, IsWritable, match_policy-trust_all,
  load-trust_twice,
}
use nexpack.Trust.Config.Edited.{IsAccepted, edit_trust-load}
use nexpack.Commands.Permissions.{trim}
use nexpack.Tests.Toml.{toml, toml-ReadsToml}
use nexpack.Trust.Policies.{Found, match_policy_picks}

wildmatch_iff_example :
    (wildmatch (codes "org.*.app?") (codes "org.a.b.app2") ≡ true)
    ↔ Matches (codes "org.*.app?") (codes "org.a.b.app2")
wildmatch_iff_example = wildmatch_iff (codes "org.*.app?") (codes "org.a.b.app2")

abbrev anyone : TrustPolicyEntry
anyone = record { identities = []; require_rekor = none }

abbrev policy : TrustConfig
policy = (codes "*", anyone) ∷ (codes "org.*", anyone) ∷ []

match_policy_picks_example :
    ((e : TrustPolicyEntry) × (Dict.lookup (codes "org.a") policy ≡ some e)
      × (match_policy policy (codes "org.a") ≡ some (codes "org.a", e)))
    ⊎ ((Dict.lookup (codes "org.a") policy ≡ none)
        × Found (codes "org.a") policy none 0 (match_policy policy (codes "org.a")))
match_policy_picks_example = match_policy_picks policy (codes "org.a")

-- Two patterns are trusted, and one of them again.
abbrev trusted : Dict Text
trusted = (codes "org.*", codes "who@there") ∷ (codes "org.a", codes "me@here") ∷ []

abbrev twice : Dict Text
twice = (codes "org.a", codes "me@here") ∷ (codes "org.a", codes "who@there") ∷ []

abbrev pub setting : Setting
setting = record {
  env = record {
    var = λ name. some (codes "/home/me");
    exists = λ path. false;
    is_alphanumeric = λ c. false;
  };
  make_dir = true;
  can_read = true;
  write_file = done;
  from_str = toml;
  run_editor = λ editor file. some (true, some (codes "\n"));
}

setting-IsWritable : IsWritable setting
unfolding config_dir config_home join
setting-IsWritable = record {
  dir = codes "/home/me/nexpack";
  has_dir = refl;
  makes = refl;
  reads = refl;
  writes = refl;
}

abbrev all_bare : Text → Bool
all_bare [] = true
all_bare (c ∷ t) = if is_bare c then all_bare t else false

all_bare-IsBare : (t : Text) → all_bare t ≡ true → IsBare t
all_bare-IsBare [] h = tt
all_bare-IsBare (c ∷ t) h = (ground arith, all_bare-IsBare t (ground arith))

trusted-ArePlain : ArePlain trusted
trusted-ArePlain = (
  (all_bare-IsBare (codes "org.*") refl, all_bare-IsBare (codes "who@there") refl),
  ((all_bare-IsBare (codes "org.a") refl, all_bare-IsBare (codes "me@here") refl), tt),
)

twice-ArePlain : ArePlain twice
twice-ArePlain = (
  (all_bare-IsBare (codes "org.a") refl, all_bare-IsBare (codes "me@here") refl),
  ((all_bare-IsBare (codes "org.a") refl, all_bare-IsBare (codes "who@there") refl), tt),
)

match_policy-trust_all_example :
    (config : TrustConfig) × (load setting (trust_all setting trusted none) ≡ ok config)
    × (match_policy config (codes "org.a") ≡ some (codes "org.a", entry_for (codes "me@here")))
unfolding distinct Dict.lookup text_eq
match_policy-trust_all_example =
    match_policy-trust_all setting setting-IsWritable toml-ReadsToml
      ((codes "org.*", codes "who@there") ∷ []) [] (codes "org.a") (codes "me@here")
      trusted-ArePlain refl

load-trust_twice_example :
    load setting (trust_all setting twice none) ≡ err (other "parsing trust.toml")
unfolding distinct Dict.lookup text_eq
load-trust_twice_example =
    load-trust_twice setting setting-IsWritable toml-ReadsToml twice twice-ArePlain refl

-- The editor leaves a file with one table, for a reader that takes any file for one without policies.
abbrev with_editor : Setting
with_editor = record setting {
  from_str = λ content. some [];
  run_editor = λ editor file.
      some (true, some (codes "\n[policy.\"a\"]\nidentities = [\"b\"]\nrequire_rekor = true\n"));
}

edits : (edit_trust with_editor none).0 ≡ ok tt
unfolding edit_trust config_dir config_home join nexpack.Trust.Config.begin_edit
    nexpack.Trust.Config.edit_file nexpack.Trust.Config.write_trust
    nexpack.Trust.Config.after_editor nexpack.Trust.Config.read_trust
    nexpack.Trust.Config.check_edited nexpack.Trust.Config.editor trim
    nexpack.Commands.Permissions.trim_start nexpack.Commands.Permissions.trim_end
    nexpack.Commands.Permissions.is_whitespace
edits = refl

edit_trust-load_example : IsAccepted (load with_editor) (edit_trust with_editor none).1
edit_trust-load_example = edit_trust-load with_editor none edits
