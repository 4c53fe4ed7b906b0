-- ===== src/Trust/Config/Trusted.antt =====
-- The policies that `trust` has written, as they are read back and chosen from; and what becomes of
-- a pattern that is trusted a second time.
use nexpack.Prelude.{
  unlines, codes, ℕ, ◌≡◌, ◌≢◌, refl, sym, ap, ◌∙◌, Bool, true, false, not, ◌&&◌, Option, none, some,
  [], ◌∷◌, ◌++◌, append_assoc, append-nil, Text, text_eq_refl, text_eq_iff, All, leb, ◌==◌, ok_or,
  ok_or, ok, err, other, arith, if◌then◌else◌,
}
use nexpack.Prelude.Dict
use nexpack.Prelude.Dict.{Dict}
use nexpack.Store.{done}
use nexpack.Trust.{TrustPolicyEntry, TrustConfig, match_policy}
use nexpack.Trust.Config.{
  Setting, config_dir, policy_block, write_trust, read_trust, old_content, append_policy, trust,
  load, load_content, trust_all,
}

-- A character that a basic string of TOML takes as it is.
abbrev pub is_bare : ℕ → Bool
is_bare c = leb 0x20 c && (not (c == b'"') && (not (c == b'\\') && not (c == 0x7f)))

abbrev pub IsBare : Text → Type 0
IsBare t = All (λ c. is_bare c ≡ true) t

abbrev pub ArePlain : Dict Text → Type 0
ArePlain policies = All (λ p. IsBare p.0 × IsBare p.1) policies

-- The patterns differ.
unfoldable pub distinct : Dict Text → Bool
distinct [] = true
distinct ((p, i) ∷ more) = let rest = distinct more in if Dict.has_key p more then false else rest

-- A policy's table in TOML: its name, quoted, and the two keys with their values.
unfoldable pub table : Text → Text → Text
unfolding unlines
table p i = unlines (
    []
    ∷ (codes "[policy." ++ (b'"' ∷ (p ++ codes "\"]")))
    ∷ (codes "identities = " ++ (codes "[\"" ++ (i ++ codes "\"]")))
    ∷ (codes "require_rekor = " ++ codes "true")
    ∷ [])

-- The file of these tables, in this order.
unfoldable pub document : Dict Text → Text
unfolding table
document [] = []
document ((p, i) ∷ more) = table p i ++ document more

-- What the code writes is that table.
policy_block-table : (p i : Text) → policy_block p i ≡ table p i
unfolding policy_block table unlines
policy_block-table p i = simp append_assoc

abbrev pub entry_for : Text → TrustPolicyEntry
entry_for identity = record { identities = identity ∷ []; require_rekor = some true }

unfoldable pub entries_of : Dict Text → TrustConfig
entries_of [] = []
entries_of ((p, i) ∷ more) = (p, entry_for i) ∷ entries_of more

-- What TOML says of such files: a table for each policy, by its name, and a file that has a table
-- twice is not valid.
pub record ReadsToml (from_str : Text → Option TrustConfig) : Type 0 where
  pub reads :
      (policies : Dict Text)
      → ArePlain policies
      → distinct policies ≡ true
      → (config : TrustConfig) × (from_str (document policies) ≡ some config)
        × ((p : Text) → Dict.lookup p config ≡ Dict.lookup p (entries_of policies))
  pub refuses :
      (policies : Dict Text)
      → ArePlain policies
      → distinct policies ≡ false
      → from_str (document policies) ≡ none

-- Nothing is in the way: there is a folder, and its file can be read and written.
pub record IsWritable (setting : Setting) : Type 0 where
  pub dir : Text
  pub has_dir : config_dir setting.env ≡ some dir
  pub makes : setting.make_dir ≡ true
  pub reads : setting.can_read ≡ true
  pub writes : setting.write_file ≡ done

has_key-append :
    (before after : Dict Text) (p i : Text) → Dict.has_key p (before ++ ((p, i) ∷ after)) ≡ true
unfolding Dict.lookup
has_key-append [] after p i = ground (arith, text_eq_refl p)
has_key-append ((q, j) ∷ before) after p i = ground (arith, has_key-append before after p i)

lookup-entries_of :
    (before after : Dict Text) (p i : Text)
    → distinct (before ++ ((p, i) ∷ after)) ≡ true
    → Dict.lookup p (entries_of (before ++ ((p, i) ∷ after))) ≡ some (entry_for i)
unfolding entries_of distinct Dict.lookup
lookup-entries_of [] after p i h = ground (arith, text_eq_refl p)
lookup-entries_of ((q, j) ∷ before) after p i h =
    ground
      (arith, text_eq_iff q p, has_key-append before after p i, lookup-entries_of before after p i)

append-ne-nil : (before after : Dict Text) (p i : Text) → before ++ ((p, i) ∷ after) ≢ []
append-ne-nil [] after p i e = absurd cc
append-ne-nil (q ∷ before) after p i e = absurd cc

distinct-ne-nil : (policies : Dict Text) → distinct policies ≡ false → policies ≢ []
unfolding distinct
distinct-ne-nil [] h e = absurd cc
distinct-ne-nil (p ∷ policies) h e = absurd cc

module _ (setting : Setting) (open_to : IsWritable setting) where
  trust-append :
      (p i : Text) (file : Option Text) (content : Text)
      → old_content setting file ≡ ok content
      → (trust setting p i file).1 ≡ some (content ++ table p i)
  unfolding trust append_policy write_trust
  trust-append p i file content old =
      rw (open_to.has_dir, open_to.makes, old, open_to.writes, policy_block-table p i) refl

  trust_all-some :
      (policies : Dict Text) (content : Text)
      → trust_all setting policies (some content) ≡ some (content ++ document policies)
  unfolding trust_all document
  trust_all-some [] content = ap some (sym (append-nil content))
  trust_all-some ((p, i) ∷ more) content =
      rw
        (trust-append p i (some content) content (rw (old_content, read_trust, open_to.reads) refl))
        (trust_all-some more (content ++ table p i)
          ∙ ap some (append_assoc content (table p i) (document more)))

  -- The file that the commands write where there was none.
  trust_all-document :
      (p i : Text) (more : Dict Text)
      → trust_all setting ((p, i) ∷ more) none ≡ some (document ((p, i) ∷ more))
  unfolding trust_all document
  trust_all-document p i more = rw (trust-append p i none [] refl) (trust_all-some more (table p i))

  trust_all-nonempty :
      (policies : Dict Text)
      → policies ≢ []
      → trust_all setting policies none ≡ some (document policies)
  trust_all-nonempty [] h = absurd (h refl)
  trust_all-nonempty ((p, i) ∷ more) h = trust_all-document p i more

  load-some :
      (content : Text)
      → load setting (some content) ≡ ok_or (setting.from_str content) (other "parsing trust.toml")
  unfolding load load_content read_trust
  load-some content = rw (open_to.has_dir, open_to.reads) refl

  -- Where nothing keeps the file from being written and read, and TOML is read as its documentation
  -- says: if there is no file at first and different patterns are trusted, each pattern and identity
  -- of characters that need no escape, then the file is read, and an app whose id is one of the
  -- patterns is given that pattern's policy, with its one identity and Rekor required.
  pub match_policy-trust_all :
      (reader : ReadsToml setting.from_str) (before after : Dict Text) (app_id identity : Text)
      → ArePlain (before ++ ((app_id, identity) ∷ after))
      → distinct (before ++ ((app_id, identity) ∷ after)) ≡ true
      → (config : TrustConfig) × (load setting
            (trust_all setting (before ++ ((app_id, identity) ∷ after)) none)
          ≡ ok config)
        × (match_policy config app_id ≡ some (app_id, entry_for identity))
  unfolding match_policy
  match_policy-trust_all reader before after app_id identity plain differ =
      let policies : Dict Text = before ++ ((app_id, identity) ∷ after) in
      let (config, parsed, agrees) = reader.reads policies plain differ in
      (
        config,
        rw (trust_all-nonempty policies (append-ne-nil before after app_id identity))
            (load-some (document policies) ∙ rw parsed refl),
        rw (match_policy, agrees app_id, lookup-entries_of before after app_id identity differ)
            refl,
      )

  -- Under the same conditions, but with a pattern that was trusted twice: the file is not read from
  -- then on, whichever other patterns are trusted before, between or after.
  pub load-trust_twice :
      (reader : ReadsToml setting.from_str) (policies : Dict Text)
      → ArePlain policies
      → distinct policies ≡ false
      → load setting (trust_all setting policies none) ≡ err (other "parsing trust.toml")
  load-trust_twice reader policies plain twice =
      rw (trust_all-nonempty policies (distinct-ne-nil policies twice))
        (load-some (document policies) ∙ rw (reader.refuses policies plain twice) refl)
