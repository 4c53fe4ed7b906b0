-- ===== src/Tests/Toml.antt =====
-- A reader for the tables that `trust` writes, and for no more of TOML: what the parameter of
-- `Trust.Config` may be.
use nexpack.Prelude.{
  ℕ, zero, suc, ◌<◌, ◌≤◌, ◌≡◌, refl, ap, ◌∙◌, true, false, Option, none, some, [], ◌∷◌, ◌++◌,
  append_assoc, Text, codes, ◌==◌, length, length-append, strip_prefix, unlines, arith,
  if◌then◌else◌,
}
use nexpack.Prelude.Dict
use nexpack.Prelude.Dict.{Dict}
use nexpack.Trust.{TrustConfig}
use nexpack.Trust.Config.Trusted.{
  is_bare, IsBare, ArePlain, distinct, table, document, entry_for, entries_of, ReadsToml,
}

abbrev after_char : ℕ → Option (Text × Text) → Option (Text × Text)
after_char c none = none
after_char c (some (t, rest)) = some (c ∷ t, rest)

-- A basic string without escapes, from behind its first quote to behind its last.
until_quote : Text → Option (Text × Text)
until_quote [] = none
until_quote (c ∷ t) =
    let later = after_char c (until_quote t) in
    if c == b'"' then some ([], t) else if is_bare c then later else none

until_quote-append : (t rest : Text) → IsBare t → until_quote (t ++ (b'"' ∷ rest)) ≡ some (t, rest)
unfolding until_quote
until_quote-append [] rest h = refl
until_quote-append (c ∷ t) rest (here, there) = ground (arith, until_quote-append t rest there)

-- One table: its name, its identity, and what stands behind it.
read_block : Text → Option (Text × Text × Text)
read_block t = elim (strip_prefix (codes "\n[policy.\"") t) [
  | none ↦ none
  | some t1 ↦ elim (until_quote t1) [
    | none ↦ none
    | some (pattern, t2) ↦ elim (strip_prefix (codes "]\nidentities = [\"") t2) [
      | none ↦ none
      | some t3 ↦ elim (until_quote t3) [
        | none ↦ none
        | some (identity, t4) ↦ elim (strip_prefix (codes "]\nrequire_rekor = true\n") t4) [
          | none ↦ none
          | some t5 ↦ some (pattern, identity, t5)
        ]
      ]
    ]
  ]
]

block-regroup :
    (p i rest : Text)
    → table p i ++ rest
      ≡ codes "\n[policy.\""
        ++ (p
            ++ (b'"'
                ∷ (codes "]\nidentities = [\""
                    ++ (i ++ (b'"' ∷ (codes "]\nrequire_rekor = true\n" ++ rest))))))
unfolding table unlines
block-regroup p i rest = simp append_assoc

read_block-table :
    (p i rest : Text) → IsBare p → IsBare i → read_block (table p i ++ rest) ≡ some (p, i, rest)
unfolding read_block strip_prefix
read_block-table p i rest hp hi =
    let behind_i : Text = codes "]\nrequire_rekor = true\n" ++ rest in
    let behind_p : Text = codes "]\nidentities = [\"" ++ (i ++ (b'"' ∷ behind_i)) in
    rw
      (
        block-regroup p i rest,
        read_block,
        until_quote-append p behind_p hp,
        until_quote-append i behind_i hi,
      )
      refl

abbrev add_table : Text → Text → Option TrustConfig → Option TrustConfig
add_table p i none = none
add_table p i (some config) =
    if Dict.has_key p config then none else some ((p, entry_for i) ∷ config)

abbrev with_table : (Text → Option TrustConfig) → Option (Text × Text × Text) → Option TrustConfig
with_table later none = none
with_table later (some (p, i, rest)) = add_table p i (later rest)

-- The tables, as many as the fuel allows, to the end of the file.
read_blocks : ℕ → Text → Option TrustConfig
unfolding read_block
read_blocks zero t = none
read_blocks (suc n) [] = some []
read_blocks (suc n) (c ∷ t) = with_table (read_blocks n) (read_block (c ∷ t))

pub toml : Text → Option TrustConfig
unfolding read_blocks
toml t = read_blocks (suc (length t)) t

expected : Dict Text → Option TrustConfig
expected [] = some []
expected ((p, i) ∷ more) = add_table p i (expected more)

read_blocks-document :
    (n : ℕ) (policies : Dict Text)
    → length policies < n
    → ArePlain policies
    → read_blocks n (document policies) ≡ expected policies
unfolding expected document read_blocks table
read_blocks-document zero policies h plain = absurd (omega arith)
read_blocks-document (suc n) [] h plain = refl
read_blocks-document (suc n) ((p, i) ∷ more) h ((hp, hi), there) =
    ap (with_table (read_blocks n)) (read_block-table p i (document more) hp hi)
    ∙ ap (add_table p i) (read_blocks-document n more (omega arith) there)

length-document : (policies : Dict Text) → length policies ≤ length (document policies)
unfolding document table
length-document [] = omega arith
length-document ((p, i) ∷ more) =
    omega (arith, length-document more, length-append (table p i) (document more))

has_key-entries_of :
    (p : Text) (policies : Dict Text)
    → Dict.has_key p (entries_of policies) ≡ Dict.has_key p policies
unfolding entries_of Dict.lookup
has_key-entries_of p [] = refl
has_key-entries_of p ((q, i) ∷ more) = ground (arith, has_key-entries_of p more)

expected-distinct :
    (policies : Dict Text)
    → distinct policies ≡ true
    → expected policies ≡ some (entries_of policies)
unfolding expected distinct entries_of
expected-distinct [] h = refl
expected-distinct ((p, i) ∷ more) h =
    ground (arith, expected-distinct more, has_key-entries_of p more)

expected-repeated : (policies : Dict Text) → distinct policies ≡ false → expected policies ≡ none
unfolding expected distinct
expected-repeated [] h = absurd cc
expected-repeated ((p, i) ∷ more) h =
    ground (arith, expected-distinct more, expected-repeated more, has_key-entries_of p more)

toml-document :
    (policies : Dict Text) → ArePlain policies → toml (document policies) ≡ expected policies
unfolding toml
toml-document policies plain =
    read_blocks-document (suc (length (document policies))) policies
      (omega (arith, length-document policies)) plain

pub toml-ReadsToml : ReadsToml toml
toml-ReadsToml = record {
  reads = λ policies plain differ. (
    entries_of policies,
    toml-document policies plain ∙ expected-distinct policies differ,
    λ p. refl,
  );
  refuses = λ policies plain twice. toml-document policies plain ∙ expected-repeated policies twice;
}
