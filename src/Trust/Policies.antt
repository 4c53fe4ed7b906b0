-- ===== src/Trust/Policies.antt =====
-- `match_policy` picks the policy of the app itself, or else the longest pattern that matches it.
use nexpack.Prelude.{
  ℕ, ◌≤◌, ◌<◌, ◌≡◌, refl, true, false, ◌&&◌, Bool-cases, inl, inr, ◌⊎◌, Option-cases, none, some,
  [], ◌∷◌, Text, utf8, length, All, arith, ltb,
}
use nexpack.Prelude.Dict
use nexpack.Trust.{wildmatch, TrustPolicyEntry, TrustConfig, Best, longest_match, match_policy}

-- A pattern's length in bytes, as `len()` gives it.
abbrev pub byte_len : Text → ℕ
byte_len pattern = length (utf8 pattern)

-- Of the patterns before this point none that matches is longer than `n` bytes.
abbrev pub NoneLonger : Text → ℕ → TrustConfig → Type 0
NoneLonger app_id n =
    All (λ (p : Text × TrustPolicyEntry). wildmatch p.0 app_id ≡ true → byte_len p.0 ≤ n)

-- The chosen entry stands in the configuration and matches.
abbrev pub IsChosen : Text → TrustConfig → Text × TrustPolicyEntry → Type 0
IsChosen app_id [] best = ⊥
IsChosen app_id (p ∷ rest) best =
    ((p ≡ best) × (wildmatch p.0 app_id ≡ true)) ⊎ IsChosen app_id rest best

-- What the loop has found after the patterns of `policy`, when it began with `best`.
abbrev pub Found : Text → TrustConfig → Best → ℕ → Best → Type 0
Found app_id policy best n r =
    ((r ≡ best) × NoneLonger app_id n policy)
    ⊎ ((p : Text × TrustPolicyEntry) × (r ≡ some p)
        × IsChosen app_id policy p
        × (n < byte_len p.0)
        × NoneLonger app_id (byte_len p.0) policy)

-- A pattern that is passed over.
skip_pattern :
    (app_id pattern : Text) (e : TrustPolicyEntry) (policy : TrustConfig) (best : Best) (n : ℕ)
    (r : Best)
    → (wildmatch pattern app_id ≡ true → byte_len pattern ≤ n)
    → Found app_id policy best n r
    → Found app_id ((pattern, e) ∷ policy) best n r
skip_pattern app_id pattern e policy best n r short (inl (eq, none_longer)) =
    inl (eq, (short, none_longer))
skip_pattern app_id pattern e policy best n r short (inr (p, eq, chosen, longer, none_longer)) =
    inr (p, eq, inr chosen, longer, (λ h. let le = short h in omega arith, none_longer))

-- A pattern that becomes the best so far.
take_pattern :
    (app_id pattern : Text) (e : TrustPolicyEntry) (policy : TrustConfig) (best : Best) (n : ℕ)
    (r : Best)
    → wildmatch pattern app_id ≡ true
    → n < byte_len pattern
    → Found app_id policy (some (pattern, e)) (byte_len pattern) r
    → Found app_id ((pattern, e) ∷ policy) best n r
take_pattern app_id pattern e policy best n r fits longer (inl (eq, none_longer)) =
    inr ((pattern, e), eq, inl (refl, fits), longer, (λ _. omega arith, none_longer))
take_pattern app_id pattern e policy best n r fits longer (inr (p, eq, chosen, more, none_longer)) =
    inr (p, eq, inr chosen, omega arith, (λ _. omega arith, none_longer))

module _ (app_id pattern : Text) (e : TrustPolicyEntry) (rest : TrustConfig) (best : Best)
    (n : ℕ) where
  longest_match_skip :
      (wildmatch pattern app_id && ltb n (byte_len pattern)) ≡ false
      → longest_match app_id ((pattern, e) ∷ rest) best n ≡ longest_match app_id rest best n
  unfolding longest_match
  longest_match_skip h = ground arith

  longest_match_take :
      wildmatch pattern app_id ≡ true
      → ltb n (byte_len pattern) ≡ true
      → longest_match app_id ((pattern, e) ∷ rest) best n
        ≡ longest_match app_id rest (some (pattern, e)) (byte_len pattern)
  unfolding longest_match
  longest_match_take on longer = ground arith

longest_match-nil : (app_id : Text) (best : Best) (n : ℕ) → longest_match app_id [] best n ≡ best
unfolding longest_match
longest_match-nil app_id best n = refl

longest_match-Found :
    (app_id : Text) (policy : TrustConfig) (best : Best) (n : ℕ)
    → Found app_id policy best n (longest_match app_id policy best n)
longest_match-Found app_id [] best n = inl (longest_match-nil app_id best n, tt)
longest_match-Found app_id ((pattern, e) ∷ rest) best n =
    elim (Bool-cases (wildmatch pattern app_id && ltb n (byte_len pattern))) [
      | inr off ↦ rw (longest_match_skip app_id pattern e rest best n off) (
          skip_pattern app_id pattern e rest best n _ (λ on. ground arith)
            (longest_match-Found app_id rest best n))
      | inl both ↦
          let on : wildmatch pattern app_id ≡ true = ground arith in
          let longer : ltb n (byte_len pattern) ≡ true = ground arith in
          rw (longest_match_take app_id pattern e rest best n on longer) (
            take_pattern app_id pattern e rest best n _ on (ground arith)
              (longest_match-Found app_id rest (some (pattern, e)) (byte_len pattern)))
    ]

module _ (policy : TrustConfig) (app_id : Text) where
  match_policy_own :
      (e : TrustPolicyEntry)
      → Dict.lookup app_id policy ≡ some e
      → match_policy policy app_id ≡ some (app_id, e)
  unfolding match_policy
  match_policy_own e present = rw (match_policy, present)

  match_policy_pattern :
      Dict.lookup app_id policy ≡ none
      → match_policy policy app_id ≡ longest_match app_id policy none 0
  unfolding match_policy
  match_policy_pattern absent = rw (match_policy, absent)

  -- The policy that stands under the app's own name is picked. If there is none, the answer is a
  -- pattern of the configuration that matches and has a positive length, and no pattern that
  -- matches is longer; or there is no answer, and no pattern of positive length matches.
  pub match_policy_picks :
      ((e : TrustPolicyEntry) × (Dict.lookup app_id policy ≡ some e)
        × (match_policy policy app_id ≡ some (app_id, e)))
      ⊎ ((Dict.lookup app_id policy ≡ none)
          × Found app_id policy none 0 (match_policy policy app_id))
  match_policy_picks = elim (Option-cases (Dict.lookup app_id policy)) [
    | inl absent ↦
        inr (absent, rw (match_policy_pattern absent) (longest_match-Found app_id policy none 0))
    | inr (e, present) ↦ inl (e, present, match_policy_own e present)
  ]
