-- ===== src/Trust.antt =====
-- nexpack-core/src/signing.rs: `wildmatch` and `TrustConfig::match_policy`.
pub mod Wildcards
pub mod Policies
pub mod Config
use nexpack.Prelude.{
  ℕ, Bool, true, false, ◌||◌, Option, none, some, List, [], ◌∷◌, Text, utf8, length, ltb, ◌==◌,
  if◌then◌else◌,
}
use nexpack.Prelude.Dict
use nexpack.Prelude.Dict.{Dict}

-- The slice is not consumed by a `*`: the loop `for i in 0..=t.len()` tries every rest of the text.
unfoldable pub any_rest : (Text → Bool) → Text → Bool
any_rest f [] = f []
any_rest f (c ∷ t) = f (c ∷ t) || any_rest f t

unfoldable pub wildmatch_recursive : Text → Text → Bool
wildmatch_recursive [] [] = true
wildmatch_recursive [] (c ∷ t) = false
wildmatch_recursive (pc ∷ []) [] = pc == b'*'
wildmatch_recursive (pc ∷ q ∷ p) [] =
    if pc == b'*' then any_rest (wildmatch_recursive (q ∷ p)) [] else false
wildmatch_recursive (pc ∷ []) (tc ∷ t) =
    if pc == b'*' then true else if pc == tc || pc == b'?' then wildmatch_recursive [] t else false
wildmatch_recursive (pc ∷ q ∷ p) (tc ∷ t) =
    if pc == b'*'
    then any_rest (wildmatch_recursive (q ∷ p)) (tc ∷ t)
    else if pc == tc || pc == b'?'
    then wildmatch_recursive (q ∷ p) t
    else false

-- `pattern.chars().collect()` and `text.chars().collect()`
unfoldable pub wildmatch : Text → Text → Bool
wildmatch pattern text = wildmatch_recursive pattern text

pub record TrustPolicyEntry : Type 0 where
  pub identities : List Text
  pub require_rekor : Option Bool

-- `policy`, in the order in which the hash map is iterated.
abbrev pub TrustConfig : Type 0
TrustConfig = Dict TrustPolicyEntry

abbrev pub Best : Type 0
Best = Option (Text × TrustPolicyEntry)

-- The loop, with `best` and `best_len`.
unfoldable pub longest_match : Text → TrustConfig → Best → ℕ → Best
longest_match app_id [] best best_len = best
longest_match app_id ((pattern, entry) ∷ rest) best best_len =
    let better = longest_match app_id rest (some (pattern, entry)) (length (utf8 pattern)) in
    let same = longest_match app_id rest best best_len in
    if wildmatch pattern app_id
    then (if ltb best_len (length (utf8 pattern)) then better else same)
    else same

unfoldable pub match_policy : TrustConfig → Text → Best
match_policy policy app_id = elim (Dict.lookup app_id policy) [
  | some entry ↦ some (app_id, entry)
  | none ↦ longest_match app_id policy none 0
]
