-- ===== src/Sandbox/Expand.antt =====
-- `shellexpand` of nexpackd/src/sandbox.rs. The two loops over `chars[i]` are one walk, in a mode:
-- outside of a name, or inside the name that a `$` began.
use nexpack.Prelude.{
  ℕ, ◌≡◌, refl, ap, ◌∙◌, Bool, true, false, ◌&&◌, ◌||◌, Option, none, some, [], ◌∷◌, ◌++◌,
  append_assoc, append-nil, Text, codes, All, arith, ◌==◌, if◌then◌else◌,
}

-- `std::env::var(..).ok()`, `Path::new(..).exists()` and `char::is_alphanumeric`.
pub record Env : Type 0 where
  pub var : Text → Option Text
  pub exists : Text → Bool
  pub is_alphanumeric : ℕ → Bool

-- `if let Ok(val) = std::env::var(name) { out.push_str(&val) }`
abbrev pub value_of : Env → Text → Text
value_of env name = elim (env.var name) [ none ↦ [] | some val ↦ val ]

-- `i + 1 >= chars.len() || chars[i + 1] == '/'`
abbrev pub ends_or_slash : Text → Bool
ends_or_slash [] = true
ends_or_slash (c ∷ s) = c == b'/'

abbrev pub is_name_char : Env → ℕ → Bool
is_name_char env c = env.is_alphanumeric c || c == b'_'

unfoldable pub expand : Env → Option Text → Text → Text
expand env none [] = []
expand env (some name) [] = value_of env name
expand env none (c ∷ s) =
    let plain = expand env none s in
    let dollar = expand env (some []) s in
    if c == b'~' && ends_or_slash s
    then value_of env (codes "HOME") ++ plain
    else if c == b'$'
    then dollar
    else c ∷ plain
expand env (some name) (c ∷ s) =
    let longer = expand env (some (name ++ (c ∷ []))) s in
    let plain = expand env none s in
    let dollar = expand env (some []) s in
    if is_name_char env c
    then longer
    else value_of env name
      ++ (if c == b'~' && ends_or_slash s
          then value_of env (codes "HOME") ++ plain
          else if c == b'$'
          then dollar
          else c ∷ plain)

unfoldable pub shellexpand : Env → Text → Text
unfolding expand
shellexpand env s = expand env none s

-- A character that stands for itself.
abbrev pub IsPlain : ℕ → Type 0
IsPlain c = ((c == b'~') ≡ false) × ((c == b'$') ≡ false)

abbrev pub IsName : Env → ℕ → Type 0
IsName env c = is_name_char env c ≡ true

module _ (env : Env) where
  expand-plain :
      (s rest : Text) → All IsPlain s → expand env none (s ++ rest) ≡ s ++ expand env none rest
  unfolding expand
  expand-plain [] rest h = refl
  expand-plain (c ∷ s) rest h = ground (arith, expand-plain s rest h.1)

  expand-name :
      (acc name : Text) (rest : Text)
      → All (IsName env) name
      → is_name_char env b'/' ≡ false
      → expand env (some acc) (name ++ (b'/' ∷ rest))
        ≡ value_of env (acc ++ name) ++ (b'/' ∷ expand env none rest)
  unfolding expand
  expand-name acc [] rest h slash = rw append-nil (ground arith)
  expand-name acc (c ∷ name) rest h slash =
      ground
        (arith, expand-name (acc ++ (c ∷ [])) name rest h.1 slash, append_assoc acc (c ∷ []) name)

  -- A text without `~` and `$` is left as it is, and a variable between such a text and a slash is
  -- replaced by its value (by nothing, if it is not set), whatever follows the slash.
  pub shellexpand_var :
      (s name rest : Text)
      → All IsPlain s
      → All (IsName env) name
      → is_name_char env b'/' ≡ false
      → shellexpand env (s ++ (b'$' ∷ name ++ (b'/' ∷ rest)))
        ≡ s ++ (value_of env name ++ (b'/' ∷ shellexpand env rest))
  unfolding shellexpand
  shellexpand_var s name rest hs hn slash =
      expand-plain s _ hs ∙ ap (λ t. s ++ t) (expand-name [] name rest hn slash)

  -- `~` before a slash is the home directory.
  pub shellexpand_home :
      (rest : Text)
      → shellexpand env (b'~' ∷ b'/' ∷ rest)
        ≡ value_of env (codes "HOME") ++ (b'/' ∷ shellexpand env rest)
  unfolding shellexpand
  shellexpand_home rest = refl
