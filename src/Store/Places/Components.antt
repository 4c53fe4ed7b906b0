-- ===== src/Store/Places/Components.antt =====
-- The components of a path, as the kernel reads it, and those of a path that was joined.
use nexpack.Prelude.{
  ℕ, ◌≡◌, refl, ap, ◌∙◌, false, ◌==◌, ==_iff, Option, some, none, List, [], ◌∷◌, ◌++◌, Bool-cases,
  inl, inr, last?, Text, codes, text_eq, arith, if◌then◌else◌,
}
use nexpack.Paths.{join, starts_at_root, separator}

-- A component that is complete, unless it is empty.
abbrev pub keep : Text → List Text → List Text
keep [] rest = rest
keep (c ∷ t) rest = (c ∷ t) ∷ rest

-- The components of a path, the first of them begun.
unfoldable pub components_from : Text → Text → List Text
components_from acc [] = keep acc []
components_from acc (c ∷ t) =
    let next = keep acc (components_from [] t) in
    let same = components_from (acc ++ (c ∷ [])) t in if c == b'/' then next else same

unfoldable pub components : Text → List Text
unfolding components_from
components t = components_from [] t

-- A text that names a file in a folder.
abbrev pub IsName : Text → Type 0
IsName t = (components t ≡ t ∷ []) × (starts_at_root t ≡ false) × (text_eq t (codes "..") ≡ false)

keep-append : (acc : Text) (xs ys : List Text) → keep acc (xs ++ ys) ≡ keep acc xs ++ ys
keep-append [] xs ys = refl
keep-append (c ∷ t) xs ys = refl

-- A path and one below it, with a slash between them.
components_from-slash :
    (s acc t : Text)
    → components_from acc (s ++ (b'/' ∷ t)) ≡ components_from acc s ++ components_from [] t
unfolding components_from
components_from-slash [] acc t = keep-append acc [] (components_from [] t)
components_from-slash (c ∷ s) acc t = ground (
  arith,
  components_from-slash s [] t,
  components_from-slash s (acc ++ (c ∷ [])) t,
  keep-append acc (components_from [] s) (components_from [] t),
)

-- The same where the first one ends in a slash.
components_from-closed :
    (s acc t : Text)
    → last? s ≡ some b'/'
    → components_from acc (s ++ t) ≡ components_from acc s ++ components_from [] t
unfolding components_from
components_from-closed [] acc t h = absurd cc
components_from-closed (c ∷ []) acc t h = ground (arith, keep-append acc [] (components_from [] t))
components_from-closed (c ∷ d ∷ s) acc t h = ground (
  arith,
  components_from-closed (d ∷ s) [] t h,
  components_from-closed (d ∷ s) (acc ++ (c ∷ [])) t h,
  keep-append acc (components_from [] (d ∷ s)) (components_from [] t),
)

last?-cons : (c : ℕ) (s : Text) → (d : ℕ) × (last? (c ∷ s) ≡ some d)
last?-cons c [] = (c, refl)
last?-cons c (d ∷ s) = last?-cons d s

separator-last :
    (dir : Text) (d : ℕ)
    → last? dir ≡ some d
    → separator dir ≡ (if d == b'/' then [] else b'/' ∷ [])
separator-last dir d ends =
    ap (λ (o : Option ℕ). elim o [ none ↦ [] | some c ↦ if c == b'/' then [] else b'/' ∷ [] ]) ends

components-joined :
    (dir name : Text) (d : ℕ)
    → last? dir ≡ some d
    → components (dir ++ (separator dir ++ name)) ≡ components dir ++ components name
unfolding components
components-joined dir name d ends = elim (Bool-cases (d == b'/')) [
  | inl slash ↦
      rw (separator-last dir d ends, slash)
        (components_from-closed dir [] name (ends ∙ ap some ((==_iff d b'/').0 slash)))
  | inr no_slash ↦ rw (separator-last dir d ends, no_slash) (components_from-slash dir [] name)
]

pub components-join :
    (dir name : Text)
    → starts_at_root name ≡ false
    → components (join dir name) ≡ components dir ++ components name
unfolding components join
components-join [] name h = rw h refl
components-join (c ∷ dir) name h =
    let (d, ends) = last?-cons c dir in rw h (components-joined (c ∷ dir) name d ends)

-- A file's name below a folder.
pub components-name :
    (dir name : Text) → IsName name → components (join dir name) ≡ components dir ++ (name ∷ [])
components-name dir name (one, relative, _) =
    components-join dir name relative ∙ ap (λ l. components dir ++ l) one
