-- ===== src/Overlay/Lower.antt =====
-- The order of the layers in an overlay, as the kernel and fuse-overlayfs read `lowerdir`: folders
-- between colons, of which the one further left lies above.
use nexpack.Prelude.{
  ◌≡◌, refl, ap, ◌∙◌, Bool, Bool-cases, inl, inr, true, false, ◌==◌, Option, none, some, List, [],
  ◌∷◌, ◌++◌, Text, All, if◌then◌else◌,
}
use nexpack.Overlay.{join_colons, rev, lowerdir}

-- The pieces of a text between its colons; a text has at least one.
abbrev push_char : Bool → Text → List Text → List Text
push_char true c pieces = [] ∷ pieces
push_char false c [] = c ∷ []
push_char false c (p ∷ pieces) = (c ++ p) ∷ pieces

unfoldable pub split_colons : Text → List Text
split_colons [] = [] ∷ []
split_colons (c ∷ t) = push_char (c == b':') (c ∷ []) (split_colons t)

-- The first of the folders that has a file, and the last.
unfoldable pub first_with : (Text → Bool) → List Text → Option Text
first_with has [] = none
first_with has (d ∷ dirs) = if has d then some d else first_with has dirs

unfoldable pub last_with : (Text → Bool) → List Text → Option Text
last_with has [] = none
last_with has (d ∷ dirs) = elim (last_with has dirs) [
  | some found ↦ some found
  | none ↦ if has d then some d else none
]

abbrev pub HasNoColon : Text → Type 0
HasNoColon t = All (λ c. (c == b':') ≡ false) t

split_colons-one : (p : Text) → HasNoColon p → split_colons p ≡ p ∷ []
unfolding split_colons
split_colons-one [] h = refl
split_colons-one (c ∷ p) (here, there) = rw (here, split_colons-one p there) refl

split_colons-append :
    (p t : Text) → HasNoColon p → split_colons (p ++ (b':' ∷ t)) ≡ p ∷ split_colons t
unfolding split_colons
split_colons-append [] t h = refl
split_colons-append (c ∷ p) t (here, there) = rw (here, split_colons-append p t there) refl

split_colons-join_colons :
    (p : Text) (paths : List Text)
    → All HasNoColon (p ∷ paths)
    → split_colons (join_colons (p ∷ paths)) ≡ p ∷ paths
unfolding join_colons
split_colons-join_colons p [] (h, _) = split_colons-one p h
split_colons-join_colons p (q ∷ paths) (here, there) =
    split_colons-append p (join_colons (q ∷ paths)) here
    ∙ ap (λ l. p ∷ l) (split_colons-join_colons q paths there)

first_with-split :
    (has : Text → Bool) (paths : List Text)
    → All HasNoColon paths
    → has [] ≡ false
    → first_with has (split_colons (join_colons paths)) ≡ first_with has paths
first_with-split has [] h e = unfold first_with split_colons join_colons in rw e refl
first_with-split has (p ∷ paths) h e = ap (first_with has) (split_colons-join_colons p paths h)

All-snoc :
    (paths : List Text) (p : Text)
    → All HasNoColon paths
    → HasNoColon p
    → All HasNoColon (paths ++ (p ∷ []))
All-snoc [] p h hp = (hp, tt)
All-snoc (q ∷ paths) p (here, there) hp = (here, All-snoc paths p there hp)

All-rev : (paths : List Text) → All HasNoColon paths → All HasNoColon (rev paths)
unfolding rev
All-rev [] h = tt
All-rev (p ∷ paths) (here, there) = All-snoc (rev paths) p (All-rev paths there) here

first_with-snoc :
    (has : Text → Bool) (paths : List Text) (p : Text)
    → first_with has (paths ++ (p ∷ [])) ≡ (elim (first_with has paths) as (λ _. Option Text) [
      | some found ↦ some found
      | none ↦ if has p then some p else none
    ])
unfolding first_with
first_with-snoc has [] p = refl
first_with-snoc has (q ∷ paths) p = elim (Bool-cases (has q)) [
  | inl here ↦ rw here refl
  | inr not_here ↦ rw not_here (first_with-snoc has paths p)
]

first_with-rev :
    (has : Text → Bool) (paths : List Text) → first_with has (rev paths) ≡ last_with has paths
unfolding rev first_with last_with
first_with-rev has [] = refl
first_with-rev has (p ∷ paths) =
    first_with-snoc has (rev paths) p
    ∙ ap
        (λ (o : Option Text). elim o as (λ _. Option Text) [
          | some found ↦ some found
          | none ↦ if has p then some p else none
        ])
        (first_with-rev has paths)

-- If no mount point has a colon in it (and the empty path has no file), the folder that the overlay
-- takes a file from is the last of the layers' folders that has it.
pub lowerdir_last_wins :
    (has : Text → Bool) (lower_dirs : List Text)
    → All HasNoColon lower_dirs
    → has [] ≡ false
    → first_with has (split_colons (lowerdir lower_dirs)) ≡ last_with has lower_dirs
unfolding lowerdir
lowerdir_last_wins has lower_dirs h e =
    first_with-split has (rev lower_dirs) (All-rev lower_dirs h) e ∙ first_with-rev has lower_dirs
