-- ===== src/Prelude/Sorting.antt =====
-- `sort` of texts and `sort_by` of things with a name: stable, so an insertion sort. Rust compares the
-- UTF-8 bytes, whose order is that of the code points.
use mathlib.Core.Path.{◌≡◌, refl}
use mathlib.Core.Logic.{◌⊎◌, inl, inr}
use mathlib.Core.Bool.{Bool, true, false, ◌||◌, ◌&&◌}
use mathlib.Core.List.{List, [], ◌∷◌, Perm}
use mathlib.Core.List.Perm
use native.Mathlib.Omega.{arith}
use nexpack.Prelude.Tests.{ltb, ◌==◌, Bool-cases, if◌then◌else◌}
use nexpack.Prelude.Texts.{Text}

unfoldable pub text_le : Text → Text → Bool
text_le [] t = true
text_le (a ∷ s) [] = false
text_le (a ∷ s) (b ∷ t) = ltb a b || (a == b && text_le s t)

pub text_le-total : (s t : Text) → (text_le s t ≡ true) ⊎ (text_le t s ≡ true)
unfolding text_le
text_le-total [] t = inl refl
text_le-total (a ∷ s) [] = inr refl
text_le-total (a ∷ s) (b ∷ t) = ground (arith, text_le-total s t)

module _ {ℓ} {A : Type ℓ} (key : A → Text) where
  unfoldable pub insert_sorted : A → List A → List A
  insert_sorted x [] = x ∷ []
  insert_sorted x (y ∷ ys) =
      let rest = insert_sorted x ys in if text_le (key x) (key y) then x ∷ y ∷ ys else y ∷ rest

  unfoldable pub sort_by : List A → List A
  unfolding insert_sorted
  sort_by [] = []
  sort_by (x ∷ xs) = insert_sorted x (sort_by xs)

  -- Each thing is at most the one behind it.
  abbrev pub IsSorted : List A → Type 0
  IsSorted [] = Unit
  IsSorted (x ∷ []) = Unit
  IsSorted (x ∷ y ∷ ys) = (text_le (key x) (key y) ≡ true) × IsSorted (y ∷ ys)

  insert_sorted-Perm : (x : A) (xs : List A) → Perm (insert_sorted x xs) (x ∷ xs)
  unfolding insert_sorted
  insert_sorted-Perm x [] = Perm.refl (x ∷ [])
  insert_sorted-Perm x (y ∷ ys) =
      let rest = insert_sorted-Perm x ys in
      elim (Bool-cases (text_le (key x) (key y))) [
        | inl here ↦ rw here (Perm.refl (x ∷ y ∷ ys))
        | inr later ↦ rw later (Perm.trans (Perm.cons y rest) (Perm.swap x y ys))
      ]

  sort_by-Perm : (xs : List A) → Perm (sort_by xs) xs
  unfolding sort_by
  sort_by-Perm [] = Perm.refl []
  sort_by-Perm (x ∷ xs) =
      Perm.trans (insert_sorted-Perm x (sort_by xs)) (Perm.cons x (sort_by-Perm xs))

  -- What is not before `x` has `x` or what was behind it, behind it.
  insert_behind :
      (x y : A) (ys : List A)
      → text_le (key y) (key x) ≡ true
      → IsSorted (y ∷ ys)
      → IsSorted (y ∷ insert_sorted x ys)
  unfolding insert_sorted
  insert_behind x y [] h sorted = (h, tt)
  insert_behind x y (z ∷ ys) h (first, rest) = elim (Bool-cases (text_le (key x) (key z))) [
    | inl here ↦ rw here (h, (here, rest))
    | inr later ↦
        let after : text_le (key z) (key x) ≡ true = elim (text_le-total (key x) (key z)) [
          | inl e ↦ absurd (let e' = e in cc)
          | inr e ↦ e
        ] in
        rw later (first, insert_behind x z ys after rest)
  ]

  insert_sorted-IsSorted : (x : A) (xs : List A) → IsSorted xs → IsSorted (insert_sorted x xs)
  unfolding insert_sorted
  insert_sorted-IsSorted x [] sorted = tt
  insert_sorted-IsSorted x (y ∷ ys) sorted = elim (Bool-cases (text_le (key x) (key y))) [
    | inl here ↦ rw here (here, sorted)
    | inr later ↦
        let after : text_le (key y) (key x) ≡ true = elim (text_le-total (key x) (key y)) [
          | inl e ↦ absurd cc
          | inr e ↦ e
        ] in
        rw later (insert_behind x y ys after sorted)
  ]

  sort_by-IsSorted : (xs : List A) → IsSorted (sort_by xs)
  unfolding sort_by
  sort_by-IsSorted [] = tt
  sort_by-IsSorted (x ∷ xs) = insert_sorted-IsSorted x (sort_by xs) (sort_by-IsSorted xs)

  -- Sorted, and the same things.
  pub sort_by_lem : (xs : List A) → IsSorted (sort_by xs) × Perm (sort_by xs) xs
  sort_by_lem xs = (sort_by-IsSorted xs, sort_by-Perm xs)
