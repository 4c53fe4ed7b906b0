-- ===== src/Trust/Wildcards.antt =====
-- `wildmatch` decides whether a text has the shape of a pattern.
use nexpack.Prelude.{
  ℕ, ◌≡◌, refl, ◌↔◌, Bool, true, false, ◌||◌, Bool-cases, inl, inr, [], ◌∷◌, Text, arith, ◌==◌,
  ==_iff,
}
use nexpack.Trust.{any_rest, wildmatch_recursive, wildmatch}

-- `*` stands for any characters, `?` for one, and every other character for itself.
pub data Matches : Text → Text → Type 0 where
  done : Matches [] []
  skip : {s : ℕ} {p t : Text} → s ≡ b'*' → Matches p t → Matches (s ∷ p) t
  take : {s c : ℕ} {p t : Text} → s ≡ b'*' → Matches (s ∷ p) t → Matches (s ∷ p) (c ∷ t)
  one : {s c : ℕ} {p t : Text} → s ≡ b'?' → Matches p t → Matches (s ∷ p) (c ∷ t)
  same : {s c : ℕ} {p t : Text} → s ≡ c → Matches p t → Matches (s ∷ p) (c ∷ t)

any_rest-Matches :
    (s : ℕ) (p t : Text)
    → s ≡ b'*'
    → ((u : Text) → wildmatch_recursive p u ≡ true → Matches p u)
    → any_rest (wildmatch_recursive p) t ≡ true
    → Matches (s ∷ p) t
unfolding any_rest
any_rest-Matches s p [] star ih h = skip star (ih [] h)
any_rest-Matches s p (c ∷ t) star ih h = elim (Bool-cases (wildmatch_recursive p (c ∷ t))) [
  | inl here ↦ skip star (ih (c ∷ t) here)
  | inr later ↦ take star (any_rest-Matches s p t star ih (ground arith))
]

star_all : (s : ℕ) (t : Text) → s ≡ b'*' → Matches (s ∷ []) t
star_all s [] e = skip e done
star_all s (c ∷ t) e = take e (star_all s t e)

step_sound :
    (s c : ℕ) (p t : Text) → (s == c || s == b'?') ≡ true → Matches p t → Matches (s ∷ p) (c ∷ t)
step_sound s c p t h d = elim (Bool-cases (s == c)) [
  | inl eq ↦ same ((==_iff s c).0 eq) d
  | inr ne ↦ one ((==_iff s b'?').0 (ground arith)) d
]

wildmatch_sound : (p t : Text) → wildmatch_recursive p t ≡ true → Matches p t
unfolding wildmatch_recursive
wildmatch_sound [] [] h = done
wildmatch_sound [] (c ∷ t) h = cc
wildmatch_sound (s ∷ []) [] h = skip ((==_iff s b'*').0 h) done
wildmatch_sound (s ∷ q ∷ p) [] h = elim (Bool-cases (s == b'*')) [
  | inl star ↦
      any_rest-Matches s (q ∷ p) [] ((==_iff s b'*').0 star) (wildmatch_sound (q ∷ p))
        (ground arith)
  | inr plain ↦ absurd (ground arith)
]
wildmatch_sound (s ∷ []) (c ∷ t) h = elim (Bool-cases (s == b'*')) [
  | inl star ↦ star_all s (c ∷ t) ((==_iff s b'*').0 star)
  | inr plain ↦ step_sound s c [] t (ground arith) (wildmatch_sound [] t (ground arith))
]
wildmatch_sound (s ∷ q ∷ p) (c ∷ t) h = elim (Bool-cases (s == b'*')) [
  | inl star ↦
      any_rest-Matches s (q ∷ p) (c ∷ t) ((==_iff s b'*').0 star) (wildmatch_sound (q ∷ p))
        (ground arith)
  | inr plain ↦ step_sound s c (q ∷ p) t (ground arith) (wildmatch_sound (q ∷ p) t (ground arith))
]

any_rest_here : (f : Text → Bool) (t : Text) → f t ≡ true → any_rest f t ≡ true
unfolding any_rest
any_rest_here f [] h = h
any_rest_here f (c ∷ t) h = ground arith

any_rest_later :
    (f : Text → Bool) (c : ℕ) (t : Text) → any_rest f t ≡ true → any_rest f (c ∷ t) ≡ true
unfolding any_rest
any_rest_later f c t h = ground arith

any_rest_nil : (t : Text) → any_rest (wildmatch_recursive []) t ≡ true
unfolding any_rest wildmatch_recursive
any_rest_nil [] = refl
any_rest_nil (c ∷ t) = any_rest_nil t

-- At a `*` the matcher tries every rest, also where the `*` is the last character.
star_lem :
    (s : ℕ) (p t : Text)
    → s ≡ b'*'
    → wildmatch_recursive (s ∷ p) t ≡ any_rest (wildmatch_recursive p) t
star_lem s [] [] e = rw (any_rest_nil []) (unfold wildmatch_recursive in ground arith)
star_lem s [] (c ∷ t) e = rw (any_rest_nil (c ∷ t)) (unfold wildmatch_recursive in ground arith)
star_lem s (q ∷ p) [] e = unfold wildmatch_recursive in ground arith
star_lem s (q ∷ p) (c ∷ t) e = unfold wildmatch_recursive in ground arith

plain_case :
    (s c : ℕ) (p t : Text)
    → (s == b'*') ≡ false
    → (s == c || s == b'?') ≡ true
    → wildmatch_recursive p t ≡ true
    → wildmatch_recursive (s ∷ p) (c ∷ t) ≡ true
unfolding wildmatch_recursive
plain_case s c [] t plain fits h = ground arith
plain_case s c (q ∷ p) t plain fits h = ground arith

plain_step :
    (s c : ℕ) (p t : Text)
    → (s == c || s == b'?') ≡ true
    → wildmatch_recursive p t ≡ true
    → wildmatch_recursive (s ∷ p) (c ∷ t) ≡ true
plain_step s c p t fits h = elim (Bool-cases (s == b'*')) [
  | inl star ↦
      rw (star_lem s p (c ∷ t) ((==_iff s b'*').0 star))
        (any_rest_later (wildmatch_recursive p) c t (any_rest_here (wildmatch_recursive p) t h))
  | inr plain ↦ plain_case s c p t plain fits h
]

wildmatch_complete : {p t : Text} → Matches p t → wildmatch_recursive p t ≡ true
wildmatch_complete done = unfold wildmatch_recursive in refl
wildmatch_complete (skip {s = s} {p = p} {t = t} e d) =
    rw (star_lem s p t e) (any_rest_here (wildmatch_recursive p) t (wildmatch_complete d))
wildmatch_complete (take {s = s} {c = c} {p = p} {t = t} e d) =
    rw (star_lem s p (c ∷ t) e)
      (any_rest_later (wildmatch_recursive p) c t (rw (star_lem s p t e) at (wildmatch_complete d)))
wildmatch_complete (one {s = s} {c = c} {p = p} {t = t} e d) =
    plain_step s c p t (ground arith) (wildmatch_complete d)
wildmatch_complete (same {s = s} {c = c} {p = p} {t = t} e d) =
    plain_step s c p t (ground arith) (wildmatch_complete d)

-- The matcher answers true exactly on the texts that have the pattern's shape, also with several
-- stars.
pub wildmatch_iff : (p t : Text) → (wildmatch p t ≡ true) ↔ Matches p t
unfolding wildmatch
wildmatch_iff p t = (wildmatch_sound p t, λ d. wildmatch_complete d)
