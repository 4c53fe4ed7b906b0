-- ===== src/Store/Install/Layers.antt =====
-- The loop of `install` over the layers: the store stays sound and has every layer.
use nexpack.Prelude.{
  ℕ, ◌+◌, ◌≡◌, refl, subst, sym, ap, true, List, [], ◌∷◌, Text, Bool-cases, inl, inr, Bytes, All,
  Outcome, ok, err, panic, ok-injective, >>=-eq-ok, ◌>>=◌,
}
use nexpack.Layer.{LayerRef, digest_hex}
use nexpack.Bundle.{Bundle, extract_layer}
use nexpack.Verify.{verify_digest, verify_digest-eq-ok}
use nexpack.Store.{Store, Disk, has_layer, store_layer}
use nexpack.Store.Install.{next, checked_layer, install_layer, install_layers}
use nexpack.Store.Sound.{Ended, Grows, Grows-trans, store_layer-ok}

pub next-eq-ok {ℓ} :
    {A : Type ℓ} (r : Outcome A × Store) (f : A → Store → Ended)
    → (next r f).0 ≡ ok tt
    → (a : A) × (r.0 ≡ ok a) × (next r f ≡ f a r.1)
unfolding next
next-eq-ok (ok a, s) f h = (a, refl, refl)
next-eq-ok (err e, s) f h = absurd cc
next-eq-ok (panic, s) f h = absurd cc

pub next_ok {ℓ κ} :
    {A : Type ℓ} {B : Type κ} (r : Outcome A × Store) (f : A → Store → Outcome B × Store) (a : A)
    → r.0 ≡ ok a
    → next r f ≡ f a r.1
unfolding next
next_ok (ok b, s) f a h = let e : b ≡ a = ok-injective h in ap (λ x. f x s) e
next_ok (err e, s) f a h = absurd cc
next_ok (panic, s) f a h = absurd cc

module _ (blake3_hex : Bytes → Text) where
  module _ (disk : Disk) where
    pub checked_layer-ok :
        (b : Bundle) (i : ℕ) (layer : LayerRef) (piece : Bytes)
        → checked_layer blake3_hex disk b i layer ≡ ok piece
        → blake3_hex piece ≡ digest_hex layer
    unfolding checked_layer
    checked_layer-ok b i layer piece h =
        let (found, at, h1) =
          >>=-eq-ok (extract_layer b i)
            (λ found. verify_digest blake3_hex found (digest_hex layer) >>= λ _. ok found) h in
        let (_, verified, h2) =
          >>=-eq-ok (verify_digest blake3_hex found (digest_hex layer)) (λ _. ok found) h1 in
        let same : found ≡ piece = ok-injective h2 in
        rw (← same) (verify_digest-eq-ok blake3_hex found (digest_hex layer) verified)

    install_layer-ok :
        (b : Bundle) (i : ℕ) (layer : LayerRef) (s : Store)
        → (install_layer blake3_hex disk b i layer s).0 ≡ ok tt
        → Grows blake3_hex s (install_layer blake3_hex disk b i layer s).1
          × (has_layer (install_layer blake3_hex disk b i layer s).1 (digest_hex layer) ≡ true)
    unfolding install_layer checked_layer
    install_layer-ok b i layer s h = elim (Bool-cases (has_layer s (digest_hex layer))) [
      | inl there ↦ rw there (((λ sound. sound, λ hex e. e)), there)
      | inr absent ↦
          let (piece, checked, e) =
            next-eq-ok (checked_layer blake3_hex disk b i layer, s)
              (λ piece s. store_layer disk piece (digest_hex layer) s) (rw absent at h) in
          let whole : install_layer blake3_hex disk b i layer s
              ≡ store_layer disk piece (digest_hex layer) s =
            rw absent e in
          rw whole (
            store_layer-ok blake3_hex disk piece (digest_hex layer) s
              (checked_layer-ok b i layer piece checked) (rw whole at h))
    ]

    pub install_layers-ok :
        (b : Bundle) (i : ℕ) (layers : List LayerRef) (s : Store)
        → (install_layers blake3_hex disk b i layers s).0 ≡ ok tt
        → Grows blake3_hex s (install_layers blake3_hex disk b i layers s).1
          × All
              (λ layer.
                has_layer (install_layers blake3_hex disk b i layers s).1 (digest_hex layer) ≡ true)
              layers
    unfolding install_layers
    install_layers-ok b i [] s h = ((λ sound. sound, λ hex e. e), tt)
    install_layers-ok b i (layer ∷ layers) s h =
        let (_, first, e) =
          next-eq-ok (install_layer blake3_hex disk b i layer s)
            (λ _ s. install_layers blake3_hex disk b (i + 1) layers s) h in
        let s1 = (install_layer blake3_hex disk b i layer s).1 in
        let (grows, there) = install_layer-ok b i layer s first in
        let (grows', rest) = install_layers-ok b (i + 1) layers s1 (rw e at h) in
        subst
          (λ r.
            Grows blake3_hex s r.1
            × All (λ layer. has_layer r.1 (digest_hex layer) ≡ true) (layer ∷ layers))
          (sym e)
          (
            Grows-trans blake3_hex s s1 (install_layers blake3_hex disk b (i + 1) layers s1).1 grows
                grows',
            (grows'.1 (digest_hex layer) there, rest),
          )
