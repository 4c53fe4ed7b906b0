-- ===== src/Prelude/Outcomes.antt =====
-- nexpack-core/src/error.rs: `Error`, and what a call comes to: a value, an error, or a panic.
-- Of a message the constant part is kept; what `format!` puts into it is left out.
use Prim.Native.Nat.{ℕ}
use Prim.Native.String.{String}
use mathlib.Core.Path.{◌≡◌, refl}
use mathlib.Core.Logic.{◌≢◌, ◌⊎◌, inl, inr}
use mathlib.Core.Bool.{Bool, true, false}
use mathlib.Core.Option.{Option, none, some}
use nexpack.Prelude.Texts.{Text}

pub data Error : Type 0 where
  io : String → Error
  invalid_format cbor signature_verification store_path mount not_found other : String → Error
  digest_mismatch : Text → Text → Error
  index_out_of_range : String → ℕ → ℕ → Error

pub data Outcome {ℓ} (A : Type ℓ) : Type ℓ where
  ok : A → Outcome A
  err : Error → Outcome A
  panic : Outcome A

infixl 5 ◌>>=◌ ◌>>◌
-- `?`: a panic and an error end the function that calls.
abbrev pub ◌>>=◌ {κ ℓ} : {B : Type κ} {A : Type ℓ} → Outcome B → (B → Outcome A) → Outcome A
panic >>= rest = panic
err e >>= rest = err e
ok v >>= rest = rest v

abbrev pub ◌>>◌ {ℓ κ} : {A : Type ℓ} {B : Type κ} → Outcome A → Outcome B → Outcome B
m >> k = m >>= λ _. k

-- `ok_or_else`
abbrev pub ok_or {ℓ} : {A : Type ℓ} → Option A → Error → Outcome A
ok_or none e = err e
ok_or (some a) e = ok a

-- An early return of an error unless the test holds.
abbrev pub ensure : Bool → Error → Outcome (Unit {0})
ensure true e = ok tt
ensure false e = err e

pub >>=-eq-ok {ℓ κ} :
    {A : Type ℓ} {B : Type κ} (call : Outcome A) (rest : A → Outcome B) {r : B}
    → (call >>= rest) ≡ ok r
    → (v : A) × (call ≡ ok v) × (rest v ≡ ok r)
>>=-eq-ok panic rest h = cc
>>=-eq-ok (err e) rest h = cc
>>=-eq-ok (ok v) rest h = (v, refl, h)

pub ok_or-eq-ok {ℓ} :
    {A : Type ℓ} (o : Option A) (e : Error) {a : A} → ok_or o e ≡ ok a → o ≡ some a
ok_or-eq-ok none e h = cc
ok_or-eq-ok (some b) e h = cc

pub ok-injective {ℓ} : {A : Type ℓ} {a b : A} → ok a ≡ ok b → a ≡ b
ok-injective e = cc

pub Outcome-cases {ℓ} :
    {A : Type ℓ} (o : Outcome A)
    → ((a : A) × (o ≡ ok a)) ⊎ (((e : Error) × (o ≡ err e)) ⊎ (o ≡ panic))
Outcome-cases (ok a) = inl (a, refl)
Outcome-cases (err e) = inr (inl (e, refl))
Outcome-cases panic = inr (inr refl)

-- The call does not panic.
abbrev pub IsCalm {ℓ} : {A : Type ℓ} → Outcome A → Type 0
IsCalm (ok a) = Unit
IsCalm (err e) = Unit
IsCalm panic = ⊥

pub >>=-IsCalm {κ ℓ} :
    {A : Type κ} {B : Type ℓ} (call : Outcome A) (rest : A → Outcome B)
    → IsCalm call
    → ((v : A) → IsCalm (rest v))
    → IsCalm (call >>= rest)
>>=-IsCalm (ok v) rest calm later = later v
>>=-IsCalm (err e) rest calm later = tt
>>=-IsCalm panic rest calm later = calm

pub ok_or-IsCalm {ℓ} : {A : Type ℓ} (o : Option A) (e : Error) → IsCalm (ok_or o e)
ok_or-IsCalm none e = tt
ok_or-IsCalm (some a) e = tt

pub ensure-IsCalm : (b : Bool) (e : Error) → IsCalm (ensure b e)
ensure-IsCalm true e = tt
ensure-IsCalm false e = tt

pub ne-panic {ℓ} : {A : Type ℓ} (o : Outcome A) → IsCalm o → o ≢ panic
ne-panic (ok a) calm e = cc
ne-panic (err f) calm e = cc
ne-panic panic calm e = absurd calm
