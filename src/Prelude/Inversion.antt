-- ===== src/Prelude/Inversion.antt =====
-- What it says of the parts of a chain of results that the whole returns.
use mathlib.Core.Path.{◌≡◌, refl, ap, ◌∙◌}
use mathlib.Core.Logic.{◌⊎◌, inl, inr}
use mathlib.Core.Bool.{Bool, true, false, not}
use mathlib.Core.Option.{some}
use protoprompt.Prelude.Tests.{if◌then◌else◌}
use protoprompt.Prelude.Outcome.{Error, Result, ok, err, ◌>>=◌, ◌>>◌, raise_if}

module _ {ℓ κ} {A : Type ℓ} {B : Type κ} where
  pub bind_ok :
      (m : Result A) (f : A → Result B) (b : B)
      → (m >>= f) ≡ ok b
      → (a : A) × (m ≡ ok a) × (f a ≡ ok b)
  bind_ok (ok a) f b h = (a, refl, h)
  bind_ok (err e) f b h = cc

module _ {ℓ} {B : Type ℓ} where
  pub then_ok :
      (m : Result (Unit {0})) (k : Result B) (b : B) → (m >> k) ≡ ok b → (m ≡ ok tt) × (k ≡ ok b)
  then_ok (ok tt) k b h = (refl, h)
  then_ok (err e) k b h = cc

pub raise_if_ok : (b : Bool) (e : Error) → raise_if b e ≡ ok tt → b ≡ false
raise_if_ok true e h = cc
raise_if_ok false e h = refl

pub raise_unless_ok : (b : Bool) (e : Error) → raise_if (not b) e ≡ ok tt → b ≡ true
raise_unless_ok true e h = refl
raise_unless_ok false e h = cc

module _ {ℓ} {A : Type ℓ} where
  pub ok_inj : {a b : A} → ok a ≡ ok b → a ≡ b
  ok_inj h = cc

  pub some_inj : {a b : A} → some a ≡ some b → a ≡ b
  some_inj h = cc

  pub if_ok :
      (b : Bool) (x y : Result A) (a : A)
      → (if b then x else y) ≡ ok a
      → ((b ≡ true) × (x ≡ ok a)) ⊎ ((b ≡ false) × (y ≡ ok a))
  if_ok true x y a h = inl (refl, h)
  if_ok false x y a h = inr (refl, h)

pub raise_if_of : (b : Bool) (e : Error) → b ≡ false → raise_if b e ≡ ok tt
raise_if_of true e h = cc
raise_if_of false e h = refl

pub raise_unless_of : (b : Bool) (e : Error) → b ≡ true → raise_if (not b) e ≡ ok tt
raise_unless_of true e h = refl
raise_unless_of false e h = cc

-- What a chain of results returns, from what its parts return
module _ {ℓ κ} {A : Type ℓ} {B : Type κ} where
  pub bind_of :
      (m : Result A) (f : A → Result B) (a : A) (b : Result B) → m ≡ ok a → f a ≡ b → (m >>= f) ≡ b
  bind_of (ok x) f a b e h = ap f (ok_inj e) ∙ h
  bind_of (err x) f a b e h = cc

module _ {ℓ} {B : Type ℓ} where
  pub then_of : (m : Result (Unit {0})) (k b : Result B) → m ≡ ok tt → k ≡ b → (m >> k) ≡ b
  then_of (ok tt) k b e h = h
  then_of (err x) k b e h = cc

pub Result-cases {ℓ} :
    {A : Type ℓ} (r : Result A) → ((a : A) × (r ≡ ok a)) ⊎ ((e : Error) × (r ≡ err e))
Result-cases (ok a) = inl (a, refl)
Result-cases (err e) = inr (e, refl)
