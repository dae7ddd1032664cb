-- ===== src/Payments/Rules.antt =====
-- What a step of a webhook keeps, one rule for each way to branch.
use finnri_api.Base.{◌≡◌, refl, Bool, true, false, Option, none, some, if◌then◌else◌}
use finnri_api.Result.{Failure, Result, ok, err}
use finnri_api.Billing.Tx.{Store}
use finnri_api.Billing.Balance.Rules.{OnSuccess}
use finnri_api.Payments.Data.{PayStore, Applied}

-- What holds of each branch holds of the whole.
module _ (P : Applied → Type 0) where
  pub if-either : (b : Bool) (x y : Applied) → P x → P y → P (if b then x else y)
  if-either true x y hx hy = hx
  if-either false x y hx hy = hy

  pub option-either :
      {A : Type 0} (o : Option A) (x : Applied) (f : A → Applied)
      → P x
      → ((a : A) → o ≡ some a → P (f a))
      → P (elim o as (λ x. Applied) [ none ↦ x | some a ↦ f a ])
  option-either none x f hx hf = hx
  option-either (some a) x f hx hf = hf a refl

  pub result-either :
      {A : Type 0} (Q : Store → Type 0) (r : Result (A × Store)) (x : Failure → Applied)
      (f : A → Store → Applied)
      → OnSuccess Q r
      → ((e : Failure) → P (x e))
      → ((a : A) (b : Store) → Q b → P (f a b))
      → P (elim r as (λ x. Applied) [ err e ↦ x e | ok (a, b) ↦ f a b ])
  result-either Q (ok (a, b)) x f h hx hf = hf a b h
  result-either Q (err e) x f h hx hf = hx e

-- The same for what holds of the store that is left.
module _ (P : PayStore → Type 0) where
  pub if-keeps : (b : Bool) (x y : Applied) → P x.1 → P y.1 → P (if b then x else y).1
  if-keeps b x y hx hy = if-either (λ a. P a.1) b x y hx hy

  pub option-keeps :
      {A : Type 0} (o : Option A) (x : Applied) (f : A → Applied)
      → P x.1
      → ((a : A) → o ≡ some a → P (f a).1)
      → P (elim o as (λ x. Applied) [ none ↦ x | some a ↦ f a ]).1
  option-keeps o x f hx hf = option-either (λ a. P a.1) o x f hx hf

  pub result-keeps :
      {A : Type 0} (Q : Store → Type 0) (r : Result (A × Store)) (x : Failure → Applied)
      (f : A → Store → Applied)
      → OnSuccess Q r
      → ((e : Failure) → P (x e).1)
      → ((a : A) (b : Store) → Q b → P (f a b).1)
      → P (elim r as (λ x. Applied) [ err e ↦ x e | ok (a, b) ↦ f a b ]).1
  result-keeps Q r x f h hx hf = result-either (λ a. P a.1) Q r x f h hx hf

pub anything : {A : Type 0} (r : Result (A × Store)) → OnSuccess (λ s. Unit) r
anything (ok x) = tt
anything (err e) = tt
