-- ===== src/Billing/Runs.antt =====
-- What a successful run of an action went through.
use finnri_api.Base.{◌≡◌, refl, ap, Bool, true, false, if◌then◌else◌, Option, none, some}
use finnri_api.Result.{Failure, Result, ok, err}
use finnri_api.Billing.Tx.{Store, Tx, fail, lift, demand, ◌>>=◌}

module _ {A B : Type 0} where
  pub bind-ok :
      (m : Tx A) (f : A → Tx B) (s : Store) {b : B} {t : Store}
      → (m >>= f) s ≡ ok (b, t)
      → (a : A) × (s' : Store) × (m s ≡ ok (a, s')) × (f a s' ≡ ok (b, t))
  unfolding ◌>>=◌
  bind-ok m f s {b} {t} = go (m s) refl
    where
      go :
          (r : Result (A × Store))
          → m s ≡ r
          → elim r [ ok (a, s') ↦ f a s' | err e ↦ err e ] ≡ ok (b, t)
          → (a : A) × (s' : Store) × (m s ≡ ok (a, s')) × (f a s' ≡ ok (b, t))
      go (ok (a, s')) e h = (a, s', e, h)
      go (err x) e h = absurd (cc h)

  pub run-bind :
      (m : Tx A) (f : A → Tx B) (s : Store) {a : A} {t : Store}
      → m s ≡ ok (a, t)
      → (m >>= f) s ≡ f a t
  unfolding ◌>>=◌
  run-bind m f s h = rw (h, ◌>>=◌) refl

pub ok-injective :
    {A : Type 0} {a b : A} {s t : Store}
    → ◌≡◌ {A = Result (A × Store)} (ok (a, s)) (ok (b, t))
    → (a ≡ b) × (s ≡ t)
ok-injective {A} {a} {b} {s} {t} h = (ap (λ r. value r) h, ap (λ r. store r) h)
  where
    value : Result (A × Store) → A
    value (ok (x, y)) = x
    value (err x) = a

    store : Result (A × Store) → Store
    store (ok (x, y)) = y
    store (err x) = s

module _ {A : Type 0} where
  pub demand-ok :
      (x : Failure) (o : Option A) (s : Store) {a : A} {t : Store}
      → demand x o s ≡ ok (a, t)
      → (o ≡ some a) × (s ≡ t)
  unfolding demand
  demand-ok x none s h = absurd (cc h)
  demand-ok x (some a) s h = (ap some (ok-injective h).0, (ok-injective h).1)

  pub lift-ok :
      (r : Result A) (s : Store) {a : A} {t : Store} → lift r s ≡ ok (a, t) → (r ≡ ok a) × (s ≡ t)
  unfolding lift
  lift-ok (err x) s h = absurd (cc h)
  lift-ok (ok a) s h = (ap ok (ok-injective h).0, (ok-injective h).1)

  -- A guard that fails was not met.
  pub guard-ok :
      (b : Bool) (x : Failure) (m : Tx A) (s : Store) {a : A} {t : Store}
      → (if b then fail x else m) s ≡ ok (a, t)
      → (b ≡ false) × (m s ≡ ok (a, t))
  unfolding fail
  guard-ok true x m s h = absurd (cc h)
  guard-ok false x m s h = (refl, h)
