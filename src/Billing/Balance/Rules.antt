-- ===== src/Billing/Balance/Rules.antt =====
-- Actions that keep the accounts balanced, one rule for each way to build an action.
use finnri_api.Base.{◌≡◌, Bool, true, false, if◌then◌else◌, Option, none, some}
use finnri_api.Result.{Failure, Result, ok, err}
use finnri_api.Billing.Tx.{Store, Tx, pure, fail, lift, gets, demand, ◌>>=◌}

-- What holds of the store that a success leaves; a failure leaves the store as it was.
abbrev pub OnSuccess : {A : Type 0} → (Store → Type 0) → Result (A × Store) → Type 0
OnSuccess P (ok (a, s)) = P s
OnSuccess P (err e) = Unit

pub OnSuccess-map :
    {A : Type 0} (P Q : Store → Type 0)
    → ((s : Store) → P s → Q s)
    → (r : Result (A × Store)) → OnSuccess P r
    → OnSuccess Q r
OnSuccess-map P Q f (ok (a, s)) h = f s h
OnSuccess-map P Q f (err e) h = tt

pub record Keeps {A : Type 0} (P : Store → Type 0) (m : Tx A) : Type 0 where
  pub at : (s : Store) → P s → OnSuccess P (m s)

-- An action that does not touch the accounts.
pub record KeepsAccounts {A : Type 0} (m : Tx A) : Type 0 where
  pub same : (s : Store) → OnSuccess (λ t. (t.grants ≡ s.grants) × (t.ledger ≡ s.ledger)) (m s)

module _ {A : Type 0} {P : Store → Type 0} where
  pub Keeps-pure : (a : A) → Keeps P (pure a)
  unfolding pure
  Keeps-pure a = record { at = λ s h. h }

  pub Keeps-fail : (e : Failure) → Keeps P (fail {A = A} e)
  unfolding fail
  Keeps-fail e = record { at = λ s h. tt }

  pub Keeps-lift : (r : Result A) → Keeps P (lift r)
  unfolding lift
  Keeps-lift (ok a) = record { at = λ s h. h }
  Keeps-lift (err e) = record { at = λ s h. tt }

  pub Keeps-gets : (f : Store → A) → Keeps P (gets f)
  unfolding gets
  Keeps-gets f = record { at = λ s h. h }

  pub Keeps-demand : (e : Failure) (o : Option A) → Keeps P (demand e o)
  unfolding demand
  Keeps-demand e none = record { at = λ s h. tt }
  Keeps-demand e (some a) = record { at = λ s h. h }

  pub Keeps-if : (b : Bool) (m n : Tx A) → Keeps P m → Keeps P n → Keeps P (if b then m else n)
  Keeps-if true m n km kn = km
  Keeps-if false m n km kn = kn

module _ {A B : Type 0} {P : Store → Type 0} where
  pub Keeps-option :
      (o : Option A) (m : Tx B) (f : A → Tx B)
      → Keeps P m
      → ((a : A) → Keeps P (f a))
      → Keeps P (elim o [ none ↦ m | some a ↦ f a ])
  Keeps-option none m f km kf = km
  Keeps-option (some a) m f km kf = kf a

module _ {A B : Type 0} where
  pub bind-OnSuccess :
      (Q R : Store → Type 0) (m : Tx A) (f : A → Tx B) (s : Store)
      → OnSuccess Q (m s)
      → ((a : A) (t : Store) → Q t → OnSuccess R (f a t))
      → OnSuccess R ((m >>= f) s)
  unfolding ◌>>=◌
  bind-OnSuccess Q R m f s h k = after (m s) h
    where
      after :
          (r : Result (A × Store))
          → OnSuccess Q r
          → OnSuccess R (elim r [ ok (a, t) ↦ f a t | err e ↦ err e ])
      after (ok (a, t)) q = k a t q
      after (err e) q = tt

module _ {A B : Type 0} {P : Store → Type 0} where
  pub Keeps-bind :
      (m : Tx A) (f : A → Tx B) → Keeps P m → ((a : A) → Keeps P (f a)) → Keeps P (m >>= f)
  Keeps-bind m f km kf = record {
    at = λ s h. bind-OnSuccess P P m f s (km.at s h) (λ a t q. (kf a).at t q);
  }

pub ruleset keeps_rules =
    (Keeps-pure, Keeps-fail, Keeps-lift, Keeps-gets, Keeps-demand, Keeps-if, Keeps-bind)
