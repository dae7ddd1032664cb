-- ===== src/Result.antt =====
-- Go's `(value, error)` results: the value, or the error alone.
use finnri_api.Base.{Bool, true, false, Option, none, some}

-- The errors that internal/billing, internal/ai, internal/models and internal/http return.
pub data Failure : Type 0 where
  record_not_found conflict : Failure
  invalid_credit_subject allowance_denied : Failure
  unknown_action action_not_implemented invalid_action empty_registry : Failure
  ledger_credits_not_positive grant_balance_changed insufficient_credits : Failure
  debit_without_grant refund_incomplete invalid_status : Failure
  credits_not_positive user_required subscription_required expiry_not_after : Failure
  unknown_feature : Failure
  amount_required not_decimal too_many_places amount_too_large : Failure
  invalid_json unsupported_value : Failure
  deleted_account no_billing_period : Failure

pub data Result {ℓ} (A : Type ℓ) : Type ℓ where
  ok : A → Result A
  err : Failure → Result A

infixl 5 ◌>>=◌
abbrev pub ◌>>=◌ {ℓ κ} : {A : Type ℓ} {B : Type κ} → Result A → (A → Result B) → Result B
ok a >>= f = f a
err e >>= f = err e

abbrev pub from_option {ℓ} : {A : Type ℓ} → Failure → Option A → Result A
from_option e none = err e
from_option e (some a) = ok a

abbrev pub is_ok {ℓ} : {A : Type ℓ} → Result A → Bool
is_ok (ok a) = true
is_ok (err e) = false
