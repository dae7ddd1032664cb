-- ===== src/Billing/Tx.antt =====
-- The database that the credit service works on, and its transactions: an action that fails leaves
-- no trace, since `Transaction` rolls back. Failures of the database itself (connections, I/O) are
-- not modelled.
use finnri_api.Base.{Option, none, some}
use finnri_api.Result.{Failure, Result, ok, err}
use finnri_api.Table.{Table}
use finnri_api.Billing.Data.{
  Plan, UserSubscription, CreditGrant, CreditLedger, AiUsageEvent, AiUsageLimitEvent,
  AiModelPricing, DailyCreditUsage, GuestUsageKey, AiAbuseBlock,
}

pub record Store : Type 0 where
  pub plans : Table Plan
  pub subscriptions : Table UserSubscription
  pub grants : Table CreditGrant
  pub ledger : Table CreditLedger
  pub events : Table AiUsageEvent
  pub limit_events : Table AiUsageLimitEvent
  pub pricing : Table AiModelPricing
  pub daily : Table DailyCreditUsage
  pub guest_keys : Table GuestUsageKey
  pub abuse_blocks : Table AiAbuseBlock

abbrev pub Tx : Type 0 → Type 0
Tx A = Store → Result (A × Store)

module _ {A : Type 0} where
  unfoldable pub pure : A → Tx A
  pure a s = ok (a, s)

  unfoldable pub fail : Failure → Tx A
  fail e s = err e

  unfoldable pub lift : Result A → Tx A
  lift (ok a) s = ok (a, s)
  lift (err e) s = err e

  unfoldable pub gets : (Store → A) → Tx A
  gets f s = ok (f s, s)

  -- `First`: the row, or gorm's ErrRecordNotFound.
  unfoldable pub demand : Failure → Option A → Tx A
  demand e none s = err e
  demand e (some a) s = ok (a, s)

  -- What the caller of `db.Transaction` is left with.
  unfoldable pub transaction : Tx A → Store → Result A × Store
  transaction m s = elim (m s) [ ok (a, s') ↦ (ok a, s') | err e ↦ (err e, s) ]

unfoldable pub modify : (Store → Store) → Tx (Unit {0})
modify f s = ok (tt, f s)

module _ {A B : Type 0} where
  infixl 10 ◌>>=◌ ◌>>◌
  unfoldable pub ◌>>=◌ : Tx A → (A → Tx B) → Tx B
  unfolding pure fail lift gets demand modify
  ◌>>=◌ m f s = elim (m s) [ ok (a, s') ↦ f a s' | err e ↦ err e ]

  abbrev pub ◌>>◌ : Tx A → Tx B → Tx B
  m >> n = m >>= λ _. n
