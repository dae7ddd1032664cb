-- ===== src/Billing/Balance/History.antt =====
-- Reservations, settlements, cancellations, grants, revocations and expiries, in any order and with any
-- arguments.
use finnri_api.Base.{ℕ, String, Option, List, [], ◌∷◌}
use finnri_api.Base.Int.{ℤ}
use finnri_api.Billing.Data.{CreditSubject, ProviderUsage, UsageStatus, UserSubscription, Plan}
use finnri_api.Billing.Tx.{Store, transaction}
use finnri_api.Billing.Allowance.{CreditService}
use finnri_api.Billing.Reservation.{reserve_credits}
use finnri_api.Billing.Settlement.{finalize_usage, cancel_reservation_with_status}
use finnri_api.Billing.Grants.{
  grant_manual_adjustment, ensure_logged_in_free_trial_grant, ensure_guest_trial_grant,
  grant_subscription_period,
}
use finnri_api.Billing.Revocation.{
  revoke_subscription_credits, revoke_gifted_pass_credits, expire_credits,
}
use finnri_api.Billing.Tranches.{sync_subscription_tranches}
use finnri_api.Billing.Balance.{IsSound}
use finnri_api.Billing.Balance.Service.{
  finalize_usage-Keeps, cancel_reservation-Keeps, revoke_subscription_credits-Keeps,
  revoke_gifted_pass_credits-Keeps, expire_credits-Keeps,
}
use finnri_api.Billing.Balance.Openings.{
  grant_manual_adjustment-Keeps, ensure_logged_in_free_trial_grant-Keeps,
  ensure_guest_trial_grant-Keeps, grant_subscription_period-Keeps,
}
use finnri_api.Billing.Balance.Calls.{transaction-IsSound, reserve_credits-IsSound, sync-IsSound}

-- One call with its arguments; the clock and the registry come with each call. Neither the promotion of
-- a guest's device to a user nor the purge of old guests' usage is among the calls: the purge deletes
-- rows of the ledger whose grant can stay.
pub data Call : Type 0 where
  reserve : CreditSubject → (action key request : String) → Call
  finalize : ℕ → ProviderUsage → Call
  cancel : ℕ → UsageStatus → Call
  adjust : CreditSubject → ℤ → (reason key : String) → Option ℕ → Call
  user_trial : ℕ → Call
  guest_trial : (sha256_hex : String → String) → (device ip : String) → Call
  period : ℕ → UserSubscription → (credits from expires : ℕ) → Call
  tranches : ℕ → UserSubscription → Option Plan → Call
  revoke : ℕ → Call
  revoke_gift : ℕ → Call
  expire : Call

-- The store that a call leaves.
unfoldable pub perform : CreditService → Call → Store → Store
unfolding reserve_credits
perform svc (reserve c action key request) s = (reserve_credits svc c action key request s).2
perform svc (finalize id u) s = (transaction (finalize_usage svc id u) s).1
perform svc (cancel id status) s = (transaction (cancel_reservation_with_status svc id status) s).1
perform svc (adjust c n reason key expires) s =
    (transaction (grant_manual_adjustment svc c n reason key expires) s).1
perform svc (user_trial user) s = (transaction (ensure_logged_in_free_trial_grant svc user) s).1
perform svc (guest_trial sha256_hex device ip) s =
    (transaction (ensure_guest_trial_grant svc sha256_hex device ip) s).1
perform svc (period id sub credits from expires) s =
    (transaction (grant_subscription_period svc id sub credits from expires) s).1
perform svc (tranches id sub plan) s = (sync_subscription_tranches svc id sub plan s).1
perform svc (revoke id) s = (transaction (revoke_subscription_credits id) s).1
perform svc (revoke_gift id) s = (transaction (revoke_gifted_pass_credits id) s).1
perform svc expire s = (transaction (expire_credits svc) s).1

unfoldable pub perform_all : List (CreditService × Call) → Store → Store
perform_all [] s = s
perform_all ((svc, call) ∷ calls) s = perform_all calls (perform svc call s)

perform-IsSound :
    (svc : CreditService) (call : Call) (s : Store) → IsSound s → IsSound (perform svc call s)
unfolding perform
perform-IsSound svc (reserve c action key request) s h =
    reserve_credits-IsSound svc c action key request s h
perform-IsSound svc (finalize id u) s h = transaction-IsSound _ s (finalize_usage-Keeps svc id u) h
perform-IsSound svc (cancel id status) s h =
    transaction-IsSound _ s (cancel_reservation-Keeps svc id status) h
perform-IsSound svc (adjust c n reason key expires) s h =
    transaction-IsSound _ s (grant_manual_adjustment-Keeps svc c n reason key expires) h
perform-IsSound svc (user_trial user) s h =
    transaction-IsSound _ s (ensure_logged_in_free_trial_grant-Keeps svc user) h
perform-IsSound svc (guest_trial sha256_hex device ip) s h =
    transaction-IsSound _ s (ensure_guest_trial_grant-Keeps svc sha256_hex device ip) h
perform-IsSound svc (period id sub credits from expires) s h =
    transaction-IsSound _ s (grant_subscription_period-Keeps svc id sub credits from expires) h
perform-IsSound svc (tranches id sub plan) s h = sync-IsSound svc id sub plan s h
perform-IsSound svc (revoke id) s h =
    transaction-IsSound _ s (revoke_subscription_credits-Keeps id) h
perform-IsSound svc (revoke_gift id) s h =
    transaction-IsSound _ s (revoke_gifted_pass_credits-Keeps id) h
perform-IsSound svc expire s h = transaction-IsSound _ s (expire_credits-Keeps svc) h

-- From a store whose accounts are balanced, any sequence of reservations, settlements, cancellations,
-- manual adjustments, trial, period and tranche grants, revocations and expiries, whether they succeed
-- or fail, leaves it so: every grant's remaining credits are at most the granted ones, and they are
-- what the ledger has credited to the grant less what it has debited. A promotion of a guest's device
-- or a purge of old guests in between is not covered.
pub perform_all-IsSound :
    (calls : List (CreditService × Call)) (s : Store) → IsSound s → IsSound (perform_all calls s)
unfolding perform_all
perform_all-IsSound [] s h = h
perform_all-IsSound ((svc, call) ∷ calls) s h =
    perform_all-IsSound calls (perform svc call s) (perform-IsSound svc call s h)
