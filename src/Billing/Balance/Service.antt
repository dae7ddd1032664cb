-- ===== src/Billing/Balance/Service.antt =====
-- Reservations, their ends, revocation and expiry keep the accounts balanced.
use finnri_api.Base.{ℕ, suc, ◌+◌, ltb, if◌then◌else◌, String, List, [], ◌∷◌}
use finnri_api.Base.Int.{ℤ}
use finnri_api.Ai.{Action}
use finnri_api.Billing.Data.{
  CreditGrant, CreditSubject, AllowanceResult, ProviderUsage, AiUsageEvent, UsageStatus,
}
use finnri_api.Billing.Tx.{Store}
use finnri_api.Billing.Allowance.{CreditService}
use finnri_api.Billing.Daily.{adjust_daily_usage}
use finnri_api.Billing.Reservation.{create_event, reserve_allowed}
use finnri_api.Billing.Settlement.{
  update_event, load_event, settle, charge_extra, finalize_open, finalize_usage, cancel_open,
  cancel_reservation_with_status,
}
use finnri_api.Billing.Revocation.{
  revoke_grants, revoke_subscription_credits, revoke_gifted_pass_credits, expire_grants,
  expire_credits,
}
use finnri_api.Billing.Balance.{IsSound}
use finnri_api.Billing.Balance.Rules.{Keeps, Keeps-pure, Keeps-bind, keeps_rules}
use finnri_api.Billing.Balance.Moves.{write_off-Keeps}
use finnri_api.Billing.Balance.Operations.{
  KeepsAccounts-Keeps, adjust_daily_usage-Keeps, create_event-Keeps, update_event-Keeps,
  debit_available_grants-Keeps, refund_event_credits-Keeps,
}

adjust : (c : CreditSubject) (at : ℕ) (delta : ℤ) → Keeps IsSound (adjust_daily_usage c at delta)
adjust c at delta = KeepsAccounts-Keeps _ (adjust_daily_usage-Keeps c at delta)

rewrite_event :
    (id : ℕ) (f : Store → AiUsageEvent → AiUsageEvent) → Keeps IsSound (update_event id f)
rewrite_event id f = KeepsAccounts-Keeps _ (update_event-Keeps id f)

create : (e : AiUsageEvent) → Keeps IsSound (create_event e)
create e = KeepsAccounts-Keeps _ (create_event-Keeps e)

ruleset service_rules = (
  keeps_rules, adjust, create, rewrite_event, debit_available_grants-Keeps,
  refund_event_credits-Keeps,
)

load_event-Keeps : (id : ℕ) → Keeps IsSound (load_event id)
unfolding load_event
load_event-Keeps id = search keeps_rules

charge_extra-Keeps :
    (svc : CreditService) (id : ℕ) (e : AiUsageEvent) (action : Action) (final : ℕ)
    → Keeps IsSound (charge_extra svc id e action final)
unfolding charge_extra
charge_extra-Keeps svc id e action final = search service_rules depth 9

settle-Keeps :
    (svc : CreditService) (id : ℕ) (e : AiUsageEvent) (action : Action) (final : ℕ)
    → Keeps IsSound (settle svc id e action final)
unfolding settle
settle-Keeps svc id e action final = search (service_rules, charge_extra-Keeps) depth 9

pub reserve_allowed-Keeps :
    (svc : CreditService) (c : CreditSubject) (a : AllowanceResult) (key request : String)
    → Keeps IsSound (reserve_allowed svc c a key request)
unfolding reserve_allowed
reserve_allowed-Keeps svc c a key request = search service_rules depth 9

-- A finished call: the event's row changes and nothing else.
finalize_open-Keeps :
    (svc : CreditService) (id : ℕ) (u : ProviderUsage) (e : AiUsageEvent)
    → Keeps IsSound (finalize_open svc id u e)
unfolding finalize_open
finalize_open-Keeps svc id u e = search (service_rules, settle-Keeps, load_event-Keeps) depth 9

pub finalize_usage-Keeps :
    (svc : CreditService) (id : ℕ) (u : ProviderUsage) → Keeps IsSound (finalize_usage svc id u)
unfolding finalize_usage
finalize_usage-Keeps svc id u = search (keeps_rules, load_event-Keeps, finalize_open-Keeps)

cancel_open-Keeps :
    (svc : CreditService) (id : ℕ) (status : UsageStatus) (e : AiUsageEvent)
    → Keeps IsSound (cancel_open svc id status e)
unfolding cancel_open
cancel_open-Keeps svc id status e = search (service_rules, load_event-Keeps) depth 9

pub cancel_reservation-Keeps :
    (svc : CreditService) (id : ℕ) (status : UsageStatus)
    → Keeps IsSound (cancel_reservation_with_status svc id status)
unfolding cancel_reservation_with_status
cancel_reservation-Keeps svc id status = search (keeps_rules, load_event-Keeps, cancel_open-Keeps)

revoke_grants-Keeps :
    (reason key : String) (rows : List (ℕ × CreditGrant)) (revoked : ℕ)
    → Keeps IsSound (revoke_grants reason key rows revoked)
unfolding revoke_grants
revoke_grants-Keeps reason key [] revoked = Keeps-pure revoked
revoke_grants-Keeps reason key (r ∷ rows) revoked =
    Keeps-bind _ _ (write_off-Keeps reason key r)
      (λ taken. revoke_grants-Keeps reason key rows (revoked + taken))

pub revoke_subscription_credits-Keeps : (id : ℕ) → Keeps IsSound (revoke_subscription_credits id)
unfolding revoke_subscription_credits
revoke_subscription_credits-Keeps id = search (keeps_rules, revoke_grants-Keeps)

pub revoke_gifted_pass_credits-Keeps : (id : ℕ) → Keeps IsSound (revoke_gifted_pass_credits id)
unfolding revoke_gifted_pass_credits
revoke_gifted_pass_credits-Keeps id = search (keeps_rules, revoke_grants-Keeps)

expire_grants-Keeps : (rows : List (ℕ × CreditGrant)) (n : ℕ) → Keeps IsSound (expire_grants rows n)
unfolding expire_grants
expire_grants-Keeps [] n = Keeps-pure n
expire_grants-Keeps (r ∷ rows) n =
    Keeps-bind _ _ (write_off-Keeps _ _ r)
      (λ taken. expire_grants-Keeps rows (if ltb 0 taken then suc n else n))

pub expire_credits-Keeps : (svc : CreditService) → Keeps IsSound (expire_credits svc)
unfolding expire_credits
expire_credits-Keeps svc = search (keeps_rules, expire_grants-Keeps)
