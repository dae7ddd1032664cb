-- ===== src/Billing/Settlement.antt =====
-- How a usage event is closed (internal/billing/credits.go): `FinalizeUsage` settles it at the final
-- price, `CancelReservation` gives the credits back.
pub mod Closing
pub mod Capped
use finnri_api.Base.{
  ℕ, ◌-◌, min, ltb, leb, ◌==◌, holds, Bool, true, false, not, ◌&&◌, ◌||◌, if◌then◌else◌, String,
  str_eq, append, trim_space, Option, none, some,
}
use finnri_api.Base.Int.{ℤ, pos, pos_part, sub_ℕ}
use finnri_api.Result.{
  Failure, Result, ok, err, record_not_found, conflict, invalid_credit_subject, allowance_denied,
  invalid_status,
}
use finnri_api.Table.{find_row, first_row, insert, update}
use finnri_api.Ai.{Action, price_of, maximum_of, require}
use finnri_api.Billing.Data.{
  AiUsageEvent, AiUsageLimitEvent, UsageDetails, CreditSubject, AllowanceResult, ProviderUsage,
  UsageStatus, reserved, cancelled, failed_before_provider, is_reserved, allowed,
}
use finnri_api.Billing.Tx.{
  Store, Tx, pure, fail, lift, gets, demand, modify, transaction, ◌>>=◌, ◌>>◌,
}
use finnri_api.Billing.Allowance.{CreditService, is_valid, in_scope, check_allowance, no_allowance}
use finnri_api.Billing.Debit.{debit_available_grants}
use finnri_api.Billing.Refund.{refund_event_credits}
use finnri_api.Billing.Daily.{adjust_daily_usage}
use finnri_api.Billing.Usage.{final_status, finish_event}
use finnri_api.Billing.Reservation.{reservation_debit, reservation_refund, reservation_ledger_key}

-- The final price asked for, within 0 and the action's maximum.
abbrev pub final_charge : AiUsageEvent → Action → Option ℤ → ℕ
final_charge e action none = min e.reserved_credits (maximum_of action)
final_charge e action (some z) = min (pos_part z) (maximum_of action)

abbrev pub subject_from_event : AiUsageEvent → CreditSubject
subject_from_event e = record { user_id = e.user_id; guest_device_id_hash = e.guest_device_id_hash }

-- More than was reserved is charged only where the allowance covers the difference.
unfoldable pub charge_extra : CreditService → ℕ → AiUsageEvent → Action → ℕ → Tx ℕ
unfolding check_allowance debit_available_grants adjust_daily_usage ◌>>=◌
charge_extra svc id e action final = do
  let c = subject_from_event e
  let extra = final - e.reserved_credits
  checked ← gets (check_allowance svc c action.code)
  a ← lift checked
  if leb extra a.available_credits && leb extra a.daily_remaining
      then (do
        debit_available_grants c extra reservation_debit
            (append (reservation_ledger_key e.request_id) ":final") (some id) svc.now
        adjust_daily_usage c e.started_at (pos extra)
        pure final)
      else pure e.reserved_credits

-- The credits that the event ends up with.
unfoldable pub settle : CreditService → ℕ → AiUsageEvent → Action → ℕ → Tx ℕ
unfolding refund_event_credits charge_extra
settle svc id e action final =
    let refund = e.reserved_credits - final in
    if ltb final e.reserved_credits
    then (do
      refund_event_credits id refund reservation_refund
      adjust_daily_usage (subject_from_event e) e.started_at (sub_ℕ 0 refund)
      pure final)
    else if ltb e.reserved_credits final
    then charge_extra svc id e action final
    else pure final

unfoldable pub load_event : ℕ → Tx AiUsageEvent
unfolding ◌>>=◌
load_event id = do found ← gets (λ s. find_row id s.events.rows); demand record_not_found found

-- `tx.Model(&event).Updates`
unfoldable pub update_event : ℕ → (Store → AiUsageEvent → AiUsageEvent) → Tx (Unit {0})
unfolding modify
update_event id f = modify (λ s. record s { events = update s.events id (f s) })

unfoldable pub finalize_open : CreditService → ℕ → ProviderUsage → AiUsageEvent → Tx AiUsageEvent
unfolding settle load_event update_event final_status finish_event
finalize_open svc id u e = do
  action ← lift (require svc.registry e.action_code)
  final ← settle svc id e action (final_charge e action u.final_credits)
  status ← demand invalid_status (final_status u.status)
  update_event id (λ s. finish_event svc s status final u)
  load_event id

unfoldable pub finalize_usage : CreditService → ℕ → ProviderUsage → Tx AiUsageEvent
unfolding finalize_open
finalize_usage svc id u = do
  e ← load_event id
  if is_reserved e.status then finalize_open svc id u e else pure e

abbrev pub cancel_event : UsageStatus → ℕ → AiUsageEvent → AiUsageEvent
cancel_event status now e = record e { status = status; final_credits = 0; finished_at = some now }

unfoldable pub cancel_open : CreditService → ℕ → UsageStatus → AiUsageEvent → Tx AiUsageEvent
unfolding load_event update_event refund_event_credits adjust_daily_usage
cancel_open svc id status e = do
  refund_event_credits id e.reserved_credits reservation_refund
  adjust_daily_usage (subject_from_event e) e.started_at (sub_ℕ 0 e.reserved_credits)
  update_event id (λ s. cancel_event status svc.now)
  load_event id

abbrev pub is_cancellation : UsageStatus → Bool
is_cancellation cancelled = true
is_cancellation failed_before_provider = true
is_cancellation _ = false

unfoldable pub cancel_reservation_with_status : CreditService → ℕ → UsageStatus → Tx AiUsageEvent
unfolding cancel_open
cancel_reservation_with_status svc id status =
    if not (is_cancellation status)
    then fail invalid_status
    else do e ← load_event id; if is_reserved e.status then cancel_open svc id status e else pure e

unfoldable pub cancel_reservation : CreditService → ℕ → Tx AiUsageEvent
unfolding cancel_reservation_with_status
cancel_reservation svc id = cancel_reservation_with_status svc id cancelled
