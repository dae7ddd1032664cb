-- ===== src/Scenarios.antt =====
-- Concrete runs of the credit service: a user with a grant of 1000 credits takes a text parse.
mod Amounts
mod Guards
mod CardRuns
mod Plans
mod Passes
mod Groups
mod DueDates
mod Periods
use finnri_api.Base.{
  ℕ, ◌+◌, trim_space, append, decimal, ◌*◌, ◌≡◌, ◌≤◌, ◌↔◌, ◌⊎◌, refl, true, false, none, some, List,
  [], ◌∷◌,
}
use finnri_api.Base.Int.{pos, negsuc}
use native.Mathlib.Omega.{arith}
use finnri_api.Result.{conflict, Result, ok, err}
use finnri_api.Table.{
  Table, find_row, first_row, update_row, insert, update, select, last_by, sum_rows,
}
use finnri_api.Ai.{
  Action, price_of, maximum_of, default_action_registry, require, require_implemented,
}
use finnri_api.Billing.Data.{
  is_reserved, CreditGrant, CreditSubject, AllowanceResult, AiUsageEvent, ProviderUsage,
  UserSubscription, Plan, manual_adjustment, day, no_action, no_plan, cancelled,
  failed_before_provider,
}
use finnri_api.Billing.Tx.{transaction, Store}
use finnri_api.Billing.Allowance.{
  CreditService, no_allowance, is_valid, check_allowance, available_credits, daily_credits_used,
}
use finnri_api.Billing.Reservation.{
  reserve_credits, new_event, reserve_body, reserve_allowed, earlier_event, replayed,
}
use finnri_api.Billing.Settlement.{finalize_usage, cancel_reservation_with_status}
use finnri_api.Billing.Settlement.Capped.{finalize_usage-capped}
use finnri_api.Billing.Reservation.Charge.{reserve_credits-charges}
use finnri_api.Billing.Reservation.Replay.{reserve_credits-replay}
use finnri_api.Billing.Settlement.Closing.{IsClosed, finalize_usage-once, cancel_reservation-once}
use finnri_api.Ai.Sound.{IsPriced, require-IsPriced, default_action_registry-validate}
use finnri_api.Billing.Allowance.Verdict.{MaySpend, check_allowance_iff}
use mathlib.Core.List.{Permᴰ}
use finnri_api.Billing.Debit.{order_grants, debit_available_grants}
use finnri_api.Billing.Debit.Conserve.{Took, debit_available_grants-Took}
use finnri_api.Billing.Grants.{
  Granted, grant_subscription_period, ensure_logged_in_free_trial_grant,
}
use finnri_api.Billing.Grants.Once.{grant_subscription_period-once}
use finnri_api.Billing.Revocation.{
  emptied, is_expired, is_period_of, expire_credits, revoke_subscription_credits,
}
use finnri_api.Billing.Revocation.Sweep.{
  expire_credits_complete, revoke_subscription_credits_complete,
}
use finnri_api.Billing.Tranches.{tranche_policy_for_interval, sync_subscription_tranches}
use finnri_api.Billing.Tranches.Bounds.{sync_subscription_tranches-created}
use finnri_api.Billing.Entitlements.{FeatureRule, find_rule, active_paid_plan, check}
use finnri_api.Billing.Entitlements.Checks.{check_iff}
use finnri_api.Billing.Balance.{IsSound, inflow, outflow}
use finnri_api.Billing.Balance.Rules.{OnSuccess}
use finnri_api.Billing.Balance.History.{
  perform, cancel, Call, user_trial, reserve, finalize, adjust, expire, perform_all,
  perform_all-IsSound,
}
use finnri_api.Table.Laws.{IsKeyed}

abbrev pub service : CreditService
service = record {
  registry = default_action_registry;
  now = 400 * day;
  audio_micros = λ ms price. 0;
  rfc3339 = λ t. "2001-02-05T00:00:00Z";
}

abbrev no_rows : {A : Type 0} → Table A
no_rows = record { rows = []; next_id = 1 }

abbrev pub empty : Store
empty = record {
  plans = no_rows;
  subscriptions = no_rows;
  grants = no_rows;
  ledger = no_rows;
  events = no_rows;
  limit_events = no_rows;
  pricing = no_rows;
  daily = no_rows;
  guest_keys = no_rows;
  abuse_blocks = no_rows;
}

abbrev pub user : CreditSubject
user = record { user_id = some 7; guest_device_id_hash = "" }

abbrev pub gift : CreditGrant
gift = record {
  user_id = some 7;
  guest_device_id_hash = "";
  source = manual_adjustment;
  credits_granted = 1000;
  credits_remaining = 1000;
  valid_from = 0;
  expires_at = none;
  subscription_id = none;
}

abbrev pub funded : Store
funded = record empty { grants = record { rows = (1, gift) ∷ []; next_id = 2 } }

abbrev outcome : AllowanceResult × Result (ℕ × AiUsageEvent) × Store
outcome = reserve_credits service user "transaction_parse_text" "key" "request" funded

abbrev opened : Store
opened = outcome.2

event_of : Result (ℕ × AiUsageEvent) → ℕ × AiUsageEvent
event_of (ok r) = r
event_of (err e) = (0, new_event service user no_allowance "" "")

abbrev pub action_of : Result Action → Action
action_of (ok a) = a
action_of (err e) = no_action

abbrev event : ℕ × AiUsageEvent
event = event_of outcome.1

funded-reserve_credits :
    reserve_credits service user "transaction_parse_text" "key" "request" funded
    ≡ (outcome.0, ok event, opened)
unfolding reserve_credits event_of reserve_body earlier_event trim_space first_row check_allowance
    require_implemented default_action_registry last_by sum_rows reserve_allowed select find_row
    append
funded-reserve_credits = refl

funded_is_new : earlier_event funded user (trim_space "key") ≡ none
unfolding earlier_event trim_space first_row
funded_is_new = refl

funded-IsKeyed : IsKeyed funded.grants.rows
unfolding find_row
funded-IsKeyed = (refl, tt)

reserve_credits-charges_example :
    (event.1.reserved_credits ≡ outcome.0.required_credits)
    × (available_credits opened user service.now + outcome.0.required_credits
        ≡ available_credits funded user service.now)
    × (daily_credits_used opened user service.now
        ≡ daily_credits_used funded user service.now + outcome.0.required_credits)
reserve_credits-charges_example =
    reserve_credits-charges service user "transaction_parse_text" "key" "request" funded
      {a = outcome.0} {r = event} {t = opened} funded-IsKeyed tt funded_is_new
      funded-reserve_credits

abbrev pub action : Action
action = action_of (require default_action_registry "transaction_parse_text")

pub registered : require default_action_registry "transaction_parse_text" ≡ ok action
unfolding require default_action_registry
registered = refl

implemented : require_implemented default_action_registry "transaction_parse_text" ≡ ok action
unfolding require_implemented require default_action_registry
implemented = refl

known : require service.registry event.1.action_code ≡ ok action
unfolding event_of reserve_credits require default_action_registry reserve_body earlier_event
    trim_space first_row check_allowance require_implemented last_by sum_rows reserve_allowed select
    find_row append
known = refl

reserve_credits-replay_example :
    reserve_credits service user "transaction_parse_receipt" "key" "other" opened
    ≡ (replayed action event.1, ok event, opened)
reserve_credits-replay_example =
    reserve_credits-replay service user "transaction_parse_text" "key" "request" funded
      {a = outcome.0} {r = event} {t = opened} funded-IsKeyed tt (unfold trim_space in refl)
      funded_is_new funded-reserve_credits service "transaction_parse_receipt" "other"
      {action = action} known

abbrev usage : ProviderUsage
usage = record {
  status = "";
  provider = "groq";
  model = "llama";
  secondary_provider = "";
  secondary_model = "";
  final_credits = some (pos 3);
  estimated_cost_usd_micros = none;
  actual_cost_usd_micros = none;
  prompt_tokens = some (pos 100);
  completion_tokens = some (negsuc 4);
  total_tokens = none;
  audio_duration_ms = none;
  audio_bytes = none;
  input_chars = none;
  response_bytes = none;
  error_code = "";
  intent = "";
  provider_started_at = none;
  finished_at = none;
}

row_of : Result (AiUsageEvent × Store) → AiUsageEvent
row_of (ok (e, s)) = e
row_of (err e) = event.1

abbrev pub store_of : {A : Type 0} → Result (A × Store) → Store
store_of (ok (a, s)) = s
store_of (err e) = empty

abbrev finalized : Result (AiUsageEvent × Store)
finalized = finalize_usage service 1 usage opened

opened-finalize_usage :
    finalize_usage service 1 usage opened ≡ ok (row_of finalized, store_of finalized)
unfolding finalize_usage row_of find_row reserve_credits reserve_body earlier_event trim_space
    first_row check_allowance require_implemented default_action_registry last_by sum_rows
    reserve_allowed select append insert update update_row
opened-finalize_usage = refl

finalize_usage-once_example :
    IsClosed 1 (row_of finalized) (store_of finalized)
    × (finalize_usage service 1 usage (store_of finalized)
        ≡ ok (row_of finalized, store_of finalized))
    × (cancel_reservation_with_status service 1 cancelled (store_of finalized)
        ≡ ok (row_of finalized, store_of finalized))
finalize_usage-once_example =
    finalize_usage-once service 1 usage opened {e = row_of finalized} {t = store_of finalized}
      opened-finalize_usage service usage cancelled refl

event_stored :
    (find_row 1 opened.events.rows ≡ some event.1)
    × (is_reserved event.1.status ≡ true)
    × (event.1.reserved_credits ≤ (maximum_of action))
unfolding event_of require finalize_usage row_of find_row reserve_credits reserve_body earlier_event
    trim_space first_row check_allowance require_implemented default_action_registry last_by
    sum_rows reserve_allowed select append insert update update_row
event_stored = (refl, refl, omega arith)

finalize_usage-capped_example :
    (find_row 1 (store_of finalized).events.rows ≡ some (row_of finalized))
    × ((row_of finalized).final_credits ≤ (maximum_of action))
finalize_usage-capped_example =
    finalize_usage-capped service 1 usage opened {x = event.1} {e = row_of finalized}
      {action = action} {t = store_of finalized} event_stored.0 event_stored.1 known event_stored.2
      opened-finalize_usage

abbrev cancelled_run : Result (AiUsageEvent × Store)
cancelled_run = cancel_reservation_with_status service 1 cancelled opened

opened-cancel_reservation :
    cancel_reservation_with_status service 1 cancelled opened
    ≡ ok (row_of cancelled_run, store_of cancelled_run)
unfolding cancel_reservation_with_status row_of find_row reserve_credits reserve_body earlier_event
    trim_space first_row check_allowance require_implemented default_action_registry last_by
    sum_rows reserve_allowed select append insert update update_row
opened-cancel_reservation = refl

cancel_reservation-once_example :
    IsClosed 1 (row_of cancelled_run) (store_of cancelled_run)
    × (finalize_usage service 1 usage (store_of cancelled_run)
        ≡ ok (row_of cancelled_run, store_of cancelled_run))
    × (cancel_reservation_with_status service 1 failed_before_provider (store_of cancelled_run)
        ≡ ok (row_of cancelled_run, store_of cancelled_run))
cancel_reservation-once_example =
    cancel_reservation-once service 1 cancelled opened {e = row_of cancelled_run}
      {t = store_of cancelled_run} opened-cancel_reservation service usage failed_before_provider
      refl

check_allowance_iff_example :
    (a : AllowanceResult) × (check_allowance service user "transaction_parse_text" funded ≡ ok a)
    × ((a.is_allowed ≡ true) ↔ MaySpend funded user service.now action)
check_allowance_iff_example =
    check_allowance_iff service user "transaction_parse_text" funded {action = action}
      (unfold is_valid in refl) implemented

debit_available_grants-Took_example :
    OnSuccess
      (Took user service.now 30 funded)
      (debit_available_grants user 30 "reason" "key" none service.now funded)
debit_available_grants-Took_example =
    debit_available_grants-Took user service.now 30 "reason" "key" none funded funded-IsKeyed

empty-IsSound : IsSound empty
unfolding find_row inflow outflow sum_rows
empty-IsSound = record {
  table = record { keyed = tt; fresh = λ id le. refl };
  within = λ id g h. absurd (cc h);
  reconciled = λ id g h. absurd (cc h);
  unopened = λ id le. (refl, refl);
}

abbrev calls : List (CreditService × Call)
calls =
    (service, user_trial 7)
    ∷ (service, reserve user "transaction_parse_text" "key" "request")
    ∷ (service, finalize 1 usage)
    ∷ (service, adjust user (pos 20) "goodwill" "" none)
    ∷ (service, expire)
    ∷ []

perform_all-IsSound_example : IsSound (perform_all calls empty)
perform_all-IsSound_example = perform_all-IsSound calls empty empty-IsSound
