-- ===== src/Billing/Reservation.antt =====
-- How a usage event is opened (internal/billing/credits.go): `ReserveCredits` takes its price.
-- The request id, which the source draws at random, is an argument.
pub mod Replay
pub mod Price
pub mod Charge
use finnri_api.Base.{
  ℕ, ◌-◌, min, ltb, leb, ◌==◌, holds, Bool, true, false, not, ◌&&◌, ◌||◌, if◌then◌else◌, String,
  str_eq, append, trim_space, Option, none, some,
}
use finnri_api.Base.Int.{ℤ, pos, pos_part, sub_ℕ}
use finnri_api.Result.{
  Failure, Result, ok, err, record_not_found, conflict, invalid_credit_subject, allowance_denied,
  invalid_status,
}
use finnri_api.Table.{find_row, first_row, insert, update}
use finnri_api.Ai.{Action, require}
use finnri_api.Billing.Data.{
  AiUsageEvent, AiUsageLimitEvent, UsageDetails, CreditSubject, AllowanceResult, ProviderUsage,
  UsageStatus, reserved, cancelled, failed_before_provider, is_reserved, allowed,
}
use finnri_api.Billing.Tx.{
  Store, Tx, pure, fail, lift, gets, demand, modify, transaction, ◌>>=◌, ◌>>◌,
}
use finnri_api.Billing.Allowance.{CreditService, is_valid, in_scope, check_allowance, no_allowance}
use finnri_api.Billing.Debit.{debit_available_grants}
use finnri_api.Billing.Refund.{refund_event_credits}
use finnri_api.Billing.Daily.{adjust_daily_usage}
use finnri_api.Billing.Usage.{final_status, finish_event}

abbrev pub reservation_debit : String
reservation_debit = "ai_credit_reservation"

abbrev pub reservation_refund : String
reservation_refund = "ai_credit_refund"

abbrev pub reservation_ledger_key : String → String
reservation_ledger_key request = append "reservation:" request

unfoldable pub find_usage_event : Store → CreditSubject → String → Option (ℕ × AiUsageEvent)
find_usage_event s c key =
    first_row (λ e. str_eq e.idempotency_key key && in_scope c e.user_id e.guest_device_id_hash)
      s.events.rows

-- An empty key names no earlier call.
unfoldable pub earlier_event : Store → CreditSubject → String → Option (ℕ × AiUsageEvent)
unfolding find_usage_event
earlier_event s c key = if str_eq key "" then none else find_usage_event s c key

abbrev pub replayed : Action → AiUsageEvent → AllowanceResult
replayed action e = record no_allowance {
  is_allowed = true;
  reason = allowed;
  action = action;
  required_credits = e.reserved_credits;
  available_credits = e.reserved_credits;
  daily_remaining = e.reserved_credits;
}

abbrev no_details : UsageDetails
no_details = record {
  provider = "";
  model = "";
  secondary_provider = "";
  secondary_model = "";
  error_code = "";
  intent = "";
  actual_cost_usd_micros = none;
  prompt_tokens = none;
  completion_tokens = none;
  total_tokens = none;
  audio_duration_ms = none;
  audio_bytes = none;
  input_chars = none;
  response_bytes = none;
  provider_started_at = none;
}

abbrev pub new_event :
    CreditService → CreditSubject → AllowanceResult → String → String → AiUsageEvent
new_event svc c a key request = record {
  user_id = c.user_id;
  guest_device_id_hash = trim_space c.guest_device_id_hash;
  request_id = request;
  idempotency_key = key;
  action_code = a.action.code;
  input_kind = a.action.input_kind;
  status = reserved;
  estimated_credits = a.required_credits;
  reserved_credits = a.required_credits;
  final_credits = 0;
  estimated_cost_usd_micros = 0;
  details = no_details;
  started_at = svc.now;
  finished_at = none;
}

-- The unique indexes on a user's and on a guest device's idempotency keys.
unfoldable pub has_same_key : AiUsageEvent → AiUsageEvent → Bool
has_same_key e x =
    not (str_eq e.idempotency_key "")
    && str_eq x.idempotency_key e.idempotency_key
    && (elim e.user_id [ none ↦ false | some u ↦ holds x.user_id u ]
        || (not (str_eq e.guest_device_id_hash "")
            && str_eq x.guest_device_id_hash e.guest_device_id_hash))

-- An index forbids the row: `request_id` is UNIQUE too.
unfoldable pub is_taken : AiUsageEvent → Store → Bool
unfolding has_same_key
is_taken e s =
    elim (first_row (λ x. str_eq x.request_id e.request_id || has_same_key e x) s.events.rows) [
      | none ↦ false
      | some r ↦ true
    ]

unfoldable pub create_event : AiUsageEvent → Tx ℕ
unfolding is_taken
create_event e s =
    if is_taken e s
    then err conflict
    else ok (s.events.next_id, record s { events = insert s.events e })

-- What `ReserveCredits` does once the allowance is given.
unfoldable pub reserve_allowed :
    CreditService → CreditSubject → AllowanceResult → String → String → Tx (ℕ × AiUsageEvent)
unfolding create_event debit_available_grants adjust_daily_usage ◌>>=◌
reserve_allowed svc c a key request = do
  let event = new_event svc c a key request
  id ← create_event event
  debit_available_grants c a.required_credits reservation_debit (reservation_ledger_key request)
      (some id) svc.now
  adjust_daily_usage c svc.now (pos a.required_credits)
  pure (id, event)

-- What the transaction gives: the allowance that the caller sees beside an error too, and the
-- event with its key, or the error.
abbrev pub Outcome : Type 0
Outcome = AllowanceResult × Result ((ℕ × AiUsageEvent) × Store)

-- A call whose key was seen before answers with the event of that call.
unfoldable pub reserve_known : ℕ × AiUsageEvent → Result Action → Store → Outcome
reserve_known r (err x) s = (no_allowance, err x)
reserve_known (id, e) (ok action) s = (replayed action e, ok ((id, e), s))

unfoldable pub reserve_fresh :
    CreditService → CreditSubject → String → String → Result AllowanceResult → Store → Outcome
reserve_fresh svc c key request (err e) s = (no_allowance, err e)
reserve_fresh svc c key request (ok a) s =
    (a, (if a.is_allowed then reserve_allowed svc c a key request else fail allowance_denied) s)

unfoldable pub reserve_for :
    CreditService
    → CreditSubject
    → String
    → String
    → String
    → Option (ℕ × AiUsageEvent)
    → Store
    → Outcome
unfolding reserve_known reserve_fresh
reserve_for svc c code key request none s =
    reserve_fresh svc c key request (check_allowance svc c code s) s
reserve_for svc c code key request (some r) s =
    reserve_known r (require svc.registry r.1.action_code) s

-- The body of the transaction.
unfoldable pub reserve_body :
    CreditService → CreditSubject → String → String → String → Store → Outcome
unfolding reserve_for is_valid
reserve_body svc c code key request s =
    if not (is_valid c)
    then (no_allowance, err invalid_credit_subject)
    else reserve_for svc c code key request (earlier_event s c key) s

abbrev pub limit_event : CreditService → CreditSubject → AllowanceResult → AiUsageLimitEvent
limit_event svc c a = record {
  user_id = c.user_id;
  guest_device_id_hash = trim_space c.guest_device_id_hash;
  action_code = a.action.code;
  reason = a.reason;
  required_credits = a.required_credits;
  available_credits = a.available_credits;
  daily_limit = a.daily_limit;
  used_today = a.used_today;
  daily_remaining = a.daily_remaining;
  plan_code = a.plan_code;
  created_at = svc.now;
}

-- `recordAllowanceDenial`, after the rollback
unfoldable pub record_allowance_denial :
    CreditService → CreditSubject → AllowanceResult → Store → Store
unfolding is_valid
record_allowance_denial svc c a s =
    if is_valid c
    then record s { limit_events = insert s.limit_events (limit_event svc c a) }
    else s

is_denial : Failure → Bool
is_denial allowance_denied = true
is_denial _ = false

-- A denial is recorded after the rollback; any other error leaves the store as it was.
unfoldable pub reserve_result :
    CreditService
    → CreditSubject
    → Store
    → AllowanceResult
    → Result ((ℕ × AiUsageEvent) × Store)
    → AllowanceResult × Result (ℕ × AiUsageEvent) × Store
unfolding record_allowance_denial is_denial
reserve_result svc c s a (ok (event, s')) = (a, ok event, s')
reserve_result svc c s a (err e) =
    (a, err e, (if is_denial e then record_allowance_denial svc c a s else s))

unfoldable pub reserve_credits :
    CreditService
    → CreditSubject
    → String
    → String
    → String
    → Store
    → AllowanceResult × Result (ℕ × AiUsageEvent) × Store
unfolding reserve_result
reserve_credits svc c code key request s =
    let (a, r) = reserve_body svc c code (trim_space key) request s in reserve_result svc c s a r
