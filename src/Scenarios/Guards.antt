-- ===== src/Scenarios/Guards.antt =====
-- The theorems on what keeps a subject from a read by AI at concrete inputs.
use finnri_api.Base.{
  ℕ, ◌≡◌, ◌≤◌, ◌<◌, ◌↔◌, leb, refl, arith, true, ◌&&◌, none, some, List, [], ◌∷◌, length,
  trim_space,
}
use finnri_api.Money.{byte_length}
use finnri_api.Table.{select}
use finnri_api.Billing.Data.{CreditSubject, AiUsageEvent, failed_after_provider}
use finnri_api.AiGuard.Breaker.{
  ProviderCircuitBreaker, closed_breaker, refused, allow, record_failure,
}
use finnri_api.AiGuard.Breaker.Trips.{start, step, failed, fail_all, allow_iff, fail_all_trips}
use finnri_api.AiGuard.Blocks.{CooldownSettings, is_failed, active_ai_failure_cooldown}
use finnri_api.AiGuard.Blocks.Pause.{Recent, window_start, active_ai_failure_cooldown_iff}
use finnri_api.AiGuard.Fingerprint.{valid_guest_device_fingerprint}
use finnri_api.AiGuard.Fingerprint.Valid.{all_allowed, varies, valid_guest_device_fingerprint_lem}

-- One failure opens the breaker for 60 nanoseconds.
abbrev tripped : ProviderCircuitBreaker
unfolding record_failure
tripped = record_failure closed_breaker 1000 1 60

allow_iff_example :
    (allow tripped 1020 ≡ refused 1060)
    ↔ ((1 ≤ tripped.consecutive_failures) × (tripped.open_until ≡ some 1060) × (1020 < 1060))
unfolding record_failure
allow_iff_example =
    allow_iff 1 60 (omega arith, omega arith, omega arith, omega arith) 1020 1060
      (step 0 closed_breaker (record_failure closed_breaker 1000 1 60) start
        (failed closed_breaker 1000))
      (omega arith)

fail_all_trips_example :
    allow
      (fail_all 2 60
        (omega arith, omega arith, omega arith, omega arith)
        closed_breaker
        (990 ∷ [])
        1000)
      1020
    ≡ refused 1060
fail_all_trips_example =
    fail_all_trips 2 60 (omega arith, omega arith, omega arith, omega arith) (990 ∷ []) 1000 1020
      (omega arith)

abbrev user : CreditSubject
user = record { user_id = some 1; guest_device_id_hash = "" }

abbrev cooldown : CooldownSettings
cooldown = record { threshold = 1; window_minutes = 10; minutes = 5 }

abbrev failed_read : AiUsageEvent
failed_read = record {
  user_id = some 1;
  guest_device_id_hash = "";
  request_id = "r";
  idempotency_key = "k";
  action_code = "transaction_parse_text";
  input_kind = "text";
  status = failed_after_provider;
  estimated_credits = 5;
  reserved_credits = 5;
  final_credits = 5;
  estimated_cost_usd_micros = 0;
  details = record {
    provider = "";
    model = "";
    secondary_provider = "";
    secondary_model = "";
    error_code = "";
    intent = "";
    actual_cost_usd_micros = none;
    prompt_tokens = none;
    completion_tokens = none;
    total_tokens = none;
    audio_duration_ms = none;
    audio_bytes = none;
    input_chars = none;
    response_bytes = none;
    provider_started_at = none;
  };
  started_at = 800000000000;
  finished_at = none;
}

abbrev events : List (ℕ × AiUsageEvent)
events = (1, failed_read) ∷ []

pause_active : (active_ai_failure_cooldown cooldown user 900000000000 events).0 ≡ true
unfolding active_ai_failure_cooldown
pause_active = refl

active_ai_failure_cooldown_iff_example :
    ((active_ai_failure_cooldown cooldown user 900000000000 events).0 ≡ true) ↔ (
      (1 ≤ length (select (is_failed user (window_start cooldown 900000000000)) events))
      × Recent cooldown 900000000000 (is_failed user (window_start cooldown 900000000000)) events)
active_ai_failure_cooldown_iff_example =
    active_ai_failure_cooldown_iff cooldown user 900000000000 events
      (omega arith, omega arith, omega arith, omega arith, omega arith, omega arith)

valid_guest_device_fingerprint_lem_example :
    let id = trim_space " web-1234.abcd " in
    valid_guest_device_fingerprint " web-1234.abcd "
    ≡ ((leb 12 (byte_length id) && leb (byte_length id) 256) && (all_allowed id && varies id))
valid_guest_device_fingerprint_lem_example = valid_guest_device_fingerprint_lem " web-1234.abcd "

taken : valid_guest_device_fingerprint " web-1234.abcd " ≡ true
unfolding valid_guest_device_fingerprint
taken = refl
