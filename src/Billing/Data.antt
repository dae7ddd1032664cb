-- ===== src/Billing/Data.antt =====
-- The rows of the billing tables (internal/models/billing.go) and the values that the credit service
-- passes round (internal/billing/credits.go). A `*uint` is an `Option ℕ`. A time is the number of
-- nanoseconds since Go's zero time. The columns that carry credits are natural numbers, which the
-- CHECK constraints of internal/database/schema.go enforce. `created_at` and `updated_at` are left
-- out, and so are the columns that the service neither reads nor sets.
use finnri_api.Base.{ℕ, Bool, true, false, String, Option, [], ◌*◌}
use finnri_api.Base.Int.{ℤ, pos}
use finnri_api.Ai.{Action, InputKind, no_limits}

pub data GrantSource : Type 0 where
  free_trial subscription_period manual_adjustment : GrantSource

pub data Direction : Type 0 where
  grant debit refund expiry : Direction

pub data UsageStatus : Type 0 where
  reserved succeeded failed_before_provider failed_after_provider cancelled : UsageStatus

pub data Allowance : Type 0 where
  allowed subject_required feature_locked guest_not_allowed : Allowance
  insufficient_ai_credits daily_ai_limit_reached : Allowance

abbrev pub same_source : GrantSource → GrantSource → Bool
same_source free_trial free_trial = true
same_source subscription_period subscription_period = true
same_source manual_adjustment manual_adjustment = true
same_source _ _ = false

abbrev pub same_direction : Direction → Direction → Bool
same_direction grant grant = true
same_direction debit debit = true
same_direction refund refund = true
same_direction expiry expiry = true
same_direction _ _ = false

abbrev pub is_reserved : UsageStatus → Bool
is_reserved reserved = true
is_reserved _ = false

pub record Plan : Type 0 where
  pub code : String
  pub name : String
  pub billing_interval : String
  pub price_minor : ℕ
  pub list_price_minor : ℕ
  pub currency : String
  pub included_credits : ℕ
  pub daily_credit_limit : ℕ
  pub is_public : Bool
  pub requires_login : Bool
  pub requires_prior_paid_months : ℕ

pub record UserSubscription : Type 0 where
  pub user_id : ℕ
  pub plan_id : ℕ
  pub status : String
  pub current_period_start : ℕ
  pub current_period_end : ℕ
  pub cancel_at_period_end : Bool

pub record CreditGrant : Type 0 where
  pub user_id : Option ℕ
  pub guest_device_id_hash : String
  pub source : GrantSource
  pub credits_granted : ℕ
  pub credits_remaining : ℕ
  pub valid_from : ℕ
  pub expires_at : Option ℕ
  pub subscription_id : Option ℕ

pub record CreditLedger : Type 0 where
  pub user_id : Option ℕ
  pub guest_device_id_hash : String
  pub grant_id : Option ℕ
  pub direction : Direction
  pub credits : ℕ
  pub balance_after : ℕ
  pub reason_code : String
  pub idempotency_key : String
  pub ai_usage_event_id : Option ℕ

-- The columns of a usage event that `copyUsageUpdates` fills.
pub record UsageDetails : Type 0 where
  pub provider : String
  pub model : String
  pub secondary_provider : String
  pub secondary_model : String
  pub error_code : String
  pub intent : String
  pub actual_cost_usd_micros : Option ℕ
  pub prompt_tokens : Option ℕ
  pub completion_tokens : Option ℕ
  pub total_tokens : Option ℕ
  pub audio_duration_ms : Option ℕ
  pub audio_bytes : Option ℕ
  pub input_chars : Option ℕ
  pub response_bytes : Option ℕ
  pub provider_started_at : Option ℕ

pub record AiUsageEvent : Type 0 where
  pub user_id : Option ℕ
  pub guest_device_id_hash : String
  pub request_id : String
  pub idempotency_key : String
  pub action_code : String
  pub input_kind : InputKind
  pub status : UsageStatus
  pub estimated_credits : ℕ
  pub reserved_credits : ℕ
  pub final_credits : ℕ
  pub estimated_cost_usd_micros : ℕ
  pub details : UsageDetails
  pub started_at : ℕ
  pub finished_at : Option ℕ

pub record AiUsageLimitEvent : Type 0 where
  pub user_id : Option ℕ
  pub guest_device_id_hash : String
  pub action_code : String
  pub reason : Allowance
  pub required_credits : ℕ
  pub available_credits : ℕ
  pub daily_limit : ℕ
  pub used_today : ℕ
  pub daily_remaining : ℕ
  pub plan_code : String
  pub created_at : ℕ

pub record AiModelPricing : Type 0 where
  pub provider : String
  pub model : String
  pub operation : String
  pub input_token_usd_micros : ℕ
  pub output_token_usd_micros : ℕ
  pub audio_minute_usd_micros : ℕ
  pub request_usd_micros : ℕ
  pub credit_usd_micros : ℕ
  pub active : Bool
  pub updated_at : ℕ

-- `usage_date` is the day's number, in place of its text YYYY-MM-DD.
pub record DailyCreditUsage : Type 0 where
  pub user_id : Option ℕ
  pub guest_device_id_hash : String
  pub usage_date : ℕ
  pub credits_used : ℕ

pub record GuestUsageKey : Type 0 where
  pub guest_device_id_hash : String
  pub ip_hash : String
  pub first_seen_at : ℕ
  pub last_seen_at : ℕ
  pub trial_grant_id : Option ℕ

pub record CreditSubject : Type 0 where
  pub user_id : Option ℕ
  pub guest_device_id_hash : String

pub record AllowanceResult : Type 0 where
  pub is_allowed : Bool
  pub reason : Allowance
  pub action : Action
  pub required_credits : ℕ
  pub available_credits : ℕ
  pub daily_limit : ℕ
  pub used_today : ℕ
  pub daily_remaining : ℕ
  pub plan_code : String
  pub paid_plan_active : Bool
  pub current_subscription_id : Option ℕ

pub record AiAbuseBlock : Type 0 where
  pub user_id : Option ℕ
  pub guest_device_id_hash : String
  pub scope : String
  pub reason_code : String
  pub active : Bool
  pub expires_at : Option ℕ
  pub created_at : ℕ

-- What the caller reports of a finished provider call. The integers are the caller's, unchecked.
pub record ProviderUsage : Type 0 where
  pub status : String
  pub provider : String
  pub model : String
  pub secondary_provider : String
  pub secondary_model : String
  pub final_credits : Option ℤ
  pub estimated_cost_usd_micros : Option ℤ
  pub actual_cost_usd_micros : Option ℤ
  pub prompt_tokens : Option ℤ
  pub completion_tokens : Option ℤ
  pub total_tokens : Option ℤ
  pub audio_duration_ms : Option ℤ
  pub audio_bytes : Option ℤ
  pub input_chars : Option ℤ
  pub response_bytes : Option ℤ
  pub error_code : String
  pub intent : String
  pub provider_started_at : Option ℕ
  pub finished_at : Option ℕ

-- Go's zero values.
abbrev pub no_action : Action
no_action = record {
  code = "";
  label = "";
  input_kind = "";
  guest_allowed = false;
  default_credits = pos 0;
  max_credits = pos 0;
  provider_operations = [];
  input_limits = no_limits;
  paid_plan_required = false;
  implemented = false;
}

abbrev pub no_plan : Plan
no_plan = record {
  code = "";
  name = "";
  billing_interval = "";
  price_minor = 0;
  list_price_minor = 0;
  currency = "";
  included_credits = 0;
  daily_credit_limit = 0;
  is_public = false;
  requires_login = false;
  requires_prior_paid_months = 0;
}

abbrev pub day : ℕ
day = 24 * 60 * 60 * 1_000_000_000

abbrev pub trial_duration : ℕ
trial_duration = 30 * day

abbrev pub logged_in_free_trial_credits : ℕ
logged_in_free_trial_credits = 1000

abbrev pub guest_trial_credits : ℕ
guest_trial_credits = 300

abbrev pub logged_in_free_daily_limit : ℕ
logged_in_free_daily_limit = 50

abbrev pub guest_daily_limit : ℕ
guest_daily_limit = 50

abbrev pub default_credit_cost_usd_micros : ℕ
default_credit_cost_usd_micros = 100
