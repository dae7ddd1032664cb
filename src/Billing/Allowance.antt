-- ===== src/Billing/Allowance.antt =====
-- Who may spend how much: subjects, plans, balances and `checkAllowanceTx` of internal/billing/credits.go.
pub mod Verdict
use finnri_api.Base.{
  ℕ, ◌-◌, ◌/◌, ltb, leb, ◌==◌, holds, is_none, Bool, true, false, not, ◌&&◌, ◌||◌, if◌then◌else◌,
  String, str_eq, is_blank, trim_space, Option, none, some,
}
use finnri_api.Result.{Result, ok, err, ◌>>=◌}
use finnri_api.Table.{find_row, first_row, last_by, sum_rows}
use finnri_api.Ai.{Action, price_of, maximum_of, ActionRegistry, require_implemented}
use finnri_api.Billing.Data.{
  Plan, UserSubscription, CreditGrant, DailyCreditUsage, CreditSubject, AllowanceResult, Allowance,
  allowed, subject_required, feature_locked, guest_not_allowed, insufficient_ai_credits,
  daily_ai_limit_reached, no_action, no_plan, day, logged_in_free_daily_limit, guest_daily_limit,
}
use finnri_api.Billing.Tx.{Store}

-- The clock is read once in an operation. `audio_micros ms price` is Go's
-- int64(float64(ms) / 60000 * float64(price)), a product of floats; `rfc3339` is
-- Format(time.RFC3339) of a time.
pub record CreditService : Type 0 where
  pub registry : ActionRegistry
  pub now : ℕ
  pub audio_micros : ℕ → ℕ → ℕ
  pub rfc3339 : ℕ → String

unfoldable pub is_valid : CreditSubject → Bool
is_valid c =
    elim c.user_id [ none ↦ false | some u ↦ not (u == 0) ] || not (is_blank c.guest_device_id_hash)

unfoldable pub is_guest : CreditSubject → Bool
is_guest c = is_none c.user_id && not (is_blank c.guest_device_id_hash)

-- `scopeGrants`, `scopeDailyUsage` and `scopeUsageEvents`: the rows of a subject.
unfoldable pub in_scope : CreditSubject → Option ℕ → String → Bool
in_scope c user hash = elim c.user_id [
  | none ↦ str_eq hash (trim_space c.guest_device_id_hash)
  | some u ↦ holds user u
]

-- expires_at IS NULL OR expires_at > now
abbrev pub unexpired : Option ℕ → ℕ → Bool
unexpired none now = true
unexpired (some t) now = ltb now t

unfoldable pub is_spendable : CreditSubject → ℕ → CreditGrant → Bool
unfolding in_scope
is_spendable c now g =
    leb g.valid_from now
    && unexpired g.expires_at now
    && ltb 0 g.credits_remaining
    && in_scope c g.user_id g.guest_device_id_hash

unfoldable pub spendable_credits : CreditSubject → ℕ → CreditGrant → ℕ
unfolding is_spendable
spendable_credits c now g = if is_spendable c now g then g.credits_remaining else 0

unfoldable pub available_credits : Store → CreditSubject → ℕ → ℕ
unfolding spendable_credits
available_credits s c now = sum_rows (spendable_credits c now) s.grants.rows

abbrev pub usage_day : ℕ → ℕ
usage_day t = t / day

unfoldable pub is_daily_row : CreditSubject → ℕ → DailyCreditUsage → Bool
unfolding in_scope
is_daily_row c date u = (u.usage_date == date) && in_scope c u.user_id u.guest_device_id_hash

unfoldable pub daily_credits_used : Store → CreditSubject → ℕ → ℕ
unfolding is_daily_row
daily_credits_used s c now = elim (first_row (is_daily_row c (usage_day now)) s.daily.rows) [
  | none ↦ 0
  | some (i, u) ↦ u.credits_used
]

abbrev pub has_period_at : ℕ → UserSubscription → Bool
has_period_at now s = leb s.current_period_start now && ltb now s.current_period_end

is_current : ℕ → ℕ → UserSubscription → Bool
is_current user now s =
    (s.user_id == user)
    && (str_eq s.status "trialing" || str_eq s.status "active")
    && has_period_at now s

-- `Preload("Plan")`
unfoldable pub plan_of : Store → UserSubscription → Plan
plan_of s sub = elim (find_row sub.plan_id s.plans.rows) [ none ↦ no_plan | some p ↦ p ]

unfoldable pub active_plan : Store → CreditSubject → ℕ → Option (Plan × ℕ)
unfolding is_current plan_of
active_plan s c now = elim c.user_id [
  | none ↦ none
  | some u ↦ elim (last_by (is_current u now) (λ x. x.current_period_end) s.subscriptions.rows) [
    | none ↦ none
    | some (i, sub) ↦ some (plan_of s sub, i)
  ]
]

unfoldable pub daily_limit_for_subject : CreditSubject → Option (Plan × ℕ) → ℕ
unfolding is_guest
daily_limit_for_subject c none =
    if is_guest c then guest_daily_limit else logged_in_free_daily_limit
daily_limit_for_subject c (some (p, i)) =
    if ltb 0 p.daily_credit_limit
    then p.daily_credit_limit
    else if is_guest c
    then guest_daily_limit
    else logged_in_free_daily_limit

abbrev pub no_allowance : AllowanceResult
no_allowance = record {
  is_allowed = false;
  reason = subject_required;
  action = no_action;
  required_credits = 0;
  available_credits = 0;
  daily_limit = 0;
  used_today = 0;
  daily_remaining = 0;
  plan_code = "";
  paid_plan_active = false;
  current_subscription_id = none;
}

unfoldable pub with_plan : Option (Plan × ℕ) → AllowanceResult → AllowanceResult
with_plan none r = r
with_plan (some (p, i)) r = record r {
  paid_plan_active = true;
  plan_code = p.code;
  current_subscription_id = some i;
}

-- The balances, and the verdict on them.
unfoldable pub weigh : AllowanceResult → ℕ → ℕ → ℕ → AllowanceResult
weigh r limit used available =
    let left = limit - used in
    let r' = record r {
      daily_limit = limit;
      used_today = used;
      available_credits = available;
      daily_remaining = left;
    } in
    if ltb 0 limit && ltb left r.required_credits
    then record r' { reason = daily_ai_limit_reached }
    else if ltb available r.required_credits
    then record r' { reason = insufficient_ai_credits }
    else record r' { is_allowed = true }

unfoldable pub allow : Store → CreditSubject → ℕ → Action → Option (Plan × ℕ) → AllowanceResult
unfolding with_plan weigh daily_limit_for_subject daily_credits_used available_credits
allow s c now action plan =
    let priced = record no_allowance {
      action = action;
      required_credits = price_of action;
      reason = allowed;
    } in
    let planned = with_plan plan priced in
    if is_guest c && not action.guest_allowed
    then record priced { reason = guest_not_allowed }
    else if action.paid_plan_required && is_none plan
    then record planned { reason = feature_locked }
    else weigh planned (daily_limit_for_subject c plan) (daily_credits_used s c now)
        (available_credits s c now)

-- `CheckAllowance` is this on its own.
unfoldable pub check_allowance :
    CreditService → CreditSubject → String → Store → Result AllowanceResult
unfolding is_valid is_guest allow active_plan
check_allowance svc c code s = if not (is_valid c) then ok no_allowance else do
  action ← require_implemented svc.registry code
  ok (allow s c svc.now action (active_plan s c svc.now))
