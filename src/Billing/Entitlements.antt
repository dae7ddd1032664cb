-- ===== src/Billing/Entitlements.antt =====
-- internal/billing/entitlements.go: which features a subject may use.
pub mod Checks
use finnri_api.Base.{
  ℕ, leb, ltb, ◌==◌, Bool, true, false, not, ◌&&◌, if◌then◌else◌, String, str_eq, Option, none,
  some, List, [], ◌∷◌,
}
use finnri_api.Result.{Failure, Result, ok, err, invalid_credit_subject, unknown_feature}
use finnri_api.Table.{last_by}
use finnri_api.Billing.Data.{Plan, UserSubscription, CreditSubject}
use finnri_api.Billing.Tx.{Store}
use finnri_api.Billing.Allowance.{is_valid, has_period_at, plan_of}

pub record FeatureRule : Type 0 where
  pub code : String
  pub label : String
  pub requires_paid_plan : Bool
  pub credit_backed : Bool

pub data Verdict : Type 0 where
  allowed payment_required feature_locked unset : Verdict

pub record EntitlementResult : Type 0 where
  pub is_allowed : Bool
  pub reason : Verdict
  pub feature_code : String
  pub feature_label : String
  pub required_plan : String
  pub plan_code : String
  pub paid_plan_active : Bool
  pub upgrade_required : Bool

abbrev credit_feature : String → String → FeatureRule
credit_feature code label = record {
  code = code;
  label = label;
  requires_paid_plan = false;
  credit_backed = true;
}

abbrev paid_feature : String → String → FeatureRule
paid_feature code label = record {
  code = code;
  label = label;
  requires_paid_plan = true;
  credit_backed = false;
}

abbrev free_feature : String → String → FeatureRule
free_feature code label = record {
  code = code;
  label = label;
  requires_paid_plan = false;
  credit_backed = false;
}

-- The map's keys are the codes.
abbrev pub default_feature_rules : List FeatureRule
default_feature_rules =
    credit_feature "ai_text_capture" "AI text capture"
    ∷ credit_feature "ai_voice_capture" "AI voice capture"
    ∷ paid_feature "advanced_insights" "Advanced insights"
    ∷ paid_feature "weekly_review" "Weekly review"
    ∷ paid_feature "budgets" "Budgets"
    ∷ paid_feature "subscription_reminders" "Subscription reminders"
    ∷ free_feature "split_ledger" "Split ledger"
    ∷ paid_feature "web_dashboard" "Web dashboard"
    ∷ paid_feature "exports" "Exports"
    ∷ paid_feature "bulk_edit" "Bulk edit"
    ∷ paid_feature "future_ai_advisor" "AI advisor"
    ∷ []

unfoldable pub find_rule : List FeatureRule → String → Option FeatureRule
find_rule [] code = none
find_rule (r ∷ rules) code = if str_eq r.code code then some r else find_rule rules code

abbrev pub paid_feature_codes : List String
paid_feature_codes =
    "ai_text_capture" ∷ "ai_voice_capture" ∷ "advanced_insights" ∷ "weekly_review" ∷ "budgets"
    ∷ "subscription_reminders" ∷ "web_dashboard" ∷ "exports" ∷ "bulk_edit" ∷ "future_ai_advisor"
    ∷ []

abbrev pub is_active_at : ℕ → ℕ → UserSubscription → Bool
is_active_at user now s = (s.user_id == user) && str_eq s.status "active" && has_period_at now s

unfoldable pub active_paid_plan : Store → CreditSubject → ℕ → Option Plan
unfolding plan_of
active_paid_plan s c now = elim c.user_id [
  | none ↦ none
  | some u ↦ elim (last_by (is_active_at u now) (λ x. x.current_period_end) s.subscriptions.rows) [
    | none ↦ none
    | some (i, sub) ↦ some (plan_of s sub)
  ]
]

abbrev pub permitted : FeatureRule → EntitlementResult
permitted r = record {
  is_allowed = true;
  reason = allowed;
  feature_code = r.code;
  feature_label = r.label;
  required_plan = "";
  plan_code = "";
  paid_plan_active = false;
  upgrade_required = false;
}

unfoldable pub rule_result : FeatureRule → Option Plan → EntitlementResult
rule_result r plan =
    let paid : EntitlementResult = elim plan [
      | some p ↦ record (permitted r) { paid_plan_active = true; plan_code = p.code }
      | none ↦ record (permitted r) {
        is_allowed = false;
        reason = payment_required;
        required_plan = "paid";
        upgrade_required = true;
      }
    ] in
    if not r.requires_paid_plan then permitted r else paid

-- Go's zero value, and the result beside ErrInvalidCreditSubject.
abbrev no_entitlement : EntitlementResult
no_entitlement = record {
  is_allowed = false;
  reason = unset;
  feature_code = "";
  feature_label = "";
  required_plan = "";
  plan_code = "";
  paid_plan_active = false;
  upgrade_required = false;
}

abbrev pub locked : String → EntitlementResult
locked code = record no_entitlement {
  reason = feature_locked;
  feature_code = code;
  upgrade_required = true;
}

unfoldable pub check_feature : Option FeatureRule → Option Plan → EntitlementResult × Option Failure
unfolding rule_result
check_feature none plan = (no_entitlement, some unknown_feature)
check_feature (some r) plan = (rule_result r plan, none)

-- The result, and the error if there is one.
unfoldable pub check : Store → ℕ → CreditSubject → String → EntitlementResult × Option Failure
unfolding check_feature
check s now c code =
    if not (is_valid c)
    then (locked code, some invalid_credit_subject)
    else check_feature (find_rule default_feature_rules code) (active_paid_plan s c now)
