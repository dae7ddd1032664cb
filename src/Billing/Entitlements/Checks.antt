-- ===== src/Billing/Entitlements/Checks.antt =====
-- When a feature is granted.
use finnri_api.Base.{
  ℕ, ◌≡◌, ◌≤◌, ◌<◌, refl, sym, ap, ◌∙◌, true, false, String, str_eq, eq_iff, Option, none, some,
  is_none, Option-cases, ◌↔◌, ◌⊎◌, inl, inr, arith,
}
use mathlib.Core.Option.{some-injective}
use finnri_api.Base.Members.{Has, All-Has}
use finnri_api.Table.{last_by}
use finnri_api.Table.Latest.{IsLatest, last_by-IsLatest}
use finnri_api.Billing.Data.{CreditSubject, Plan, UserSubscription}
use finnri_api.Billing.Tx.{Store}
use finnri_api.Billing.Allowance.{is_valid}
use finnri_api.Billing.Entitlements.{
  FeatureRule, find_rule, default_feature_rules, active_paid_plan, rule_result, check, is_active_at,
}

-- A subscription of the subject's user is active at a time.
pub record HasActive (s : Store) (c : CreditSubject) (now : ℕ) : Type 0 where
  pub user : ℕ
  pub row : ℕ
  pub sub : UserSubscription
  pub owner : c.user_id ≡ some user
  pub listed : Has (row, sub) s.subscriptions.rows
  pub owned : sub.user_id ≡ user
  pub active : sub.status ≡ "active"
  pub begun : sub.current_period_start ≤ now
  pub unended : now < sub.current_period_end

active_row :
    (user now : ℕ) (x : UserSubscription)
    → is_active_at user now x ≡ true
    → (x.user_id ≡ user)
      × (x.status ≡ "active")
      × (x.current_period_start ≤ now)
      × (now < x.current_period_end)
active_row user now x h =
    let texts : str_eq x.status "active" ≡ true = ground arith in
    (ground arith, (eq_iff x.status "active").0 texts, ground arith, ground arith)

active_test :
    (user now : ℕ) (x : UserSubscription)
    → x.user_id ≡ user
    → x.status ≡ "active"
    → x.current_period_start ≤ now
    → now < x.current_period_end
    → is_active_at user now x ≡ true
active_test user now x o a b e =
    let texts : str_eq x.status "active" ≡ true = (eq_iff x.status "active").1 a in ground arith

latest_active :
    (s : Store) (c : CreditSubject) (now user : ℕ) (found : Option (ℕ × UserSubscription))
    → c.user_id ≡ some user
    → IsLatest (is_active_at user now) (λ x. x.current_period_end) s.subscriptions.rows found
    → (is_none found ≡ false) ↔ HasActive s c now
latest_active s c now user none o h = (
  λ e. absurd (cc e),
  λ a.
      let same : a.user ≡ user = some-injective _ _ (sym a.owner ∙ o) in
      let fails = All-Has (λ r. is_active_at user now r.1 ≡ false) (a.row, a.sub) _ a.listed h in
      absurd (cc (fails, active_test user now a.sub (a.owned ∙ same) a.active a.begun a.unended)),
)
latest_active s c now user (some (i, x)) o h =
    let (owned, active, begun, unended) = active_row user now x h.1 in
    (
      λ e. record {
        user = user;
        row = i;
        sub = x;
        owner = o;
        listed = h.0;
        owned = owned;
        active = active;
        begun = begun;
        unended = unended;
      },
      λ a. refl,
    )

unowned :
    (s : Store) (c : CreditSubject) (now : ℕ) → c.user_id ≡ none → active_paid_plan s c now ≡ none
unfolding active_paid_plan
unowned s c now e = rw (active_paid_plan, e) refl

owned_plan :
    (s : Store) (c : CreditSubject) (now user : ℕ)
    → c.user_id ≡ some user
    → is_none (active_paid_plan s c now)
      ≡ is_none (last_by (is_active_at user now) (λ x. x.current_period_end) s.subscriptions.rows)
unfolding active_paid_plan
owned_plan s c now user e =
    rw (active_paid_plan, e)
      (elim (Option-cases
        (last_by (is_active_at user now) (λ x. x.current_period_end) s.subscriptions.rows)) [
          | inl n ↦ rw n refl
          | inr (r, f) ↦ rw f refl
        ])

active_paid_plan_iff :
    (s : Store) (c : CreditSubject) (now : ℕ)
    → (is_none (active_paid_plan s c now) ≡ false) ↔ HasActive s c now
active_paid_plan_iff s c now = elim (Option-cases c.user_id) [
  | inl e ↦ (λ h. absurd (cc (h, ap is_none (unowned s c now e))), λ a. absurd (cc (a.owner, e)))
  | inr (user, e) ↦
      let (there, back) = latest_active s c now user _ e (
        last_by-IsLatest (is_active_at user now) (λ x. x.current_period_end)
          s.subscriptions.rows) in
      let same = owned_plan s c now user e in (λ h. there (sym same ∙ h), λ a. same ∙ back a)
]

rule_result_iff :
    (r : FeatureRule) (plan : Option Plan)
    → ((rule_result r plan).is_allowed ≡ true)
      ↔ ((r.requires_paid_plan ≡ false) ⊎ (is_none plan ≡ false))
unfolding rule_result
rule_result_iff r none = ground arith
rule_result_iff r (some p) = ground arith

-- For a valid subject and a known feature the check gives no error, and it allows the feature
-- exactly when its rule asks for no paid plan, or the subject is a user with a subscription whose
-- status is "active" and whose period has begun and not ended at the time.
pub check_iff :
    (s : Store) (now : ℕ) (c : CreditSubject) (code : String) (r : FeatureRule)
    → is_valid c ≡ true
    → find_rule default_feature_rules code ≡ some r
    → ((check s now c code).1 ≡ none)
      × (((check s now c code).0.is_allowed ≡ true)
          ↔ ((r.requires_paid_plan ≡ false) ⊎ HasActive s c now))
unfolding check
check_iff s now c code r v f =
    let ruled = rule_result_iff r (active_paid_plan s c now) in
    let (there, back) = active_paid_plan_iff s c now in
    rw (v, f)
      (
        refl,
        (
          λ h. elim (ruled.0 h) [ inl free ↦ inl free | inr paid ↦ inr (there paid) ],
          λ d. ruled.1 (elim d [ inl free ↦ inl free | inr a ↦ inr (back a) ]),
        ),
      )
