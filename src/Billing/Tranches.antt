-- ===== src/Billing/Tranches.antt =====
-- internal/billing/tranches.go: the monthly slices of a subscription, each granted once.
pub mod Bounds
use finnri_api.Base.{
  ℕ, zero, suc, ◌+◌, ◌-◌, ◌*◌, ◌/◌, ltb, leb, ◌==◌, not, ◌&&◌, ◌||◌, if◌then◌else◌, String, str_eq,
  Option, none, some,
}
use finnri_api.Result.{Result, ok, err, record_not_found, subscription_required}
use finnri_api.Table.{find_row}
use finnri_api.Billing.Data.{Plan, UserSubscription, day}
use finnri_api.Billing.Tx.{Store}
use finnri_api.Billing.Allowance.{CreditService}
use finnri_api.Billing.Grants.{grant_subscription_period}

abbrev pub tranche : ℕ
tranche = 30 * day

pub record TranchePolicy : Type 0 where
  pub credits : ℕ
  pub count : ℕ
  pub rollover_count : ℕ

unfoldable pub tranche_policy_for_interval : String → Option TranchePolicy
tranche_policy_for_interval interval =
    if str_eq interval "quarterly"
    then some (record { credits = 3667; count = 3; rollover_count = 1 })
    else if str_eq interval "yearly"
    then some (record { credits = 4000; count = 12; rollover_count = 1 })
    else if str_eq interval "lifetime_quote"
    then some (record { credits = 5000; count = 0; rollover_count = 0 })
    else none

abbrev pub tranche_start : UserSubscription → ℕ → ℕ
tranche_start sub index = sub.current_period_start + index * tranche

abbrev pub tranche_end : TranchePolicy → UserSubscription → ℕ → ℕ
tranche_end p sub index = tranche_start sub index + (p.rollover_count + 1) * tranche

-- The first and the last slice that are due; a policy with no count is a lifetime one.
unfoldable pub last_index : TranchePolicy → ℕ → ℕ
last_index p current = if ltb 0 p.count && leb p.count current then p.count - 1 else current

unfoldable pub first_index : TranchePolicy → ℕ → ℕ
first_index p current = if ltb 0 p.count then 0 else current

-- `left` slices from `index` on, each in a transaction of its own; an error keeps what was created.
unfoldable pub grant_tranches :
    CreditService
    → ℕ
    → UserSubscription
    → TranchePolicy
    → (left index created : ℕ) → Store
    → (ℕ × Result (Unit {0})) × Store
grant_tranches svc id sub p zero index created s = ((created, ok tt), s)
grant_tranches svc id sub p (suc left) index created s =
    elim (grant_subscription_period svc id sub p.credits (tranche_start sub index)
      (tranche_end p sub index) s) [
        | err e ↦ ((created, err e), s)
        | ok ((g, new), s') ↦
            grant_tranches svc id sub p left (index + 1) (if new then created + 1 else created) s'
      ]

-- An interval with no policy has no slices, and only a lifetime plan has any after its period.
unfoldable pub sync_policy :
    CreditService
    → ℕ
    → UserSubscription
    → Plan
    → Option TranchePolicy
    → Store
    → (ℕ × Result (Unit {0})) × Store
unfolding last_index first_index
sync_policy svc id sub plan none s = ((0, ok tt), s)
sync_policy svc id sub plan (some p) s =
    let current = (svc.now - sub.current_period_start) / tranche in
    let first = first_index p current in
    if not (str_eq plan.billing_interval "lifetime_quote") && leb sub.current_period_end svc.now
    then ((0, ok tt), s)
    else grant_tranches svc id sub p (last_index p current + 1 - first) first 0 s

unfoldable pub sync_plan :
    CreditService → ℕ → UserSubscription → Option Plan → Store → (ℕ × Result (Unit {0})) × Store
unfolding sync_policy tranche_policy_for_interval
sync_plan svc id sub none s = ((0, err record_not_found), s)
sync_plan svc id sub (some plan) s =
    sync_policy svc id sub plan (tranche_policy_for_interval plan.billing_interval) s

-- The plan comes with the subscription, or is loaded.
abbrev pub loaded_plan : UserSubscription → Option Plan → Store → Option Plan
loaded_plan sub none s = find_row sub.plan_id s.plans.rows
loaded_plan sub (some plan) s = some plan

unfoldable pub sync_subscription_tranches :
    CreditService → ℕ → UserSubscription → Option Plan → Store → (ℕ × Result (Unit {0})) × Store
unfolding sync_plan
sync_subscription_tranches svc id sub preloaded s =
    if (id == 0) || (sub.user_id == 0)
    then ((0, err subscription_required), s)
    else if not (str_eq sub.status "active") || ltb svc.now sub.current_period_start
    then ((0, ok tt), s)
    else sync_plan svc id sub (loaded_plan sub preloaded s) s
