-- ===== src/Scenarios/Periods.antt =====
-- Concrete runs of the credit service: periods, trials, expiry and revocation, and the features of a
-- plan.
use finnri_api.Base.{
  ◌+◌, length, inl, inr, ℕ, trim_space, append, decimal, ◌*◌, ◌≡◌, ◌≤◌, ◌↔◌, ◌⊎◌, refl, true, false,
  none, some, [], ◌∷◌,
}
use finnri_api.Result.{conflict, Result, ok, err}
use finnri_api.Table.{find_row, first_row, update_row, insert, update, select, last_by, sum_rows}
use finnri_api.Ai.{default_action_registry, require_implemented}
use finnri_api.Billing.Data.{CreditGrant, UserSubscription, Plan, day, no_plan, cancelled}
use finnri_api.Billing.Tx.{transaction, Store}
use finnri_api.Billing.Allowance.{CreditService, is_valid, check_allowance}
use finnri_api.Billing.Reservation.{reserve_credits, reserve_body, reserve_allowed, earlier_event}
use finnri_api.Billing.Settlement.{cancel_reservation_with_status}
use finnri_api.Ai.Sound.{IsPriced, require-IsPriced, default_action_registry-validate}
use finnri_api.Billing.Grants.{
  Granted, grant_subscription_period, ensure_logged_in_free_trial_grant,
}
use finnri_api.Billing.Grants.Once.{IsPeriodGrant, grant_subscription_period-once}
use finnri_api.Billing.Revocation.{
  emptied, is_expired, is_period_of, expire_credits, revoke_subscription_credits,
}
use finnri_api.Billing.Revocation.Sweep.{
  expire_credits_complete, revoke_subscription_credits_complete,
}
use finnri_api.Billing.Tranches.{tranche_policy_for_interval, sync_subscription_tranches}
use finnri_api.Billing.Tranches.Bounds.{sync_subscription_tranches-created}
use finnri_api.Billing.Entitlements.{FeatureRule, find_rule, check}
use finnri_api.Billing.Entitlements.Checks.{HasActive, check_iff}
use finnri_api.Billing.Balance.History.{perform, cancel, reserve, expire, perform_all}
use finnri_api.Scenarios.{service, empty, user, gift, funded, action, registered, store_of}

abbrev subscription : UserSubscription
subscription = record {
  user_id = 7;
  plan_id = 1;
  status = "active";
  current_period_start = 390 * day;
  current_period_end = 480 * day;
  cancel_at_period_end = false;
}

abbrev quarterly : Plan
quarterly = record no_plan { code = "quarterly"; billing_interval = "quarterly" }

granted_of : Result (Granted × Store) → ℕ × CreditGrant
granted_of (ok ((some r, new), s)) = r
granted_of (ok ((none, new), s)) = (0, gift)
granted_of (err e) = (0, gift)

abbrev period_run : Result (Granted × Store)
period_run = grant_subscription_period service 5 subscription 3667 (390 * day) (450 * day) empty

empty-grant_subscription_period :
    grant_subscription_period service 5 subscription 3667 (390 * day) (450 * day) empty
    ≡ ok ((some (granted_of period_run), true), store_of period_run)
unfolding grant_subscription_period granted_of first_row append decimal
empty-grant_subscription_period = refl

-- The grant of the period, of which half is spent.
abbrev half_spent : Store
half_spent = record empty {
  grants = record {
    rows = (9, gift) ∷ (1, record (granted_of period_run).1 { credits_remaining = 1800 }) ∷ [];
    next_id = 10;
  };
}

first-IsPeriodGrant :
    IsPeriodGrant 5 (390 * day) (record (granted_of period_run).1 { credits_remaining = 1800 })
unfolding grant_subscription_period granted_of first_row append decimal
first-IsPeriodGrant = record { subscription = refl; begins = refl; kind = refl }

grant_subscription_period-once_example :
    IsPeriodGrant 5 (390 * day) (granted_of period_run).1
    × ((q : ℕ × CreditGrant) × (grant_subscription_period service 5 subscription 3667
            (390 * day)
            (450 * day)
            half_spent
          ≡ ok ((some q, false), half_spent))
        × IsPeriodGrant 5 (390 * day) q.1)
grant_subscription_period-once_example =
    grant_subscription_period-once service 5 subscription 3667 (390 * day) (450 * day) empty
      {r = granted_of period_run} {new = true} {t = store_of period_run}
      empty-grant_subscription_period service half_spent 1
      (record (granted_of period_run).1 { credits_remaining = 1800 }) (inr (inl refl))
      first-IsPeriodGrant

abbrev trial_run : Result (Granted × Store)
trial_run = ensure_logged_in_free_trial_grant service 7 empty

empty-ensure_logged_in_free_trial_grant :
    ensure_logged_in_free_trial_grant service 7 empty
    ≡ ok ((some (granted_of trial_run), true), store_of trial_run)
unfolding ensure_logged_in_free_trial_grant granted_of first_row append decimal
empty-ensure_logged_in_free_trial_grant = refl

sync_subscription_tranches-created_example :
    let r = sync_subscription_tranches service 5 subscription (some quarterly) empty in
    (length r.1.grants.rows ≡ length empty.grants.rows + r.0.0) × (r.0.0 ≤ 3)
sync_subscription_tranches-created_example =
    sync_subscription_tranches-created service 5 subscription (some quarterly) empty
      {plan = quarterly} {p = record { credits = 3667; count = 3; rollover_count = 1 }} refl
      (unfold tranche_policy_for_interval in refl)

abbrev budgets : FeatureRule
budgets = record {
  code = "budgets";
  label = "Budgets";
  requires_paid_plan = true;
  credit_backed = false;
}

check_iff_example :
    ((check funded service.now user "budgets").1 ≡ none)
    × (((check funded service.now user "budgets").0.is_allowed ≡ true)
        ↔ ((budgets.requires_paid_plan ≡ false) ⊎ HasActive funded user service.now))
check_iff_example =
    check_iff funded service.now user "budgets" budgets (unfold is_valid in refl)
      (unfold find_rule in refl)

require-IsPriced_example : IsPriced "transaction_parse_text" action
require-IsPriced_example =
    require-IsPriced default_action_registry "transaction_parse_text" {a = action}
      default_action_registry-validate registered

abbrev ended_gift : CreditGrant
ended_gift = record gift { expires_at = some (10 * day) }

abbrev ended : Store
ended = record empty { grants = record { rows = (1, ended_gift) ∷ []; next_id = 2 } }

abbrev expiry_run : Result (ℕ × Store)
expiry_run = expire_credits service ended

ended-expire_credits :
    (expire_credits service ended ≡ ok (1, store_of expiry_run))
    × (find_row 1 (store_of expiry_run).grants.rows ≡ some (emptied ended_gift))
unfolding expire_credits find_row select update update_row append decimal first_row insert
ended-expire_credits = (refl, refl)

expire_credits_complete_example : is_expired service.now (emptied ended_gift) ≡ false
expire_credits_complete_example =
    expire_credits_complete service ended {n = 1} {t = store_of expiry_run} ended-expire_credits.0 1
      (emptied ended_gift) ended-expire_credits.1

abbrev revocation_run : Result (ℕ × Store)
revocation_run = revoke_subscription_credits 5 (store_of period_run)

period-revoke_subscription_credits :
    (revoke_subscription_credits 5 (store_of period_run) ≡ ok (3667, store_of revocation_run))
    × (find_row 1 (store_of revocation_run).grants.rows ≡ some (emptied (granted_of period_run).1))
unfolding revoke_subscription_credits granted_of grant_subscription_period find_row select update
    update_row append decimal first_row insert
period-revoke_subscription_credits = (refl, refl)

revoke_subscription_credits_complete_example :
    is_period_of 5 (emptied (granted_of period_run).1) ≡ false
revoke_subscription_credits_complete_example =
    revoke_subscription_credits_complete 5 (store_of period_run) {n = 3667}
      {t = store_of revocation_run} period-revoke_subscription_credits.0 1
      (emptied (granted_of period_run).1) period-revoke_subscription_credits.1

-- A grant that expires while a reservation on it is open.
abbrev short_gift : CreditGrant
short_gift = record gift { expires_at = some (401 * day) }

abbrev tomorrow : CreditService
tomorrow = record service { now = 402 * day }

abbrev short_lived : Store
short_lived = record empty { grants = record { rows = (1, short_gift) ∷ []; next_id = 2 } }

abbrev returned : Store
returned =
    perform_all
      ((service, reserve user "transaction_parse_text" "key" "request")
        ∷ (tomorrow, expire)
        ∷ (tomorrow, cancel 1 cancelled)
        ∷ [])
      short_lived

-- The cancellation gives the ended grant credits again, and its expiry already stands in the ledger.
returned-expire_credits : expire_credits tomorrow returned ≡ err conflict
unfolding perform_all perform transaction expire_credits cancel_reservation_with_status
    reserve_credits reserve_body earlier_event trim_space first_row check_allowance
    require_implemented default_action_registry last_by sum_rows reserve_allowed select find_row
    append insert update update_row decimal
returned-expire_credits = refl
