-- ===== src/Billing/Balance/Calls.antt =====
-- Each public call of the credit service keeps the accounts balanced, beyond its transaction too.
use finnri_api.Base.{
  ℕ, ◌-◌, ◌/◌, ◌==◌, ltb, leb, not, ◌&&◌, ◌||◌, str_eq, some, trim_space, zero, suc, ◌+◌,
  if◌then◌else◌, String, Option, none, arith, Bool-cases, Bool, true, false, inl, inr,
}
use finnri_api.Result.{Result, ok, err, allowance_denied}
use finnri_api.Ai.{Action}
use finnri_api.Billing.Data.{CreditSubject, AiUsageEvent, AllowanceResult, UserSubscription, Plan}
use finnri_api.Billing.Tx.{Store, Tx, transaction}
use finnri_api.Billing.Allowance.{CreditService, is_valid}
use finnri_api.Billing.Reservation.{
  reserve_credits, reserve_body, reserve_result, reserve_fresh, reserve_known, reserve_for,
  earlier_event,
}
use finnri_api.Billing.Grants.{Granted}
use finnri_api.Billing.Tranches.{
  TranchePolicy, tranche, first_index, last_index, loaded_plan, grant_tranches, sync_policy,
  sync_plan, sync_subscription_tranches,
}
use finnri_api.Billing.Balance.{IsSound}
use finnri_api.Billing.Balance.Rules.{Keeps, Keeps-if, Keeps-fail, OnSuccess}
use finnri_api.Billing.Balance.Service.{reserve_allowed-Keeps}
use finnri_api.Billing.Balance.Openings.{grant_subscription_period-Keeps}

pub transaction-IsSound :
    {A : Type 0} (m : Tx A) (s : Store) → Keeps IsSound m → IsSound s → IsSound (transaction m s).1
unfolding transaction
transaction-IsSound {A} m s k h = left (m s) (k.at s h)
  where
    left :
        (r : Result (A × Store))
        → OnSuccess IsSound r
        → IsSound
            (elim r as (λ x. Result A × Store) [ ok (a, t) ↦ (ok a, t) | err e ↦ (err e, s) ]).1
    left (ok (a, t)) q = q
    left (err e) q = h

grant_tranches-IsSound :
    (svc : CreditService) (id : ℕ) (sub : UserSubscription) (p : TranchePolicy)
    (left index created : ℕ) (s : Store)
    → IsSound s
    → IsSound (grant_tranches svc id sub p left index created s).1
unfolding grant_tranches
grant_tranches-IsSound svc id sub p zero index created s h = h
grant_tranches-IsSound svc id sub p (suc left) index created s h =
    next _ ((grant_subscription_period-Keeps svc id sub p.credits _ _).at s h)
      (grant_tranches-IsSound svc id sub p left (index + 1))
  where
    next :
        (r : Result (Granted × Store))
        → OnSuccess IsSound r
        → ((n : ℕ) (t : Store)
            → IsSound t
            → IsSound (grant_tranches svc id sub p left (index + 1) n t).1)
        → IsSound
            (elim r as (λ x. (ℕ × Result (Unit {0})) × Store) [
              | err e ↦ ((created, err e), s)
              | ok ((g, new), t) ↦
                  grant_tranches svc id sub p left
                    (index + 1)
                    (if new then created + 1 else created)
                    t
            ]).1
    next (ok ((g, new), t)) q rest = rest _ t q
    next (err e) q rest = h

reserve_result-IsSound :
    (svc : CreditService) (c : CreditSubject) (s : Store) (a : AllowanceResult)
    (r : Result ((ℕ × AiUsageEvent) × Store))
    → IsSound s
    → OnSuccess IsSound r
    → IsSound (reserve_result svc c s a r).2
unfolding reserve_result
reserve_result-IsSound svc c s a (ok (e, t)) h q = q
reserve_result-IsSound svc c s a (err e) h q = ground arith

reserve_fresh-OnSuccess :
    (svc : CreditService) (c : CreditSubject) (key request : String) (r : Result AllowanceResult)
    (s : Store)
    → IsSound s
    → OnSuccess IsSound (reserve_fresh svc c key request r s).1
unfolding reserve_fresh
reserve_fresh-OnSuccess svc c key request (err e) s h = tt
reserve_fresh-OnSuccess svc c key request (ok a) s h =
    (Keeps-if a.is_allowed _ _ (reserve_allowed-Keeps svc c a key request)
        (Keeps-fail allowance_denied)).at
      s h

reserve_known-OnSuccess :
    (r : ℕ × AiUsageEvent) (action : Result Action) (s : Store)
    → IsSound s
    → OnSuccess IsSound (reserve_known r action s).1
unfolding reserve_known
reserve_known-OnSuccess r (err e) s h = tt
reserve_known-OnSuccess (id, e) (ok action) s h = h

reserve_for-OnSuccess :
    (svc : CreditService) (c : CreditSubject) (action key request : String)
    (o : Option (ℕ × AiUsageEvent)) (s : Store)
    → IsSound s
    → OnSuccess IsSound (reserve_for svc c action key request o s).1
unfolding reserve_for
reserve_for-OnSuccess svc c action key request none s h =
    reserve_fresh-OnSuccess svc c key request _ s h
reserve_for-OnSuccess svc c action key request (some r) s h = reserve_known-OnSuccess r _ s h

reserve_body-OnSuccess :
    (svc : CreditService) (c : CreditSubject) (action key request : String) (s : Store)
    → IsSound s
    → OnSuccess IsSound (reserve_body svc c action key request s).1
unfolding reserve_body
reserve_body-OnSuccess svc c action key request s h = elim (Bool-cases (is_valid c)) [
  | inl e ↦ rw e (reserve_for-OnSuccess svc c action key request (earlier_event s c key) s h)
  | inr e ↦ rw e tt
]

pub reserve_credits-IsSound :
    (svc : CreditService) (c : CreditSubject) (action key request : String) (s : Store)
    → IsSound s
    → IsSound (reserve_credits svc c action key request s).2
unfolding reserve_credits
reserve_credits-IsSound svc c action key request s h =
    let body = reserve_body svc c action (trim_space key) request s in
    reserve_result-IsSound svc c s body.0 body.1 h
      (reserve_body-OnSuccess svc c action (trim_space key) request s h)

sync_policy-IsSound :
    (svc : CreditService) (id : ℕ) (sub : UserSubscription) (plan : Plan) (o : Option TranchePolicy)
    (s : Store)
    → IsSound s
    → IsSound (sync_policy svc id sub plan o s).1
unfolding sync_policy
sync_policy-IsSound svc id sub plan none s h = h
sync_policy-IsSound svc id sub plan (some p) s h =
    let current = (svc.now - sub.current_period_start) / tranche in
    let first = first_index p current in
    elim (Bool-cases
      (not (str_eq plan.billing_interval "lifetime_quote") && leb sub.current_period_end svc.now)) [
        | inl e ↦ rw e h
        | inr e ↦
            rw e
              (grant_tranches-IsSound svc id sub p (last_index p current + 1 - first) first 0 s h)
      ]

sync_plan-IsSound :
    (svc : CreditService) (id : ℕ) (sub : UserSubscription) (o : Option Plan) (s : Store)
    → IsSound s
    → IsSound (sync_plan svc id sub o s).1
unfolding sync_plan
sync_plan-IsSound svc id sub none s h = h
sync_plan-IsSound svc id sub (some plan) s h = sync_policy-IsSound svc id sub plan _ s h

pub if-IsSound :
    {A : Type 0} (b : Bool) (x y : A × Store)
    → IsSound x.1
    → IsSound y.1
    → IsSound (if b then x else y).1
if-IsSound true x y hx hy = hx
if-IsSound false x y hx hy = hy

pub sync-IsSound :
    (svc : CreditService) (id : ℕ) (sub : UserSubscription) (plan : Option Plan) (s : Store)
    → IsSound s
    → IsSound (sync_subscription_tranches svc id sub plan s).1
unfolding sync_subscription_tranches
sync-IsSound svc id sub plan s h = if-IsSound ((id == 0) || (sub.user_id == 0)) _ _ h (
    if-IsSound (not (str_eq sub.status "active") || ltb svc.now sub.current_period_start) _ _ h
      (sync_plan-IsSound svc id sub (loaded_plan sub plan s) s h))
