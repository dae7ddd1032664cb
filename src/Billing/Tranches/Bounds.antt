-- ===== src/Billing/Tranches/Bounds.antt =====
-- How many slices a synchronization creates.
use finnri_api.Base.{
  ℕ, zero, suc, ◌+◌, ◌-◌, ◌/◌, ◌≤◌, ltb, leb, ◌≡◌, refl, length, ◌==◌, ◌||◌, Bool, true, false,
  Bool-cases, inl, inr, not, ◌&&◌, if◌then◌else◌, str_eq, Option, some, arith,
}
use finnri_api.Billing.Grants.Adds.{Adds, grant_subscription_period-Adds}
use finnri_api.Result.{Result, ok, err}
use finnri_api.Billing.Data.{Plan, UserSubscription}
use finnri_api.Billing.Tx.{Store}
use finnri_api.Billing.Allowance.{CreditService}
use finnri_api.Billing.Grants.{Granted, grant_subscription_period}
use finnri_api.Billing.Tranches.{
  TranchePolicy, tranche, tranche_start, tranche_end, tranche_policy_for_interval, first_index,
  last_index, loaded_plan, grant_tranches, sync_policy, sync_plan, sync_subscription_tranches,
}

-- The grants that a run has added are those that it counted, and no more than were asked for.
abbrev Counts : Store → ℕ → ℕ → (ℕ × Result (Unit {0})) × Store → Type 0
Counts s created left r =
    (r.0.0 ≤ created + left) × (length r.1.grants.rows + created ≡ length s.grants.rows + r.0.0)

grant_tranches-Counts :
    (svc : CreditService) (id : ℕ) (sub : UserSubscription) (p : TranchePolicy)
    (left index created : ℕ) (s : Store)
    → Counts s created left (grant_tranches svc id sub p left index created s)
unfolding grant_tranches
grant_tranches-Counts svc id sub p zero index created s = (omega arith, refl)
grant_tranches-Counts svc id sub p (suc left) index created s =
    next
      (grant_subscription_period svc id sub p.credits (tranche_start sub index)
        (tranche_end p sub index) s)
      (grant_subscription_period-Adds svc id sub p.credits (tranche_start sub index)
        (tranche_end p sub index) s)
      (grant_tranches-Counts svc id sub p left (index + 1))
  where
    next :
        (r : Result (Granted × Store))
        → Adds s r
        → ((n : ℕ) (t : Store) → Counts t n left (grant_tranches svc id sub p left (index + 1) n t))
        → Counts s created (suc left) (elim r as (λ x. (ℕ × Result (Unit {0})) × Store) [
          | err e ↦ ((created, err e), s)
          | ok ((g, new), t) ↦
              grant_tranches svc id sub p left (index + 1) (if new then created + 1 else created) t
        ])
    next (ok ((g, true), t)) added rest =
        let (few, same) = rest (created + 1) t in (omega (arith, few), omega (arith, same, added))
    next (ok ((g, false), t)) added rest =
        let (few, same) = rest created t in (omega (arith, few), omega (arith, same, added))
    next (err e) added rest = (omega arith, refl)

-- The slices that a policy has in all, or the one that is due where it has no count.
abbrev pub slices : TranchePolicy → ℕ
slices p = if ltb 0 p.count then p.count else 1

due-slices :
    (p : TranchePolicy) (current : ℕ) → last_index p current + 1 - first_index p current ≤ slices p
unfolding last_index first_index
due-slices p current = ground arith

sync_policy-Counts :
    (svc : CreditService) (id : ℕ) (sub : UserSubscription) (plan : Plan) (p : TranchePolicy)
    (s : Store)
    → Counts s 0 (slices p) (sync_policy svc id sub plan (some p) s)
unfolding sync_policy
sync_policy-Counts svc id sub plan p s =
    let current = (svc.now - sub.current_period_start) / tranche in
    let first = first_index p current in
    let due = last_index p current + 1 - first in
    elim (Bool-cases
      (not (str_eq plan.billing_interval "lifetime_quote") && leb sub.current_period_end svc.now)) [
        | inl e ↦ rw e (omega arith, omega arith)
        | inr e ↦
            let (few, same) = grant_tranches-Counts svc id sub p due first 0 s in
            rw e (omega (arith, few, due-slices p current), same)
      ]

if-Counts :
    (s : Store) (n : ℕ) (b : Bool) (x y : (ℕ × Result (Unit {0})) × Store)
    → Counts s 0 n x
    → Counts s 0 n y
    → Counts s 0 n (if b then x else y)
if-Counts s n true x y h h' = h
if-Counts s n false x y h h' = h'

-- However late it runs, a synchronization of a subscription adds at most as many rows to the table of
-- grants as the policy of its plan's interval counts, or one where the policy has no count, and the
-- number that it returns is the number of rows added, whether it ends with an error or not.
pub sync_subscription_tranches-created :
    (svc : CreditService) (id : ℕ) (sub : UserSubscription) (preloaded : Option Plan) (s : Store)
    {plan : Plan} {p : TranchePolicy}
    → loaded_plan sub preloaded s ≡ some plan
    → tranche_policy_for_interval plan.billing_interval ≡ some p
    → let r = sync_subscription_tranches svc id sub preloaded s in
      (length r.1.grants.rows ≡ length s.grants.rows + r.0.0) × (r.0.0 ≤ slices p)
unfolding sync_subscription_tranches sync_plan
sync_subscription_tranches-created svc id sub preloaded s {plan} {p} loaded policy =
    let counted : Counts s 0 (slices p) (sync_subscription_tranches svc id sub preloaded s) =
      rw (loaded, policy)
        (if-Counts s (slices p) ((id == 0) || (sub.user_id == 0)) _ _ (omega arith, omega arith)
          (if-Counts s (slices p)
            (not (str_eq sub.status "active") || ltb svc.now sub.current_period_start) _ _
            (omega arith, omega arith) (sync_policy-Counts svc id sub plan p s))) in
    (omega (arith, counted.1), omega (arith, counted.0))
