-- ===== src/Billing/Allowance/Verdict.antt =====
-- What a verdict of `CheckAllowance` says of the balances.
use finnri_api.Base.{
  ℕ, ◌-◌, ◌≤◌, ◌<◌, ◌≡◌, refl, true, false, not, ◌&&◌, Bool-cases, ◌⊎◌, ◌↔◌, inl, inr, is_none,
  String, Option, none, some, arith,
}
use finnri_api.Result.{ok}
use finnri_api.Ai.{Action, price_of, require_implemented}
use finnri_api.Billing.Data.{Plan, AllowanceResult, CreditSubject, allowed}
use finnri_api.Billing.Tx.{Store}
use finnri_api.Billing.Allowance.{
  CreditService, is_valid, is_guest, check_allowance, allow, weigh, with_plan, no_allowance,
  active_plan, daily_limit_for_subject, daily_credits_used, available_credits,
}

-- What an action asks of a subject: the right to it, and credits for it both in the balance and in
-- what is left of the day's limit.
pub record MaySpend (s : Store) (c : CreditSubject) (now : ℕ) (action : Action) : Type 0 where
  pub guest : (is_guest c ≡ false) ⊎ (action.guest_allowed ≡ true)
  pub plan : (action.paid_plan_required ≡ false) ⊎ (is_none (active_plan s c now) ≡ false)
  pub balance : (price_of action) ≤ available_credits s c now
  pub day :
      (price_of action)
      ≤ daily_limit_for_subject c (active_plan s c now) - daily_credits_used s c now

daily_limit_for_subject-positive :
    (c : CreditSubject) (plan : Option (Plan × ℕ)) → 0 < daily_limit_for_subject c plan
unfolding daily_limit_for_subject
daily_limit_for_subject-positive c none = ground arith
daily_limit_for_subject-positive c (some (p, i)) = ground arith

weigh_iff :
    (r : AllowanceResult) (limit used available : ℕ)
    → 0 < limit
    → r.is_allowed ≡ false
    → ((weigh r limit used available).is_allowed ≡ true)
      ↔ ((r.required_credits ≤ available) × (r.required_credits ≤ limit - used))
unfolding weigh
weigh_iff r limit used available positive h = ground arith

-- The result that `checkAllowanceTx` starts from.
abbrev priced : Action → AllowanceResult
priced action = record no_allowance {
  action = action;
  required_credits = price_of action;
  reason = allowed;
}

with_plan-is_allowed :
    (plan : Option (Plan × ℕ)) (action : Action)
    → (with_plan plan (priced action)).is_allowed ≡ false
unfolding with_plan
with_plan-is_allowed none action = refl
with_plan-is_allowed (some (p, i)) action = refl

weigh-with_plan_iff :
    (plan : Option (Plan × ℕ)) (action : Action) (limit used available : ℕ)
    → 0 < limit
    → ((weigh (with_plan plan (priced action)) limit used available).is_allowed ≡ true)
      ↔ (((price_of action) ≤ available) × ((price_of action) ≤ limit - used))
unfolding with_plan
weigh-with_plan_iff none action limit used available positive =
    weigh_iff (priced action) limit used available positive refl
weigh-with_plan_iff (some (p, i)) action limit used available positive =
    weigh_iff
      (record (priced action) {
        paid_plan_active = true;
        plan_code = p.code;
        current_subscription_id = some i;
      })
      limit used available positive refl

allow_iff :
    (s : Store) (c : CreditSubject) (now : ℕ) (action : Action)
    → ((allow s c now action (active_plan s c now)).is_allowed ≡ true) ↔ MaySpend s c now action
unfolding allow
allow_iff s c now action = elim (Bool-cases (is_guest c && not action.guest_allowed)) [
  | inl e ↦ rw e (λ h. absurd (cc h), λ m. absurd (ground (arith, m.guest, e)))
  | inr e ↦ elim (Bool-cases (action.paid_plan_required && is_none (active_plan s c now))) [
    | inl f ↦
        rw (e, f)
          (
            λ h. absurd (cc (h, with_plan-is_allowed (active_plan s c now) action)),
            λ m. absurd (ground (arith, m.plan, f)),
          )
    | inr f ↦
        let weighed =
          weigh-with_plan_iff (active_plan s c now) action
            (daily_limit_for_subject c (active_plan s c now)) (daily_credits_used s c now)
            (available_credits s c now)
            (daily_limit_for_subject-positive c (active_plan s c now)) in
        rw (e, f)
          (
            λ h. record {
              guest = ground (arith, e);
              plan = ground (arith, f);
              balance = (weighed.0 h).0;
              day = (weighed.0 h).1;
            },
            λ m. weighed.1 (m.balance, m.day),
          )
  ]
]

-- For a valid subject and an implemented action, `CheckAllowance` gives a verdict, and it admits the action
-- exactly when a guest is allowed it (where the subject is one), a paid plan is active (where the action
-- needs one), and the action's price is within both the spendable balance and what is left of the day's
-- limit.
pub check_allowance_iff :
    (svc : CreditService) (c : CreditSubject) (code : String) (s : Store) {action : Action}
    → is_valid c ≡ true
    → require_implemented svc.registry code ≡ ok action
    → (a : AllowanceResult) × (check_allowance svc c code s ≡ ok a)
      × ((a.is_allowed ≡ true) ↔ MaySpend s c svc.now action)
unfolding check_allowance
check_allowance_iff svc c code s {action} v known = (
  allow s c svc.now action (active_plan s c svc.now),
  rw (v, known) refl,
  allow_iff s c svc.now action,
)
