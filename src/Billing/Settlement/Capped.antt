-- ===== src/Billing/Settlement/Capped.antt =====
-- The final price of an event stays within its action's maximum.
use finnri_api.Base.{
  ℕ, ◌-◌, ◌≤◌, ltb, ◌≡◌, refl, sym, ap, ◌∙◌, Bool, true, false, if◌then◌else◌, Option, none, some,
  arith,
}
use finnri_api.Base.Int.{ℤ, sub_ℕ}
use finnri_api.Result.{Result, ok, err, invalid_status}
use finnri_api.Table.{find_row}
use finnri_api.Ai.{Action, maximum_of, require}
use finnri_api.Billing.Data.{AiUsageEvent, ProviderUsage, is_reserved}
use finnri_api.Billing.Tx.{Store, Tx, pure, lift, demand, ◌>>=◌}
use finnri_api.Billing.Runs.{bind-ok, run-bind, lift-ok, ok-injective}
use finnri_api.Billing.Allowance.{CreditService}
use finnri_api.Billing.Usage.{final_status, finish_event}
use finnri_api.Billing.Refund.{refund_event_credits}
use finnri_api.Billing.Daily.{adjust_daily_usage}
use finnri_api.Billing.Reservation.{reservation_refund}
use finnri_api.Billing.Settlement.{
  subject_from_event, load_event, settle, charge_extra, final_charge, finalize_open, finalize_usage,
}
use finnri_api.Billing.Settlement.Closing.{
  finalize_usage-IsClosed, load_event-some, rewrite_event-ok,
}

-- An action whose result, if it has one, is at most `top`.
record Within (top : ℕ) (m : Tx ℕ) : Type 0 where
  at : (s : Store) (n : ℕ) (t : Store) → m s ≡ ok (n, t) → n ≤ top

Within-pure : (top n : ℕ) → n ≤ top → Within top (pure n)
unfolding pure
Within-pure top n h = record { at = λ s k t run. rw (← (ok-injective run).0) h }

Within-bind :
    {A : Type 0} (top : ℕ) (m : Tx A) (f : A → Tx ℕ)
    → ((a : A) → Within top (f a))
    → Within top (m >>= f)
Within-bind top m f h = record {
  at = λ s n t run. let (a, s', p, rest) = bind-ok m f s run in (h a).at s' n t rest;
}

Within-if :
    (top : ℕ) (b : Bool) (m n : Tx ℕ)
    → Within top m
    → Within top n
    → Within top (if b then m else n)
Within-if top true m n km kn = km
Within-if top false m n km kn = kn

ruleset within_rules = (Within-pure, Within-bind, Within-if)

charge_extra-Within :
    (svc : CreditService) (id top final : ℕ) (e : AiUsageEvent) (action : Action)
    → final ≤ top
    → e.reserved_credits ≤ top
    → Within top (charge_extra svc id e action final)
unfolding charge_extra
charge_extra-Within svc id top final e action hf hr = search (within_rules, hf, hr) depth 9

settle-Within :
    (svc : CreditService) (id top final : ℕ) (e : AiUsageEvent) (action : Action)
    → final ≤ top
    → e.reserved_credits ≤ top
    → Within top (settle svc id e action final)
unfolding settle
settle-Within svc id top final e action hf hr =
    let refund = e.reserved_credits - final in
    let extra = charge_extra-Within svc id top final e action hf hr in
    Within-if top (ltb final e.reserved_credits) _ _
      (Within-bind top (refund_event_credits id refund reservation_refund) _ (λ u.
        Within-bind top (adjust_daily_usage (subject_from_event e) e.started_at (sub_ℕ 0 refund)) _
          (λ v. Within-pure top final hf)))
      (Within-if top (ltb e.reserved_credits final) _ _ extra (Within-pure top final hf))

action-injective : {a b : Action} → ◌≡◌ {A = Result Action} (ok a) (ok b) → a ≡ b
action-injective {a} h = ap (λ r. value r) h
  where
    value : Result Action → Action
    value (ok x) = x
    value (err x) = a

final_charge-le :
    (e : AiUsageEvent) (action : Action) (z : Option ℤ)
    → final_charge e action z ≤ (maximum_of action)
final_charge-le e action none = omega arith
final_charge-le e action (some z) = omega arith

finalize_open-capped :
    (svc : CreditService) (id : ℕ) (u : ProviderUsage) (x : AiUsageEvent) (action : Action)
    (s : Store) {e : AiUsageEvent} {t : Store}
    → require svc.registry x.action_code ≡ ok action
    → x.reserved_credits ≤ (maximum_of action)
    → finalize_open svc id u x s ≡ ok (e, t)
    → e.final_credits ≤ (maximum_of action)
unfolding finalize_open
finalize_open-capped svc id u x action s {e} known within h =
    let (a, s1, p1, h1) = bind-ok (lift (require svc.registry x.action_code)) _ s h in
    let (final, s2, p2, h2) =
      bind-ok (settle svc id x a (final_charge x a u.final_credits)) _ s1 h1 in
    let (status, s3, p3, h3) = bind-ok (demand invalid_status (final_status u.status)) _ s2 h2 in
    let (stored, row, written) =
      rewrite_event-ok id (λ s. finish_event svc s status final u) s3 h3 in
    let charged : e.final_credits ≡ final =
      unfold finish_event in ap (λ y. y.final_credits) written in
    let is_it : action ≡ a =
      action-injective (sym known ∙ (lift-ok (require svc.registry x.action_code) s p1).0) in
    let most : (maximum_of action) ≡ (maximum_of a) = ap (λ y. maximum_of y) is_it in
    let paid : final ≤ (maximum_of a) =
      (settle-Within svc id (maximum_of a) (final_charge x a u.final_credits) x a
          (final_charge-le x a u.final_credits) (omega (arith, within, most))).at
        s1 final s2 p2 in
    omega (arith, charged, paid, most)

-- A finalization of a reserved event that succeeds leaves it at a final price within its action's maximum,
-- whatever the caller asks for, provided that what was reserved is within it.
pub finalize_usage-capped :
    (svc : CreditService) (id : ℕ) (u : ProviderUsage) (s : Store) {x e : AiUsageEvent}
    {action : Action} {t : Store}
    → find_row id s.events.rows ≡ some x
    → is_reserved x.status ≡ true
    → require svc.registry x.action_code ≡ ok action
    → x.reserved_credits ≤ (maximum_of action)
    → finalize_usage svc id u s ≡ ok (e, t)
    → (find_row id t.events.rows ≡ some e) × (e.final_credits ≤ (maximum_of action))
unfolding finalize_usage
finalize_usage-capped svc id u s {x} {e} {action} {t} found open_ known within h =
    let run : finalize_open svc id u x s ≡ ok (e, t) =
      (rw open_ refl ∙ sym (run-bind (load_event id) _ s (load_event-some id s found))) ∙ h in
    (
      (finalize_usage-IsClosed svc id u s h).stored,
      finalize_open-capped svc id u x action s known within run,
    )
