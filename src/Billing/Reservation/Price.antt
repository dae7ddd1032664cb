-- ===== src/Billing/Reservation/Price.antt =====
-- What a reservation that succeeds has gone through, and what it costs.
use finnri_api.Base.{
  ℕ, ◌≡◌, refl, sym, ap, ◌∙◌, Bool, true, false, Bool-cases, inl, inr, if◌then◌else◌, String, none,
  some, trim_space,
}
use finnri_api.Base.Int.{pos}
use finnri_api.Result.{Result, ok, err, allowance_denied, invalid_credit_subject}
use finnri_api.Billing.Data.{AiUsageEvent, AllowanceResult, CreditSubject}
use finnri_api.Billing.Tx.{Store, pure, fail}
use finnri_api.Billing.Runs.{bind-ok, ok-injective}
use finnri_api.Billing.Allowance.{CreditService, is_valid, check_allowance, no_allowance}
use finnri_api.Billing.Daily.{adjust_daily_usage}
use finnri_api.Billing.Debit.{debit_available_grants}
use finnri_api.Billing.Reservation.{
  reservation_debit, reservation_ledger_key, new_event, create_event, reserve_allowed,
  reserve_fresh, reserve_for, reserve_body, reserve_result, reserve_credits, earlier_event, Outcome,
}

-- The steps of a reservation that the allowance admits.
pub record IsReserved (svc : CreditService) (c : CreditSubject) (a : AllowanceResult)
    (key request : String) (s : Store) (r : ℕ × AiUsageEvent) (t : Store) : Type 0 where
  pub opened : Store
  pub paid : Store
  pub event : r.1 ≡ new_event svc c a key request
  pub opens : create_event (new_event svc c a key request) s ≡ ok (r.0, opened)
  pub pays :
      debit_available_grants c a.required_credits reservation_debit
        (reservation_ledger_key request)
        (some r.0)
        svc.now
        opened
      ≡ ok (tt, paid)
  pub counts : adjust_daily_usage c svc.now (pos a.required_credits) paid ≡ ok (tt, t)

reserve_allowed-ok :
    (svc : CreditService) (c : CreditSubject) (a : AllowanceResult) (key request : String)
    (s : Store) {r : ℕ × AiUsageEvent} {t : Store}
    → reserve_allowed svc c a key request s ≡ ok (r, t)
    → IsReserved svc c a key request s r t
unfolding reserve_allowed pure
reserve_allowed-ok svc c a key request s {r} {t} h =
    let event = new_event svc c a key request in
    let (id, s1, p1, h1) = bind-ok (create_event event) _ s h in
    let (u2, s2, p2, h2) =
      bind-ok
        (debit_available_grants c a.required_credits reservation_debit
          (reservation_ledger_key request) (some id) svc.now)
        _ s1 h1 in
    let (u3, s3, p3, h3) =
      bind-ok (adjust_daily_usage c svc.now (pos a.required_credits)) _ s2 h2 in
    let ends : ◌≡◌ {A = Result ((ℕ × AiUsageEvent) × Store)} (ok ((id, event), s3)) (ok (r, t)) =
      h3 in
    let (is_it, same) = ok-injective ends in
    let key_is : id ≡ r.0 = ap (λ x. x.0) is_it in
    record {
      opened = s1;
      paid = s2;
      event = sym (ap (λ x. x.1) is_it);
      opens = rw (← key_is) p1;
      pays = rw (← key_is) p2;
      counts = rw (← same) p3;
    }

reserve_result-ok :
    (svc : CreditService) (c : CreditSubject) (s : Store) (x : AllowanceResult)
    (r : Result ((ℕ × AiUsageEvent) × Store)) {a : AllowanceResult} {e : ℕ × AiUsageEvent}
    {t : Store}
    → reserve_result svc c s x r ≡ (a, ok e, t)
    → ◌≡◌ {A = Outcome} (x, r) (a, ok (e, t))
unfolding reserve_result
reserve_result-ok svc c s x (err f) h = absurd (cc (ap (λ z. z.1) h))
reserve_result-ok svc c s x (ok (e', t')) {a} {e} {t} h =
    let same : x ≡ a = ap (λ z. z.0) h in
    let result : ◌≡◌ {A = Result (ℕ × AiUsageEvent)} (ok e') (ok e) = ap (λ z. z.1) h in
    let event : e' ≡ e = ap (λ z. value z) result in
    let store : t' ≡ t = ap (λ z. z.2) h in rw (same, event, store) refl
  where
    value : Result (ℕ × AiUsageEvent) → ℕ × AiUsageEvent
    value (ok y) = y
    value (err y) = e'

-- What the verdict of a reservation that succeeded has gone through.
pub record IsAdmitted (svc : CreditService) (c : CreditSubject) (code key request : String)
    (s : Store) (a : AllowanceResult) (r : ℕ × AiUsageEvent) (t : Store) : Type 0 where
  pub subject : is_valid c ≡ true
  pub checked : check_allowance svc c code s ≡ ok a
  pub admitted : a.is_allowed ≡ true
  pub steps : IsReserved svc c a key request s r t

reserve_fresh-ok :
    (svc : CreditService) (c : CreditSubject) (code key request : String) (s : Store)
    (checked : Result AllowanceResult) {a : AllowanceResult} {r : ℕ × AiUsageEvent} {t : Store}
    → is_valid c ≡ true
    → check_allowance svc c code s ≡ checked
    → reserve_fresh svc c key request checked s ≡ (a, ok (r, t))
    → IsAdmitted svc c code key request s a r t
unfolding reserve_fresh fail
reserve_fresh-ok svc c code key request s (err e) v p h = absurd (cc (ap (λ z. z.1) h))
reserve_fresh-ok svc c code key request s (ok x) {a} {r} {t} v p h =
    let same : x ≡ a = ap (λ z. z.0) h in
    let run = ap (λ z. z.1) h in after (x.is_allowed) refl same run
  where
    after :
        (b : Bool)
        → x.is_allowed ≡ b
        → x ≡ a
        → ◌≡◌ {A = Result ((ℕ × AiUsageEvent) × Store)}
            ((if b then reserve_allowed svc c x key request else fail allowance_denied) s)
            (ok (r, t))
        → IsAdmitted svc c code key request s a r t
    after false e same run = absurd (cc run)
    after true e same run = record {
      subject = v;
      checked = rw (← same) p;
      admitted = rw (← same) e;
      steps = rw (← same) (reserve_allowed-ok svc c x key request s run);
    }

pub reserve_credits-ok :
    (svc : CreditService) (c : CreditSubject) (code key request : String) (s : Store)
    {a : AllowanceResult} {r : ℕ × AiUsageEvent} {t : Store}
    → earlier_event s c (trim_space key) ≡ none
    → reserve_credits svc c code key request s ≡ (a, ok r, t)
    → IsAdmitted svc c code (trim_space key) request s a r t
unfolding reserve_credits reserve_body reserve_for
reserve_credits-ok svc c code key request s {a} {r} {t} new h =
    let body = reserve_body svc c code (trim_space key) request s in
    let run : ◌≡◌ {A = Outcome} body (a, ok (r, t)) = reserve_result-ok svc c s body.0 body.1 h in
    elim (Bool-cases (is_valid c)) [
      | inl e ↦
          let fresh : body
              ≡ reserve_fresh svc c (trim_space key) request (check_allowance svc c code s) s =
            rw (e, new) refl in
          reserve_fresh-ok svc c code (trim_space key) request s (check_allowance svc c code s) e
            refl (sym fresh ∙ run)
      | inr e ↦
          let denied : body ≡ (no_allowance, err invalid_credit_subject) = rw e refl in
          absurd (cc (ap (λ z. z.1) (sym denied ∙ run)))
    ]
