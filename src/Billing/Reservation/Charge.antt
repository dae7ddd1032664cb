-- ===== src/Billing/Reservation/Charge.antt =====
-- What a reservation costs: the balance and the day's counter after it.
use finnri_api.Base.{
  ℕ, zero, suc, ◌+◌, ==_iff, ◌≡◌, refl, sym, ap, subst, ◌∙◌, true, Bool-cases, inl, inr, String,
  eq_refl, none, some, Option-cases, trim_space, arith,
}
use finnri_api.Base.Int.{pos}
use finnri_api.Result.{Result, ok}
use finnri_api.Table.{first_row, insert, update, sum_rows}
use finnri_api.Table.Laws.{IsKeyed}
use finnri_api.Table.Search.{first_row-append, first_row-holds, first_row-update_row}
use finnri_api.Billing.Data.{AiUsageEvent, AllowanceResult, CreditSubject, DailyCreditUsage}
use finnri_api.Billing.Tx.{Store, pure, modify}
use finnri_api.Billing.Runs.{ok-injective}
use finnri_api.Billing.Balance.Rules.{OnSuccess}
use finnri_api.Billing.Allowance.{
  CreditService, in_scope, available_credits, daily_credits_used, spendable_credits, is_daily_row,
  usage_day,
}
use finnri_api.Billing.Daily.{adjust_daily_usage, add_credits_used, new_daily}
use finnri_api.Billing.Debit.Conserve.{Took, debit_available_grants-Took}
use finnri_api.Billing.Reservation.{
  reservation_debit, reservation_ledger_key, new_event, create_event, is_taken, reserve_credits,
  earlier_event,
}
use finnri_api.Billing.Reservation.Price.{IsReserved, IsAdmitted, reserve_credits-ok}

on_success :
    {A : Type 0} (P : Store → Type 0) (r : Result (A × Store)) {a : A} {t : Store}
    → OnSuccess P r
    → r ≡ ok (a, t)
    → P t
on_success P r {a} {t} h e = subst (OnSuccess P) e h

create_event-ok :
    (e : AiUsageEvent) (s : Store) {id : ℕ} {t : Store}
    → create_event e s ≡ ok (id, t)
    → (id ≡ s.events.next_id) × (t ≡ record s { events = insert s.events e })
unfolding create_event
create_event-ok e s {id} {t} h = elim (Bool-cases (is_taken e s)) [
  | inl taken ↦ absurd (ground arith)
  | inr new ↦
      let made = record s { events = insert s.events e } in
      let ends : ◌≡◌ {A = Result (ℕ × Store)} (ok (s.events.next_id, made)) (ok (id, t)) =
        sym (rw new refl) ∙ h in
      (sym (ok-injective ends).0, sym (ok-injective ends).1)
]

module _ (c : CreditSubject) (now : ℕ) where
  new_daily-is_daily_row : (n : ℕ) → is_daily_row c (usage_day now) (new_daily c now (pos n)) ≡ true
  unfolding is_daily_row in_scope
  new_daily-is_daily_row n = ground (
    arith,
    (==_iff (usage_day now) (usage_day now)).1 refl,
    eq_refl (trim_space c.guest_device_id_hash),
  )

  used_none :
      (s : Store)
      → first_row (is_daily_row c (usage_day now)) s.daily.rows ≡ none
      → daily_credits_used s c now ≡ 0
  unfolding daily_credits_used
  used_none s e = rw (e, daily_credits_used) refl

  used_some :
      (s : Store) {i : ℕ} {u : DailyCreditUsage}
      → first_row (is_daily_row c (usage_day now)) s.daily.rows ≡ some (i, u)
      → daily_credits_used s c now ≡ u.credits_used
  unfolding daily_credits_used
  used_some s e = rw (e, daily_credits_used) refl

  -- The row of the day remains that of the subject and the day.
  counted_row :
      (n : ℕ) (u : DailyCreditUsage)
      → is_daily_row c (usage_day now) (add_credits_used (pos (suc n)) u)
        ≡ is_daily_row c (usage_day now) u
  unfolding is_daily_row
  counted_row n u = refl

  -- What counting `n` more credits on the day leaves.
  record Counted (n : ℕ) (s t : Store) : Type 0 where
    used : daily_credits_used t c now ≡ daily_credits_used s c now + n
    same_grants : t.grants ≡ s.grants
    same_events : t.events ≡ s.events

  adjust_daily_usage-Counted :
      (n : ℕ) (s : Store)
      → IsKeyed s.daily.rows
      → OnSuccess (Counted n s) (adjust_daily_usage c now (pos n) s)
  unfolding adjust_daily_usage pure modify insert update
  adjust_daily_usage-Counted zero s h = record {
    used = omega arith;
    same_grants = refl;
    same_events = refl;
  }
  adjust_daily_usage-Counted (suc n) s h =
      elim (Option-cases (first_row (is_daily_row c (usage_day now)) s.daily.rows)) [
        | inl e ↦
            rw (e, OnSuccess)
              (record {
                used = omega (
                  arith,
                  used_none s e,
                  used_some (record s { daily = insert s.daily (new_daily c now (pos (suc n))) })
                      (first_row-append (is_daily_row c (usage_day now)) s.daily.next_id
                        (new_daily c now (pos (suc n))) s.daily.rows e
                        (new_daily-is_daily_row (suc n))),
                );
                same_grants = refl;
                same_events = refl;
              })
        | inr ((i, u), e) ↦
            rw (e, OnSuccess)
              (record {
                used = omega (
                  arith,
                  used_some s e,
                  used_some (record s { daily = update s.daily i (add_credits_used (pos (suc n))) })
                      (first_row-update_row (is_daily_row c (usage_day now)) i u
                        (add_credits_used (pos (suc n))) s.daily.rows h e
                        (counted_row n u
                          ∙ first_row-holds (is_daily_row c (usage_day now)) i u s.daily.rows e)),
                );
                same_grants = refl;
                same_events = refl;
              })
      ]

available_credits_of :
    (c : CreditSubject) (now : ℕ) (s t : Store)
    → t.grants ≡ s.grants
    → available_credits t c now ≡ available_credits s c now
unfolding available_credits
available_credits_of c now s t e = ap (λ g. sum_rows (spendable_credits c now) g.rows) e

daily_credits_used_of :
    (c : CreditSubject) (now : ℕ) (s t : Store)
    → t.daily ≡ s.daily
    → daily_credits_used t c now ≡ daily_credits_used s c now
unfolding daily_credits_used
daily_credits_used_of c now s t e =
    ap
      (λ d. elim (first_row (is_daily_row c (usage_day now)) d.rows) [
        | none ↦ 0
        | some (i, u) ↦ u.credits_used
      ])
      e

pub IsReserved-charged :
    (svc : CreditService) (c : CreditSubject) (key request : String) (s : Store)
    {a : AllowanceResult} {r : ℕ × AiUsageEvent} {t : Store}
    → IsKeyed s.grants.rows
    → IsKeyed s.daily.rows
    → IsReserved svc c a key request s r t
    → (available_credits t c svc.now + a.required_credits ≡ available_credits s c svc.now)
      × (daily_credits_used t c svc.now ≡ daily_credits_used s c svc.now + a.required_credits)
      × (t.events ≡ insert s.events (new_event svc c a key request))
      × (r.0 ≡ s.events.next_id)
IsReserved-charged svc c key request s {a} {r} {t} kg kd st =
    let (id_is, opened) = create_event-ok _ s st.opens in
    let grants : st.opened.grants ≡ s.grants = ap (λ x. x.grants) opened in
    let daily : st.opened.daily ≡ s.daily = ap (λ x. x.daily) opened in
    let took : Took c svc.now a.required_credits st.opened st.paid =
      on_success (Took c svc.now a.required_credits st.opened) _
        (debit_available_grants-Took c svc.now a.required_credits reservation_debit
          (reservation_ledger_key request) (some r.0) st.opened (rw grants kg))
        st.pays in
    let counted : Counted c svc.now a.required_credits st.paid t =
      on_success (Counted c svc.now a.required_credits st.paid) _
        (adjust_daily_usage-Counted c svc.now a.required_credits st.paid
          (rw (took.same_daily, daily) kd))
        st.counts in
    (
      omega (
        arith,
        took.balance,
        available_credits_of c svc.now st.paid t counted.same_grants,
        available_credits_of c svc.now s st.opened grants,
      ),
      omega (
        arith,
        counted.used,
        daily_credits_used_of c svc.now st.opened st.paid took.same_daily,
        daily_credits_used_of c svc.now s st.opened daily,
      ),
      counted.same_events ∙ took.same_events ∙ ap (λ x. x.events) opened,
      id_is,
    )

-- A reservation that succeeds, under a key that the subject has not used before (or under none), is
-- charged exactly the price of its allowance: the event holds it, the subject's spendable balance is
-- smaller by it and the day's counter is larger by it. No two grants and no two day counters may share
-- a primary key.
pub reserve_credits-charges :
    (svc : CreditService) (c : CreditSubject) (code key request : String) (s : Store)
    {a : AllowanceResult} {r : ℕ × AiUsageEvent} {t : Store}
    → IsKeyed s.grants.rows
    → IsKeyed s.daily.rows
    → earlier_event s c (trim_space key) ≡ none
    → reserve_credits svc c code key request s ≡ (a, ok r, t)
    → (r.1.reserved_credits ≡ a.required_credits)
      × (available_credits t c svc.now + a.required_credits ≡ available_credits s c svc.now)
      × (daily_credits_used t c svc.now ≡ daily_credits_used s c svc.now + a.required_credits)
reserve_credits-charges svc c code key request s {a} {r} {t} kg kd new h =
    let run : IsAdmitted svc c code (trim_space key) request s a r t =
      reserve_credits-ok svc c code key request s new h in
    let charged = IsReserved-charged svc c (trim_space key) request s kg kd run.steps in
    (ap (λ e. e.reserved_credits) run.steps.event, charged.0, charged.1)
