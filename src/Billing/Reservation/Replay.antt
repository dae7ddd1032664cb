-- ===== src/Billing/Reservation/Replay.antt =====
-- A reservation asked for twice under one key is made once.
use finnri_api.Base.{
  ℕ, ◌≡◌, refl, sym, ap, ◌∙◌, true, false, String, str_eq, eq_refl, none, some, trim_space, arith,
}
use finnri_api.Result.{ok}
use finnri_api.Table.{insert}
use finnri_api.Table.Laws.{IsKeyed}
use finnri_api.Table.Search.{first_row-append}
use finnri_api.Ai.{Action, require}
use finnri_api.Billing.Data.{AiUsageEvent, AllowanceResult, CreditSubject}
use finnri_api.Billing.Tx.{Store}
use finnri_api.Billing.Allowance.{CreditService, is_valid, in_scope}
use finnri_api.Billing.Reservation.{
  new_event, reserve_credits, reserve_result, reserve_body, reserve_for, reserve_known,
  earlier_event, find_usage_event, replayed,
}
use finnri_api.Billing.Reservation.Price.{IsAdmitted, reserve_credits-ok}
use finnri_api.Billing.Reservation.Charge.{IsReserved-charged}

pair_path :
    {A B : Type 0} {x : A} {y : B} (r : A × B) → x ≡ r.0 → y ≡ r.1 → ◌≡◌ {A = A × B} (x, y) r
pair_path (p, q) e f = rw (e, f) refl

in_scope_self :
    (c : CreditSubject) → in_scope c c.user_id (trim_space c.guest_device_id_hash) ≡ true
unfolding in_scope
in_scope_self c = ground (arith, eq_refl (trim_space c.guest_device_id_hash))

-- The event of a reservation is found again under its subject and its key.
new_event-found :
    (svc : CreditService) (c : CreditSubject) (a : AllowanceResult) (key request : String)
    (s t : Store)
    → str_eq key "" ≡ false
    → earlier_event s c key ≡ none
    → t.events ≡ insert s.events (new_event svc c a key request)
    → earlier_event t c key ≡ some (s.events.next_id, new_event svc c a key request)
unfolding earlier_event find_usage_event insert
new_event-found svc c a key request s t named new e =
    rw (named, e)
      (first_row-append _ s.events.next_id (new_event svc c a key request) s.events.rows
        (rw named at new) (rw (eq_refl key) (in_scope_self c)))

replay :
    (svc : CreditService) (c : CreditSubject) (code key request : String) (t : Store)
    {r : ℕ × AiUsageEvent} {action : Action}
    → is_valid c ≡ true
    → earlier_event t c (trim_space key) ≡ some r
    → require svc.registry r.1.action_code ≡ ok action
    → reserve_credits svc c code key request t ≡ (replayed action r.1, ok r, t)
unfolding reserve_credits reserve_body reserve_for reserve_known reserve_result
replay svc c code key request t v found known = rw (v, found, known) refl

-- After a reservation under a key that was new to the subject, a call of the same subject with that
-- key, at whatever time, for whatever action and under whatever request id, returns the event of the first
-- call and leaves the whole store as it is, so it charges nothing. The key must not be blank, the action of the
-- event must still be registered, and no two grants and no two day counters may share a primary key.
pub reserve_credits-replay :
    (svc : CreditService) (c : CreditSubject) (code key request : String) (s : Store)
    {a : AllowanceResult} {r : ℕ × AiUsageEvent} {t : Store}
    → IsKeyed s.grants.rows
    → IsKeyed s.daily.rows
    → str_eq (trim_space key) "" ≡ false
    → earlier_event s c (trim_space key) ≡ none
    → reserve_credits svc c code key request s ≡ (a, ok r, t)
    → (later : CreditService) (code' request' : String) {action : Action}
    → require later.registry r.1.action_code ≡ ok action
    → reserve_credits later c code' key request' t ≡ (replayed action r.1, ok r, t)
reserve_credits-replay svc c code key request s {a} {r} {t} kg kd named new h later code' request'
      known =
    let run : IsAdmitted svc c code (trim_space key) request s a r t =
      reserve_credits-ok svc c code key request s new h in
    let charged = IsReserved-charged svc c (trim_space key) request s kg kd run.steps in
    let found = new_event-found svc c a (trim_space key) request s t named new charged.2 in
    let it : (s.events.next_id, new_event svc c a (trim_space key) request) ≡ r =
      pair_path r (sym charged.3) (sym run.steps.event) in
    replay later c code' key request' t run.subject (found ∙ ap some it) known
