-- ===== src/Billing/Settlement/Closing.antt =====
-- A usage event is closed once: a second `FinalizeUsage` or `CancelReservation` changes nothing.
use mathlib.Core.Option
use mathlib.Core.Option.{some-injective}
use finnri_api.Base.{
  ℕ, ◌≡◌, refl, sym, ap, ◌∙◌, Bool, true, false, Bool-cases, inl, inr, if◌then◌else◌, String, some,
  Option-cases, arith,
}
use finnri_api.Result.{Result, ok, record_not_found, invalid_status}
use finnri_api.Table.{find_row, update}
use finnri_api.Table.Laws.{find_row-update_row_self}
use finnri_api.Ai.{require}
use finnri_api.Billing.Data.{
  AiUsageEvent, UsageStatus, ProviderUsage, is_reserved, reserved, cancelled,
  failed_before_provider, succeeded, failed_after_provider,
}
use finnri_api.Billing.Tx.{Store, Tx, pure, fail, lift, gets, demand, modify, ◌>>=◌}
use finnri_api.Billing.Runs.{bind-ok, run-bind, demand-ok, ok-injective}
use finnri_api.Billing.Allowance.{CreditService}
use finnri_api.Billing.Usage.{final_status, finish_event}
use finnri_api.Base.Int.{sub_ℕ}
use finnri_api.Billing.Refund.{refund_event_credits}
use finnri_api.Billing.Daily.{adjust_daily_usage}
use finnri_api.Billing.Reservation.{reservation_refund}
use finnri_api.Billing.Settlement.{
  subject_from_event, load_event, update_event, settle, final_charge, finalize_open, finalize_usage,
  cancel_event, cancel_open, is_cancellation, cancel_reservation_with_status,
}

pub load_event-some :
    (id : ℕ) (s : Store) {e : AiUsageEvent}
    → find_row id s.events.rows ≡ some e
    → load_event id s ≡ ok (e, s)
unfolding load_event ◌>>=◌ gets demand
load_event-some id s h = rw h refl

load_event-ok :
    (id : ℕ) (s : Store) {e : AiUsageEvent} {t : Store}
    → load_event id s ≡ ok (e, t)
    → (s ≡ t) × (find_row id s.events.rows ≡ some e)
unfolding load_event ◌>>=◌ gets demand
load_event-ok id s h =
    let (found, same) = demand-ok record_not_found (find_row id s.events.rows) s h in (same, found)

-- The end of both: the event is updated and read again.
pub rewrite_event-ok :
    (id : ℕ) (f : Store → AiUsageEvent → AiUsageEvent) (s : Store) {e : AiUsageEvent} {t : Store}
    → (update_event id f >>= λ u. load_event id) s ≡ ok (e, t)
    → (find_row id t.events.rows ≡ some e) × (x : AiUsageEvent) × (e ≡ f s x)
unfolding update_event update ◌>>=◌ modify
rewrite_event-ok id f s {e} run =
    let (same, found) = load_event-ok id (record s { events = update s.events id (f s) }) run in
    let was = find_row-update_row_self id (f s) s.events.rows in
    elim (Option-cases (find_row id s.events.rows)) [
      | inl n ↦ absurd (cc (was, n, found))
      | inr (x, p) ↦
          (rw (← same) found, x, some-injective _ _ (sym found ∙ was ∙ ap (Option.map (f s)) p))
    ]

final_status-closed :
    (text : String) {status : UsageStatus}
    → final_status text ≡ some status
    → is_reserved status ≡ false
unfolding final_status
final_status-closed text h = ground arith

-- The event is stored under its key and closed.
pub record IsClosed (id : ℕ) (e : AiUsageEvent) (s : Store) : Type 0 where
  pub stored : find_row id s.events.rows ≡ some e
  pub closed : is_reserved e.status ≡ false

finalize_open-IsClosed :
    (svc : CreditService) (id : ℕ) (u : ProviderUsage) (x : AiUsageEvent) (s : Store)
    {e : AiUsageEvent} {t : Store}
    → finalize_open svc id u x s ≡ ok (e, t)
    → IsClosed id e t
unfolding finalize_open
finalize_open-IsClosed svc id u x s {e} h =
    let (action, s1, p1, h1) = bind-ok (lift (require svc.registry x.action_code)) _ s h in
    let (final, s2, p2, h2) =
      bind-ok (settle svc id x action (final_charge x action u.final_credits)) _ s1 h1 in
    let (status, s3, p3, h3) = bind-ok (demand invalid_status (final_status u.status)) _ s2 h2 in
    let known = (demand-ok invalid_status (final_status u.status) s2 p3).0 in
    let (stored, row, written) =
      rewrite_event-ok id (λ s. finish_event svc s status final u) s3 h3 in
    let closed_as : e.status ≡ status = unfold finish_event in ap (λ y. y.status) written in
    record { stored = stored; closed = rw closed_as (final_status-closed u.status known) }

cancellation-closed :
    (status : UsageStatus) → is_cancellation status ≡ true → is_reserved status ≡ false
cancellation-closed reserved h = absurd (ground arith)
cancellation-closed succeeded h = refl
cancellation-closed failed_before_provider h = refl
cancellation-closed failed_after_provider h = refl
cancellation-closed cancelled h = refl

cancel_open-IsClosed :
    (svc : CreditService) (id : ℕ) (status : UsageStatus) (x : AiUsageEvent) (s : Store)
    {e : AiUsageEvent} {t : Store}
    → is_cancellation status ≡ true
    → cancel_open svc id status x s ≡ ok (e, t)
    → IsClosed id e t
unfolding cancel_open
cancel_open-IsClosed svc id status x s {e} valid h =
    let (u1, s1, p1, h1) =
      bind-ok (refund_event_credits id x.reserved_credits reservation_refund) _ s h in
    let (u2, s2, p2, h2) =
      bind-ok (adjust_daily_usage (subject_from_event x) x.started_at (sub_ℕ 0 x.reserved_credits))
        _ s1 h1 in
    let (stored, row, written) = rewrite_event-ok id (λ s. cancel_event status svc.now) s2 h2 in
    let closed_as : e.status ≡ status = ap (λ y. y.status) written in
    record { stored = stored; closed = rw closed_as (cancellation-closed status valid) }

-- What closes an open event leaves it closed, and a closed one is left as it stands.
closing-IsClosed :
    (id : ℕ) (close : AiUsageEvent → Tx AiUsageEvent) (s : Store) {e : AiUsageEvent} {t : Store}
    → ((x : AiUsageEvent) (r : Store) → close x r ≡ ok (e, t) → IsClosed id e t)
    → (load_event id >>= λ x. if is_reserved x.status then close x else pure x) s ≡ ok (e, t)
    → IsClosed id e t
closing-IsClosed id close s {e} {t} closes h =
    let (x, s1, p, rest) = bind-ok (load_event id) _ s h in
    let (same, found) = load_event-ok id s p in
    after x s1 same found (is_reserved x.status) refl rest
  where
    after :
        (x : AiUsageEvent) (s1 : Store)
        → s ≡ s1
        → find_row id s.events.rows ≡ some x
        → (b : Bool) → is_reserved x.status ≡ b
        → (if b then close x else pure x) s1 ≡ ok (e, t)
        → IsClosed id e t
    after x s1 same found true open_ run = closes x s1 run
    after x s1 same found false shut run =
        let ends : ◌≡◌ {A = Result (AiUsageEvent × Store)} (ok (x, s1)) (ok (e, t)) =
          unfold pure in run in
        let is_it : x ≡ e = (ok-injective ends).0 in
        let unmoved : s1 ≡ t = (ok-injective ends).1 in
        record { stored = rw (← is_it, ← unmoved, ← same) found; closed = rw (← is_it) shut }

closing-closed_event :
    (id : ℕ) (close : AiUsageEvent → Tx AiUsageEvent) (s : Store) {e : AiUsageEvent}
    → IsClosed id e s
    → (load_event id >>= λ x. if is_reserved x.status then close x else pure x) s ≡ ok (e, s)
unfolding pure
closing-closed_event id close s c =
    run-bind (load_event id) (λ x. if is_reserved x.status then close x else pure x) s
      (load_event-some id s c.stored)
    ∙ rw c.closed refl

pub finalize_usage-IsClosed :
    (svc : CreditService) (id : ℕ) (u : ProviderUsage) (s : Store) {e : AiUsageEvent} {t : Store}
    → finalize_usage svc id u s ≡ ok (e, t)
    → IsClosed id e t
unfolding finalize_usage
finalize_usage-IsClosed svc id u s h =
    closing-IsClosed id (finalize_open svc id u) s (λ x r. finalize_open-IsClosed svc id u x r) h

cancel_reservation-IsClosed :
    (svc : CreditService) (id : ℕ) (status : UsageStatus) (s : Store) {e : AiUsageEvent} {t : Store}
    → cancel_reservation_with_status svc id status s ≡ ok (e, t)
    → IsClosed id e t
unfolding cancel_reservation_with_status
cancel_reservation-IsClosed svc id status s h = elim (Bool-cases (is_cancellation status)) [
  | inl valid ↦
      closing-IsClosed id (cancel_open svc id status) s
        (λ x r. cancel_open-IsClosed svc id status x r valid) (ground arith)
  | inr other ↦ absurd (unfold fail in ground arith)
]

-- What attempts to close a closed event come to.
closed_event-stays :
    (svc : CreditService) (id : ℕ) (u : ProviderUsage) (status : UsageStatus) (t : Store)
    {e : AiUsageEvent}
    → is_cancellation status ≡ true
    → IsClosed id e t
    → (finalize_usage svc id u t ≡ ok (e, t))
      × (cancel_reservation_with_status svc id status t ≡ ok (e, t))
unfolding finalize_usage cancel_reservation_with_status
closed_event-stays svc id u status t valid c = (
  closing-closed_event id (finalize_open svc id u) t c,
  rw valid (closing-closed_event id (cancel_open svc id status) t c),
)

-- After a finalization that succeeded, the event it returned is the one stored and is not reserved any
-- more; a further finalization, or a cancellation with a cancellation's status, at any time succeeds,
-- returns that event and leaves the whole store as it is.
pub finalize_usage-once :
    (svc : CreditService) (id : ℕ) (u : ProviderUsage) (s : Store) {e : AiUsageEvent} {t : Store}
    → finalize_usage svc id u s ≡ ok (e, t)
    → (later : CreditService) (again : ProviderUsage) (status : UsageStatus)
    → is_cancellation status ≡ true
    → IsClosed id e t
      × (finalize_usage later id again t ≡ ok (e, t))
      × (cancel_reservation_with_status later id status t ≡ ok (e, t))
finalize_usage-once svc id u s {e} {t} h later again status valid =
    let c = finalize_usage-IsClosed svc id u s h in
    let rest = closed_event-stays later id again status t valid c in (c, rest.0, rest.1)

-- After a cancellation that succeeded, the event it returned is the one stored and is not reserved any
-- more; a finalization, or a further cancellation with a cancellation's status, at any time succeeds,
-- returns that event and leaves the whole store as it is.
pub cancel_reservation-once :
    (svc : CreditService) (id : ℕ) (first : UsageStatus) (s : Store) {e : AiUsageEvent} {t : Store}
    → cancel_reservation_with_status svc id first s ≡ ok (e, t)
    → (later : CreditService) (again : ProviderUsage) (status : UsageStatus)
    → is_cancellation status ≡ true
    → IsClosed id e t
      × (finalize_usage later id again t ≡ ok (e, t))
      × (cancel_reservation_with_status later id status t ≡ ok (e, t))
cancel_reservation-once svc id first s {e} {t} h later again status valid =
    let c = cancel_reservation-IsClosed svc id first s h in
    let rest = closed_event-stays later id again status t valid c in (c, rest.0, rest.1)
