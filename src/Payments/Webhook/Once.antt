-- ===== src/Payments/Webhook/Once.antt =====
-- The ledger of deliveries: an event is applied once.
use finnri_api.Base.{
  ℕ, ◌≡◌, refl, sym, ap, ◌∙◌, arith, true, false, Bool-cases, Option-cases, inl, inr, String,
  eq_refl, Option, none, some, List, if◌then◌else◌,
}
use mathlib.Core.Option.{some-injective}
use finnri_api.Result.{Result, ok, err}
use finnri_api.Table.{first_row, insert, update}
use finnri_api.Table.Laws.{IsTable, insert-IsTable, update-IsTable}
use finnri_api.Table.Search.{first_row-append, first_row-update_row, first_row-holds}
use finnri_api.Payments.Data.{
  PaymentWebhookEvent, WebhookStatus, received, WebhookEnvelope, WebhookPayment, WebhookRefund,
  PayStore, WebhookService, Applied, is_processing_failed,
}
use finnri_api.Payments.Capture.{apply_payment_captured, capture_payment, buy_pass, grant_after}
use finnri_api.Payments.Failed.{apply_payment_failed}
use finnri_api.Payments.Refund.{
  apply_refund, refund_payment, count_refund, end_payment, announce_again,
}
use finnri_api.Payments.Webhook.{
  WebhookRequest, duplicate, done, new_event, same_event, claim_webhook_event, finish_webhook_event,
  finished, conclude, process_claimed, handle_verified, handle_billing_webhook,
  verify_webhook_signature, parse_webhook, apply_webhook_event, event_id_of, deliver_all,
}
use finnri_api.Payments.Webhook.Stays.{
  IsDone, IsKept, again_key, claim-new, claim-again, deliver_all-IsKept,
}
use finnri_api.Payments.Webhook.Frame.{apply_webhook_event-webhooks}

-- An event that ended without an error is not for another try.
abbrev EndsWell : Result (WebhookStatus × String) → Type 0
EndsWell (ok (status, detail)) = is_processing_failed status ≡ false
EndsWell (err x) = Unit

apply_payment_captured-EndsWell :
    (w : WebhookService) (e : WebhookPayment) (s : PayStore)
    → EndsWell (apply_payment_captured w e s).0
unfolding apply_payment_captured capture_payment buy_pass grant_after
apply_payment_captured-EndsWell w e s = ground arith

apply_payment_failed-EndsWell :
    (w : WebhookService) (e : WebhookPayment) (s : PayStore)
    → EndsWell (apply_payment_failed w e s).0
unfolding apply_payment_failed
apply_payment_failed-EndsWell w e s = ground arith

apply_refund-EndsWell :
    (w : WebhookService) (e : WebhookRefund) (s : PayStore) → EndsWell (apply_refund w e s).0
unfolding apply_refund refund_payment count_refund end_payment announce_again
apply_refund-EndsWell w e s = ground arith

apply_webhook_event-EndsWell :
    (w : WebhookService) (e : WebhookEnvelope) (s : PayStore)
    → EndsWell (apply_webhook_event w e s).0
unfolding apply_webhook_event
apply_webhook_event-EndsWell w e s = ground (
  arith,
  apply_payment_captured-EndsWell w e.payment s,
  apply_payment_failed-EndsWell w e.payment s,
  apply_refund-EndsWell w e.refund s,
)

pub same_event_self :
    (id type hash : String) (status : WebhookStatus) (detail : String)
    → same_event id (new_event id type hash status detail) ≡ true
same_event_self id type hash status detail = rw (eq_refl id) refl

module _ (id type hash : String) (s : PayStore) where
  -- A claim that goes ahead has its row in the ledger.
  claim-found :
      (i : ℕ)
      → IsTable s.webhooks
      → (claim_webhook_event id type hash s).0 ≡ some i
      → (x : PaymentWebhookEvent) × (first_row
            (same_event id)
            (claim_webhook_event id type hash s).1.webhooks.rows
          ≡ some (i, x))
        × IsTable (claim_webhook_event id type hash s).1.webhooks
        × (same_event id x ≡ true)
  claim-found i t h = elim (Option-cases (first_row (same_event id) s.webhooks.rows)) [
    | inl n ↦
        let new = new_event id type hash received "" in
        let key : s.webhooks.next_id ≡ i =
          some-injective _ _ (sym (ap (λ r. r.0) (claim-new id type hash s n)) ∙ h) in
        rw (claim-new id type hash s n, ← key)
          (
            new,
            unfold insert in
                first_row-append (same_event id) s.webhooks.next_id new s.webhooks.rows n
                  (same_event_self id type hash received ""),
            insert-IsTable s.webhooks new t,
            same_event_self id type hash received "",
          )
    | inr ((k, x), found) ↦
        let key : k ≡ i =
          again_key (is_processing_failed x.status) k i
            (sym (ap (λ r. r.0) (claim-again id type hash s k x found)) ∙ h) in
        rw (claim-again id type hash s k x found, ← key)
          (x, found, t, first_row-holds (same_event id) k x s.webhooks.rows found)
  ]

-- A delivery of an event that is done changes nothing.
pub done-duplicate :
    (w : WebhookService) (r : WebhookRequest) (e : WebhookEnvelope) (s : PayStore)
    → IsDone (event_id_of w r) s
    → w.configured ≡ true
    → verify_webhook_signature w r.body r.signature ≡ true
    → parse_webhook w r.body ≡ some e
    → handle_billing_webhook w r s ≡ (duplicate e.event, s)
unfolding handle_billing_webhook handle_verified process_claimed
done-duplicate w r e s d c v p =
    let claimed : claim_webhook_event (event_id_of w r) e.event (w.sha256_hex r.body) s
        ≡ (none, s) =
      claim-again (event_id_of w r) e.event (w.sha256_hex r.body) s d.row d.event d.found
      ∙ ap (λ b. (if b then some d.row else none, s)) d.ended in
    rw (c, v, p) (ap (λ x. process_claimed w e x.0 x.1) claimed)

-- What a verified delivery leaves is in the ledger as done, unless it failed.
module _ (w : WebhookService) (r : WebhookRequest) (e : WebhookEnvelope) where
  concluded-IsKept :
      (id : String) (i : ℕ) (x : PaymentWebhookEvent) (a : Applied)
      → IsTable a.1.webhooks
      → first_row (same_event id) a.1.webhooks.rows ≡ some (i, x)
      → same_event id x ≡ true
      → EndsWell a.0
      → (status : WebhookStatus) (event : String) → (conclude w i e.event a).0 ≡ done status event
      → IsKept id (conclude w i e.event a).1
  unfolding conclude finish_webhook_event update
  concluded-IsKept id i x (ok (st, detail), s) t found same ends status event h = (
    update-IsTable s.webhooks i (finished w st detail) t,
    record {
      row = i;
      event = finished w st detail x;
      found =
          first_row-update_row (same_event id) i x (finished w st detail) s.webhooks.rows t.keyed
            found same;
      ended = ends;
    },
  )
  concluded-IsKept id i x (err y, s) t found same ends status event h = absurd (cc h)

  process_claimed-IsKept :
      (id : String) (c : Option ℕ × PayStore)
      → ((i : ℕ)
          → c.0 ≡ some i
          → (x : PaymentWebhookEvent) × (first_row (same_event id) c.1.webhooks.rows ≡ some (i, x))
            × IsTable c.1.webhooks
            × (same_event id x ≡ true))
      → (status : WebhookStatus) (event : String)
      → (process_claimed w e c.0 c.1).0 ≡ done status event
      → IsKept id (process_claimed w e c.0 c.1).1
  unfolding process_claimed
  process_claimed-IsKept id (none, s) claimed status event h = absurd (cc h)
  process_claimed-IsKept id (some i, s) claimed status event h =
      let (x, found, table, same) = claimed i refl in
      let kept = apply_webhook_event-webhooks w e s in
      concluded-IsKept id i x (apply_webhook_event w e s) (rw kept table) (rw kept found) same
        (apply_webhook_event-EndsWell w e s) status event h

  handle_verified-IsKept :
      (s : PayStore) (status : WebhookStatus) (event : String)
      → IsTable s.webhooks
      → (handle_verified w r e s).0 ≡ done status event
      → IsKept (event_id_of w r) (handle_verified w r e s).1
  unfolding handle_verified
  handle_verified-IsKept s status event t h =
      process_claimed-IsKept (event_id_of w r)
        (claim_webhook_event (event_id_of w r) e.event (w.sha256_hex r.body) s)
        (λ i c. claim-found (event_id_of w r) e.event (w.sha256_hex r.body) s i t c) status event h

handle_billing_webhook-IsKept :
    (w : WebhookService) (r : WebhookRequest) (s : PayStore) (status : WebhookStatus)
    (event : String)
    → IsTable s.webhooks
    → (handle_billing_webhook w r s).0 ≡ done status event
    → IsKept (event_id_of w r) (handle_billing_webhook w r s).1
unfolding handle_billing_webhook
handle_billing_webhook-IsKept w r s status event t h = elim (Bool-cases w.configured) [
  | inr c ↦ absurd (cc (rw c at h))
  | inl c ↦ elim (Bool-cases (verify_webhook_signature w r.body r.signature)) [
    | inr v ↦ absurd (cc (rw (c, v) at h))
    | inl v ↦ elim (Option-cases (parse_webhook w r.body)) [
      | inl n ↦ absurd (cc (rw (c, v, n) at h))
      | inr (e, p) ↦
          rw (c, v, p) (handle_verified-IsKept w r e s status event t (rw (c, v, p) at h))
    ]
  ]
]

-- When the table of deliveries has its keys in order and a delivery was handled without an error, then
-- after any further deliveries (of this event or others, forged, failing or processed) a delivery of
-- the same event that is signed and can be read is answered as a duplicate and changes nothing,
-- whatever its body.
pub handle_billing_webhook-once :
    (w w' : WebhookService) (r r' : WebhookRequest) (e' : WebhookEnvelope) (s : PayStore)
    (status : WebhookStatus) (event : String)
    → IsTable s.webhooks
    → (handle_billing_webhook w r s).0 ≡ done status event
    → event_id_of w' r' ≡ event_id_of w r
    → w'.configured ≡ true
    → verify_webhook_signature w' r'.body r'.signature ≡ true
    → parse_webhook w' r'.body ≡ some e'
    → (between : List (WebhookService × WebhookRequest))
    → handle_billing_webhook w' r' (deliver_all between (handle_billing_webhook w r s).1)
      ≡ (duplicate e'.event, deliver_all between (handle_billing_webhook w r s).1)
handle_billing_webhook-once w w' r r' e' s status event t h same c v p between =
    let (table, d) =
      deliver_all-IsKept (event_id_of w r) between (handle_billing_webhook w r s).1
        (handle_billing_webhook-IsKept w r s status event t h) in
    done-duplicate w' r' e' _ (rw same d) c v p
