-- ===== src/Payments/Webhook/Deliveries.antt =====
-- What any deliveries leave of the accounts.
use finnri_api.Base.{
  ℕ, not, Bool-cases, Option-cases, inl, inr, String, Option, none, some, List, [], ◌∷◌,
}
use finnri_api.Result.{ok, err}
use finnri_api.Table.{Table, first_row}
use finnri_api.Billing.Balance.{IsSound}
use finnri_api.Payments.Data.{
  PaymentWebhookEvent, WebhookEnvelope, PayStore, WebhookService, Applied,
}
use finnri_api.Payments.Sound.{apply_webhook_event-IsSound}
use finnri_api.Payments.Refund.Counted.{IsCounted, apply_webhook_event-IsCounted}
use finnri_api.Payments.Webhook.{
  WebhookRequest, create_event, same_event, claim_webhook_event, finish_webhook_event, conclude,
  process_claimed, handle_verified, handle_billing_webhook, verify_webhook_signature, parse_webhook,
  record_rejected_webhook, apply_webhook_event, deliver_all,
}

-- What does not look at the ledger of deliveries, and is kept by every event.
module _ (P : PayStore → Type 0)
    (frame : (s : PayStore) (t : Table PaymentWebhookEvent) → P s → P (record s { webhooks = t }))
    (keeps : (w : WebhookService) (e : WebhookEnvelope) (s : PayStore)
      → P s
      → P (apply_webhook_event w e s).1) where
  create_event-keeps : (e : PaymentWebhookEvent) (s : PayStore) → P s → P (create_event e s)
  unfolding create_event
  create_event-keeps e s h =
      elim (Option-cases (first_row (same_event e.event_id) s.webhooks.rows)) [
        | inl n ↦ rw (n, create_event) (frame s _ h)
        | inr (r, k) ↦ rw (k, create_event) h
      ]

  claim_webhook_event-keeps :
      (id type hash : String) (s : PayStore) → P s → P (claim_webhook_event id type hash s).1
  unfolding claim_webhook_event
  claim_webhook_event-keeps id type hash s h =
      elim (Option-cases (first_row (same_event id) s.webhooks.rows)) [
        | inl n ↦ rw (n, claim_webhook_event) (create_event-keeps _ s h)
        | inr (r, k) ↦ rw (k, claim_webhook_event) h
      ]

  conclude-keeps :
      (w : WebhookService) (id : ℕ) (event : String) (a : Applied)
      → P a.1
      → P (conclude w id event a).1
  unfolding conclude finish_webhook_event
  conclude-keeps w id event (ok x, s) h = frame s _ h
  conclude-keeps w id event (err x, s) h = frame s _ h

  process_claimed-keeps :
      (w : WebhookService) (e : WebhookEnvelope) (o : Option ℕ) (s : PayStore)
      → P s
      → P (process_claimed w e o s).1
  unfolding process_claimed
  process_claimed-keeps w e none s h = h
  process_claimed-keeps w e (some id) s h = conclude-keeps w id e.event _ (keeps w e s h)

  handle_billing_webhook-keeps :
      (w : WebhookService) (r : WebhookRequest) (s : PayStore)
      → P s
      → P (handle_billing_webhook w r s).1
  unfolding handle_billing_webhook handle_verified record_rejected_webhook
  handle_billing_webhook-keeps w r s h = elim (Bool-cases (not w.configured)) [
    | inl e ↦ rw e h
    | inr e ↦ elim (Bool-cases (not (verify_webhook_signature w r.body r.signature))) [
      | inl v ↦ rw (e, v) (create_event-keeps _ s h)
      | inr v ↦ elim (Option-cases (parse_webhook w r.body)) [
        | inl n ↦ rw (e, v, n) h
        | inr (envelope, k) ↦
            rw (e, v, k)
              (process_claimed-keeps w envelope _ _ (claim_webhook_event-keeps _ _ _ s h))
      ]
    ]
  ]

  pub deliver_all-keeps :
      (deliveries : List (WebhookService × WebhookRequest)) (s : PayStore)
      → P s
      → P (deliver_all deliveries s)
  unfolding deliver_all
  deliver_all-keeps [] s h = h
  deliver_all-keeps ((w, r) ∷ rest) s h =
      deliver_all-keeps rest _ (handle_billing_webhook-keeps w r s h)

-- From a store in which the credit accounts are balanced and every payment's refunded amount is
-- the sum of its refunds, capped at what was paid, any deliveries in any order (forged, repeated,
-- out of order or failing) leave both so.
pub deliver_all-IsAccounted :
    (deliveries : List (WebhookService × WebhookRequest)) (s : PayStore)
    → IsSound s.billing
    → IsCounted s
    → IsSound (deliver_all deliveries s).billing × IsCounted (deliver_all deliveries s)
deliver_all-IsAccounted deliveries s sound counted = (
  deliver_all-keeps (λ t. IsSound t.billing) (λ s t h. h) apply_webhook_event-IsSound deliveries s
      sound,
  deliver_all-keeps IsCounted (λ s t h. h) apply_webhook_event-IsCounted deliveries s counted,
)
