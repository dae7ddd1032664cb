-- ===== src/Payments/Webhook.antt =====
-- `handleBillingWebhook` of internal/http/billing_webhook.go with its ledger of deliveries, and the checks
-- of internal/payments/razorpay.go. Of a request this keeps its body, its signature and the id of its
-- event. A body that cannot be read and failures of the database are left out.
pub mod Frame
pub mod Deliveries
pub mod Stays
pub mod Once
pub mod Rejected
use finnri_api.Base.{
  ℕ, Bool, true, false, not, ◌&&◌, ◌||◌, String, str_eq, append, trim_space, is_blank, Option, none,
  some, List, [], ◌∷◌, if◌then◌else◌,
}
use finnri_api.Result.{Result, ok, err}
use finnri_api.Table.{first_row, insert, update}
use finnri_api.Payments.Data.{
  PaymentWebhookEvent, WebhookStatus, received, ignored, rejected, processing_failed,
  is_processing_failed, WebhookEnvelope, PayStore, WebhookService, Applied, razorpay,
}
use finnri_api.Payments.Capture.{apply_payment_captured}
use finnri_api.Payments.Failed.{apply_payment_failed}
use finnri_api.Payments.Refund.{apply_refund}

pub record WebhookRequest : Type 0 where
  pub body : String
  pub signature : String
  pub event_id : String

pub data Answer : Type 0 where
  not_configured invalid_signature invalid_payload : Answer
  duplicate processing_error : String → Answer
  done : WebhookStatus → String → Answer

unfoldable pub verify_webhook_signature : WebhookService → String → String → Bool
verify_webhook_signature w body signature =
    if is_blank w.webhook_secret || is_blank signature
    then false
    else elim (w.decode_hex (trim_space signature)) [
      | none ↦ false
      | some provided ↦ str_eq (w.hmac w.webhook_secret body) provided
    ]

unfoldable pub parse_webhook : WebhookService → String → Option WebhookEnvelope
parse_webhook w body = elim (w.decode_json body) [
  | none ↦ none
  | some e ↦ if str_eq e.event "" then none else some e
]

abbrev pub same_event : String → PaymentWebhookEvent → Bool
same_event id e = str_eq e.provider razorpay && str_eq e.event_id id

abbrev pub new_event : String → String → String → WebhookStatus → String → PaymentWebhookEvent
new_event id type hash status detail = record {
  provider = razorpay;
  event_id = id;
  event_type = type;
  payload_hash = hash;
  status = status;
  detail = detail;
  processed_at = none;
}

-- INSERT under the unique index on the provider and the event: nothing where the index refuses it.
unfoldable pub create_event : PaymentWebhookEvent → PayStore → PayStore
unfolding first_row insert
create_event e s = elim (first_row (same_event e.event_id) s.webhooks.rows) [
  | none ↦ record s { webhooks = insert s.webhooks e }
  | some r ↦ s
]

-- The row to process under, and the store; none where the event is done.
unfoldable pub claim_webhook_event : String → String → String → PayStore → Option ℕ × PayStore
unfolding create_event first_row
claim_webhook_event id type hash s = elim (first_row (same_event id) s.webhooks.rows) [
  | none ↦ (some s.webhooks.next_id, create_event (new_event id type hash received "") s)
  | some (i, existing) ↦ (if is_processing_failed existing.status then some i else none, s)
]

abbrev pub finished :
    WebhookService → WebhookStatus → String → PaymentWebhookEvent → PaymentWebhookEvent
finished w status detail e = record e {
  status = status;
  detail = w.first_bytes 255 detail;
  processed_at = some w.credits.now;
}

unfoldable pub finish_webhook_event :
    WebhookService → ℕ → WebhookStatus → String → PayStore → PayStore
unfolding update
finish_webhook_event w id status detail s = record s {
  webhooks = update s.webhooks id (finished w status detail);
}

unfoldable pub record_rejected_webhook : String → String → PayStore → PayStore
unfolding create_event
record_rejected_webhook id hash s =
    create_event
      (new_event (if str_eq id "" then append "unsigned:" hash else id) "" hash rejected
        "signature verification failed")
      s

unfoldable pub apply_webhook_event : WebhookService → WebhookEnvelope → PayStore → Applied
unfolding apply_payment_captured apply_payment_failed apply_refund
apply_webhook_event w e s =
    if str_eq e.event "payment.captured" || str_eq e.event "order.paid"
    then apply_payment_captured w e.payment s
    else if str_eq e.event "payment.failed"
    then apply_payment_failed w e.payment s
    else if str_eq e.event "refund.created" || str_eq e.event "refund.processed"
    then apply_refund w e.refund s
    else (ok (ignored, append "unhandled event " e.event), s)

-- What becomes of a claimed event.
unfoldable pub conclude : WebhookService → ℕ → String → Applied → Answer × PayStore
unfolding finish_webhook_event
conclude w id event (ok (status, detail), s) =
    (done status event, finish_webhook_event w id status detail s)
conclude w id event (err x, s) =
    (processing_error event, finish_webhook_event w id processing_failed (w.failure_text x) s)

-- The body's hash stands in for an id that was not sent.
abbrev pub event_id_of : WebhookService → WebhookRequest → String
event_id_of w r =
    if is_blank r.event_id then append "sha256:" (w.sha256_hex r.body) else trim_space r.event_id

unfoldable pub process_claimed :
    WebhookService → WebhookEnvelope → Option ℕ → PayStore → Answer × PayStore
unfolding conclude apply_webhook_event
process_claimed w e none s = (duplicate e.event, s)
process_claimed w e (some id) s = conclude w id e.event (apply_webhook_event w e s)

unfoldable pub handle_verified :
    WebhookService → WebhookRequest → WebhookEnvelope → PayStore → Answer × PayStore
unfolding process_claimed claim_webhook_event
handle_verified w r e s =
    let claim = claim_webhook_event (event_id_of w r) e.event (w.sha256_hex r.body) s in
    process_claimed w e claim.0 claim.1

unfoldable pub handle_billing_webhook :
    WebhookService → WebhookRequest → PayStore → Answer × PayStore
unfolding handle_verified parse_webhook verify_webhook_signature record_rejected_webhook
handle_billing_webhook w r s =
    if not w.configured
    then (not_configured, s)
    else if not (verify_webhook_signature w r.body r.signature)
    then (
      invalid_signature,
      record_rejected_webhook (trim_space r.event_id) (w.sha256_hex r.body) s,
    )
    else elim (parse_webhook w r.body) [
      | none ↦ (invalid_payload, s)
      | some e ↦ handle_verified w r e s
    ]

-- Deliveries one after the other, each with the service of its moment.
unfoldable pub deliver_all : List (WebhookService × WebhookRequest) → PayStore → PayStore
unfolding handle_billing_webhook
deliver_all [] s = s
deliver_all ((w, r) ∷ rest) s = deliver_all rest (handle_billing_webhook w r s).1
