-- ===== src/Payments/Webhook/Rejected.antt =====
-- The ledger of deliveries: what a delivery with a signature that does not verify leaves.
use finnri_api.Base.{
  ◌≡◌, refl, ap, ◌∙◌, true, false, String, str_eq, none, some, trim_space, is_blank, append,
  if◌then◌else◌,
}
use finnri_api.Table.{first_row, insert}
use finnri_api.Table.Search.{first_row-append}
use finnri_api.Payments.Data.{
  PaymentWebhookEvent, rejected, WebhookEnvelope, PayStore, WebhookService,
}
use finnri_api.Payments.Webhook.{
  WebhookRequest, duplicate, create_event, new_event, same_event, handle_billing_webhook,
  verify_webhook_signature, parse_webhook, record_rejected_webhook, event_id_of,
}
use finnri_api.Payments.Webhook.Stays.{IsDone}
use finnri_api.Payments.Webhook.Once.{done-duplicate, same_event_self}

abbrev rejection : String → String → PaymentWebhookEvent
rejection id hash = new_event id "" hash rejected "signature verification failed"

rejected-row :
    (id hash : String) (s : PayStore)
    → str_eq id "" ≡ false
    → first_row (same_event id) s.webhooks.rows ≡ none
    → record_rejected_webhook id hash s
      ≡ record s { webhooks = insert s.webhooks (rejection id hash) }
unfolding record_rejected_webhook create_event
rejected-row id hash s b n =
    ap
      (λ c.
        create_event
          (new_event (if c then append "unsigned:" hash else id) "" hash rejected
            "signature verification failed")
          s)
      b
    ∙ rw (create_event, n) refl

rejected-IsDone :
    (id hash : String) (s : PayStore)
    → str_eq id "" ≡ false
    → first_row (same_event id) s.webhooks.rows ≡ none
    → IsDone id (record_rejected_webhook id hash s)
rejected-IsDone id hash s b n = rw (rejected-row id hash s b n) (record {
  row = s.webhooks.next_id;
  event = rejection id hash;
  found =
      unfold insert in
      first_row-append (same_event id) s.webhooks.next_id (rejection id hash) s.webhooks.rows n
        (same_event_self id "" hash rejected "signature verification failed");
  ended = refl;
})

rejected-left :
    (w : WebhookService) (r : WebhookRequest) (s : PayStore)
    → w.configured ≡ true
    → verify_webhook_signature w r.body r.signature ≡ false
    → (handle_billing_webhook w r s).1
      ≡ record_rejected_webhook (trim_space r.event_id) (w.sha256_hex r.body) s
unfolding handle_billing_webhook
rejected-left w r s c v = rw (c, v) refl

-- When a delivery with the id of an event that the ledger does not know has a signature that does not
-- verify, a later delivery of that event that is signed and can be read is answered as a duplicate,
-- and nothing of it is applied.
pub handle_billing_webhook-rejected_blocks :
    (w w' : WebhookService) (r r' : WebhookRequest) (e' : WebhookEnvelope) (s : PayStore)
    → w.configured ≡ true
    → verify_webhook_signature w r.body r.signature ≡ false
    → is_blank r.event_id ≡ false
    → first_row (same_event (trim_space r.event_id)) s.webhooks.rows ≡ none
    → event_id_of w' r' ≡ trim_space r.event_id
    → w'.configured ≡ true
    → verify_webhook_signature w' r'.body r'.signature ≡ true
    → parse_webhook w' r'.body ≡ some e'
    → handle_billing_webhook w' r' (handle_billing_webhook w r s).1
      ≡ (duplicate e'.event, (handle_billing_webhook w r s).1)
unfolding is_blank
handle_billing_webhook-rejected_blocks w w' r r' e' s c v b n same c' v' p =
    rw (rejected-left w r s c v) (
      done-duplicate w' r' e'
        (record_rejected_webhook (trim_space r.event_id) (w.sha256_hex r.body) s)
        (rw same (rejected-IsDone (trim_space r.event_id) (w.sha256_hex r.body) s b n)) c' v' p)
