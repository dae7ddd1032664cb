-- ===== src/Payments/Webhook/Frame.antt =====
-- An event that is applied leaves the ledger of deliveries alone.
use finnri_api.Base.{◌≡◌, arith}
use finnri_api.Payments.Data.{
  WebhookPayment, WebhookRefund, WebhookEnvelope, PayStore, WebhookService,
}
use finnri_api.Payments.Capture.{apply_payment_captured, capture_payment, buy_pass, grant_after}
use finnri_api.Payments.Failed.{apply_payment_failed}
use finnri_api.Payments.Refund.{
  apply_refund, refund_payment, count_refund, end_payment, announce_again,
}
use finnri_api.Payments.Webhook.{apply_webhook_event}

apply_payment_captured-webhooks :
    (w : WebhookService) (e : WebhookPayment) (s : PayStore)
    → (apply_payment_captured w e s).1.webhooks ≡ s.webhooks
unfolding apply_payment_captured capture_payment buy_pass grant_after
apply_payment_captured-webhooks w e s = ground arith

apply_payment_failed-webhooks :
    (w : WebhookService) (e : WebhookPayment) (s : PayStore)
    → (apply_payment_failed w e s).1.webhooks ≡ s.webhooks
unfolding apply_payment_failed
apply_payment_failed-webhooks w e s = ground arith

apply_refund-webhooks :
    (w : WebhookService) (e : WebhookRefund) (s : PayStore)
    → (apply_refund w e s).1.webhooks ≡ s.webhooks
unfolding apply_refund refund_payment count_refund end_payment announce_again
apply_refund-webhooks w e s = ground arith

pub apply_webhook_event-webhooks :
    (w : WebhookService) (e : WebhookEnvelope) (s : PayStore)
    → (apply_webhook_event w e s).1.webhooks ≡ s.webhooks
unfolding apply_webhook_event
apply_webhook_event-webhooks w e s = ground (
  arith,
  apply_payment_captured-webhooks w e.payment s,
  apply_payment_failed-webhooks w e.payment s,
  apply_refund-webhooks w e.refund s,
)
