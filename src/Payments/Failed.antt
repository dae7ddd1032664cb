-- ===== src/Payments/Failed.antt =====
-- `applyPaymentFailed` of internal/http/billing_webhook.go.
use finnri_api.Base.{
  Bool, ◌&&◌, String, str_eq, append, trim_space, is_blank, none, some, if◌then◌else◌,
}
use finnri_api.Result.{ok}
use finnri_api.Table.{first_row, update_where}
use finnri_api.Payments.Data.{
  Payment, WebhookPayment, PayStore, WebhookService, Applied, failed, ignored, processed,
  is_created,
}
use finnri_api.Payments.Capture.{for_order}

unfoldable pub failure_reason_of : WebhookService → WebhookPayment → String
failure_reason_of w e = w.first_bytes 255 (
    if is_blank e.error_description
    then trim_space e.error_code
    else trim_space e.error_description)

abbrev pub is_open : String → Payment → Bool
is_open order p = for_order order p && is_created p.status

abbrev pub set_failed : WebhookPayment → String → Payment → Payment
set_failed e reason p = record p {
  status = failed;
  provider_payment_id = e.id;
  failure_reason = reason;
}

unfoldable pub apply_payment_failed : WebhookService → WebhookPayment → PayStore → Applied
unfolding failure_reason_of first_row update_where
apply_payment_failed w e s =
    let reason = failure_reason_of w e in
    if str_eq e.order_id ""
    then (ok (ignored, "failure event carried no order id"), s)
    else elim (first_row (is_open e.order_id) s.payments.rows) [
      | none ↦ (ok (ignored, append "no open payment for order " e.order_id), s)
      | some r ↦ (
        ok (processed, append "marked payment failed: " reason),
        record s {
          payments = record s.payments {
            rows = update_where (is_open e.order_id) (set_failed e reason) s.payments.rows;
          };
        },
      )
    ]
