-- ===== src/Payments/Refund.antt =====
-- The money-out path: `applyRefund` of internal/http/billing_webhook.go.
pub mod Counted
pub mod Ends
use finnri_api.Base.{
  ℕ, ◌+◌, ltb, leb, Bool, true, ◌&&◌, ◌||◌, String, str_eq, append, decimal, Option, none, some,
  if◌then◌else◌,
}
use finnri_api.Result.{Result, ok, err, record_not_found}
use finnri_api.Table.{find_row, first_row, insert, update, update_where}
use finnri_api.Billing.Data.{UserSubscription}
use finnri_api.Billing.Tx.{Store, Tx, modify, ◌>>=◌, ◌>>◌}
use finnri_api.Billing.Revocation.{revoke_subscription_credits}
use finnri_api.Payments.Data.{
  Payment, PaymentRefund, WebhookRefund, PayStore, WebhookService, Applied, refunded, ignored,
  processed, is_refunded, razorpay,
}

abbrev pub for_payment : String → Payment → Bool
for_payment payment p = str_eq p.provider razorpay && str_eq p.provider_payment_id payment

abbrev pub same_refund : String → PaymentRefund → Bool
same_refund refund r = str_eq r.provider razorpay && str_eq r.provider_refund_id refund

abbrev pub new_refund : ℕ → WebhookRefund → PaymentRefund
new_refund payment e = record {
  payment_id = payment;
  provider = razorpay;
  provider_refund_id = e.id;
  amount_minor = e.amount_minor;
  status = e.status;
}

-- The CASE of the UPDATE: capped at what was paid.
abbrev pub add_refunded : ℕ → Payment → Payment
add_refunded amount p = record p {
  amount_refunded_minor =
      if ltb p.amount_minor (p.amount_refunded_minor + amount)
      then p.amount_minor
      else p.amount_refunded_minor + amount;
}

abbrev pub set_refunded : ℕ → Payment → Payment
set_refunded now p = record p { status = refunded; refunded_at = some now }

-- WHERE id = ? AND status = 'active'
abbrev pub end_pass : ℕ → UserSubscription → UserSubscription
end_pass now sub =
    if str_eq sub.status "active"
    then record sub { status = "cancelled"; current_period_end = now; cancel_at_period_end = true }
    else sub

unfoldable pub end_subscription : ℕ → ℕ → Tx ℕ
unfolding modify update revoke_subscription_credits ◌>>=◌
end_subscription now id = do
  modify (λ s. record s { subscriptions = update s.subscriptions id (end_pass now) })
  revoke_subscription_credits id

-- The whole amount is back. `before` is the store that a failed transaction leaves.
unfoldable pub end_payment : WebhookService → ℕ → Payment → PayStore → PayStore → Applied
unfolding end_subscription update
end_payment w id p before s =
    let marked : PayStore = record s {
      payments = update s.payments id (set_refunded w.credits.now);
    } in
    elim p.subscription_id [
      | none ↦ (ok (processed, "refunded in full, subscription ended"), marked)
      | some sub ↦ elim (end_subscription w.credits.now sub s.billing) [
        | err x ↦ (err x, before)
        | ok (n, b) ↦
            (ok (processed, "refunded in full, subscription ended"), record marked { billing = b })
      ]
    ]

-- The refund's row is written and its amount added.
abbrev pub counted : ℕ → WebhookRefund → PayStore → PayStore
counted id e s = record s {
  refunds = insert s.refunds (new_refund id e);
  payments = update s.payments id (add_refunded e.amount_minor);
}

unfoldable pub count_refund : WebhookService → WebhookRefund → ℕ → Payment → PayStore → Applied
unfolding end_payment insert update find_row
count_refund w e id p s = elim (find_row id (counted id e s).payments.rows) [
  | none ↦ (err record_not_found, s)
  | some current ↦
      if ltb current.amount_refunded_minor current.amount_minor || is_refunded current.status
      then (
        ok (
          processed,
          append "partial refund recorded: " (
              append (decimal current.amount_refunded_minor)
                (append " of " (decimal p.amount_minor))),
        ),
        counted id e s,
      )
      else end_payment w id p s (counted id e s)
]

-- A refund that is announced again moves its status on.
unfoldable pub announce_again : WebhookRefund → PayStore → Applied
unfolding update_where
announce_again e s = (
  ok (processed, append "refund " (append e.id " already counted")),
  record s {
    refunds = record s.refunds {
      rows = update_where (same_refund e.id) (λ r. record r { status = e.status }) s.refunds.rows;
    };
  },
)

unfoldable pub refund_payment : WebhookService → WebhookRefund → ℕ → Payment → PayStore → Applied
unfolding count_refund announce_again first_row
refund_payment w e id p s =
    if str_eq e.id ""
    then (ok (ignored, "refund event carried no refund id"), s)
    else elim (first_row (same_refund e.id) s.refunds.rows) [
      | none ↦ count_refund w e id p s
      | some r ↦ announce_again e s
    ]

unfoldable pub apply_refund : WebhookService → WebhookRefund → PayStore → Applied
unfolding refund_payment first_row
apply_refund w e s =
    if str_eq e.payment_id ""
    then (ok (ignored, "refund event carried no payment id"), s)
    else elim (first_row (for_payment e.payment_id) s.payments.rows) [
      | none ↦ (ok (ignored, append "no local payment for refund " e.payment_id), s)
      | some (id, p) ↦ refund_payment w e id p s
    ]
