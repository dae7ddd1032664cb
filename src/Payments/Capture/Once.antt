-- ===== src/Payments/Capture/Once.antt =====
-- An order is bought once, unless it is refunded in full.
use finnri_api.Base.{
  ℕ, ◌≡◌, refl, ap, subst, arith, Bool, true, false, ◌||◌, ◌⊎◌, Bool-cases, inl, inr, String,
  str_eq, some, List,
}
use finnri_api.Result.{Result, ok}
use finnri_api.Table.{find_row, first_row, update}
use finnri_api.Table.Laws.{IsTable, update-IsTable}
use finnri_api.Table.Search.{first_row-update_row, first_row-holds}
use finnri_api.Billing.Data.{Plan, UserSubscription}
use finnri_api.Billing.Tx.{Store}
use finnri_api.Payments.Data.{
  Payment, WebhookPayment, WebhookStatus, PayStore, WebhookService, Applied, processed, ignored,
  is_captured, is_refunded,
}
use finnri_api.Payments.Capture.Paid.{IsPaid, grant_after-payments, deliver_all-IsPaid}
use finnri_api.Payments.Webhook.{WebhookRequest, deliver_all}
use finnri_api.Payments.Rules.{if-either, option-either, result-either, anything}
use finnri_api.Payments.Capture.{
  activate_subscription_for_payment, grant_after, buy_pass, capture_payment, apply_payment_captured,
  for_order, underpays, set_captured,
}

or-right : (b c : Bool) → b ≡ false → (b || c) ≡ true → c ≡ true
or-right b c h k = ground arith

abbrev is_processed : Result (WebhookStatus × String) → Bool
is_processed (ok (processed, detail)) = true
is_processed _ = false

processed-IsPaid :
    (w : WebhookService) (e : WebhookPayment) (s : PayStore)
    → IsTable s.payments
    → is_processed (apply_payment_captured w e s).0 ≡ true
    → IsPaid e.order_id (apply_payment_captured w e s).1
unfolding apply_payment_captured capture_payment buy_pass
processed-IsPaid w e s t =
    let P : Applied → Type 0 = λ a. is_processed a.0 ≡ true → IsPaid e.order_id a.1 in
    if-either P (str_eq e.order_id "") _ _ (λ h. absurd (cc h))
      (option-either P (first_row (for_order e.order_id) s.payments.rows) _ _ (λ h. absurd (cc h))
        (λ r found.
          if-either P (is_captured r.1.status) _ _ (λ h. absurd (cc h))
            (if-either P (underpays e r.1) _ _ (λ h. absurd (cc h))
              (option-either P r.1.user_id _ _ (λ h. absurd (cc h))
                (λ user known.
                  option-either P (find_row r.1.plan_id s.billing.plans.rows) _ _
                    (λ h. absurd (cc h))
                    (λ plan there.
                      result-either P (λ b. Unit)
                        (activate_subscription_for_payment w.credits.now r.1 plan s.billing) _ _
                        (anything
                          (activate_subscription_for_payment w.credits.now r.1 plan s.billing))
                        (λ x h. absurd (cc h)) (λ a b u h. bought r.0 r.1 a plan b found)))))))
  where
    bought :
        (i : ℕ) (p : Payment) (a : ℕ × UserSubscription) (plan : Plan) (b : Store)
        → first_row (for_order e.order_id) s.payments.rows ≡ some (i, p)
        → IsPaid e.order_id
            (grant_after w a.0 a.1 plan (record s {
              billing = b;
              payments = update s.payments i (set_captured w.credits.now e (some a.0));
            })).1
    bought i p a plan b found = record {
      table =
          rw (grant_after-payments w a.0 a.1 plan _)
            (update-IsTable s.payments i (set_captured w.credits.now e (some a.0)) t);
      row = i;
      payment = set_captured w.credits.now e (some a.0) p;
      found = rw (grant_after-payments w a.0 a.1 plan _) (
          unfold update in
          first_row-update_row (for_order e.order_id) i p (set_captured w.credits.now e (some a.0))
            s.payments.rows t.keyed found
            (first_row-holds (for_order e.order_id) i p s.payments.rows found));
      settled = refl;
    }

captured-ignored :
    (w : WebhookService) (e : WebhookPayment) (t : PayStore) (row : ℕ) (p : Payment)
    → str_eq e.order_id "" ≡ false
    → first_row (for_order e.order_id) t.payments.rows ≡ some (row, p)
    → is_captured p.status ≡ true
    → apply_payment_captured w e t ≡ (ok (ignored, "payment already captured"), t)
unfolding apply_payment_captured capture_payment
captured-ignored w e t row p given found done = rw (given, found, capture_payment, done) refl

-- The payment of an order is found; it is captured, and then the capture changes nothing, or it has been
-- refunded in full.
abbrev pub IsBoughtOnce : WebhookService → WebhookPayment → PayStore → Type 0
IsBoughtOnce w e t =
    (row : ℕ) × (p : Payment) × (first_row (for_order e.order_id) t.payments.rows ≡ some (row, p))
    × (((is_captured p.status ≡ true)
          × (apply_payment_captured w e t ≡ (ok (ignored, "payment already captured"), t)))
        ⊎ (is_refunded p.status ≡ true))

-- When the table of payments has its keys in order and a capture that names its order was processed,
-- then after any deliveries that follow (captures, failures and refunds of any order, forged or
-- repeated ones) the order's payment is still found and is captured or marked as refunded in full. While
-- it is captured, a capture of the order, by whatever event, is ignored and changes nothing; only the
-- mark of a full refund opens the order to another capture.
pub apply_payment_captured-once :
    (w w' : WebhookService) (e e' : WebhookPayment) (s t : PayStore) (detail : String)
    → IsTable s.payments
    → apply_payment_captured w e s ≡ (ok (processed, detail), t)
    → str_eq e.order_id "" ≡ false
    → e'.order_id ≡ e.order_id
    → (between : List (WebhookService × WebhookRequest))
    → IsBoughtOnce w' e' (deliver_all between t)
apply_payment_captured-once w w' e e' s t detail table h given same between =
    let bought : IsPaid e.order_id t =
      subst (λ a. IsPaid e.order_id a.1) h
        (processed-IsPaid w e s table (ap (λ a. is_processed a.0) h)) in
    let paid : IsPaid e'.order_id (deliver_all between t) =
      deliver_all-IsPaid e'.order_id between t (rw same bought) in
    (
      paid.row,
      paid.payment,
      paid.found,
      elim (Bool-cases (is_captured paid.payment.status)) [
        | inl c ↦ inl (
          c,
          captured-ignored w' e' (deliver_all between t) paid.row paid.payment (rw same given)
              paid.found c,
        )
        | inr c ↦ inr (or-right _ _ c paid.settled)
      ],
    )
