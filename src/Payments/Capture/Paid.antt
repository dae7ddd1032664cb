-- ===== src/Payments/Capture/Paid.antt =====
-- An order that is paid for stays captured or refunded, whatever is delivered.
use finnri_api.Base.{
  ◌==◌, ==_iff, ℕ, ◌≡◌, refl, sym, ◌∙◌, arith, Bool, true, false, ◌&&◌, ◌||◌, Bool-cases,
  Option-cases, inl, inr, String, str_eq, Option, some, List, if◌then◌else◌,
}
use finnri_api.Table.{find_row, first_row, update}
use finnri_api.Table.Laws.{IsTable, update-IsTable}
use finnri_api.Table.Search.{first_row-update_row, first_row-update_other, first_row-holds}
use finnri_api.Billing.Data.{Plan, UserSubscription}
use finnri_api.Payments.Data.{
  Payment, WebhookPayment, WebhookRefund, WebhookEnvelope, PayStore, WebhookService, is_created,
  is_captured, is_refunded,
}
use finnri_api.Payments.Capture.{
  activate_subscription_for_payment, grant_after, buy_pass, capture_payment, apply_payment_captured,
  for_order, underpays, set_captured,
}
use finnri_api.Payments.Failed.{apply_payment_failed, set_failed, is_open, failure_reason_of}
use finnri_api.Payments.Refund.{
  end_subscription, apply_refund, refund_payment, count_refund, end_payment, announce_again,
  counted, add_refunded, set_refunded, for_payment, same_refund,
}
use finnri_api.Payments.Webhook.{WebhookRequest, apply_webhook_event, deliver_all}
use finnri_api.Payments.Webhook.Deliveries.{deliver_all-keeps}
use finnri_api.Table.Where.{update_where-IsTable, first_row-update_where}
use finnri_api.Payments.Rules.{if-keeps, option-keeps, result-keeps, anything}

pub grant_after-payments :
    (w : WebhookService) (id : ℕ) (sub : UserSubscription) (plan : Plan) (s : PayStore)
    → (grant_after w id sub plan s).1.payments ≡ s.payments
unfolding grant_after
grant_after-payments w id sub plan s = ground arith

and-last : (b c : Bool) → c ≡ false → (b && c) ≡ false
and-last b c h = ground arith

abbrev pub is_settled : Payment → Bool
is_settled p = is_captured p.status || is_refunded p.status

module _ (order : String) where
  -- The order's payment was captured, and refunded since or not.
  pub record IsPaid (s : PayStore) : Type 0 where
    pub table : IsTable s.payments
    pub row : ℕ
    pub payment : Payment
    pub found : first_row (for_order order) s.payments.rows ≡ some (row, payment)
    pub settled : is_settled payment ≡ true

  -- A change of a payment that keeps its order and does not undo its capture.
  record KeepsPaid (f : Payment → Payment) : Type 0 where
    order_stays : (p : Payment) → for_order order (f p) ≡ for_order order p
    settled_stays : (p : Payment) → is_settled p ≡ true → is_settled (f p) ≡ true

  update-IsPaid :
      (i : ℕ) (f : Payment → Payment) (s : PayStore)
      → KeepsPaid f
      → IsPaid s
      → IsPaid (record s { payments = update s.payments i f })
  unfolding update
  update-IsPaid i f s k h = elim (Bool-cases (i == h.row)) [
    | inl e ↦
        let here : i ≡ h.row = (==_iff i h.row).0 e in
        rw here (record {
          table = update-IsTable s.payments h.row f h.table;
          row = h.row;
          payment = f h.payment;
          found =
              first_row-update_row (for_order order) h.row h.payment f s.payments.rows h.table.keyed
                h.found
                (k.order_stays h.payment
                  ∙ first_row-holds (for_order order) h.row h.payment s.payments.rows h.found);
          settled = k.settled_stays h.payment h.settled;
        })
    | inr e ↦ record {
      table = update-IsTable s.payments i f h.table;
      row = h.row;
      payment = h.payment;
      found =
          first_row-update_other (for_order order) h.row i h.payment f s.payments.rows k.order_stays
            (λ p. absurd (cc (sym e ∙ (==_iff i h.row).1 p))) h.found;
      settled = h.settled;
    }
  ]

  set_captured-KeepsPaid :
      (now : ℕ) (e : WebhookPayment) (sub : Payment → Option ℕ)
      → KeepsPaid (λ p. set_captured now e (sub p) p)
  set_captured-KeepsPaid now e sub = record { order_stays = λ p. refl; settled_stays = λ p h. refl }

  add_refunded-KeepsPaid : (n : ℕ) → KeepsPaid (add_refunded n)
  add_refunded-KeepsPaid n = record { order_stays = λ p. refl; settled_stays = λ p h. h }

  set_refunded-KeepsPaid : (now : ℕ) → KeepsPaid (set_refunded now)
  set_refunded-KeepsPaid now = record { order_stays = λ p. refl; settled_stays = λ p h. refl }

  -- The payments alone decide it.
  other-IsPaid : (s t : PayStore) → t.payments ≡ s.payments → IsPaid s → IsPaid t
  other-IsPaid s t same h = record {
    table = rw same h.table;
    row = h.row;
    payment = h.payment;
    found = rw same h.found;
    settled = h.settled;
  }

  capture_payment-IsPaid :
      (w : WebhookService) (e : WebhookPayment) (i : ℕ) (p : Payment) (s : PayStore)
      → IsPaid s
      → IsPaid (capture_payment w e i p s).1
  unfolding capture_payment buy_pass
  capture_payment-IsPaid w e i p s h =
      let now = w.credits.now in
      if-keeps IsPaid (is_captured p.status) _ _ h (
        if-keeps IsPaid (underpays e p) _ _ h (
          option-keeps IsPaid p.user_id _ _
            (update-IsPaid i _ s (set_captured-KeepsPaid now e (λ q. q.subscription_id)) h)
            (λ user known.
              option-keeps IsPaid (find_row p.plan_id s.billing.plans.rows) _ _ h (λ plan there.
                result-keeps IsPaid (λ b. Unit)
                  (activate_subscription_for_payment now p plan s.billing) _ _
                  (anything (activate_subscription_for_payment now p plan s.billing)) (λ x. h)
                  (λ a b u.
                    other-IsPaid (record s { payments = update s.payments i _ }) _
                      (grant_after-payments w a.0 a.1 plan _)
                      (update-IsPaid i _ s (set_captured-KeepsPaid now e (λ q. some a.0)) h))))))

  apply_payment_captured-IsPaid :
      (w : WebhookService) (e : WebhookPayment) (s : PayStore)
      → IsPaid s
      → IsPaid (apply_payment_captured w e s).1
  unfolding apply_payment_captured
  apply_payment_captured-IsPaid w e s h = if-keeps IsPaid (str_eq e.order_id "") _ _ h (
      option-keeps IsPaid (first_row (for_order e.order_id) s.payments.rows) _ _ h
        (λ r found. capture_payment-IsPaid w e r.0 r.1 s h))

  end_payment-IsPaid :
      (w : WebhookService) (i : ℕ) (p : Payment) (before s : PayStore)
      → IsPaid before
      → IsPaid s
      → IsPaid (end_payment w i p before s).1
  unfolding end_payment
  end_payment-IsPaid w i p before s hb h =
      let marked = update-IsPaid i _ s (set_refunded-KeepsPaid w.credits.now) h in
      option-keeps IsPaid p.subscription_id _ _ marked (λ sub known.
        result-keeps IsPaid (λ b. Unit) (end_subscription w.credits.now sub s.billing) _ _
          (anything (end_subscription w.credits.now sub s.billing)) (λ x. hb)
          (λ n b u. other-IsPaid _ _ refl marked))

  counted-IsPaid : (i : ℕ) (e : WebhookRefund) (s : PayStore) → IsPaid s → IsPaid (counted i e s)
  counted-IsPaid i e s h =
      other-IsPaid _ (counted i e s) refl
        (update-IsPaid i _ s (add_refunded-KeepsPaid e.amount_minor) h)

  apply_refund-IsPaid :
      (w : WebhookService) (e : WebhookRefund) (s : PayStore)
      → IsPaid s
      → IsPaid (apply_refund w e s).1
  unfolding apply_refund refund_payment count_refund announce_again
  apply_refund-IsPaid w e s h = if-keeps IsPaid (str_eq e.payment_id "") _ _ h (
      option-keeps IsPaid (first_row (for_payment e.payment_id) s.payments.rows) _ _ h (λ r found.
        if-keeps IsPaid (str_eq e.id "") _ _ h
          (elim (Option-cases (first_row (same_refund e.id) s.refunds.rows)) [
            | inl n ↦ rw n (
                option-keeps IsPaid (find_row r.0 (counted r.0 e s).payments.rows) _ _ h
                  (λ current there.
                    let grown = counted-IsPaid r.0 e s h in
                    if-keeps IsPaid _ _ _ grown (end_payment-IsPaid w r.0 r.1 s _ h grown)))
            | inr (x, k) ↦ rw k (other-IsPaid s _ refl h)
          ])))

  settled_closed : (p : Payment) → is_settled p ≡ true → is_created p.status ≡ false
  settled_closed p h = ground arith

  stays_for :
      (b : Bool) (e : WebhookPayment) (reason : String) (p : Payment)
      → for_order order (if b then set_failed e reason p else p) ≡ for_order order p
  stays_for true e reason p = refl
  stays_for false e reason p = refl

  apply_payment_failed-IsPaid :
      (w : WebhookService) (e : WebhookPayment) (s : PayStore)
      → IsPaid s
      → IsPaid (apply_payment_failed w e s).1
  unfolding apply_payment_failed
  apply_payment_failed-IsPaid w e s h =
      let reason = failure_reason_of w e in
      if-keeps IsPaid (str_eq e.order_id "") _ _ h (
        option-keeps IsPaid (first_row (is_open e.order_id) s.payments.rows) _ _ h (λ r found.
          record {
            table =
                update_where-IsTable (is_open e.order_id) (set_failed e reason) s.payments h.table;
            row = h.row;
            payment = h.payment;
            found =
                first_row-update_where (is_open e.order_id) (set_failed e reason) (for_order order)
                  h.row h.payment s.payments.rows (λ q. stays_for (is_open e.order_id q) e reason q)
                  (and-last (for_order e.order_id h.payment) _ (settled_closed h.payment h.settled))
                  h.found;
            settled = h.settled;
          }))

  apply_webhook_event-IsPaid :
      (w : WebhookService) (e : WebhookEnvelope) (s : PayStore)
      → IsPaid s
      → IsPaid (apply_webhook_event w e s).1
  unfolding apply_webhook_event
  apply_webhook_event-IsPaid w e s h =
      if-keeps IsPaid (str_eq e.event "payment.captured" || str_eq e.event "order.paid") _ _
        (apply_payment_captured-IsPaid w e.payment s h)
        (if-keeps IsPaid (str_eq e.event "payment.failed") _ _
          (apply_payment_failed-IsPaid w e.payment s h)
          (if-keeps IsPaid (str_eq e.event "refund.created" || str_eq e.event "refund.processed") _
            _ (apply_refund-IsPaid w e.refund s h) h))

-- After any deliveries the order's payment is captured, or refunded since.
pub deliver_all-IsPaid :
    (order : String) (deliveries : List (WebhookService × WebhookRequest)) (s : PayStore)
    → IsPaid order s
    → IsPaid order (deliver_all deliveries s)
deliver_all-IsPaid order =
    deliver_all-keeps (IsPaid order) (λ s t h. other-IsPaid order s _ refl h)
      (apply_webhook_event-IsPaid order)
