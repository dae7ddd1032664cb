-- ===== src/Payments/Refund/Counted.antt =====
-- What is recorded as refunded of a payment is what its refunds come to.
use finnri_api.Base.{
  ℕ, ◌+◌, ◌≡◌, ◌≢◌, refl, sym, ap, ◌∙◌, min, arith, ltb, ◌==◌, ==_iff, ◌||◌, str_eq, Bool, true,
  false, Bool-cases, Option-cases, inl, inr, some, List, [], ◌∷◌, if◌then◌else◌,
}
use mathlib.Core.Option
use mathlib.Core.Option.{some-injective}
use finnri_api.Table.{Table, find_row, first_row, sum_rows, insert, update, update_where}
use finnri_api.Table.Laws.{
  find_row-update_row_cases, find_row-update_row_self, find_row-update_row_ne,
}
use finnri_api.Table.Sums.{sum_rows-append}
use finnri_api.Billing.Data.{Plan, UserSubscription}
use finnri_api.Payments.Data.{
  Payment, PaymentRefund, WebhookPayment, WebhookRefund, WebhookEnvelope, PayStore, WebhookService,
  is_captured,
}
use finnri_api.Payments.Capture.{
  activate_subscription_for_payment, grant_after, buy_pass, capture_payment, apply_payment_captured,
  for_order, underpays,
}
use finnri_api.Payments.Failed.{apply_payment_failed, set_failed, is_open, failure_reason_of}
use finnri_api.Payments.Refund.{
  end_subscription, apply_refund, refund_payment, count_refund, end_payment, announce_again,
  counted, new_refund, add_refunded, set_refunded, for_payment, same_refund,
}
use finnri_api.Payments.Webhook.{apply_webhook_event}
use finnri_api.Payments.Rules.{if-keeps, option-keeps, result-keeps, anything}

-- The amounts of the refunds of a payment.
abbrev pub part_of : ℕ → PaymentRefund → ℕ
part_of id r = if r.payment_id == id then r.amount_minor else 0

unfoldable pub refunds_of : ℕ → Table PaymentRefund → ℕ
unfolding sum_rows
refunds_of id refunds = sum_rows (part_of id) refunds.rows

-- Of every payment, what is recorded as refunded is the sum of its refunds, capped at what was paid.
abbrev pub IsCounted : PayStore → Type 0
IsCounted s =
    (id : ℕ) (p : Payment)
    → find_row id s.payments.rows ≡ some p
    → p.amount_refunded_minor ≡ min p.amount_minor (refunds_of id s.refunds)

-- A change of a payment that leaves its amounts.
abbrev SameAmounts : (Payment → Payment) → Type 0
SameAmounts f =
    (p : Payment)
    → ((f p).amount_minor ≡ p.amount_minor)
      × ((f p).amount_refunded_minor ≡ p.amount_refunded_minor)

update-IsCounted :
    (id : ℕ) (f : Payment → Payment) (s : PayStore)
    → SameAmounts f
    → IsCounted s
    → IsCounted (record s { payments = update s.payments id f })
unfolding update
update-IsCounted id f s same h j p found =
    elim (find_row-update_row_cases id j f s.payments.rows found) [
      | inl (old, was, now) ↦ rw (now, (same old).0, (same old).1) (h j old was)
      | inr was ↦ h j p was
    ]

-- A row that is found after UPDATE ... WHERE was there before it.
find_row-update_where :
    (q : Payment → Bool) (f : Payment → Payment) (j : ℕ) (rows : List (ℕ × Payment)) (p : Payment)
    → find_row j (update_where q f rows) ≡ some p
    → (old : Payment) × (find_row j rows ≡ some old) × (p ≡ (if q old then f old else old))
unfolding find_row update_where
find_row-update_where q f j [] p h = absurd (cc h)
find_row-update_where q f j ((i, a) ∷ rows) p h = elim (Bool-cases (i == j)) [
  | inl e ↦ rw e (a, refl, sym (some-injective _ _ (sym (rw e refl) ∙ h)))
  | inr e ↦ rw e (find_row-update_where q f j rows p (sym (rw e refl) ∙ h))
]

refunds_of-insert :
    (j : ℕ) (refunds : Table PaymentRefund) (r : PaymentRefund)
    → refunds_of j (insert refunds r) ≡ refunds_of j refunds + part_of j r
unfolding refunds_of insert
refunds_of-insert j refunds r = sum_rows-append (part_of j) refunds.next_id r refunds.rows

capped : (m r x t : ℕ) → r ≡ min m t → (if ltb m (r + x) then m else r + x) ≡ min m (t + x)
capped m r x t h = ground arith

part_of_self : (id : ℕ) (e : WebhookRefund) → part_of id (new_refund id e) ≡ e.amount_minor
part_of_self id e = ground arith

part_of_ne : (id j : ℕ) (e : WebhookRefund) → id ≢ j → part_of j (new_refund id e) ≡ 0
part_of_ne id j e h = ground arith

-- A refund that is inserted and added: both sides grow by its amount.
counted-IsCounted :
    (id : ℕ) (e : WebhookRefund) (s : PayStore) → IsCounted s → IsCounted (counted id e s)
unfolding update
counted-IsCounted id e s h j p found = elim (Bool-cases (id == j)) [
  | inl same ↦ elim (Option-cases (find_row id s.payments.rows)) [
    | inl n ↦ absurd (
        cc (
          n,
          ap (λ k. find_row k (update s.payments id (add_refunded e.amount_minor)).rows)
              ((==_iff id j).0 same),
          found,
          find_row-update_row_self id (add_refunded e.amount_minor) s.payments.rows,
        ))
    | inr (old, was) ↦
        let at_id : id ≡ j = (==_iff id j).0 same in
        let now : p ≡ add_refunded e.amount_minor old = some-injective _ _ (
          sym found
          ∙ ap (λ k. find_row k (update s.payments id (add_refunded e.amount_minor)).rows)
              (sym at_id)
          ∙ find_row-update_row_self id (add_refunded e.amount_minor) s.payments.rows
          ∙ ap (Option.map (add_refunded e.amount_minor)) was) in
        rw (now, ← at_id, refunds_of-insert id s.refunds (new_refund id e), part_of_self id e)
          (capped old.amount_minor old.amount_refunded_minor e.amount_minor _ (h id old was))
  ]
  | inr differ ↦
      let ne : id ≢ j = λ q. ground arith in
      rw (refunds_of-insert j s.refunds (new_refund id e), part_of_ne id j e ne)
        (rw (let z : refunds_of j s.refunds + 0 ≡ refunds_of j s.refunds = omega arith in z)
          (h j p (sym (find_row-update_row_ne id j _ s.payments.rows ne) ∙ found)))
]

-- A refund that is announced again only moves its status.
refunds_of-announced :
    (j : ℕ) (e : WebhookRefund) (rows : List (ℕ × PaymentRefund))
    → sum_rows
        (part_of j)
        (update_where (same_refund e.id) (λ r. record r { status = e.status }) rows)
      ≡ sum_rows (part_of j) rows
unfolding sum_rows update_where
refunds_of-announced j e [] = refl
refunds_of-announced j e ((k, r) ∷ rows) = ground (arith, refunds_of-announced j e rows)

announce_again-IsCounted :
    (e : WebhookRefund) (s : PayStore) → IsCounted s → IsCounted (announce_again e s).1
unfolding announce_again refunds_of
announce_again-IsCounted e s h j p found =
    h j p found ∙ ap (min p.amount_minor) (sym (refunds_of-announced j e s.refunds.rows))

end_payment-IsCounted :
    (w : WebhookService) (id : ℕ) (p : Payment) (before s : PayStore)
    → IsCounted before
    → IsCounted s
    → IsCounted (end_payment w id p before s).1
unfolding end_payment
end_payment-IsCounted w id p before s hb h =
    let marked = update-IsCounted id (set_refunded w.credits.now) s (λ q. (refl, refl)) h in
    option-keeps IsCounted p.subscription_id _ _ marked (λ sub known.
      result-keeps IsCounted (λ b. Unit) (end_subscription w.credits.now sub s.billing) _ _
        (anything (end_subscription w.credits.now sub s.billing)) (λ x. hb) (λ n b u. marked))

apply_refund-IsCounted :
    (w : WebhookService) (e : WebhookRefund) (s : PayStore)
    → IsCounted s
    → IsCounted (apply_refund w e s).1
unfolding apply_refund refund_payment count_refund
apply_refund-IsCounted w e s h = if-keeps IsCounted (str_eq e.payment_id "") _ _ h (
    option-keeps IsCounted (first_row (for_payment e.payment_id) s.payments.rows) _ _ h (λ r found.
      let both = counted-IsCounted r.0 e s h in
      if-keeps IsCounted (str_eq e.id "") _ _ h (
        option-keeps IsCounted (first_row (same_refund e.id) s.refunds.rows) _ _
          (option-keeps IsCounted (find_row r.0 (counted r.0 e s).payments.rows) _ _ h
            (λ current there.
              if-keeps IsCounted _ _ _ both (end_payment-IsCounted w r.0 r.1 s _ h both)))
          (λ k known. announce_again-IsCounted e s h))))

grant_after-tables :
    (w : WebhookService) (id : ℕ) (sub : UserSubscription) (plan : Plan) (s : PayStore)
    → ((grant_after w id sub plan s).1.payments ≡ s.payments)
      × ((grant_after w id sub plan s).1.refunds ≡ s.refunds)
unfolding grant_after
grant_after-tables w id sub plan s = ground arith

grant_after-IsCounted :
    (w : WebhookService) (id : ℕ) (sub : UserSubscription) (plan : Plan) (s : PayStore)
    → IsCounted s
    → IsCounted (grant_after w id sub plan s).1
grant_after-IsCounted w id sub plan s h j p found =
    let t = grant_after-tables w id sub plan s in
    rw t.1 (h j p (ap (λ x. find_row j x.rows) (sym t.0) ∙ found))

apply_payment_captured-IsCounted :
    (w : WebhookService) (e : WebhookPayment) (s : PayStore)
    → IsCounted s
    → IsCounted (apply_payment_captured w e s).1
unfolding apply_payment_captured capture_payment buy_pass
apply_payment_captured-IsCounted w e s h = if-keeps IsCounted (str_eq e.order_id "") _ _ h (
    option-keeps IsCounted (first_row (for_order e.order_id) s.payments.rows) _ _ h (λ r found.
      if-keeps IsCounted (is_captured r.1.status) _ _ h (
        if-keeps IsCounted (underpays e r.1) _ _ h (
          option-keeps IsCounted r.1.user_id _ _ (update-IsCounted r.0 _ s (λ q. (refl, refl)) h)
            (λ user known.
              option-keeps IsCounted (find_row r.1.plan_id s.billing.plans.rows) _ _ h
                (λ plan there.
                  result-keeps IsCounted (λ b. Unit)
                    (activate_subscription_for_payment w.credits.now r.1 plan s.billing) _ _
                    (anything (activate_subscription_for_payment w.credits.now r.1 plan s.billing))
                    (λ x. h)
                    (λ a b u.
                      grant_after-IsCounted w a.0 a.1 plan _
                        (update-IsCounted r.0 _ s (λ q. (refl, refl)) h))))))))

same_row :
    (b : Bool) (w : WebhookService) (e : WebhookPayment) (old p : Payment) (n : ℕ)
    → p ≡ (if b then set_failed e (failure_reason_of w e) old else old)
    → old.amount_refunded_minor ≡ min old.amount_minor n
    → p.amount_refunded_minor ≡ min p.amount_minor n
same_row true w e old p n now h = rw now h
same_row false w e old p n now h = rw now h

apply_payment_failed-IsCounted :
    (w : WebhookService) (e : WebhookPayment) (s : PayStore)
    → IsCounted s
    → IsCounted (apply_payment_failed w e s).1
unfolding apply_payment_failed
apply_payment_failed-IsCounted w e s h = if-keeps IsCounted (str_eq e.order_id "") _ _ h (
    option-keeps IsCounted (first_row (is_open e.order_id) s.payments.rows) _ _ h
      (λ r found j p there.
        let (old, was, now) =
          find_row-update_where (is_open e.order_id) (set_failed e (failure_reason_of w e)) j
            s.payments.rows p there in
        same_row (is_open e.order_id old) w e old p _ now (h j old was)))

pub apply_webhook_event-IsCounted :
    (w : WebhookService) (e : WebhookEnvelope) (s : PayStore)
    → IsCounted s
    → IsCounted (apply_webhook_event w e s).1
unfolding apply_webhook_event
apply_webhook_event-IsCounted w e s h =
    if-keeps IsCounted (str_eq e.event "payment.captured" || str_eq e.event "order.paid") _ _
      (apply_payment_captured-IsCounted w e.payment s h)
      (if-keeps IsCounted (str_eq e.event "payment.failed") _ _
        (apply_payment_failed-IsCounted w e.payment s h)
        (if-keeps IsCounted (str_eq e.event "refund.created" || str_eq e.event "refund.processed") _
          _ (apply_refund-IsCounted w e.refund s h) h))
