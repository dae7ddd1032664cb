-- ===== src/Payments/Sound.antt =====
-- The credit accounts under payments: a pass that is bought opens accounts, a refund empties them.
use finnri_api.Base.{ℕ, ◌≡◌, refl, arith, ◌==◌, ◌||◌, str_eq, Option-cases, inl, inr, some}
use finnri_api.Table.{find_row, first_row}
use finnri_api.Billing.Data.{Plan, UserSubscription}
use finnri_api.Billing.Tx.{Store}
use finnri_api.Billing.Allowance.{CreditService}
use finnri_api.Billing.Balance.{IsSound}
use finnri_api.Billing.Balance.Rules.{Keeps, KeepsAccounts, Keeps-bind}
use finnri_api.Billing.Balance.Operations.{KeepsAccounts-Keeps, modify-Keeps}
use finnri_api.Billing.Balance.Service.{revoke_subscription_credits-Keeps}
use finnri_api.Billing.Balance.Openings.{grant_subscription_period-Keeps}
use finnri_api.Billing.Balance.Calls.{if-IsSound, transaction-IsSound, sync-IsSound}
use finnri_api.Payments.Data.{
  Payment, WebhookPayment, WebhookRefund, WebhookEnvelope, PayStore, WebhookService, is_captured,
}
use finnri_api.Payments.Capture.{
  activate_subscription_for_payment, create_pass, tranched_interval, grant_credits_for_subscription,
  grant_after, buy_pass, capture_payment, apply_payment_captured, for_order, underpays,
}
use finnri_api.Payments.Failed.{apply_payment_failed}
use finnri_api.Payments.Refund.{
  apply_refund, refund_payment, count_refund, end_payment, announce_again, end_subscription,
  counted, for_payment, same_refund,
}
use finnri_api.Payments.Rules.{if-keeps, option-keeps, result-keeps}
use finnri_api.Payments.Webhook.{apply_webhook_event}

abbrev Sound : PayStore → Type 0
Sound s = IsSound s.billing

activate-KeepsAccounts :
    (now : ℕ) (p : Payment) (plan : Plan)
    → KeepsAccounts (activate_subscription_for_payment now p plan)
unfolding activate_subscription_for_payment create_pass
activate-KeepsAccounts now p plan = record { same = λ s. ground arith }

end_subscription-Keeps : (now id : ℕ) → Keeps IsSound (end_subscription now id)
unfolding end_subscription
end_subscription-Keeps now id =
    Keeps-bind _ _ (KeepsAccounts-Keeps _ (modify-Keeps _ (λ s. (refl, refl))))
      (λ u. revoke_subscription_credits-Keeps id)

grant_credits-IsSound :
    (svc : CreditService) (id : ℕ) (sub : UserSubscription) (plan : Plan) (s : Store)
    → IsSound s
    → IsSound (grant_credits_for_subscription svc id sub plan s).1
unfolding grant_credits_for_subscription
grant_credits-IsSound svc id sub plan s h =
    if-IsSound (tranched_interval plan.billing_interval) _ _
      (sync-IsSound svc id sub (some plan) s h)
      (if-IsSound (plan.included_credits == 0) _ _ h (
        transaction-IsSound _ s
          (grant_subscription_period-Keeps svc id sub plan.included_credits sub.current_period_start
            sub.current_period_end)
          h))

grant_after-billing :
    (w : WebhookService) (id : ℕ) (sub : UserSubscription) (plan : Plan) (s : PayStore)
    → (grant_after w id sub plan s).1.billing
      ≡ (grant_credits_for_subscription w.credits id sub plan s.billing).1
unfolding grant_after
grant_after-billing w id sub plan s = ground arith

grant_after-IsSound :
    (w : WebhookService) (id : ℕ) (sub : UserSubscription) (plan : Plan) (s : PayStore)
    → IsSound s.billing
    → IsSound (grant_after w id sub plan s).1.billing
grant_after-IsSound w id sub plan s h =
    rw (grant_after-billing w id sub plan s)
      (grant_credits-IsSound w.credits id sub plan s.billing h)

buy_pass-IsSound :
    (w : WebhookService) (e : WebhookPayment) (id : ℕ) (p : Payment) (plan : Plan) (s : PayStore)
    → IsSound s.billing
    → IsSound (buy_pass w e id p plan s).1.billing
unfolding buy_pass
buy_pass-IsSound w e id p plan s h =
    result-keeps Sound IsSound (activate_subscription_for_payment w.credits.now p plan s.billing) _
      _ ((KeepsAccounts-Keeps _ (activate-KeepsAccounts w.credits.now p plan)).at s.billing h)
      (λ x. h) (λ r b hb. grant_after-IsSound w r.0 r.1 plan _ hb)

apply_payment_captured-IsSound :
    (w : WebhookService) (e : WebhookPayment) (s : PayStore)
    → IsSound s.billing
    → IsSound (apply_payment_captured w e s).1.billing
unfolding apply_payment_captured capture_payment
apply_payment_captured-IsSound w e s h = if-keeps Sound (str_eq e.order_id "") _ _ h (
    option-keeps Sound (first_row (for_order e.order_id) s.payments.rows) _ _ h (λ r found.
      if-keeps Sound (is_captured r.1.status) _ _ h (
        if-keeps Sound (underpays e r.1) _ _ h (
          option-keeps Sound r.1.user_id _ _ h (λ user known.
            option-keeps Sound (find_row r.1.plan_id s.billing.plans.rows) _ _ h
              (λ plan there. buy_pass-IsSound w e r.0 r.1 plan s h))))))

apply_payment_failed-billing :
    (w : WebhookService) (e : WebhookPayment) (s : PayStore)
    → (apply_payment_failed w e s).1.billing ≡ s.billing
unfolding apply_payment_failed
apply_payment_failed-billing w e s = ground arith

end_payment-IsSound :
    (w : WebhookService) (id : ℕ) (p : Payment) (before s : PayStore)
    → IsSound before.billing
    → IsSound s.billing
    → IsSound (end_payment w id p before s).1.billing
unfolding end_payment
end_payment-IsSound w id p before s hb h = option-keeps Sound p.subscription_id _ _ h (λ sub known.
    result-keeps Sound IsSound (end_subscription w.credits.now sub s.billing) _ _
      ((end_subscription-Keeps w.credits.now sub).at s.billing h) (λ x. hb) (λ n b q. q))

apply_refund-IsSound :
    (w : WebhookService) (e : WebhookRefund) (s : PayStore)
    → IsSound s.billing
    → IsSound (apply_refund w e s).1.billing
unfolding apply_refund refund_payment count_refund announce_again
apply_refund-IsSound w e s h = if-keeps Sound (str_eq e.payment_id "") _ _ h (
    option-keeps Sound (first_row (for_payment e.payment_id) s.payments.rows) _ _ h (λ r found.
      if-keeps Sound (str_eq e.id "") _ _ h
        (elim (Option-cases (first_row (same_refund e.id) s.refunds.rows)) [
          | inl n ↦ rw n (
              option-keeps Sound (find_row r.0 (counted r.0 e s).payments.rows) _ _ h
                (λ current there. if-keeps Sound _ _ _ h (end_payment-IsSound w r.0 r.1 s _ h h)))
          | inr (x, k) ↦ rw k h
        ])))

pub apply_webhook_event-IsSound :
    (w : WebhookService) (e : WebhookEnvelope) (s : PayStore)
    → IsSound s.billing
    → IsSound (apply_webhook_event w e s).1.billing
unfolding apply_webhook_event
apply_webhook_event-IsSound w e s h =
    if-keeps Sound (str_eq e.event "payment.captured" || str_eq e.event "order.paid") _ _
      (apply_payment_captured-IsSound w e.payment s h)
      (if-keeps Sound (str_eq e.event "payment.failed") _ _
        (rw (apply_payment_failed-billing w e.payment s) h)
        (if-keeps Sound (str_eq e.event "refund.created" || str_eq e.event "refund.processed") _ _
          (apply_refund-IsSound w e.refund s h) h))
