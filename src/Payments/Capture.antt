-- ===== src/Payments/Capture.antt =====
-- The money-in path: `applyPaymentCaptured` of internal/http/billing_webhook.go, and the activation and
-- the credits of internal/http/billing_checkout.go. What only logs (a launch price paid twice, a
-- capture for a deleted account) is left out.
pub mod Paid
pub mod Once
use finnri_api.Base.{
  ℕ, ◌+◌, ◌*◌, ltb, ◌==◌, Bool, true, ◌&&◌, ◌||◌, String, str_eq, append, decimal, Option, none,
  some, if◌then◌else◌,
}
use finnri_api.Result.{Result, ok, err, record_not_found, deleted_account, no_billing_period}
use finnri_api.Table.{find_row, first_row, last_by, insert, update}
use finnri_api.Billing.Data.{Plan, UserSubscription, day}
use finnri_api.Billing.Tx.{Store, Tx, pure, fail, gets, modify, transaction, ◌>>=◌, ◌>>◌}
use finnri_api.Billing.Allowance.{CreditService}
use finnri_api.Billing.Grants.{Granted, grant_subscription_period}
use finnri_api.Billing.Tranches.{sync_subscription_tranches}
use finnri_api.Payments.Data.{
  Payment, WebhookPayment, PayStore, WebhookService, Applied, captured, ignored, rejected,
  processed, is_captured, razorpay,
}

unfoldable pub subscription_period_for : String → Option ℕ
subscription_period_for interval =
    if str_eq interval "weekly"
    then some (7 * day)
    else if str_eq interval "monthly"
    then some (30 * day)
    else if str_eq interval "quarterly"
    then some (90 * day)
    else if str_eq interval "yearly"
    then some (365 * day)
    else none

abbrev pub is_running : ℕ → ℕ → UserSubscription → Bool
is_running user now sub =
    (sub.user_id == user)
    && (str_eq sub.status "trialing" || str_eq sub.status "active")
    && ltb now sub.current_period_end

unfoldable pub next_pass_period_start : ℕ → ℕ → Store → ℕ
unfolding last_by
next_pass_period_start user now s =
    elim (last_by (is_running user now) (λ sub. sub.current_period_end) s.subscriptions.rows) [
      | none ↦ now
      | some (i, latest) ↦
          if ltb now latest.current_period_end then latest.current_period_end else now
    ]

abbrev pub new_pass : ℕ → ℕ → ℕ → ℕ → UserSubscription
new_pass user plan_id start period = record {
  user_id = user;
  plan_id = plan_id;
  status = "active";
  current_period_start = start;
  current_period_end = start + period;
  cancel_at_period_end = true;
}

unfoldable pub create_pass : ℕ → ℕ → ℕ → ℕ → Tx (ℕ × UserSubscription)
unfolding next_pass_period_start ◌>>=◌ modify insert
create_pass now user plan_id period = do
  start ← gets (next_pass_period_start user now)
  id ← gets (λ s. s.subscriptions.next_id)
  modify (λ s. record s {
    subscriptions = insert s.subscriptions (new_pass user plan_id start period);
  })
  pure (id, new_pass user plan_id start period)

unfoldable pub activate_subscription_for_payment : ℕ → Payment → Plan → Tx (ℕ × UserSubscription)
unfolding create_pass subscription_period_for
activate_subscription_for_payment now p plan = elim p.user_id [
  | none ↦ fail deleted_account
  | some user ↦ elim (subscription_period_for plan.billing_interval) [
    | none ↦ fail no_billing_period
    | some period ↦ create_pass now user p.plan_id period
  ]
]

unfoldable pub tranched_interval : String → Bool
tranched_interval interval =
    str_eq interval "quarterly" || str_eq interval "yearly" || str_eq interval "lifetime_quote"

abbrev pub done_of : Result Granted → Result (Unit {0})
done_of (ok g) = ok tt
done_of (err e) = err e

-- The plan's whole allowance, or the slices that are due.
unfoldable pub grant_credits_for_subscription :
    CreditService → ℕ → UserSubscription → Plan → Store → Result (Unit {0}) × Store
unfolding tranched_interval transaction sync_subscription_tranches grant_subscription_period
grant_credits_for_subscription svc id sub plan s =
    let sliced = sync_subscription_tranches svc id sub (some plan) s in
    let whole =
      transaction
        (grant_subscription_period svc id sub plan.included_credits sub.current_period_start
          sub.current_period_end)
        s in
    if tranched_interval plan.billing_interval
    then (sliced.0.1, sliced.1)
    else if plan.included_credits == 0
    then (ok tt, s)
    else (done_of whole.0, whole.1)

abbrev pub for_order : String → Payment → Bool
for_order order p = str_eq p.provider razorpay && str_eq p.provider_order_id order

abbrev pub set_captured : ℕ → WebhookPayment → Option ℕ → Payment → Payment
set_captured now e subscription p = record p {
  status = captured;
  provider_payment_id = e.id;
  method = e.method;
  subscription_id = subscription;
  captured_at = some now;
}

-- Outside the activation's transaction: an error leaves the activation.
unfoldable pub grant_after : WebhookService → ℕ → UserSubscription → Plan → PayStore → Applied
unfolding grant_credits_for_subscription
grant_after w id sub plan s =
    let (r, b) = grant_credits_for_subscription w.credits id sub plan s.billing in
    elim r [
      | ok u ↦
          (ok (processed, append "activated subscription " (decimal id)), record s { billing = b })
      | err x ↦ (err x, record s { billing = b })
    ]

unfoldable pub buy_pass : WebhookService → WebhookPayment → ℕ → Payment → Plan → PayStore → Applied
unfolding activate_subscription_for_payment grant_after update
buy_pass w e id p plan s = elim (activate_subscription_for_payment w.credits.now p plan s.billing) [
  | err x ↦ (err x, s)
  | ok ((sid, sub), b) ↦ grant_after w sid sub plan (record s {
    billing = b;
    payments = update s.payments id (set_captured w.credits.now e (some sid));
  })
]

abbrev pub underpays : WebhookPayment → Payment → Bool
underpays e p = ltb 0 e.amount_minor && ltb e.amount_minor p.amount_minor

unfoldable pub capture_payment : WebhookService → WebhookPayment → ℕ → Payment → PayStore → Applied
unfolding buy_pass update
capture_payment w e id p s =
    if is_captured p.status
    then (ok (ignored, "payment already captured"), s)
    else if underpays e p
    then (
      ok (
        rejected,
        append "amount mismatch: paid "
            (append (decimal e.amount_minor) (append ", expected " (decimal p.amount_minor))),
      ),
      s,
    )
    else elim p.user_id [
      | none ↦ (
        ok (ignored, "captured for a deleted account"),
        record s {
          payments = update s.payments id (λ q. set_captured w.credits.now e q.subscription_id q);
        },
      )
      | some user ↦ elim (find_row p.plan_id s.billing.plans.rows) [
        | none ↦ (err record_not_found, s)
        | some plan ↦ buy_pass w e id p plan s
      ]
    ]

unfoldable pub apply_payment_captured : WebhookService → WebhookPayment → PayStore → Applied
unfolding capture_payment first_row
apply_payment_captured w e s =
    if str_eq e.order_id ""
    then (ok (ignored, "capture event carried no order id"), s)
    else elim (first_row (for_order e.order_id) s.payments.rows) [
      | none ↦ (ok (ignored, append "no local payment for order " e.order_id), s)
      | some (id, p) ↦ capture_payment w e id p s
    ]
