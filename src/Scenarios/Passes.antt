-- ===== src/Scenarios/Passes.antt =====
-- The theorems on payments at concrete deliveries: a pass of a week for 99, bought and refunded.
use finnri_api.Base.{
  ℕ, ◌*◌, ◌≡◌, refl, arith, true, false, trim_space, is_blank, append, decimal, String, none, some,
  List, [], ◌∷◌,
}
use finnri_api.Result.{ok}
use finnri_api.Ai.{default_action_registry}
use finnri_api.Table.{Table, find_row, update_row, select, first_row, sum_rows}
use finnri_api.Table.Laws.{IsTable}
use finnri_api.Billing.Data.{Plan, day}
use finnri_api.Billing.Tx.{Store}
use finnri_api.Billing.Balance.{IsSound, inflow, outflow}
use finnri_api.Payments.Data.{
  Payment, created, captured, processed, WebhookPayment, WebhookRefund, WebhookEnvelope, PayStore,
  WebhookService, razorpay,
}
use finnri_api.Payments.Capture.{apply_payment_captured}
use finnri_api.Payments.Capture.Once.{IsBoughtOnce, apply_payment_captured-once}
use finnri_api.Payments.Refund.{apply_refund, for_payment, same_refund}
use finnri_api.Payments.Refund.Counted.{IsCounted, refunds_of}
use finnri_api.Payments.Refund.Ends.{HasEnded, IsRefunded, apply_refund-HasEnded}
use finnri_api.Payments.Webhook.{
  WebhookRequest, duplicate, done, handle_billing_webhook, verify_webhook_signature, parse_webhook,
  event_id_of, same_event, deliver_all,
}
use finnri_api.Payments.Webhook.Deliveries.{deliver_all-IsAccounted}
use finnri_api.Payments.Webhook.Once.{handle_billing_webhook-once}
use finnri_api.Payments.Webhook.Rejected.{handle_billing_webhook-rejected_blocks}

abbrev week : Plan
week = record {
  code = "pro_week";
  name = "Pro";
  billing_interval = "weekly";
  price_minor = 9900;
  list_price_minor = 9900;
  currency = "INR";
  included_credits = 700;
  daily_credit_limit = 0;
  is_public = true;
  requires_login = true;
  requires_prior_paid_months = 0;
}

abbrev paid_event : WebhookPayment
paid_event = record {
  id = "pay_1";
  order_id = "order_1";
  amount_minor = 9900;
  method = "upi";
  error_code = "";
  error_description = "";
}

abbrev refund_event : WebhookRefund
refund_event = record {
  id = "rfnd_1";
  payment_id = "pay_1";
  amount_minor = 9900;
  status = "processed";
}

abbrev envelope_of : String → WebhookEnvelope
envelope_of event = record { event = event; payment = paid_event; refund = refund_event }

-- The signature of a body is the body, which is the event's name.
abbrev server : WebhookService
server = record {
  credits = record {
    registry = default_action_registry;
    now = 400 * day;
    audio_micros = λ ms price. 0;
    rfc3339 = λ t. "2001-02-05T00:00:00Z";
  };
  configured = true;
  webhook_secret = "secret";
  first_bytes = λ n s. s;
  failure_text = λ x. "failed";
  hmac = λ key body. body;
  sha256_hex = λ s. s;
  decode_hex = λ s. some s;
  decode_json = λ body. some (envelope_of body);
}

abbrev signed : String → String → WebhookRequest
signed event id = record { body = event; signature = event; event_id = id }

abbrev forged : String → WebhookRequest
forged id = record { body = "payment.captured"; signature = "guess"; event_id = id }

abbrev no_rows : {A : Type 0} → Table A
no_rows = record { rows = []; next_id = 1 }

abbrev no_credits : Store
no_credits = record {
  plans = record { rows = (1, week) ∷ []; next_id = 2 };
  subscriptions = no_rows;
  grants = no_rows;
  ledger = no_rows;
  events = no_rows;
  limit_events = no_rows;
  pricing = no_rows;
  daily = no_rows;
  guest_keys = no_rows;
  abuse_blocks = no_rows;
}

abbrev order : Payment
order = record {
  user_id = some 7;
  plan_id = 1;
  provider = razorpay;
  provider_order_id = "order_1";
  provider_payment_id = "";
  status = created;
  amount_minor = 9900;
  amount_refunded_minor = 0;
  method = "";
  failure_reason = "";
  subscription_id = none;
  captured_at = none;
  refunded_at = none;
}

abbrev ordered : PayStore
ordered = record {
  billing = no_credits;
  payments = record { rows = (1, order) ∷ []; next_id = 2 };
  refunds = no_rows;
  webhooks = no_rows;
}

abbrev bought : PayStore
unfolding apply_payment_captured
bought = (apply_payment_captured server paid_event ordered).1

buys :
    apply_payment_captured server paid_event ordered
    ≡ (ok (processed, "activated subscription 1"), bought)
unfolding apply_payment_captured find_row append decimal
buys = refl

order_found : (id : ℕ) (p : Payment) → find_row id ordered.payments.rows ≡ some p → p ≡ order
unfolding find_row
order_found id p h = ground arith

ordered-IsTable : IsTable ordered.payments
unfolding find_row
ordered-IsTable = record { keyed = (refl, tt); fresh = λ id le. ground arith }

no_webhooks : IsTable ordered.webhooks
unfolding find_row
no_webhooks = record { keyed = tt; fresh = λ id le. refl }

sound : IsSound no_credits
unfolding find_row inflow outflow sum_rows
sound = record {
  table = record { keyed = tt; fresh = λ id le. refl };
  within = λ id g h. absurd (cc h);
  reconciled = λ id g h. absurd (cc h);
  unopened = λ id le. (refl, refl);
}

ordered-IsCounted : IsCounted ordered
unfolding refunds_of sum_rows
ordered-IsCounted id p h = rw (order_found id p h) refl

-- The capture, the same again under another event, a forgery, and the refund.
abbrev week_of_deliveries : List (WebhookService × WebhookRequest)
week_of_deliveries =
    (server, signed "payment.captured" "evt_1")
    ∷ (server, signed "order.paid" "evt_2")
    ∷ (server, forged "evt_3")
    ∷ (server, signed "refund.processed" "evt_4")
    ∷ []

-- After the repeated captures, a forgery and the full refund the order's payment is marked as refunded.
apply_payment_captured-once_example :
    IsBoughtOnce server paid_event (deliver_all week_of_deliveries bought)
apply_payment_captured-once_example =
    apply_payment_captured-once server server paid_event paid_event ordered bought
      "activated subscription 1" ordered-IsTable buys refl refl week_of_deliveries

deliver_all-IsAccounted_example :
    IsSound (deliver_all week_of_deliveries ordered).billing
    × IsCounted (deliver_all week_of_deliveries ordered)
deliver_all-IsAccounted_example =
    deliver_all-IsAccounted week_of_deliveries ordered sound ordered-IsCounted

verified : verify_webhook_signature server "payment.captured" "payment.captured" ≡ true
unfolding verify_webhook_signature trim_space is_blank
verified = refl

read : parse_webhook server "payment.captured" ≡ some (envelope_of "payment.captured")
unfolding parse_webhook
read = refl

delivered :
    (handle_billing_webhook server (signed "payment.captured" "evt_1") ordered).0
    ≡ done processed "payment.captured"
unfolding handle_billing_webhook trim_space is_blank find_row append decimal
delivered = refl

-- The capture is delivered again after a forgery and the refund.
handle_billing_webhook-once_example :
    handle_billing_webhook server (signed "payment.captured" "evt_1") (
      deliver_all week_of_deliveries
        (handle_billing_webhook server (signed "payment.captured" "evt_1") ordered).1)
    ≡ (
      duplicate "payment.captured",
      deliver_all week_of_deliveries
          (handle_billing_webhook server (signed "payment.captured" "evt_1") ordered).1,
    )
handle_billing_webhook-once_example =
    handle_billing_webhook-once server server (signed "payment.captured" "evt_1")
      (signed "payment.captured" "evt_1") (envelope_of "payment.captured") ordered processed
      "payment.captured" no_webhooks delivered refl refl verified read week_of_deliveries

guess_fails : verify_webhook_signature server "payment.captured" "guess" ≡ false
unfolding verify_webhook_signature trim_space is_blank
guess_fails = refl

given : is_blank "evt_1" ≡ false
unfolding is_blank trim_space
given = refl

named : event_id_of server (signed "payment.captured" "evt_1") ≡ trim_space "evt_1"
unfolding is_blank trim_space
named = refl

unknown : first_row (same_event (trim_space "evt_1")) ordered.webhooks.rows ≡ none
unfolding first_row
unknown = refl

-- After a forgery under its id, the capture is taken for a duplicate, and the pass is not granted.
handle_billing_webhook-rejected_blocks_example :
    handle_billing_webhook server
      (signed "payment.captured" "evt_1")
      (handle_billing_webhook server (forged "evt_1") ordered).1
    ≡ (duplicate "payment.captured", (handle_billing_webhook server (forged "evt_1") ordered).1)
handle_billing_webhook-rejected_blocks_example =
    handle_billing_webhook-rejected_blocks server server (forged "evt_1")
      (signed "payment.captured" "evt_1") (envelope_of "payment.captured") ordered refl guess_fails
      given unknown named refl verified read

abbrev bought_order : Payment
bought_order = record order {
  status = captured;
  provider_payment_id = "pay_1";
  method = "upi";
  subscription_id = some 1;
  captured_at = some (400 * day);
}

bought_found : first_row (for_payment "pay_1") bought.payments.rows ≡ some (1, bought_order)
unfolding first_row find_row apply_payment_captured append decimal update_row
bought_found = refl

bought-IsTable : IsTable bought.payments
unfolding find_row apply_payment_captured append decimal update_row
bought-IsTable = record { keyed = (refl, tt); fresh = λ id le. ground arith }

bought_refunds : first_row (same_refund "rfnd_1") bought.refunds.rows ≡ none
unfolding first_row find_row apply_payment_captured append decimal
bought_refunds = refl

abbrev given_back : PayStore
unfolding apply_refund apply_payment_captured find_row append decimal update_row select
given_back = (apply_refund server refund_event bought).1

gives_back :
    apply_refund server refund_event bought
    ≡ (ok (processed, "refunded in full, subscription ended"), given_back)
unfolding apply_refund apply_payment_captured find_row append decimal update_row select
gives_back = refl

apply_refund-HasEnded_example : HasEnded 1 given_back.billing × IsRefunded 1 given_back
apply_refund-HasEnded_example =
    apply_refund-HasEnded server refund_event bought given_back 1 bought_order 1
      (processed, "refunded in full, subscription ended") refl refl bought-IsTable bought_found
      bought_refunds refl (omega arith) refl gives_back

-- A late order.paid after the refund: the payment is captured again, and a second pass is granted.
reactivated :
    (apply_payment_captured server paid_event given_back).0
    ≡ ok (processed, "activated subscription 2")
unfolding apply_payment_captured apply_refund find_row append decimal update_row select
reactivated = refl
