-- ===== src/Payments/Data.antt =====
-- The rows of internal/models/payment.go and the events of internal/payments/razorpay.go. Columns and
-- fields that the code of this library neither reads nor sets are left out. The provider's amounts
-- are positive minor units, so an amount is a natural number, and 0 is one that was not sent.
use finnri_api.Base.{ℕ, Bool, true, false, String, Option}
use finnri_api.Result.{Failure, Result}
use finnri_api.Table.{Table}
use finnri_api.Billing.Tx.{Store}
use finnri_api.Billing.Allowance.{CreditService}

pub data PaymentStatus : Type 0 where
  created captured failed refunded : PaymentStatus

-- How far a delivery has come.
pub data WebhookStatus : Type 0 where
  received processed ignored rejected processing_failed : WebhookStatus

abbrev pub is_created : PaymentStatus → Bool
is_created created = true
is_created _ = false

abbrev pub is_captured : PaymentStatus → Bool
is_captured captured = true
is_captured _ = false

abbrev pub is_refunded : PaymentStatus → Bool
is_refunded refunded = true
is_refunded _ = false

abbrev pub is_processing_failed : WebhookStatus → Bool
is_processing_failed processing_failed = true
is_processing_failed _ = false

pub record Payment : Type 0 where
  pub user_id : Option ℕ
  pub plan_id : ℕ
  pub provider : String
  pub provider_order_id : String
  pub provider_payment_id : String
  pub status : PaymentStatus
  pub amount_minor : ℕ
  pub amount_refunded_minor : ℕ
  pub method : String
  pub failure_reason : String
  pub subscription_id : Option ℕ
  pub captured_at : Option ℕ
  pub refunded_at : Option ℕ

pub record PaymentRefund : Type 0 where
  pub payment_id : ℕ
  pub provider : String
  pub provider_refund_id : String
  pub amount_minor : ℕ
  pub status : String

pub record PaymentWebhookEvent : Type 0 where
  pub provider : String
  pub event_id : String
  pub event_type : String
  pub payload_hash : String
  pub status : WebhookStatus
  pub detail : String
  pub processed_at : Option ℕ

pub record WebhookPayment : Type 0 where
  pub id : String
  pub order_id : String
  pub amount_minor : ℕ
  pub method : String
  pub error_code : String
  pub error_description : String

pub record WebhookRefund : Type 0 where
  pub id : String
  pub payment_id : String
  pub amount_minor : ℕ
  pub status : String

pub record WebhookEnvelope : Type 0 where
  pub event : String
  pub payment : WebhookPayment
  pub refund : WebhookRefund

pub record PayStore : Type 0 where
  pub billing : Store
  pub payments : Table Payment
  pub refunds : Table PaymentRefund
  pub webhooks : Table PaymentWebhookEvent

-- What the handlers take from outside: the credit service with its clock, the server's settings,
-- the first bytes of a text (all of a shorter one), the text of an error, HMAC-SHA256 and SHA-256,
-- hexadecimal digits, and the decoding of JSON.
pub record WebhookService : Type 0 where
  pub credits : CreditService
  pub configured : Bool
  pub webhook_secret : String
  pub first_bytes : ℕ → String → String
  pub failure_text : Failure → String
  pub hmac : String → String → String
  pub sha256_hex : String → String
  pub decode_hex : String → Option String
  pub decode_json : String → Option WebhookEnvelope

-- The status to record with its detail, or an error; what was written before an error stays written.
abbrev pub Applied : Type 0
Applied = Result (WebhookStatus × String) × PayStore

abbrev pub razorpay : String
razorpay = "razorpay"
