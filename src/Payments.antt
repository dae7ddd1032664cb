-- ===== src/Payments.antt =====
-- Payments: internal/payments/razorpay.go, internal/http/billing_checkout.go and
-- internal/http/billing_webhook.go.
pub mod Data
pub mod Capture
pub mod Failed
pub mod Refund
pub mod Webhook
pub mod Rules
pub mod Sound
