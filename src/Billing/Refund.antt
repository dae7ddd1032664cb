-- ===== src/Billing/Refund.antt =====
-- `refundEventCredits` of internal/billing/credits.go: the debits of a usage event are undone, the
-- last one first, each up to what is left of it and of its grant.
use mathlib.Core.List.{reverse}
use finnri_api.Base.{
  ℕ, ◌+◌, ◌-◌, min, ltb, ◌==◌, holds, Bool, false, ◌&&◌, if◌then◌else◌, String, append, str_eq,
  Option, none, some, List, [], ◌∷◌,
}
use finnri_api.Result.{record_not_found, debit_without_grant, refund_incomplete}
use finnri_api.Table.{find_row, select, sum_rows, update}
use finnri_api.Billing.Data.{CreditGrant, CreditLedger, debit, refund, same_direction}
use finnri_api.Billing.Tx.{Store, Tx, pure, fail, modify, gets, ◌>>=◌, ◌>>◌}
use finnri_api.Billing.Ledger.{create_ledger}

abbrev pub refund_key : CreditLedger → String
refund_key d = append d.idempotency_key ":refund"

-- `ai_usage_event_id = NULL` holds of no row.
abbrev pub same_event : Option ℕ → Option ℕ → Bool
same_event none e = false
same_event (some a) e = holds e a

abbrev pub is_refund_of : CreditLedger → ℕ → CreditLedger → Bool
is_refund_of d g x =
    same_event d.ai_usage_event_id x.ai_usage_event_id
    && holds x.grant_id g
    && same_direction x.direction refund
    && str_eq x.idempotency_key (refund_key d)

unfoldable pub refunded_credits_for_debit : Store → CreditLedger → ℕ
refunded_credits_for_debit s d = elim d.grant_id [
  | none ↦ 0
  | some g ↦ sum_rows (λ x. if is_refund_of d g x then x.credits else 0) s.ledger.rows
]

abbrev pub give_back : ℕ → CreditGrant → CreditGrant
give_back balance g = record g { credits_remaining = balance }

abbrev pub refund_entry : ℕ → String → CreditLedger → ℕ → CreditGrant → ℕ → ℕ → CreditLedger
refund_entry event reason d id g amount balance = record {
  user_id = g.user_id;
  guest_device_id_hash = g.guest_device_id_hash;
  grant_id = some id;
  direction = refund;
  credits = amount;
  balance_after = balance;
  reason_code = reason;
  idempotency_key = refund_key d;
  ai_usage_event_id = some event;
}

-- The grant's balance rises by what it can hold; the result is what is still to be refunded.
unfoldable pub refund_to_grant : ℕ → String → CreditLedger → ℕ → ℕ → ℕ → Tx ℕ
unfolding create_ledger ◌>>=◌
refund_to_grant event reason d id amount left s = elim (find_row id s.grants.rows) [
  | none ↦ fail record_not_found s
  | some g ↦
      let balance = min (g.credits_remaining + amount) g.credits_granted in
      let credited = balance - g.credits_remaining in
      let write = do
        modify (λ s. record s { grants = update s.grants id (give_back balance) })
        create_ledger (refund_entry event reason d id g credited balance)
        pure (left - credited)
      in (if credited == 0 then pure left else write) s
]

unfoldable pub refund_debit : ℕ → String → CreditLedger → ℕ → Tx ℕ
unfolding refund_to_grant refunded_credits_for_debit
refund_debit event reason d left s =
    let refundable = d.credits - refunded_credits_for_debit s d in
    let next : Tx ℕ = elim d.grant_id [
      | none ↦ fail debit_without_grant
      | some id ↦ refund_to_grant event reason d id (min refundable left) left
    ] in
    (if refundable == 0 then pure left else next) s

unfoldable pub refund_debits : ℕ → String → List (ℕ × CreditLedger) → ℕ → Tx (Unit {0})
unfolding refund_debit
refund_debits event reason [] left = if ltb 0 left then fail refund_incomplete else pure tt
refund_debits event reason ((i, d) ∷ debits) left =
    let rest = refund_debits event reason debits in
    if left == 0 then pure tt else (refund_debit event reason d left >>= rest)

abbrev pub is_debit_of : ℕ → CreditLedger → Bool
is_debit_of event x = holds x.ai_usage_event_id event && same_direction x.direction debit

-- ORDER BY id DESC
unfoldable pub refund_event_credits : ℕ → ℕ → String → Tx (Unit {0})
unfolding refund_debits
refund_event_credits event credits reason = if credits == 0 then pure tt else do
  debits ← gets (λ s. reverse (select (is_debit_of event) s.ledger.rows))
  refund_debits event reason debits credits
