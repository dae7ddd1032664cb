-- ===== src/Billing/Ledger.antt =====
-- Writing the ledger: `createLedger` and `createGrantLedger` of internal/billing/credits.go, with the
-- unique index on (grant_id, idempotency_key, direction) of internal/database/schema.go.
use finnri_api.Base.{
  ℕ, ◌==◌, holds, Bool, true, false, not, ◌&&◌, if◌then◌else◌, String, str_eq, none, some,
}
use finnri_api.Result.{ledger_credits_not_positive, conflict}
use finnri_api.Table.{first_row, insert}
use finnri_api.Billing.Data.{CreditGrant, CreditLedger, Direction, expiry, same_direction}
use finnri_api.Billing.Tx.{Store, Tx, fail, modify}

same_entry : CreditLedger → CreditLedger → Bool
same_entry x y = elim x.grant_id [
  | none ↦ false
  | some g ↦
      holds y.grant_id g
      && str_eq y.idempotency_key x.idempotency_key
      && same_direction y.direction x.direction
]

unfoldable pub is_recorded : CreditLedger → Store → Bool
unfolding same_entry
is_recorded x s =
    not (str_eq x.idempotency_key "")
    && elim (first_row (same_entry x) s.ledger.rows) [ none ↦ false | some r ↦ true ]

insert_ledger : CreditLedger → Tx (Unit {0})
unfolding modify
insert_ledger x = modify (λ s. record s { ledger = insert s.ledger x })

unfoldable pub create_ledger : CreditLedger → Tx (Unit {0})
unfolding is_recorded insert_ledger fail
create_ledger x s =
    if x.credits == 0
    then fail ledger_credits_not_positive s
    else if is_recorded x s
    then fail conflict s
    else insert_ledger x s

abbrev pub balance_for : Direction → ℕ → ℕ
balance_for expiry remaining = 0
balance_for _ remaining = remaining

abbrev pub grant_entry : ℕ → CreditGrant → Direction → ℕ → String → String → CreditLedger
grant_entry id g direction credits reason key = record {
  user_id = g.user_id;
  guest_device_id_hash = g.guest_device_id_hash;
  grant_id = some id;
  direction = direction;
  credits = credits;
  balance_after = balance_for direction g.credits_remaining;
  reason_code = reason;
  idempotency_key = key;
  ai_usage_event_id = none;
}

unfoldable pub create_grant_ledger :
    ℕ → CreditGrant → Direction → ℕ → String → String → Tx (Unit {0})
unfolding create_ledger
create_grant_ledger id g direction credits reason key =
    create_ledger (grant_entry id g direction credits reason key)
