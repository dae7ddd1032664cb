-- ===== src/Billing/Debit.antt =====
-- `debitAvailableGrants` of internal/billing/credits.go: credits are taken from the spendable grants,
-- the one that expires first before the others.
pub mod Conserve
use Prim.Native.Nat.{compare, Ordering}
use finnri_api.Base.{
  ℕ, zero, suc, ◌-◌, min, leb, ◌==◌, Bool, true, false, if◌then◌else◌, String, Option, none, some,
  List, [], ◌∷◌,
}
use finnri_api.Result.{grant_balance_changed, insufficient_credits}
use finnri_api.Table.{find_row, select, update}
use finnri_api.Billing.Data.{CreditGrant, CreditLedger, CreditSubject, debit}
use finnri_api.Billing.Tx.{Store, Tx, pure, fail, modify, gets, ◌>>=◌, ◌>>◌}
use finnri_api.Billing.Allowance.{is_spendable}
use finnri_api.Billing.Ledger.{create_ledger}

abbrev pub then_by : Ordering → Ordering → Ordering
then_by Ordering.eq o = o
then_by Ordering.lt o = Ordering.lt
then_by Ordering.gt o = Ordering.gt

-- A grant without expiry comes last.
abbrev pub compare_expiry : Option ℕ → Option ℕ → Ordering
compare_expiry none none = Ordering.eq
compare_expiry none (some b) = Ordering.gt
compare_expiry (some a) none = Ordering.lt
compare_expiry (some a) (some b) = compare a b

-- ORDER BY (expires_at IS NULL), expires_at, valid_from, id
unfoldable pub compare_grants : ℕ × CreditGrant → ℕ × CreditGrant → Ordering
compare_grants (i, g) (j, h) =
    then_by (compare_expiry g.expires_at h.expires_at)
      (then_by (compare g.valid_from h.valid_from) (compare i j))

-- The sort that ORDER BY asks of the database.
unfoldable pub place : ℕ × CreditGrant → List (ℕ × CreditGrant) → List (ℕ × CreditGrant)
place r [] = r ∷ []
place r (q ∷ rows) =
    let later = q ∷ place r rows in
    elim (compare_grants r q) [ Ordering.gt ↦ later | _ ↦ r ∷ q ∷ rows ]

unfoldable pub order_grants : List (ℕ × CreditGrant) → List (ℕ × CreditGrant)
unfolding place compare_grants
order_grants [] = []
order_grants (r ∷ rows) = place r (order_grants rows)

abbrev pub take_from : ℕ → CreditGrant → CreditGrant
take_from take g = record g { credits_remaining = g.credits_remaining - take }

-- UPDATE credit_grants SET credits_remaining = credits_remaining - take
-- WHERE id = ? AND credits_remaining >= take; no row affected is an error.
unfoldable pub withdraw : ℕ → ℕ → Tx (Unit {0})
unfolding fail modify
withdraw id take s = elim (find_row id s.grants.rows) [
  | none ↦ fail grant_balance_changed s
  | some g ↦
      if leb take g.credits_remaining
      then modify (λ s. record s { grants = update s.grants id (take_from take) }) s
      else fail grant_balance_changed s
]

abbrev pub debit_entry : String → String → Option ℕ → ℕ → CreditGrant → ℕ → CreditLedger
debit_entry reason key event id g take = record {
  user_id = g.user_id;
  guest_device_id_hash = g.guest_device_id_hash;
  grant_id = some id;
  direction = debit;
  credits = take;
  balance_after = g.credits_remaining - take;
  reason_code = reason;
  idempotency_key = key;
  ai_usage_event_id = event;
}

unfoldable pub debit_grant : String → String → Option ℕ → ℕ × CreditGrant → ℕ → Tx (Unit {0})
unfolding withdraw create_ledger ◌>>=◌
debit_grant reason key event (id, g) take = do
  withdraw id take
  create_ledger (debit_entry reason key event id g take)

-- The loop over the grants, with what is still to be taken.
unfoldable pub debit_grants :
    String → String → Option ℕ → List (ℕ × CreditGrant) → ℕ → Tx (Unit {0})
unfolding debit_grant
debit_grants reason key event [] left = if left == 0 then pure tt else fail insufficient_credits
debit_grants reason key event ((id, g) ∷ rows) left =
    let take = min g.credits_remaining left in
    let rest = debit_grants reason key event rows (left - take) in
    if left == 0 then pure tt else (debit_grant reason key event (id, g) take >> rest)

unfoldable pub debit_available_grants :
    CreditSubject → ℕ → String → String → Option ℕ → ℕ → Tx (Unit {0})
unfolding debit_grants order_grants
debit_available_grants c credits reason key event now = if credits == 0 then pure tt else do
  rows ← gets (λ s. order_grants (select (is_spendable c now) s.grants.rows))
  debit_grants reason key event rows credits
