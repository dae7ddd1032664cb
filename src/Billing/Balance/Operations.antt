-- ===== src/Billing/Balance/Operations.antt =====
-- The loops of debits and refunds keep the accounts balanced.
use finnri_api.Base.{ℕ, ◌-◌, min, ◌≡◌, refl, String, Option, List, [], ◌∷◌, arith, String}
use finnri_api.Base.Int.{ℤ}
use finnri_api.Result.{debit_without_grant}
use finnri_api.Billing.Data.{CreditGrant, CreditLedger, CreditSubject, AiUsageEvent}
use finnri_api.Billing.Tx.{Store, Tx, modify}
use finnri_api.Billing.Debit.{debit_grants, debit_available_grants}
use finnri_api.Billing.Refund.{refund_debit, refund_debits, refund_event_credits}
use finnri_api.Billing.Daily.{adjust_daily_usage}
use finnri_api.Billing.Reservation.{create_event}
use finnri_api.Billing.Settlement.{update_event}
use finnri_api.Billing.Balance.{IsSound}
use finnri_api.Billing.Balance.Rules.{
  Keeps, KeepsAccounts, OnSuccess-map, Keeps-pure, Keeps-fail, Keeps-if, Keeps-bind, Keeps-option,
  keeps_rules,
}
use finnri_api.Billing.Balance.Moves.{debit_grant-Keeps, refund_to_grant-Keeps}

pub KeepsAccounts-Keeps : {A : Type 0} (m : Tx A) → KeepsAccounts m → Keeps IsSound m
KeepsAccounts-Keeps m k = record {
  at = λ s h. OnSuccess-map _ IsSound (λ t e. rw (e.0, e.1) h) (m s) (k.same s);
}

pub modify-Keeps :
    (f : Store → Store)
    → ((s : Store) → ((f s).grants ≡ s.grants) × ((f s).ledger ≡ s.ledger))
    → KeepsAccounts (modify f)
unfolding modify
modify-Keeps f h = record { same = h }

pub adjust_daily_usage-Keeps :
    (c : CreditSubject) (at : ℕ) (delta : ℤ) → KeepsAccounts (adjust_daily_usage c at delta)
unfolding adjust_daily_usage
adjust_daily_usage-Keeps c at delta = record { same = λ s. ground arith }

pub create_event-Keeps : (e : AiUsageEvent) → KeepsAccounts (create_event e)
unfolding create_event
create_event-Keeps e = record { same = λ s. ground arith }

pub update_event-Keeps :
    (id : ℕ) (f : Store → AiUsageEvent → AiUsageEvent) → KeepsAccounts (update_event id f)
unfolding update_event
update_event-Keeps id f = record { same = λ s. (refl, refl) }

debit_grants-Keeps :
    (reason key : String) (event : Option ℕ) (rows : List (ℕ × CreditGrant)) (left : ℕ)
    → Keeps IsSound (debit_grants reason key event rows left)
unfolding debit_grants
debit_grants-Keeps reason key event [] left = search keeps_rules
debit_grants-Keeps reason key event ((id, g) ∷ rows) left = Keeps-if _ _ _ (Keeps-pure tt) (
    Keeps-bind _ _ (debit_grant-Keeps reason key event (id, g) (min g.credits_remaining left))
      (λ t. debit_grants-Keeps reason key event rows (left - min g.credits_remaining left)))

pub debit_available_grants-Keeps :
    (c : CreditSubject) (credits : ℕ) (reason key : String) (event : Option ℕ) (now : ℕ)
    → Keeps IsSound (debit_available_grants c credits reason key event now)
unfolding debit_available_grants
debit_available_grants-Keeps c credits reason key event now =
    search (keeps_rules, debit_grants-Keeps)

refund_debit-Keeps :
    (event : ℕ) (reason : String) (d : CreditLedger) (left : ℕ)
    → Keeps IsSound (refund_debit event reason d left)
unfolding refund_debit
refund_debit-Keeps event reason d left = record {
  at = λ s h.
      (Keeps-if _ _ _ (Keeps-pure left) (
          Keeps-option d.grant_id _ _ (Keeps-fail debit_without_grant)
            (λ id. refund_to_grant-Keeps event reason d id _ left))).at
        s h;
}

refund_debits-Keeps :
    (event : ℕ) (reason : String) (debits : List (ℕ × CreditLedger)) (left : ℕ)
    → Keeps IsSound (refund_debits event reason debits left)
unfolding refund_debits
refund_debits-Keeps event reason [] left = search keeps_rules
refund_debits-Keeps event reason ((i, d) ∷ debits) left = Keeps-if _ _ _ (Keeps-pure tt) (
    Keeps-bind _ _ (refund_debit-Keeps event reason d left)
      (refund_debits-Keeps event reason debits))

pub refund_event_credits-Keeps :
    (event credits : ℕ) (reason : String)
    → Keeps IsSound (refund_event_credits event credits reason)
unfolding refund_event_credits
refund_event_credits-Keeps event credits reason = search (keeps_rules, refund_debits-Keeps)
