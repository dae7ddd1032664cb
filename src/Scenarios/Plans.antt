-- ===== src/Scenarios/Plans.antt =====
-- The theorems on ended plans and on a card's limit at concrete rows.
use finnri_api.Base.{
  ℕ, ◌-◌, ◌+◌, ◌≡◌, ◌≤◌, ◌<◌, ◌↔◌, All, refl, arith, false, true, none, some, [], ◌∷◌,
}
use finnri_api.Table.{find_row}
use finnri_api.Cards.Calendar.{date}
use finnri_api.Cards.Plan.{
  CardEmiPlan, CardEmiInstallment, InstallmentStatus, scheduled, billed, paid, active, PlanStore,
  outstanding, close_fully_paid_emi_plans, is_blocking,
}
use finnri_api.Cards.Plan.Ended.{closed_plan, blocking, close_fully_paid_emi_plans-closes}
use finnri_api.Cards.Calendar.{Date}
use finnri_api.Cards.Reconcile as Reconcile
use finnri_api.Cards.Reconcile.{CardStatement, partial, remaining_due}
use finnri_api.Cards.Payment.{
  CardStatementPayment, PaymentStore, settled_view, paid_total, refresh_statement_paid_amount,
}
use finnri_api.Cards.Payment.Settles.{is_stale, refresh_statement_paid_amount-Settles}
use finnri_api.Result.{ok}

abbrev phone : CardEmiPlan
phone = record { user_id = 1; account_id = 2; status = active }

abbrev part_of : ℕ → InstallmentStatus → CardEmiInstallment
part_of id status = record {
  plan_id = id;
  user_id = 1;
  account_id = 2;
  seq = 1;
  due_date = date 24300 5;
  amount = 350;
  principal_part = 300;
  interest_part = 50;
  status = status;
  statement_id = none;
}

-- All of plan 7 is paid; an instalment of plan 8 is scheduled.
abbrev two_plans : PlanStore
two_plans = record {
  plans = record { rows = (7, phone) ∷ (8, phone) ∷ []; next_id = 9 };
  installments = record {
    rows = (1, part_of 7 paid) ∷ (2, part_of 8 billed) ∷ (3, part_of 8 scheduled) ∷ [];
    next_id = 4;
  };
}

close_fully_paid_emi_plans-closes_example :
    ((close_fully_paid_emi_plans 1 two_plans).installments ≡ two_plans.installments)
    × (find_row 7 (close_fully_paid_emi_plans 1 two_plans).plans.rows ≡ some (closed_plan phone))
unfolding find_row outstanding
close_fully_paid_emi_plans-closes_example =
    close_fully_paid_emi_plans-closes 1 two_plans 7 phone (refl, (refl, tt)) refl

blocks_before : blocking two_plans 1 2 ≡ (3, part_of 8 scheduled) ∷ []
unfolding is_blocking find_row
blocks_before = refl

-- A bill of 350, paid in two parts.
abbrev bill : CardStatement
bill = record {
  user_id = 1;
  account_id = 2;
  cycle_start = 0;
  cycle_end = 24;
  statement_date = 24;
  due_date = 40;
  total_due = 350;
  currency = "INR";
  paid_amount = 100;
  status = partial;
  unitemized_entry_id = none;
}

abbrev payment_of : ℕ → CardStatementPayment
payment_of amount = record { user_id = 1; statement_id = 4; amount = amount }

abbrev paid_store : PaymentStore
paid_store = record {
  payments = record { rows = (1, payment_of 100) ∷ (2, payment_of 250) ∷ []; next_id = 3 };
  statements = record { rows = (4, bill) ∷ []; next_id = 5 };
  plans = two_plans;
}

abbrev day_of : ℕ → Date
day_of n = date 24300 (n + 1)

bill_small : paid_total 4 bill paid_store < 9223372036854775808
unfolding paid_total
bill_small = omega arith

refresh_statement_paid_amount-Settles_example :
    (st' : CardStatement) × (s' : PaymentStore) × (refresh_statement_paid_amount day_of 4 bill
        paid_store
      ≡ ok (st', s'))
    × ((Reconcile.is_paid st'.status ≡ true) ↔ (350 ≤ paid_total 4 bill paid_store))
    × (remaining_due st' ≡ 350 - paid_total 4 bill paid_store)
    × All
        (λ r. is_stale (Reconcile.is_paid st'.status) (settled_view day_of 4 st') r.1 ≡ false)
        s'.plans.installments.rows
refresh_statement_paid_amount-Settles_example =
    refresh_statement_paid_amount-Settles day_of 4 bill paid_store refl (omega arith) bill_small
