-- ===== src/Cards/Payment.antt =====
-- internal/http/card_statements.go, `refreshStatementPaidAmount`: what a statement's payments make of it
-- and of the instalments that it covers.
pub mod Settles
use finnri_api.Base.{ℕ, ltb, ◌==◌, ◌&&◌, if◌then◌else◌}
use finnri_api.Base.Int64.{two_63}
use finnri_api.Result.{Result, ok, err, amount_too_large}
use finnri_api.Money.{Money}
use finnri_api.Table.{Table, sum_rows, update}
use finnri_api.Cards.Calendar.{Date}
use finnri_api.Cards.Reconcile.{CardStatement, is_paid, derive_statement_status}
use finnri_api.Cards.Plan.{
  PlanStore, SettledStatement, release_emi_principal_for_statement,
  reblock_emi_principal_for_statement,
}

-- The columns that this module reads; an amount is positive, as its request is validated.
pub record CardStatementPayment : Type 0 where
  pub user_id : ℕ
  pub statement_id : ℕ
  pub amount : Money

pub record PaymentStore : Type 0 where
  pub payments : Table CardStatementPayment
  pub statements : Table CardStatement
  pub plans : PlanStore

-- The weight of a payment in SUM(amount) WHERE statement_id = ? AND user_id = ?
abbrev pub share : ℕ → CardStatement → CardStatementPayment → ℕ
share id st p = if p.statement_id == id && p.user_id == st.user_id then p.amount else 0

unfoldable pub paid_total : ℕ → CardStatement → PaymentStore → ℕ
unfolding sum_rows
paid_total id st s = sum_rows (share id st) s.payments.rows

-- The statement with a total of its payments.
unfoldable pub with_paid : ℕ → CardStatement → CardStatement
unfolding derive_statement_status
with_paid total st = record st {
  paid_amount = total;
  status = derive_statement_status st.status st.total_due total;
}

-- `date_of` is the date that a day number stands for: the columns hold it as a text.
module _ (date_of : ℕ → Date) where
  abbrev pub settled_view : ℕ → CardStatement → SettledStatement
  settled_view id st = record {
    id = id;
    user_id = st.user_id;
    account_id = st.account_id;
    cycle_end = date_of st.cycle_end;
    is_settled = is_paid st.status;
  }

  unfoldable pub settle_installments : ℕ → CardStatement → PlanStore → PlanStore
  unfolding release_emi_principal_for_statement reblock_emi_principal_for_statement
  settle_installments id st plans =
      if is_paid st.status
      then release_emi_principal_for_statement (settled_view id st) plans
      else reblock_emi_principal_for_statement (settled_view id st) plans

  -- The statement's columns are written, then its instalments.
  unfoldable pub store_paid : ℕ → CardStatement → PaymentStore → PaymentStore
  unfolding settle_installments update
  store_paid id st s = record s {
    statements =
        update s.statements id
          (λ row. record row { paid_amount = st.paid_amount; status = st.status });
    plans = settle_installments id st s.plans;
  }

  -- The sum is exact in the database, and Scan refuses one that is no int64.
  unfoldable pub refresh_statement_paid_amount :
      ℕ → CardStatement → PaymentStore → Result (CardStatement × PaymentStore)
  unfolding paid_total with_paid store_paid
  refresh_statement_paid_amount id st s =
      let total = paid_total id st s in
      let st' = with_paid total st in
      if ltb total two_63 then ok (st', store_paid id st' s) else err amount_too_large
