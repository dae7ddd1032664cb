-- ===== src/Cards/Plan.antt =====
-- internal/http/card_emi.go and card_emi_lifecycle.go: a plan's instalments, what they block of the
-- card's limit, and how they are billed, paid, taken back and dropped.
pub mod Progress
pub mod Released
pub mod Ended
use finnri_api.Base.{
  ℕ, suc, ◌+◌, ◌-◌, ltb, ◌==◌, holds, Bool, true, false, not, ◌&&◌, ◌||◌, Option, none, some, List,
  [], ◌∷◌, map, keep, length, if◌then◌else◌,
}
use finnri_api.Base.Int.{pos}
use finnri_api.Base.Int64.{add64}
use finnri_api.Money.{Money}
use finnri_api.Emi.{EmiMonth}
use finnri_api.Table.{Table, find_row, update, update_where}
use finnri_api.Cards.Calendar.{Date, before}
use finnri_api.Cards.Cycle.{clamp_day_to_month}

pub data InstallmentStatus : Type 0 where
  scheduled billed paid : InstallmentStatus

pub data PlanStatus : Type 0 where
  active closed foreclosed : PlanStatus

abbrev pub is_scheduled : InstallmentStatus → Bool
is_scheduled scheduled = true
is_scheduled _ = false

abbrev pub is_billed : InstallmentStatus → Bool
is_billed billed = true
is_billed _ = false

abbrev pub is_paid : InstallmentStatus → Bool
is_paid paid = true
is_paid _ = false

abbrev pub is_active : PlanStatus → Bool
is_active active = true
is_active _ = false

-- The columns that the code of this module reads and sets.
pub record CardEmiPlan : Type 0 where
  pub user_id : ℕ
  pub account_id : ℕ
  pub status : PlanStatus

pub record CardEmiInstallment : Type 0 where
  pub plan_id : ℕ
  pub user_id : ℕ
  pub account_id : ℕ
  pub seq : ℕ
  pub due_date : Date
  pub amount : Money
  pub principal_part : Money
  pub interest_part : Money
  pub status : InstallmentStatus
  pub statement_id : Option ℕ

pub record PlanStore : Type 0 where
  pub plans : Table CardEmiPlan
  pub installments : Table CardEmiInstallment

-- The instalment of a month of the schedule.
abbrev pub installment_of : ℕ → CardEmiPlan → Date → EmiMonth → CardEmiInstallment
installment_of id plan first m = record {
  plan_id = id;
  user_id = plan.user_id;
  account_id = plan.account_id;
  seq = m.month;
  due_date = clamp_day_to_month (first.month + (m.month - 1)) (pos first.day);
  amount = m.payment_amount;
  principal_part = m.principal_amount;
  interest_part = m.interest_amount;
  status = scheduled;
  statement_id = none;
}

-- `first` is the plan's first instalment, or none where its date cannot be read.
unfoldable pub build_installments :
    ℕ → CardEmiPlan → Option Date → List EmiMonth → List CardEmiInstallment
unfolding clamp_day_to_month
build_installments id plan none schedule = []
build_installments id plan (some first) schedule = map (installment_of id plan first) schedule

pub record EmiPlanProgress : Type 0 where
  pub installments_total : ℕ
  pub installments_paid : ℕ
  pub principal_remaining : Money
  pub principal_repaid : Money
  pub blocked_principal : Money
  pub amount_remaining : Money
  pub next_due_date : Option Date
  pub next_amount : Money

abbrev earlier : Option Date → Date → Bool
earlier none d = true
earlier (some e) d = before d e

-- What the loop does for an instalment that is still owed.
abbrev pub still_owed : EmiPlanProgress → CardEmiInstallment → EmiPlanProgress
still_owed p i = record p {
  principal_remaining = add64 p.principal_remaining i.principal_part;
  amount_remaining = add64 p.amount_remaining i.amount;
  next_due_date = if earlier p.next_due_date i.due_date then some i.due_date else p.next_due_date;
  next_amount = if earlier p.next_due_date i.due_date then i.amount else p.next_amount;
}

unfoldable pub add_installment :
    EmiPlanProgress → InstallmentStatus → CardEmiInstallment → EmiPlanProgress
add_installment p paid i = record p {
  installments_paid = suc p.installments_paid;
  principal_repaid = add64 p.principal_repaid i.principal_part;
}
add_installment p scheduled i =
    still_owed (record p { blocked_principal = add64 p.blocked_principal i.principal_part }) i
add_installment p billed i = still_owed p i

unfoldable pub summarise_from : EmiPlanProgress → List CardEmiInstallment → EmiPlanProgress
unfolding add_installment
summarise_from p [] = p
summarise_from p (i ∷ rest) = summarise_from (add_installment p i.status i) rest

abbrev pub fresh_progress : ℕ → EmiPlanProgress
fresh_progress total = record {
  installments_total = total;
  installments_paid = 0;
  principal_remaining = 0;
  principal_repaid = 0;
  blocked_principal = 0;
  amount_remaining = 0;
  next_due_date = none;
  next_amount = 0;
}

unfoldable pub summarise_emi_plan : List CardEmiInstallment → EmiPlanProgress
unfolding summarise_from
summarise_emi_plan installments = summarise_from (fresh_progress (length installments)) installments

-- The statement that is settled or owed again.
pub record SettledStatement : Type 0 where
  pub id : ℕ
  pub user_id : ℕ
  pub account_id : ℕ
  pub cycle_end : Date
  pub is_settled : Bool

-- user_id = ? AND account_id = ? AND (statement_id = ? OR due_date <= ?)
unfoldable pub covered_by : SettledStatement → CardEmiInstallment → Bool
covered_by st i =
    i.user_id == st.user_id
    && i.account_id == st.account_id
    && (holds i.statement_id st.id || not (before st.cycle_end i.due_date))

abbrev pub with_status : InstallmentStatus → CardEmiInstallment → CardEmiInstallment
with_status new i = record i { status = new }

unfoldable pub release_emi_principal_for_statement : SettledStatement → PlanStore → PlanStore
unfolding covered_by update_where
release_emi_principal_for_statement st s = if not st.is_settled then s else record s {
  installments = record s.installments {
    rows =
        update_where (λ i. is_billed i.status && covered_by st i) (with_status paid)
          s.installments.rows;
  };
}

unfoldable pub reblock_emi_principal_for_statement : SettledStatement → PlanStore → PlanStore
unfolding covered_by update_where
reblock_emi_principal_for_statement st s = if st.is_settled then s else record s {
  installments = record s.installments {
    rows =
        update_where (λ i. is_paid i.status && covered_by st i) (with_status billed)
          s.installments.rows;
  };
}

-- COUNT(*) WHERE plan_id = ? AND status <> 'paid'
unfoldable pub outstanding : ℕ → List (ℕ × CardEmiInstallment) → ℕ
outstanding plan rows = length (keep (λ r. r.1.plan_id == plan && not (is_paid r.1.status)) rows)

-- The loop over the plans that were active when it started.
unfoldable pub close_each : List (ℕ × CardEmiPlan) → PlanStore → PlanStore
unfolding outstanding update
close_each [] s = s
close_each ((id, plan) ∷ rest) s = close_each rest (
    if ltb 0 (outstanding id s.installments.rows)
    then s
    else record s { plans = update s.plans id (λ p. record p { status = closed }) })

unfoldable pub close_fully_paid_emi_plans : ℕ → PlanStore → PlanStore
unfolding close_each
close_fully_paid_emi_plans user s =
    close_each (keep (λ r. r.1.user_id == user && is_active r.1.status) s.plans.rows) s

unfoldable pub foreclose_emi_plan : ℕ → PlanStore → PlanStore
unfolding update
foreclose_emi_plan id s = record {
  plans = update s.plans id (λ p. record p { status = foreclosed });
  installments = record s.installments {
    rows = keep (λ r. not (r.1.plan_id == id && is_scheduled r.1.status)) s.installments.rows;
  };
}

-- loadBlockedPrincipal for one card: the scheduled instalments of active plans, joined on the plan.
abbrev pub active_plan : Option CardEmiPlan → Bool
active_plan none = false
active_plan (some p) = is_active p.status

unfoldable pub is_blocking : PlanStore → ℕ → ℕ → CardEmiInstallment → Bool
unfolding find_row
is_blocking s user card i =
    i.user_id == user
    && i.account_id == card
    && is_scheduled i.status
    && active_plan (find_row i.plan_id s.plans.rows)
