-- ===== src/Cards/Limit.antt =====
-- internal/http/card_statement_limit.go: what a card has left to spend, in int64 amounts.
use finnri_api.Base.{Bool, Option, none, some, if◌then◌else◌}
use finnri_api.Base.Int64.{add64, sub64, lt64, le64}
use finnri_api.Money.{Money}

pub data OutstandingSource : Type 0 where
  from_statement from_ledger : OutstandingSource

pub record CardLimitInput : Type 0 where
  pub credit_limit : Money
  pub has_statement : Bool
  pub statement_total_due : Money
  pub statement_paid : Money
  pub spend_after_statement : Money
  pub ledger_outstanding : Money
  pub emi_blocked_principal : Money

-- F is float64.
pub record CardLimitSummary (F : Type 0) : Type 0 where
  pub outstanding : Money
  pub outstanding_source : OutstandingSource
  pub emi_blocked_principal : Money
  pub credit_limit : Money
  pub available_limit : Option Money
  pub utilisation_pct : Option F

unfoldable pub outstanding_of : CardLimitInput → Money
outstanding_of input =
    if input.has_statement
    then add64 (sub64 input.statement_total_due input.statement_paid) input.spend_after_statement
    else input.ledger_outstanding

-- What is taken of the limit: never less than nothing.
unfoldable pub committed_of : CardLimitInput → Money
unfolding outstanding_of
committed_of input =
    let committed = add64 (outstanding_of input) input.emi_blocked_principal in
    if lt64 committed 0 then 0 else committed

-- `percentage a b` is float64(a) / float64(b) * 100.
unfoldable pub summarise_card_limit :
    {F : Type 0} → (Money → Money → F) → CardLimitInput → CardLimitSummary F
unfolding committed_of
summarise_card_limit percentage input = record {
  outstanding = outstanding_of input;
  outstanding_source = if input.has_statement then from_statement else from_ledger;
  emi_blocked_principal = input.emi_blocked_principal;
  credit_limit = input.credit_limit;
  available_limit =
      if le64 input.credit_limit 0
      then none
      else some (sub64 input.credit_limit (committed_of input));
  utilisation_pct =
      if le64 input.credit_limit 0
      then none
      else some (percentage (committed_of input) input.credit_limit);
}
